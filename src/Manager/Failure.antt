-- ===== src/Manager/Failure.antt =====
-- What a load that fails leaves behind.
use cfunge.Prelude.{
  ℕ, ◌≡◌, refl, ap, ◌∙◌, arith, Bool, true, false, ◌&&◌, List, [], ◌∷◌, ◌++◌, append_assoc, Option,
  none, some, if◌then◌else◌, ◌==◌, update, Bool-cases, inl, inr, sym,
}
use cfunge.Stack.{Stack}
use cfunge.Opcodes.{Opcodes, letter_index, opcode_stack_push}
use cfunge.Opcodes.Laws.{functions, functions-push_at}
use cfunge.Manager.{Env, find_fingerprint, add_opcodes, load, load_found, manager_load}
use cfunge.Manager.Table.{ImplementedFingerprint}
use cfunge.Manager.Unload.{AllValid, opcode_stack_push-AllValid}

-- The functions of a letter stand below others.
pub record Beneath (old new : List ℕ) : Type 0 where
  pub above : List ℕ
  pub joined : new ≡ above ++ old

Beneath-refl : (l : List ℕ) → Beneath l l
Beneath-refl l = record { above = []; joined = refl }

Beneath-trans : (a b c : List ℕ) → Beneath a b → Beneath b c → Beneath a c
Beneath-trans a b c h k = record {
  above = k.above ++ h.above;
  joined = k.joined ∙ ap (λ l. k.above ++ l) h.joined ∙ sym (append_assoc k.above h.above a);
}

if-Beneath : (b : Bool) (f : ℕ) (l : List ℕ) → Beneath l (if b then f ∷ l else l)
if-Beneath true f l = record { above = f ∷ []; joined = refl }
if-Beneath false f l = Beneath-refl l

functions-opcode_stack_push :
    (alloc : ℕ → Bool) (c f k : ℕ) (ops : Opcodes)
    → AllValid ops
    → functions ((opcode_stack_push alloc c f ops).1 k) ≡ (
        if letter_index c == k && (opcode_stack_push alloc c f ops).0
        then f ∷ functions (ops k)
        else functions (ops k))
unfolding opcode_stack_push update
functions-opcode_stack_push alloc c f k ops h = ground (
  arith,
  functions-push_at alloc f (ops (letter_index c)) (h (letter_index c)),
  ap (λ i. functions (ops i)),
)

opcode_stack_push-Beneath :
    (alloc : ℕ → Bool) (c f k : ℕ) (ops : Opcodes)
    → AllValid ops
    → Beneath (functions (ops k)) (functions ((opcode_stack_push alloc c f ops).1 k))
opcode_stack_push-Beneath alloc c f k ops h =
    let b = letter_index c == k && (opcode_stack_push alloc c f ops).0 in
    let one = if-Beneath b f (functions (ops k)) in
    record {
      above = one.above;
      joined = functions-opcode_stack_push alloc c f k ops h ∙ one.joined;
    }

add_opcodes-Beneath :
    (alloc : ℕ → Bool) (func : ℕ → ℕ) (cs : List ℕ) (k : ℕ) (ops : Opcodes)
    → AllValid ops
    → Beneath (functions (ops k)) (functions ((add_opcodes alloc func cs ops).1 k))
unfolding add_opcodes
add_opcodes-Beneath alloc func [] k ops h = Beneath-refl (functions (ops k))
add_opcodes-Beneath alloc func (c ∷ cs) k ops h =
    let ops' = (opcode_stack_push alloc c (func c) ops).1 in
    let one = opcode_stack_push-Beneath alloc c (func c) k ops h in
    let rest =
      add_opcodes-Beneath alloc func cs k ops'
        (opcode_stack_push-AllValid alloc c (func c) ops h) in
    elim (Bool-cases (opcode_stack_push alloc c (func c) ops).0) [
      | inl done ↦ rw done (
          Beneath-trans (functions (ops k)) (functions (ops' k))
            (functions ((add_opcodes alloc func cs ops').1 k)) one rest)
      | inr full ↦ rw full one
    ]

load-Beneath :
    (env : Env) (e : ImplementedFingerprint) (k : ℕ) (ops : Opcodes)
    → AllValid ops
    → Beneath (functions (ops k)) (functions ((load env e ops).1 k))
unfolding load
load-Beneath env e k ops h = elim (Bool-cases (env.setup e.fprint)) [
  | inl ready ↦ rw ready (add_opcodes-Beneath env.alloc (env.address e.fprint) e.loaded k ops h)
  | inr failed ↦ rw failed (Beneath-refl (functions (ops k)))
]

load_found_failed :
    (env : Env) (sandbox : Bool) (table : List ImplementedFingerprint) (fprint : ℕ)
    (e : Option ImplementedFingerprint) (ops : Opcodes) (s : Stack)
    → AllValid ops
    → (load_found env sandbox table fprint e ops s).0 ≡ false
    → let (done, ops', s') = load_found env sandbox table fprint e ops s in
      (s' ≡ s) × ((k : ℕ) → Beneath (functions (ops k)) (functions (ops' k)))
load_found_failed env sandbox table fprint none ops s h failed =
    (refl, λ k. Beneath-refl (functions (ops k)))
load_found_failed env sandbox table fprint (some e) ops s h failed =
    elim (Bool-cases (load env e ops).0) [
      | inl done ↦ ground (arith, done, failed)
      | inr out ↦ rw out (refl, λ k. load-Beneath env e k ops h)
    ]

-- A load that reports a failure, made on valid opcode stacks, leaves the stack as it was, and each
-- letter with the functions that it had, if also below some that were added before the failure.
pub manager_load_failed :
    (env : Env) (sandbox : Bool) (table : List ImplementedFingerprint) (fprint : ℕ) (ops : Opcodes)
    (s : Stack)
    → AllValid ops
    → (manager_load env sandbox table fprint ops s).0 ≡ false
    → let (done, ops', s') = manager_load env sandbox table fprint ops s in
      (s' ≡ s) × ((k : ℕ) → Beneath (functions (ops k)) (functions (ops' k)))
unfolding manager_load
manager_load_failed env sandbox table fprint ops s h failed =
    load_found_failed env sandbox table fprint (find_fingerprint sandbox fprint table) ops s h
      failed
