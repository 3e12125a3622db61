-- ===== src/Manager/Unload.antt =====
-- Unloading drops one function for each letter that the table lists.
use cfunge.Prelude.{
  ℕ, zero, suc, ◌≡◌, refl, ap, arith, Bool, true, List, [], ◌∷◌, ◌==◌, if◌then◌else◌, drop, update,
  Bool-cases, inl, inr,
}
use cfunge.Opcodes.{Opcodes, letter_index, drop_at, opcode_stack_push, opcode_stack_drop}
use cfunge.Opcodes.Laws.{functions, IsValid, functions-push_at, functions-drop_at, push_at-IsValid}
use cfunge.Manager.{add_opcodes, drop_opcodes}

-- How many of some letters are the one with an index.
abbrev pub count_letter : ℕ → List ℕ → ℕ
count_letter k [] = 0
count_letter k (c ∷ cs) = if letter_index c == k then suc (count_letter k cs) else count_letter k cs

abbrev pub AllValid : Opcodes → Type 0
AllValid ops = (k : ℕ) → IsValid (ops k)

functions-drop :
    (c k : ℕ) (ops : Opcodes)
    → functions (opcode_stack_drop c ops k)
      ≡ (if letter_index c == k then drop 1 (functions (ops k)) else functions (ops k))
unfolding opcode_stack_drop update
functions-drop c k ops = ground (
  arith,
  functions-drop_at (ops k),
  functions-drop_at (ops (letter_index c)),
  ap (λ i. functions (drop_at (ops i))),
)

drop-suc : (n : ℕ) (l : List ℕ) → drop n (drop 1 l) ≡ drop (suc n) l
drop-suc zero [] = refl
drop-suc (suc n) [] = refl
drop-suc n (x ∷ l) = refl

-- Each letter loses as many functions as the list names it.
pub functions-drop_opcodes :
    (cs : List ℕ) (k : ℕ) (ops : Opcodes)
    → functions (drop_opcodes cs ops k) ≡ drop (count_letter k cs) (functions (ops k))
unfolding drop_opcodes
functions-drop_opcodes [] k ops = refl
functions-drop_opcodes (c ∷ cs) k ops = ground (
  arith,
  functions-drop_opcodes cs k (opcode_stack_drop c ops),
  functions-drop c k ops,
  drop-suc (count_letter k cs) (functions (ops k)),
)

-- What the functions on the letter with index `k` become when a load adds these letters.
abbrev pub added : (ℕ → ℕ) → ℕ → List ℕ → List ℕ → List ℕ
added func k [] fs = fs
added func k (c ∷ cs) fs = added func k cs (if letter_index c == k then func c ∷ fs else fs)

pub opcode_stack_push-AllValid :
    (alloc : ℕ → Bool) (c f : ℕ) (ops : Opcodes)
    → AllValid ops
    → AllValid (opcode_stack_push alloc c f ops).1
unfolding opcode_stack_push update
opcode_stack_push-AllValid alloc c f ops h k =
    ground (arith, h k, push_at-IsValid alloc f (ops (letter_index c)) (h (letter_index c)))

functions-push :
    (alloc : ℕ → Bool) (c f k : ℕ) (ops : Opcodes)
    → AllValid ops
    → (opcode_stack_push alloc c f ops).0 ≡ true
    → functions ((opcode_stack_push alloc c f ops).1 k)
      ≡ (if letter_index c == k then f ∷ functions (ops k) else functions (ops k))
unfolding opcode_stack_push update
functions-push alloc c f k ops h done = ground (
  arith,
  functions-push_at alloc f (ops (letter_index c)) (h (letter_index c)),
  ap (λ i. functions (ops i)),
)

-- A load that reports success has put its function for each letter of its list in force, in the
-- order of the list.
pub functions-add_opcodes :
    (alloc : ℕ → Bool) (func : ℕ → ℕ) (cs : List ℕ) (k : ℕ) (ops : Opcodes)
    → AllValid ops
    → (add_opcodes alloc func cs ops).0 ≡ true
    → functions ((add_opcodes alloc func cs ops).1 k) ≡ added func k cs (functions (ops k))
unfolding add_opcodes
functions-add_opcodes alloc func [] k ops h done = refl
functions-add_opcodes alloc func (c ∷ cs) k ops h done =
    elim (Bool-cases (opcode_stack_push alloc c (func c) ops).0) [
      | inl p ↦
          let rest : (add_opcodes alloc func cs (opcode_stack_push alloc c (func c) ops).1).0
              ≡ true =
            ground arith in
          rw
            (
              p,
              functions-add_opcodes alloc func cs k (opcode_stack_push alloc c (func c) ops).1
                  (opcode_stack_push-AllValid alloc c (func c) ops h) rest,
              functions-push alloc c (func c) k ops h p,
            )
            refl
      | inr p ↦ ground arith
    ]

drop_one-drop : (n : ℕ) (l : List ℕ) → drop 1 (drop n l) ≡ drop (suc n) l
drop_one-drop zero l = refl
drop_one-drop (suc n) [] = refl
drop_one-drop (suc n) (x ∷ l) = drop_one-drop n l

pub drop-added :
    (func : ℕ → ℕ) (k : ℕ) (cs fs : List ℕ) → drop (count_letter k cs) (added func k cs fs) ≡ fs
drop-added func k [] fs = refl
drop-added func k (c ∷ cs) fs = ground (
  arith,
  drop-added func k cs fs,
  drop-added func k cs (func c ∷ fs),
  drop_one-drop (count_letter k cs) (added func k cs (func c ∷ fs)),
)
