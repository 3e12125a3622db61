-- ===== src/Manager/Balance.antt =====
-- An unload takes back what the load of the same fingerprint did, if its opcodes are those that the
-- load function adds.
use cfunge.Prelude.{
  ℕ, zero, suc, ◌<◌, ◌≡◌, ◌≢◌, refl, sym, ap, ◌∙◌, arith, Bool, true, false, ◌&&◌, ◌||◌, Option,
  none, some, List, [], ◌∷◌, ◌==◌, drop, Bool-cases, Option-cases, inl, inr,
}
use cfunge.Stack.{Stack}
use cfunge.Opcodes.{Opcodes, finger_opcode_count}
use cfunge.Opcodes.Laws.{functions}
use cfunge.Manager.Table.{ImplementedFingerprint, implemented_fingerprints}
use cfunge.Manager.{Env, find_fingerprint, load, manager_load, manager_unload}
use cfunge.Manager.Find.{
  entry_of, permitted, sorted, find_fingerprint_lem, implemented_fingerprints-sorted,
}
use cfunge.Manager.Unload.{
  count_letter, AllValid, functions-drop_opcodes, functions-add_opcodes, added, drop-added,
}

-- Whether two lists have each of the letters with an index below `n` equally often.
abbrev pub same_letters : ℕ → List ℕ → List ℕ → Bool
same_letters zero cs ds = true
same_letters (suc n) cs ds = (count_letter n cs == count_letter n ds) && same_letters n cs ds

same_letters_iff :
    (n k : ℕ) (cs ds : List ℕ)
    → k < n
    → same_letters n cs ds ≡ true
    → count_letter k cs ≡ count_letter k ds
same_letters_iff zero k cs ds h p = ground arith
same_letters_iff (suc n) k cs ds h p =
    ground
      (arith, same_letters_iff n k cs ds, ap (λ i. count_letter i cs), ap (λ i. count_letter i ds))

-- Whether every fingerprint of a table but the one with a given number drops what it loads.
abbrev pub balanced : ℕ → List ImplementedFingerprint → Bool
balanced except [] = true
balanced except (e ∷ es) =
    (e.fprint == except || same_letters finger_opcode_count e.opcodes e.loaded)
    && balanced except es

and_true : (a b : Bool) → (a && b) ≡ true → (a ≡ true) × (b ≡ true)
and_true a b h = ground arith

some_injective : (x e : ImplementedFingerprint) → some x ≡ some e → x ≡ e
some_injective x e h = ground arith

drops_what_it_loads :
    (except f : ℕ) (x : ImplementedFingerprint)
    → f ≢ except
    → (f == x.fprint) ≡ true
    → (x.fprint == except || same_letters finger_opcode_count x.opcodes x.loaded) ≡ true
    → same_letters finger_opcode_count x.opcodes x.loaded ≡ true
drops_what_it_loads except f x ne g h = ground arith

entry_of-balanced :
    (except f : ℕ) (table : List ImplementedFingerprint) (e : ImplementedFingerprint)
    → f ≢ except
    → balanced except table ≡ true
    → entry_of f table ≡ some e
    → same_letters finger_opcode_count e.opcodes e.loaded ≡ true
entry_of-balanced except f [] e ne p q = ground arith
entry_of-balanced except f (x ∷ xs) e ne p q =
    let same =
      λ (i : ImplementedFingerprint). same_letters finger_opcode_count i.opcodes i.loaded in
    let parts = and_true (x.fprint == except || same x) (balanced except xs) p in
    elim (Bool-cases (f == x.fprint)) [
      | inl g ↦
          let here : some x ≡ some e = rw (sym q, g) refl in
          sym (ap same (some_injective x e here)) ∙ drops_what_it_loads except f x ne g parts.0
      | inr g ↦
          let later : entry_of f xs ≡ some e = rw (sym q, g) refl in
          entry_of-balanced except f xs e ne parts.1 later
    ]

permitted-some :
    (sandbox : Bool) (o : Option ImplementedFingerprint) (e : ImplementedFingerprint)
    → permitted sandbox o ≡ some e
    → o ≡ some e
permitted-some sandbox none e h = ground arith
permitted-some sandbox (some x) e h = ground arith

-- The number of NULL.
abbrev pub null_fingerprint : ℕ
null_fingerprint = 0x4e554c4c

load_found_lem :
    (env : Env) (e : ImplementedFingerprint) (k : ℕ) (ops : Opcodes)
    → AllValid ops
    → count_letter k e.opcodes ≡ count_letter k e.loaded
    → (load env e ops).0 ≡ true
    → drop (count_letter k e.opcodes) (functions ((load env e ops).1 k)) ≡ functions (ops k)
unfolding load
load_found_lem env e k ops h same done = ground (
  arith,
  functions-add_opcodes env.alloc (env.address e.fprint) e.loaded k ops h,
  drop-added (env.address e.fprint) k e.loaded (functions (ops k)),
  ap (λ i. drop i (functions ((load env e ops).1 k))),
)

unload_load_any :
    (env : Env) (sandbox : Bool) (table : List ImplementedFingerprint) (f k : ℕ) (ops : Opcodes)
    (stack : Stack)
    → sorted table ≡ true
    → balanced null_fingerprint table ≡ true
    → f ≢ null_fingerprint
    → k < finger_opcode_count
    → AllValid ops
    → (manager_load env sandbox table f ops stack).0 ≡ true
    → functions
        ((manager_unload sandbox table f (manager_load env sandbox table f ops stack).1).1 k)
      ≡ functions (ops k)
unfolding manager_load manager_unload
unload_load_any env sandbox table f k ops stack s b ne hk h done =
    elim (Option-cases (find_fingerprint sandbox f table)) [
      | inl p ↦ ground arith
      | inr (e, p) ↦
          let found : permitted sandbox (entry_of f table) ≡ some e =
            sym (find_fingerprint_lem sandbox f table s) ∙ p in
          let same = same_letters_iff finger_opcode_count k e.opcodes e.loaded hk (
            entry_of-balanced null_fingerprint f table e ne b
              (permitted-some sandbox (entry_of f table) e found)) in
          ground (
            arith,
            load_found_lem env e k ops h same,
            functions-drop_opcodes e.opcodes k (load env e ops).1,
          )
    ]

-- After a load that reports success, an unload of the same fingerprint puts back the functions of
-- every letter as they were, for every fingerprint of the source's table but NULL.
pub manager_unload-manager_load :
    (env : Env) (sandbox : Bool) (f k : ℕ) (ops : Opcodes) (stack : Stack)
    → f ≢ null_fingerprint
    → k < finger_opcode_count
    → AllValid ops
    → (manager_load env sandbox implemented_fingerprints f ops stack).0 ≡ true
    → functions (
        (manager_unload sandbox implemented_fingerprints f
            (manager_load env sandbox implemented_fingerprints f ops stack).1).1
          k)
      ≡ functions (ops k)
manager_unload-manager_load env sandbox f k ops stack ne hk h done =
    unload_load_any env sandbox implemented_fingerprints f k ops stack
      implemented_fingerprints-sorted refl ne hk h done

null_entry-found :
    (sandbox : Bool)
    → (e : ImplementedFingerprint) × (find_fingerprint sandbox null_fingerprint
          implemented_fingerprints
        ≡ some e)
      × (count_letter 25 e.opcodes ≡ 1)
      × (count_letter 25 e.loaded ≡ 0)
unfolding find_fingerprint
null_entry-found true = (_, refl, refl, refl)
null_entry-found false = (_, refl, refl, refl)

added_none :
    (func : ℕ → ℕ) (k : ℕ) (cs fs : List ℕ) → count_letter k cs ≡ 0 → added func k cs fs ≡ fs
added_none func k [] fs h = refl
added_none func k (c ∷ cs) fs h = ground (arith, added_none func k cs fs)

-- After a load of NULL that reports success, an unload of NULL takes away from the letter Z the
-- function that was in force before that load.
pub manager_unload-manager_load-null :
    (env : Env) (sandbox : Bool) (ops : Opcodes) (stack : Stack)
    → AllValid ops
    → (manager_load env sandbox implemented_fingerprints null_fingerprint ops stack).0 ≡ true
    → functions (
        (manager_unload sandbox implemented_fingerprints null_fingerprint
            (manager_load env sandbox implemented_fingerprints null_fingerprint ops stack).1).1
          25)
      ≡ drop 1 (functions (ops 25))
unfolding manager_load manager_unload load
manager_unload-manager_load-null env sandbox ops stack h done =
    let (e, p, lists, loads) = null_entry-found sandbox in
    ground (
      arith,
      functions-add_opcodes env.alloc (env.address e.fprint) e.loaded 25 ops h,
      added_none (env.address e.fprint) 25 e.loaded (functions (ops 25)) loads,
      functions-drop_opcodes e.opcodes 25 (load env e ops).1,
    )
