-- ===== src/Manager/Tests.antt =====
-- Runs of the fingerprint manager, and its theorems at concrete inputs.
use cfunge.Prelude.{ℕ, ◌+◌, ◌≡◌, refl, arith, true, false, [], ◌∷◌, update, ◌==◌, if◌then◌else◌}
use cfunge.Stack.{create}
use cfunge.Opcodes.{Opcodes, push_at, opcode_stack_push, store_top}
use cfunge.Opcodes.Laws.{functions, functions-push_at}
use cfunge.Manager.Table.{implemented_fingerprints}
use cfunge.Manager.{Env, find_fingerprint, add_opcodes, load, manager_load, manager_unload}
use cfunge.Manager.Find.{entry_of, permitted, find_fingerprint_lem, implemented_fingerprints-sorted}
use cfunge.Manager.Unload.{AllValid, functions-add_opcodes}
use cfunge.Manager.Failure.{Beneath, manager_load_failed}
use cfunge.Manager.Balance.{
  null_fingerprint, manager_unload-manager_load, manager_unload-manager_load-null,
}

abbrev env : Env
env = record { alloc = λ _. true; setup = λ _. true; address = λ f c. f + c }

-- Each letter has one function.
abbrev loaded : Opcodes
loaded _ = record { size = 2; top = 1; entries = λ _. 7 }

loaded-AllValid : AllValid loaded
loaded-AllValid k = record { fits = omega arith }

abbrev hrti : ℕ
hrti = 0x48525449

functions-push_at_example : functions (push_at (λ _. false) 9 (loaded 0)).1 ≡ 9 ∷ 7 ∷ []
unfolding push_at
functions-push_at_example = functions-push_at (λ _. false) 9 (loaded 0) (loaded-AllValid 0)

find_fingerprint_lem_example :
    find_fingerprint true 0x50455 implemented_fingerprints
    ≡ permitted true (entry_of 0x50455 implemented_fingerprints)
find_fingerprint_lem_example =
    find_fingerprint_lem true 0x50455 implemented_fingerprints implemented_fingerprints-sorted

functions-add_opcodes_example :
    functions ((add_opcodes (λ _. true) (λ c. c) (b'B' ∷ b'A' ∷ b'B' ∷ []) loaded).1 1)
    ≡ b'B' ∷ b'B' ∷ 7 ∷ []
unfolding add_opcodes opcode_stack_push push_at update store_top
functions-add_opcodes_example =
    functions-add_opcodes (λ _. true) (λ c. c) (b'B' ∷ b'A' ∷ b'B' ∷ []) 1 loaded loaded-AllValid
      refl

manager_unload-manager_load_example :
    functions (
      (manager_unload true implemented_fingerprints hrti
          (manager_load env true implemented_fingerprints hrti loaded (create λ _. 0)).1).1
        4)
    ≡ 7 ∷ []
unfolding manager_load find_fingerprint load add_opcodes opcode_stack_push push_at update store_top
    create
manager_unload-manager_load_example =
    manager_unload-manager_load env true hrti 4 loaded (create λ _. 0) (omega arith) (omega arith)
      loaded-AllValid refl

manager_unload-manager_load-null_example :
    functions (
      (manager_unload false implemented_fingerprints null_fingerprint
          (manager_load env false implemented_fingerprints null_fingerprint loaded
            (create λ _. 0)).1).1
        25)
    ≡ []
unfolding manager_load find_fingerprint load add_opcodes opcode_stack_push push_at update store_top
    create
manager_unload-manager_load-null_example =
    manager_unload-manager_load-null env false loaded (create λ _. 0) loaded-AllValid refl

-- The letter S has no room, and the system has no memory.
abbrev tight : Opcodes
tight k = record { size = if k == 18 then 1 else 2; top = 1; entries = λ _. 7 }

abbrev poor : Env
poor = record { alloc = λ _. false; setup = λ _. true; address = λ f c. f + c }

tight-AllValid : AllValid tight
tight-AllValid k = record { fits = ground arith }

manager_load_failed_example :
    ((manager_load poor true implemented_fingerprints hrti tight (create λ _. 0)).2 ≡ create λ _. 0)
    × ((k : ℕ)
        → Beneath (functions (tight k)) (
            functions
              ((manager_load poor true implemented_fingerprints hrti tight (create λ _. 0)).1 k)))
unfolding manager_load find_fingerprint load add_opcodes opcode_stack_push push_at update store_top
    create
manager_load_failed_example =
    manager_load_failed poor true implemented_fingerprints hrti tight (create λ _. 0) tight-AllValid
      refl
