-- ===== src/Manager.antt =====
-- src/fingerprints/manager.c: loading and unloading fingerprints.
pub mod Table
pub mod Find
pub mod Unload
pub mod Balance
pub mod Failure
mod Tests
use cfunge.Prelude.{
  ℕ, zero, suc, ◌+◌, Bool, true, false, not, ◌&&◌, Option, none, some, List, [], ◌∷◌, ◌==◌,
  if◌then◌else◌,
}
use cfunge.Cell.{sle}
use cfunge.Stack.{Stack, push}
use cfunge.Opcodes.{Opcodes, opcode_stack_push, opcode_stack_drop}
use cfunge.Manager.Table.{ImplementedFingerprint}

-- `find_fingerprint`; the index that it returns stands for the entry, -1 for `none`
unfoldable pub find_fingerprint :
    Bool → ℕ → List ImplementedFingerprint → Option ImplementedFingerprint
find_fingerprint sandbox fingerprint [] = none
find_fingerprint sandbox fingerprint (e ∷ es) =
    let rest = find_fingerprint sandbox fingerprint es in
    if sle fingerprint e.fprint
    then if not (fingerprint == e.fprint)
      then none
      else if sandbox && not e.safe
      then none
      else some e
    else rest

-- The calls of `manager_add_opcode` in a load function: the first that fails ends it.
unfoldable pub add_opcodes : (ℕ → Bool) → (ℕ → ℕ) → List ℕ → Opcodes → Bool × Opcodes
add_opcodes alloc func [] ops = (true, ops)
add_opcodes alloc func (c ∷ cs) ops =
    let (done, ops') = opcode_stack_push alloc c (func c) ops in
    let rest = add_opcodes alloc func cs ops' in if done then rest else (false, ops')

unfoldable pub drop_opcodes : List ℕ → Opcodes → Opcodes
drop_opcodes [] ops = ops
drop_opcodes (c ∷ cs) ops = drop_opcodes cs (opcode_stack_drop c ops)

-- What the program takes from elsewhere: the allocator, the outcome of a load function's own setup,
-- and the address of the function of a fingerprint for an opcode.
pub record Env : Type 0 where
  pub alloc : ℕ → Bool
  pub setup : ℕ → Bool
  pub address : ℕ → ℕ → ℕ

-- A load function.
unfoldable pub load : Env → ImplementedFingerprint → Opcodes → Bool × Opcodes
load env e ops =
    if env.setup e.fprint
    then add_opcodes env.alloc (env.address e.fprint) e.loaded ops
    else (false, ops)

module _ (env : Env) (sandbox : Bool) (table : List ImplementedFingerprint) where
  abbrev pub load_found :
      ℕ → Option ImplementedFingerprint → Opcodes → Stack → Bool × Opcodes × Stack
  load_found fingerprint none ops stack = (false, ops, stack)
  load_found fingerprint (some e) ops stack =
      let (got_loaded, ops') = load env e ops in
      if got_loaded then (true, ops', push 1 (push fingerprint stack)) else (false, ops', stack)

  -- `manager_load`
  unfoldable pub manager_load : ℕ → Opcodes → Stack → Bool × Opcodes × Stack
  manager_load fingerprint ops stack =
      load_found fingerprint (find_fingerprint sandbox fingerprint table) ops stack

module _ (sandbox : Bool) (table : List ImplementedFingerprint) where
  abbrev unload_found : Option ImplementedFingerprint → Opcodes → Bool × Opcodes
  unload_found none ops = (false, ops)
  unload_found (some e) ops = (true, drop_opcodes e.opcodes ops)

  -- `manager_unload`
  unfoldable pub manager_unload : ℕ → Opcodes → Bool × Opcodes
  manager_unload fingerprint ops = unload_found (find_fingerprint sandbox fingerprint table) ops
