-- ===== src/Fingerprints/Refc.antt =====
-- src/fingerprints/REFC/REFC.c: numbers that stand for vectors. The static variables are the
-- record References, once `init_references` has run.
pub mod Laws
mod Tests
use cfunge.Prelude.{
  ℕ, ◌+◌, ◌*◌, ◌%◌, ◌^◌, Bool, true, false, ◌||◌, Option, none, some, ltb, ◌==◌, if◌then◌else◌,
  update,
}
use cfunge.Cell.{sle}
use cfunge.Vector.{Vector}
use cfunge.Stack.{push, pop, push_vector}
use cfunge.Ip.{Ip, toss, set_toss, reverse}

-- ALLOCCHUNK
abbrev pub chunk : ℕ
chunk = 5

pub record References : Type 0 where
  pub references : ℕ → Vector
  pub top : ℕ
  pub size : ℕ

-- `init_references`; `alloc` says whether the system gives so many bytes.
unfoldable pub init_references : (ℕ → Bool) → (ℕ → Vector) → Option References
init_references alloc memory =
    if alloc (chunk * 16)
    then some (record { references = memory; top = 0; size = chunk })
    else none

-- The array with room for one more.
unfoldable pub grow : (ℕ → Bool) → References → Option References
grow alloc r =
    if r.size == r.top + 1
    then if alloc ((r.size + chunk) * 16) then some (record r { size = r.size + chunk }) else none
    else some r

-- A write beyond the array, undefined in C, is lost.
unfoldable pub add_reference : Vector → References → References
add_reference v r = record r {
  references = if ltb (r.top + 1) r.size then update r.references (r.top + 1) v else r.references;
  top = r.top + 1;
}

abbrev pub reference_with : Vector → Ip → References → Option References → Ip × References
reference_with v ip r none = (reverse ip, r)
reference_with v ip r (some grown) =
    (set_toss (push ((r.top + 1) % 2 ^ 64) (toss ip)) ip, add_reference v grown)

-- R
unfoldable pub reference : (ℕ → Bool) → Ip → References → Ip × References
reference alloc ip r =
    let (y, s₁) = pop (toss ip) in
    let (x, s₂) = pop s₁ in
    reference_with (record { x = x; y = y }) (set_toss s₂ ip) r (grow alloc r)

-- D
unfoldable pub dereference : References → Ip → Ip
dereference r ip =
    let (ref, st) = pop (toss ip) in
    if sle ref 0 || ltb r.top ref
    then reverse (set_toss st ip)
    else set_toss (push_vector (r.references ref) st) ip
