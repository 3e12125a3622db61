-- ===== src/Table.antt =====
-- What src/funge-space/funge-space.c relies on of the hash tables of lib/libghthash, a library of
-- its own. `get` is a pointer into the table (`none` for NULL), `assign` a write through it, and
-- `insert` gives `none` where it returns -1 and leaves the table alone.
pub mod Assoc
pub mod Instance
use cfunge.Prelude.{ℕ, Bool, true, Option, none, some, List, ◌≡◌, ◌≢◌, if◌then◌else◌, ◌==◌}
use cfunge.Vector.{Vector, same_vector}

pub record Table (K : Type 0) (same : K → K → Bool) : Type 1 where
  pub Carrier : Type 0
  pub empty : Carrier
  pub get : Carrier → K → Option ℕ
  pub insert : Carrier → K → ℕ → Option Carrier
  pub assign : Carrier → K → ℕ → Carrier
  pub replace : Carrier → K → ℕ → Carrier
  pub remove : Carrier → K → Carrier
  pub keys : Carrier → List K
  pub get-empty : (k : K) → get empty k ≡ none
  pub get-insert :
      (t u : Carrier) (k j : K) (v : ℕ)
      → insert t k v ≡ some u
      → get u j ≡ (if same k j then some v else get t j)
  pub insert_present : (t : Carrier) (k : K) (v : ℕ) → insert t k v ≡ none → get t k ≢ none
  pub get-assign :
      (t : Carrier) (k j : K) (v : ℕ)
      → get t k ≢ none
      → get (assign t k v) j ≡ (if same k j then some v else get t j)
  pub get-remove :
      (t : Carrier) (k j : K) → get (remove t k) j ≡ (if same k j then none else get t j)

-- The two tables that the source instantiates the library at.
pub record HashLib : Type 1 where
  pub fspace : Table Vector same_vector
  pub fspacecount : Table ℕ ◌==◌
