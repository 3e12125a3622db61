-- ===== src/Manager/Find.antt =====
-- The early exit of `find_fingerprint` misses nothing in a sorted table.
use cfunge.Prelude.{
  ℕ, ◌≡◌, refl, arith, Bool, true, not, ◌&&◌, Option, none, some, List, [], ◌∷◌, ◌==◌,
  if◌then◌else◌,
}
use cfunge.Cell.{slt, sle}
use cfunge.Manager.Table.{ImplementedFingerprint, implemented_fingerprints}
use cfunge.Manager.{find_fingerprint}

-- The entry of a fingerprint, wherever it stands.
abbrev pub entry_of : ℕ → List ImplementedFingerprint → Option ImplementedFingerprint
entry_of fingerprint [] = none
entry_of fingerprint (e ∷ es) = if fingerprint == e.fprint then some e else entry_of fingerprint es

abbrev pub permitted : Bool → Option ImplementedFingerprint → Option ImplementedFingerprint
permitted sandbox none = none
permitted sandbox (some e) = if sandbox && not e.safe then none else some e

abbrev pub all_above : ℕ → List ImplementedFingerprint → Bool
all_above k [] = true
all_above k (e ∷ es) = slt k e.fprint && all_above k es

abbrev pub sorted : List ImplementedFingerprint → Bool
sorted [] = true
sorted (e ∷ es) = all_above e.fprint es && sorted es

entry_of_below :
    (f k : ℕ) (es : List ImplementedFingerprint)
    → all_above k es ≡ true
    → sle f k ≡ true
    → entry_of f es ≡ none
entry_of_below f k [] h p = refl
entry_of_below f k (e ∷ es) h p = ground (arith, entry_of_below f k es)

-- In a sorted table `find_fingerprint` gives the entry of the fingerprint if there is one and the
-- sandbox permits it, and nothing otherwise.
pub find_fingerprint_lem :
    (sandbox : Bool) (f : ℕ) (table : List ImplementedFingerprint)
    → sorted table ≡ true
    → find_fingerprint sandbox f table ≡ permitted sandbox (entry_of f table)
unfolding find_fingerprint
find_fingerprint_lem sandbox f [] h = refl
find_fingerprint_lem sandbox f (e ∷ es) h =
    ground (arith, find_fingerprint_lem sandbox f es, entry_of_below f e.fprint es)

-- The table of the source is sorted.
pub implemented_fingerprints-sorted : sorted implemented_fingerprints ≡ true
implemented_fingerprints-sorted = refl
