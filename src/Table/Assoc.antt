-- ===== src/Table/Assoc.antt =====
-- An association list does what is asked of a table.
use cfunge.Prelude.{
  ℕ, Bool, true, Option, none, some, List, [], ◌∷◌, map, ◌≡◌, ◌≢◌, ◌↔◌, refl, arith, if◌then◌else◌,
}

module _ {K : Type 0} (same : K → K → Bool) where
  abbrev pub Entries : Type 0
  Entries = List (K × ℕ)

  abbrev pub get : Entries → K → Option ℕ
  get [] k = none
  get ((j, v) ∷ t) k = if same j k then some v else get t k

  abbrev insert_at : Option ℕ → Entries → K → ℕ → Option Entries
  insert_at none t k v = some ((k, v) ∷ t)
  insert_at (some _) t k v = none

  abbrev pub insert : Entries → K → ℕ → Option Entries
  insert t k v = insert_at (get t k) t k v

  abbrev pub assign : Entries → K → ℕ → Entries
  assign [] k v = []
  assign ((j, w) ∷ t) k v = if same j k then (j, v) ∷ t else (j, w) ∷ assign t k v

  abbrev pub remove : Entries → K → Entries
  remove [] k = []
  remove ((j, w) ∷ t) k = if same j k then remove t k else (j, w) ∷ remove t k

  abbrev pub keys : Entries → List K
  keys t = map (λ e. e.0) t

  module _ (same_iff : (a b : K) → (same a b ≡ true) ↔ (a ≡ b)) where
    pub get-insert :
        (t u : Entries) (k j : K) (v : ℕ)
        → insert t k v ≡ some u
        → get u j ≡ (if same k j then some v else get t j)
    get-insert t u k j v h = ground arith

    pub insert_present : (t : Entries) (k : K) (v : ℕ) → insert t k v ≡ none → get t k ≢ none
    insert_present t k v h e = ground arith

    pub get-assign :
        (t : Entries) (k j : K) (v : ℕ)
        → get t k ≢ none
        → get (assign t k v) j ≡ (if same k j then some v else get t j)
    get-assign [] k j v h = absurd (h refl)
    get-assign ((i, w) ∷ t) k j v h =
        ground (arith, get-assign t k j v, same_iff i k, same_iff i j, same_iff k j)

    pub get-remove :
        (t : Entries) (k j : K) → get (remove t k) j ≡ (if same k j then none else get t j)
    get-remove [] k j = ground arith
    get-remove ((i, w) ∷ t) k j =
        ground (arith, get-remove t k j, same_iff i k, same_iff i j, same_iff k j)
