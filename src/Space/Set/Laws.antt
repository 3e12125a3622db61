-- ===== src/Space/Set/Laws.antt =====
-- A cell that is written reads back, and no other cell changes.
use mathlib.Core.Bool.{false≢true}
use cfunge.Prelude.{
  ℕ, ◌≡◌, refl, sym, ap, ap₂, ◌∙◌, arith, Bool, true, false, not, ◌&&◌, ◌||◌, Option, none, some,
  ◌==◌, ==_iff, if◌then◌else◌, update, update_self, update_ne, Bool-cases, Option-cases, inl, inr,
}
use cfunge.Cell.{space}
use cfunge.Vector.{Vector, same_vector, same_vector_iff, IsVector}
use cfunge.Table.{HashLib}
use cfunge.Space.{Space, get, look, or_space, in_static, static_index}
use cfunge.Space.Count.{count, count_x, count_y, check_pos}
use cfunge.Space.Set.{set_static, set_hashed, set_no_bounds_update}

-- Two cells of the static area share an index only if they are one.
static_index_injective :
    (p q : Vector)
    → IsVector p
    → IsVector q
    → in_static p ≡ true
    → in_static q ≡ true
    → static_index p ≡ static_index q
    → p ≡ q
static_index_injective p q hp hq sp sq e = ground arith

module _ (lib : HashLib) where
  open lib use {fspace}

  -- One space shows the same cells in the same box as another.
  pub record SameCells (s t : Space lib) : Type 0 where
    pub same_cells : t.cells ≡ s.cells
    pub same_entries : t.entries ≡ s.entries
    pub same_top_left : t.top_left ≡ s.top_left
    pub same_bottom_right : t.bottom_right ≡ s.bottom_right
    pub same_bounds_valid : t.bounds_valid ≡ s.bounds_valid

  SameCells-trans : {s t u : Space lib} → SameCells s t → SameCells t u → SameCells s u
  SameCells-trans a b = record {
    same_cells = b.same_cells ∙ a.same_cells;
    same_entries = b.same_entries ∙ a.same_entries;
    same_top_left = b.same_top_left ∙ a.same_top_left;
    same_bottom_right = b.same_bottom_right ∙ a.same_bottom_right;
    same_bounds_valid = b.same_bounds_valid ∙ a.same_bounds_valid;
  }

  count_x_keeps : (b : Bool) (x : ℕ) (s : Space lib) → SameCells s (count_x lib b x s)
  unfolding count_x
  count_x_keeps b x s = ground arith

  count_y_keeps : (b : Bool) (y : ℕ) (s : Space lib) → SameCells s (count_y lib b y s)
  unfolding count_y
  count_y_keeps b y s = ground arith

  check_pos_keeps : (x y : ℕ) (s : Space lib) → SameCells s (check_pos lib x y s)
  unfolding check_pos
  check_pos_keeps x y s = ground arith

  -- Counting touches neither the cells nor the box.
  pub count_keeps : (b : Bool) (p : Vector) (s : Space lib) → SameCells s (count lib b p s)
  unfolding count
  count_keeps true p s = SameCells-trans (count_x_keeps true p.x s) (count_y_keeps true p.y _)
  count_keeps false p s =
      SameCells-trans (SameCells-trans (count_x_keeps false p.x s) (count_y_keeps false p.y _))
        (check_pos_keeps p.x p.y _)

  pub get_same : (s t : Space lib) (q : Vector) → SameCells s t → get lib t q ≡ get lib s q
  unfolding get
  get_same s t q h = ap₂ (λ c e. look lib c e q) h.same_cells h.same_entries

  look_static :
      (cells : ℕ → ℕ) (e : fspace.Carrier) (v : ℕ) (p q : Vector)
      → IsVector p
      → IsVector q
      → in_static p ≡ true
      → look lib (update cells (static_index p) v) e q
        ≡ (if same_vector p q then v else look lib cells e q)
  look_static cells e v p q hp hq sp = elim (Bool-cases (in_static q)) [
    | inl sq ↦ rw sq (static_case sq)
    | inr sq ↦ rw sq (ground (arith, same_vector_iff p q))
  ]
    where
      static_case :
          in_static q ≡ true
          → update cells (static_index p) v (static_index q)
            ≡ (if same_vector p q then v else cells (static_index q))
      static_case sq = elim (Bool-cases (same_vector p q)) [
        | inl same ↦ rw same (
            ap (λ r. update cells (static_index p) v (static_index r))
              (sym ((same_vector_iff p q).0 same))
            ∙ update_self cells (static_index p) v)
        | inr other ↦ rw other (
            update_ne cells (static_index p) (static_index q) v λ i. false≢true (
              sym other ∙ (same_vector_iff p q).1 (static_index_injective p q hp hq sp sq (sym i))))
      ]

  look_hashed :
      (cells : ℕ → ℕ) (e f : fspace.Carrier) (o : Option ℕ) (p q : Vector)
      → in_static p ≡ false
      → fspace.get f q ≡ (if same_vector p q then o else fspace.get e q)
      → look lib cells f q ≡ (if same_vector p q then or_space lib o else look lib cells e q)
  look_hashed cells e f o p q sp h = elim (Bool-cases (in_static q)) [
    | inl sq ↦ rw sq (ground (arith, same_vector_iff p q))
    | inr sq ↦ rw sq (rw h (ground arith))
  ]

  -- A write of `v` at `p` that succeeds: `p` reads `v`, every other cell reads as before, and the
  -- box stays.
  pub record Wrote (s : Space lib) (p : Vector) (v : ℕ) (result : Option (Space lib)) : Type 0 where
    pub out : Space lib
    pub returns : result ≡ some out
    pub reads :
        (q : Vector) → IsVector q → get lib out q ≡ (if same_vector p q then v else get lib s q)
    pub top_left_kept : out.top_left ≡ s.top_left
    pub bottom_right_kept : out.bottom_right ≡ s.bottom_right
    pub bounds_valid_kept : out.bounds_valid ≡ s.bounds_valid

  -- From what a write does to the cells before the counts are brought up to date.
  Wrote-counted :
      (s t u : Space lib) (p : Vector) (v : ℕ)
      → ((q : Vector) → IsVector q → get lib t q ≡ (if same_vector p q then v else get lib s q))
      → t.top_left ≡ s.top_left
      → t.bottom_right ≡ s.bottom_right
      → t.bounds_valid ≡ s.bounds_valid
      → SameCells t u
      → Wrote s p v (some u)
  Wrote-counted s t u p v reads tl br bv same = record {
    out = u;
    returns = refl;
    reads = λ q hq. get_same t u q same ∙ reads q hq;
    top_left_kept = same.same_top_left ∙ tl;
    bottom_right_kept = same.same_bottom_right ∙ br;
    bounds_valid_kept = same.same_bounds_valid ∙ bv;
  }

  SameCells-refl : (s : Space lib) → SameCells s s
  SameCells-refl s = record {
    same_cells = refl;
    same_entries = refl;
    same_top_left = refl;
    same_bottom_right = refl;
    same_bounds_valid = refl;
  }

  set_static-Wrote :
      (v : ℕ) (p : Vector) (s : Space lib)
      → IsVector p
      → in_static p ≡ true
      → Wrote s p v (some (set_static lib v p s))
  unfolding set_static
  set_static-Wrote v p s hp sp =
      Wrote-counted s t (set_static lib v p s) p v
        (λ q hq. unfold get in look_static s.cells s.entries v p q hp hq sp) refl refl refl
        (counted (
          not (v == s.cells (static_index p)) && (s.cells (static_index p) == space || v == space)))
    where
      t : Space lib
      t = record s { cells = update s.cells (static_index p) v }

      counted : (b : Bool) → SameCells t (if b then count lib (not (v == space)) p t else t)
      counted true = count_keeps (not (v == space)) p t
      counted false = SameCells-refl t

  -- The same from what happens in the hash table.
  hashed-Wrote :
      (s : Space lib) (t : fspace.Carrier) (u : Space lib) (o : Option ℕ) (p : Vector)
      → in_static p ≡ false
      → ((q : Vector) → fspace.get t q ≡ (if same_vector p q then o else fspace.get s.entries q))
      → SameCells (record s { entries = t }) u
      → Wrote s p (or_space lib o) (some u)
  hashed-Wrote s t u o p sp h same =
      Wrote-counted s (record s { entries = t }) u p (or_space lib o)
        (λ q hq. unfold get in look_hashed s.cells s.entries t o p q sp (h q)) refl refl refl same

  absent_reads :
      (e : fspace.Carrier) (p q : Vector)
      → fspace.get e p ≡ none
      → fspace.get e q ≡ (if same_vector p q then none else fspace.get e q)
  absent_reads e p q h = elim (Bool-cases (same_vector p q)) [
    | inl same ↦ rw same (ap (fspace.get e) (sym ((same_vector_iff p q).0 same)) ∙ h)
    | inr other ↦ rw other
  ]

  set_absent-Wrote :
      (v : ℕ) (p : Vector) (s : Space lib)
      → in_static p ≡ false
      → fspace.get s.entries p ≡ none
      → Wrote s p v (set_hashed lib v p s)
  unfolding set_hashed
  set_absent-Wrote v p s sp h =
      rw (h, set_hashed)
        (elim (Bool-cases (v == space)) [
          | inl e ↦ rw ((==_iff v space).0 e) (
              hashed-Wrote s s.entries s none p sp (λ q. absent_reads s.entries p q h)
                (SameCells-refl s))
          | inr e ↦ rw e (elim (Option-cases (fspace.insert s.entries p v)) [
            | inl full ↦ absurd (fspace.insert_present s.entries p v full h)
            | inr (t, fresh) ↦ rw fresh (
                hashed-Wrote s t (count lib true p (record s { entries = t })) (some v) p sp
                  (λ q. fspace.get-insert s.entries t p q v fresh)
                  (count_keeps true p (record s { entries = t })))
          ])
        ])

  set_present-Wrote :
      (v w : ℕ) (p : Vector) (s : Space lib)
      → in_static p ≡ false
      → fspace.get s.entries p ≡ some w
      → Wrote s p v (set_hashed lib v p s)
  unfolding set_hashed
  set_present-Wrote v w p s sp h =
      rw (h, set_hashed)
        (elim (Bool-cases (v == space)) [
          | inl e ↦ rw ((==_iff v space).0 e) (
              hashed-Wrote s (fspace.remove s.entries p) _ none p sp
                (λ q. fspace.get-remove s.entries p q)
                (count_keeps false p (record s { entries = fspace.remove s.entries p })))
          | inr e ↦ rw e (
              hashed-Wrote s (fspace.assign s.entries p v)
                (record s { entries = fspace.assign s.entries p v }) (some v) p sp
                (λ q. fspace.get-assign s.entries p q v (λ absent. cc)) (SameCells-refl _))
        ])

  pub set_no_bounds_update-Wrote :
      (v : ℕ) (p : Vector) (s : Space lib)
      → IsVector p
      → Wrote s p v (set_no_bounds_update lib v p s)
  unfolding set_no_bounds_update
  set_no_bounds_update-Wrote v p s hp = elim (Bool-cases (in_static p)) [
    | inl sp ↦ rw sp (set_static-Wrote v p s hp sp)
    | inr sp ↦ rw sp (elim (Option-cases (fspace.get s.entries p)) [
      | inl absent ↦ set_absent-Wrote v p s sp absent
      | inr (w, present) ↦ set_present-Wrote v w p s sp present
    ])
  ]
