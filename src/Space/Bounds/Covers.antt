-- ===== src/Space/Bounds/Covers.antt =====
-- Every cell that is not a space lies in the bounding box.
use mathlib.Core.Path.{subst}
use cfunge.Prelude.{
  ℕ, ◌≡◌, ◌≢◌, ◌↔◌, refl, ap, ◌∙◌, arith, Bool, true, false, Option, some, ◌==◌, ==_iff,
  if◌then◌else◌, Bool-cases, inl, inr,
}
use cfunge.Cell.{space, slt}
use cfunge.Vector.{Vector, same_vector, same_vector_iff, IsVector}
use cfunge.Table.{HashLib}
use cfunge.Space.{Space, get, create, in_static}
use cfunge.Space.Set.{grow_bounds, set, set_initial, set_no_bounds_update}
use cfunge.Space.Set.Laws.{Wrote, set_no_bounds_update-Wrote}
use cfunge.Space.Bounds.{in_range}

-- The box between two corners contains a position.
pub record Inside (top_left bottom_right p : Vector) : Type 0 where
  pub right : slt bottom_right.x p.x ≡ false
  pub left : slt p.x top_left.x ≡ false
  pub below : slt bottom_right.y p.y ≡ false
  pub above : slt p.y top_left.y ≡ false

pub in_range_iff : (tl br p : Vector) → (in_range tl br p ≡ true) ↔ Inside tl br p
unfolding in_range
in_range_iff tl br p = ground arith

slt_hi : (a b q : ℕ) → slt a q ≡ false → slt (if slt a b then b else a) q ≡ false
slt_hi a b q h = ground arith

slt_lo : (a b q : ℕ) → slt q a ≡ false → slt q (if slt b a then b else a) ≡ false
slt_lo a b q h = ground arith

slt_hi_self : (a b : ℕ) → slt (if slt a b then b else a) b ≡ false
slt_hi_self a b = ground arith

slt_lo_self : (a b : ℕ) → slt b (if slt b a then b else a) ≡ false
slt_lo_self a b = ground arith

module _ (lib : HashLib) where
  open lib use {fspace}

  grow_bounds-Inside :
      (p q : Vector) (s : Space lib)
      → Inside s.top_left s.bottom_right q
      → Inside (grow_bounds lib p s).top_left (grow_bounds lib p s).bottom_right q
  unfolding grow_bounds
  grow_bounds-Inside p q s h = record {
    right = slt_hi s.bottom_right.x p.x q.x h.right;
    left = slt_lo s.top_left.x p.x q.x h.left;
    below = slt_hi s.bottom_right.y p.y q.y h.below;
    above = slt_lo s.top_left.y p.y q.y h.above;
  }

  grow_bounds-Inside_self :
      (p : Vector) (s : Space lib)
      → Inside (grow_bounds lib p s).top_left (grow_bounds lib p s).bottom_right p
  unfolding grow_bounds
  grow_bounds-Inside_self p s = record {
    right = slt_hi_self s.bottom_right.x p.x;
    left = slt_lo_self s.top_left.x p.x;
    below = slt_hi_self s.bottom_right.y p.y;
    above = slt_lo_self s.top_left.y p.y;
  }

  abbrev pub Covers : Space lib → Type 0
  Covers s = (q : Vector) → IsVector q → get lib s q ≢ space → Inside s.top_left s.bottom_right q

  pub get-create : (q : Vector) → get lib (create lib) q ≡ space
  unfolding get create
  get-create q = elim (Bool-cases (in_static q)) [
    | inl sq ↦ rw sq
    | inr sq ↦ rw (sq, fspace.get-empty q)
  ]

  pub create-Covers : Covers (create lib)
  create-Covers q hq ne = absurd (ne (get-create q))

  -- A write into a space whose box holds the position, or of a space, keeps the box a cover.
  Wrote-Covers :
      (s : Space lib) (p : Vector) (v : ℕ) (r : Option (Space lib)) (w : Wrote lib s p v r)
      → Covers s
      → (v ≢ space → Inside s.top_left s.bottom_right p)
      → Covers w.out
  Wrote-Covers s p v r w c at q hq ne =
      rw (w.top_left_kept, w.bottom_right_kept)
        (elim (Bool-cases (same_vector p q)) [
          | inl same ↦
              subst (Inside s.top_left s.bottom_right) ((same_vector_iff p q).0 same)
                (at λ e. ne (w.reads q hq ∙ ap (λ b. if b then v else get lib s q) same ∙ e))
          | inr other ↦
              c q hq (λ e. ne (w.reads q hq ∙ ap (λ b. if b then v else get lib s q) other ∙ e))
        ])

  -- What is true of a space while the initial program is read: without valid bounds it is blank.
  pub record IsInitial (s : Space lib) : Type 0 where
    pub covers : s.bounds_valid ≡ true → Covers s
    pub blank : s.bounds_valid ≡ false → (q : Vector) → IsVector q → get lib s q ≡ space

  pub create-IsInitial : IsInitial (create lib)
  create-IsInitial = record { covers = λ _. create-Covers; blank = λ _ q hq. get-create q }

  -- A write into a space with valid bounds that hold the position.
  written :
      (v : ℕ) (p : Vector) (s g : Space lib)
      → IsVector p
      → ((q : Vector) → get lib g q ≡ get lib s q)
      → Covers g
      → g.bounds_valid ≡ true
      → Inside g.top_left g.bottom_right p
      → (t : Space lib) × (set_no_bounds_update lib v p g ≡ some t)
        × ((q : Vector) → IsVector q → get lib t q ≡ (if same_vector p q then v else get lib s q))
        × IsInitial t
  written v p s g hp same cover valid at =
      let w = set_no_bounds_update-Wrote lib v p g hp in
      (
        w.out,
        w.returns,
        (λ q hq. w.reads q hq ∙ ap (λ o. if same_vector p q then v else o) (same q)),
        record {
          covers = λ _. Wrote-Covers g p v _ w cover (λ _. at);
          blank = λ e. cc (w.bounds_valid_kept, valid);
        },
      )

  get_grow : (p q : Vector) (s : Space lib) → get lib (grow_bounds lib p s) q ≡ get lib s q
  unfolding get grow_bounds
  get_grow p q s = refl

  -- `fungespace_set` always returns: the written cell reads back, every other cell keeps its value,
  -- and the bounding box still holds every cell that is not a space.
  pub set_lem :
      (v : ℕ) (p : Vector) (s : Space lib)
      → IsVector p
      → Covers s
      → (t : Space lib) × (set lib v p s ≡ some t)
        × ((q : Vector) → IsVector q → get lib t q ≡ (if same_vector p q then v else get lib s q))
        × Covers t
  unfolding set
  set_lem v p s hp c = elim (Bool-cases (v == space)) [
    | inl e ↦ rw e (from_write s (λ q. refl) c (λ ne. absurd (ne ((==_iff v space).0 e))))
    | inr e ↦ rw e (
        from_write (grow_bounds lib p s) (λ q. get_grow p q s)
          (λ q hq ne. grow_bounds-Inside p q s (c q hq (λ e. ne (get_grow p q s ∙ e))))
          (λ _. grow_bounds-Inside_self p s))
  ]
    where
      from_write :
          (g : Space lib)
          → ((q : Vector) → get lib g q ≡ get lib s q)
          → Covers g
          → (v ≢ space → Inside g.top_left g.bottom_right p)
          → (t : Space lib) × (set_no_bounds_update lib v p g ≡ some t)
            × ((q : Vector)
                → IsVector q
                → get lib t q ≡ (if same_vector p q then v else get lib s q))
            × Covers t
      from_write g same cover at =
          let w = set_no_bounds_update-Wrote lib v p g hp in
          (
            w.out,
            w.returns,
            (λ q hq. w.reads q hq ∙ ap (λ o. if same_vector p q then v else o) (same q)),
            Wrote-Covers g p v _ w cover at,
          )

  abbrev boxed : Vector → Space lib → Space lib
  boxed p s = record s { top_left = p; bottom_right = p; bounds_valid = true }

  get_boxed : (p q : Vector) (s : Space lib) → get lib (boxed p s) q ≡ get lib s q
  unfolding get
  get_boxed p q s = refl

  boxed_Inside : (p : Vector) → Inside p p p
  boxed_Inside p = record {
    right = ground arith;
    left = ground arith;
    below = ground arith;
    above = ground arith;
  }

  grow_valid : (p : Vector) (s : Space lib) → (grow_bounds lib p s).bounds_valid ≡ s.bounds_valid
  unfolding grow_bounds
  grow_valid p s = refl

  IsInitial-write :
      (v : ℕ) (p : Vector) (s : Space lib) (b : Bool)
      → s.bounds_valid ≡ b
      → IsVector p
      → IsInitial s
      → (t : Space lib) × (set_no_bounds_update lib v p
            (if b then grow_bounds lib p s else boxed p s)
          ≡ some t)
        × ((q : Vector) → IsVector q → get lib t q ≡ (if same_vector p q then v else get lib s q))
        × IsInitial t
  IsInitial-write v p s true e hp c =
      written v p s (grow_bounds lib p s) hp (λ q. get_grow p q s)
        (λ q hq ne. grow_bounds-Inside p q s (c.covers e q hq (λ f. ne (get_grow p q s ∙ f))))
        (grow_valid p s ∙ e) (grow_bounds-Inside_self p s)
  IsInitial-write v p s false e hp c =
      written v p s (boxed p s) hp (λ q. get_boxed p q s)
        (λ q hq ne. absurd (ne (get_boxed p q s ∙ c.blank e q hq))) refl (boxed_Inside p)

  -- The same of `fungespace_set_initial`, from the space that a run begins with on.
  pub set_initial_lem :
      (v : ℕ) (p : Vector) (s : Space lib)
      → IsVector p
      → IsInitial s
      → (t : Space lib) × (set_initial lib v p s ≡ some t)
        × ((q : Vector) → IsVector q → get lib t q ≡ (if same_vector p q then v else get lib s q))
        × IsInitial t
  unfolding set_initial
  set_initial_lem v p s hp c = IsInitial-write v p s s.bounds_valid refl hp c
