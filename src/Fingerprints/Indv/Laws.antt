-- ===== src/Fingerprints/Indv/Laws.antt =====
-- What W writes and V reads.
use cfunge.Prelude.{
  ℕ, ◌≡◌, refl, ap, ◌∙◌, arith, Bool, true, false, some, List, ◌∷◌, drop, if◌then◌else◌,
}
use cfunge.Vector.{Vector, IsVector, same_vector}
use cfunge.Table.{HashLib}
use cfunge.Space.{Space, get}
use cfunge.Space.Bounds.Covers.{Covers, set_lem}
use cfunge.Space.Set.{set}
use cfunge.Cell.{add}
use cfunge.Stack.{Stack, pop, pop_vector}
use cfunge.Stack.Contents.{contents, contents-pop, pop_value, head_or_zero}
use cfunge.Ip.{Ip, toss, set_toss}
use cfunge.Fingerprints.Indv.{right_of, vector_at, get_second_vector, put_vec}

right_other : (v : Vector) → IsVector v → same_vector (right_of v) v ≡ false
unfolding same_vector
right_other v h = ground arith

same_self : (v : Vector) → same_vector v v ≡ true
unfolding same_vector
same_self v = ground arith

chosen : (b : Bool) (x y : ℕ) → b ≡ true → (if b then x else y) ≡ x
chosen b x y e = rw e

skipped : (b : Bool) (x y : ℕ) → b ≡ false → (if b then x else y) ≡ y
skipped b x y e = rw e

-- The vector on top of a stack, and what is below it.
popped_vector :
    (v : Vector) (l : List ℕ) (s : Stack)
    → contents s ≡ v.y ∷ v.x ∷ l
    → ((pop_vector s).0 ≡ v) × (contents (pop_vector s).1 ≡ l)
unfolding pop_vector
popped_vector v l s h =
    let below : contents (pop s).1 ≡ v.x ∷ l = contents-pop s ∙ ap (drop 1) h in
    (
      λ i. record {
        x = (pop_value (pop s).1 ∙ ap head_or_zero below) i;
        y = (pop_value s ∙ ap head_or_zero h) i;
      },
      contents-pop (pop s).1 ∙ ap (drop 1) below,
    )

module _ (lib : HashLib) where
  -- What two writes of a vector at a position leave.
  record Written (b v : Vector) (s : Space lib) : Type 0 where
    half : Space lib
    full : Space lib
    first : set lib b.y v s ≡ some half
    second : set lib b.x (right_of v) half ≡ some full
    here : get lib full v ≡ b.y
    beside : get lib full (right_of v) ≡ b.x
    others :
        (q : Vector)
        → IsVector q
        → same_vector v q ≡ false
        → same_vector (right_of v) q ≡ false
        → get lib full q ≡ get lib s q
    covers : Covers lib full

  set-Written : (b v : Vector) (s : Space lib) → IsVector v → Covers lib s → Written b v s
  set-Written b v s hv g =
      let hr : IsVector (right_of v) = record { x_cell = omega arith; y_cell = hv.y_cell } in
      let (t, first, reads, good) = set_lem lib b.y v s hv g in
      let (u, second, reads', good') = set_lem lib b.x (right_of v) t hr good in
      record {
        half = t;
        full = u;
        first = first;
        second = second;
        here =
            reads' v hv
            ∙ skipped (same_vector (right_of v) v) b.x (get lib t v) (right_other v hv)
            ∙ reads v hv
            ∙ chosen (same_vector v v) b.y (get lib s v) (same_self v);
        beside =
            reads' (right_of v) hr
            ∙ chosen (same_vector (right_of v) (right_of v)) b.x (get lib t (right_of v))
                (same_self (right_of v));
        others = λ q hq ne ne'.
            reads' q hq
            ∙ skipped (same_vector (right_of v) q) b.x (get lib t q) ne'
            ∙ reads q hq
            ∙ skipped (same_vector v q) b.y (get lib s q) ne;
        covers = good';
      }

  -- The cell of a position, and the one to the right of it, as a vector moved by an offset.
  abbrev pub pointed : Space lib → ℕ → ℕ → Vector → Vector
  pointed s x y offset = record {
    x = add (get lib s (record { x = add x 1; y = y })) offset.x;
    y = add (get lib s (record { x = x; y = y })) offset.y;
  }

  -- W on a covered space, with a vector a and below it a vector b on the stack: it returns and
  -- leaves the rest of the stack. The cell at a plus the storage offset, as y, and the one to the
  -- right of it, as x, make a vector; at this vector plus the storage offset stands the y of b, and
  -- to the right of it the x. Every cell but these two reads as before, and the space is covered.
  pub put_vec_lem :
      (ip : Ip) (s : Space lib) (a b : Vector) (l : List ℕ)
      → Covers lib s
      → contents (toss ip) ≡ a.y ∷ a.x ∷ b.y ∷ b.x ∷ l
      → let offset = ip.storage_offset in
        let v = pointed s (add a.x offset.x) (add a.y offset.y) offset in
        let right : Vector = record { x = add v.x 1; y = v.y } in
        (st : Stack) × (t : Space lib) × (put_vec lib ip s ≡ some (set_toss st ip, t))
        × (contents st ≡ l)
        × (get lib t v ≡ b.y)
        × (get lib t right ≡ b.x)
        × ((q : Vector)
            → IsVector q
            → same_vector v q ≡ false
            → same_vector right q ≡ false
            → get lib t q ≡ get lib s q)
        × Covers lib t
  unfolding put_vec vector_at get_second_vector
  put_vec_lem ip s a b l g cells =
      let offset = ip.storage_offset in
      let v = pointed s (add a.x offset.x) (add a.y offset.y) offset in
      let w = set-Written b v s (record { x_cell = omega arith; y_cell = omega arith }) g in
      let (top, below) = popped_vector a (b.y ∷ b.x ∷ l) (toss ip) cells in
      let (next, rest) = popped_vector b l (pop_vector (toss ip)).1 below in
      (
        (pop_vector (pop_vector (toss ip)).1).1,
        w.full,
        rw (top, next, w.first, w.second) refl,
        rest,
        w.here,
        w.beside,
        w.others,
        w.covers,
      )
