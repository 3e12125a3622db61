-- ===== src/Space/Wrap/Cardinal.antt =====
-- A step of one cell out of the box comes back on the other side.
use cfunge.Prelude.{
  ℕ, ◌-◌, ◌^◌, ◌≡◌, ◌≢◌, ◌⊎◌, refl, arith, Bool, true, false, Bool-cases, inl, inr,
}
use cfunge.Cell.{IsCell, add, slt, abs, minus_one}
use cfunge.Vector.{Vector, is_cardinal, IsVector}
use cfunge.Space.Bounds.{in_range}
use cfunge.Space.Bounds.Covers.{Inside, in_range_iff}
use cfunge.Space.Wrap.{wrap_edge, wrap_in}

-- The four directions that the arrows give.
pub data Direction : Type 0 where
  east west south north : Direction

abbrev pub delta_of : Direction → Vector
delta_of east = record { x = 1; y = 0 }
delta_of west = record { x = minus_one; y = 0 }
delta_of south = record { x = 0; y = 1 }
delta_of north = record { x = 0; y = minus_one }

cardinal_delta : (d : Direction) → is_cardinal (delta_of d) ≡ true
unfolding is_cardinal abs
cardinal_delta east = refl
cardinal_delta west = refl
cardinal_delta south = refl
cardinal_delta north = refl

abbrev pub step : Vector → Vector → Vector
step p d = record { x = add p.x d.x; y = add p.y d.y }

-- Corners that leave room for one cell around the box.
pub record IsBox (top_left bottom_right : Vector) : Type 0 where
  pub cell_x : IsCell top_left.x × IsCell bottom_right.x
  pub cell_y : IsCell top_left.y × IsCell bottom_right.y
  pub order_x : slt bottom_right.x top_left.x ≡ false
  pub order_y : slt bottom_right.y top_left.y ≡ false
  pub room_x : (top_left.x ≢ 2 ^ 63) × (bottom_right.x ≢ 2 ^ 63 - 1)
  pub room_y : (top_left.y ≢ 2 ^ 63) × (bottom_right.y ≢ 2 ^ 63 - 1)

-- One coordinate: a step out of an interval and the wrap lead to just before its other end.
edge_up :
    (lo hi a : ℕ)
    → IsCell lo
    → IsCell hi
    → IsCell a
    → lo ≢ 2 ^ 63
    → hi ≢ 2 ^ 63 - 1
    → slt hi lo ≡ false
    → slt hi a ≡ false
    → slt a lo ≡ false
    → slt hi (add a 1) ≡ true
    → add (wrap_edge lo hi (add a 1)) 1 ≡ lo
unfolding wrap_edge
edge_up lo hi a hl hh ha rl rh o r l out = ground arith

edge_down :
    (lo hi a : ℕ)
    → IsCell lo
    → IsCell hi
    → IsCell a
    → lo ≢ 2 ^ 63
    → hi ≢ 2 ^ 63 - 1
    → slt hi lo ≡ false
    → slt hi a ≡ false
    → slt a lo ≡ false
    → slt (add a minus_one) lo ≡ true
    → add (wrap_edge lo hi (add a minus_one)) minus_one ≡ hi
unfolding wrap_edge
edge_down lo hi a hl hh ha rl rh o r l out = ground arith

-- The other coordinate stays.
edge_kept :
    (lo hi a : ℕ)
    → IsCell a
    → slt hi a ≡ false
    → slt a lo ≡ false
    → add (wrap_edge lo hi (add a 0)) 0 ≡ a
unfolding wrap_edge
edge_kept lo hi a ha r l = ground arith

-- Where a direction enters the box again.
abbrev pub entry : Direction → Vector → Vector → Vector → Vector
entry east tl br p = record { x = tl.x; y = p.y }
entry west tl br p = record { x = br.x; y = p.y }
entry south tl br p = record { x = p.x; y = tl.y }
entry north tl br p = record { x = p.x; y = br.y }

step_x : (u v : Vector) → u.x ≡ v.x → u.y ≡ v.y → u ≡ v
step_x u v p q = λ i. record { x = p i; y = q i }

-- A position out of the box is beyond one of its edges.
leaves :
    (tl br q : Vector)
    → in_range tl br q ≡ false
    → slt br.x q.x ≡ false
    → slt q.x tl.x ≡ false
    → slt br.y q.y ≡ false
    → slt q.y tl.y ≡ false
    → ⊥
unfolding in_range
leaves tl br q h a b c d = ground arith

up_keeps_lo :
    (lo hi a : ℕ)
    → IsCell a
    → IsCell hi
    → hi ≢ 2 ^ 63 - 1
    → slt hi a ≡ false
    → slt a lo ≡ false
    → slt (add a 1) lo ≡ false
up_keeps_lo lo hi a ha hh room r l = ground arith

down_keeps_hi :
    (lo hi a : ℕ)
    → IsCell a
    → IsCell lo
    → lo ≢ 2 ^ 63
    → slt hi a ≡ false
    → slt a lo ≡ false
    → slt hi (add a minus_one) ≡ false
down_keeps_hi lo hi a ha hl room r l = ground arith

stays_hi : (hi a : ℕ) → IsCell a → slt hi a ≡ false → slt hi (add a 0) ≡ false
stays_hi hi a ha h = ground arith

stays_lo : (lo a : ℕ) → IsCell a → slt a lo ≡ false → slt (add a 0) lo ≡ false
stays_lo lo a ha h = ground arith

must : (b : Bool) → (b ≡ false → ⊥) → b ≡ true
must true h = refl
must false h = absurd (h refl)

module _ (tl br p : Vector) (box : IsBox tl br) (hp : IsVector p) (inside : Inside tl br p) where
  open box use {cell_x, cell_y, order_x, order_y, room_x, room_y}
  open hp use {x_cell, y_cell}
  open inside use {right, left, below, above}

  kept_x : add (wrap_edge tl.x br.x (add p.x 0)) 0 ≡ p.x
  kept_x = edge_kept tl.x br.x p.x x_cell right left

  kept_y : add (wrap_edge tl.y br.y (add p.y 0)) 0 ≡ p.y
  kept_y = edge_kept tl.y br.y p.y y_cell below above

  reenter :
      (d : Direction)
      → in_range tl br (step p (delta_of d)) ≡ false
      → step
          (record {
            x = wrap_edge tl.x br.x (step p (delta_of d)).x;
            y = wrap_edge tl.y br.y (step p (delta_of d)).y;
          })
          (delta_of d)
        ≡ entry d tl br p
  reenter east out =
      step_x _ _
        (edge_up tl.x br.x p.x cell_x.0 cell_x.1 x_cell room_x.0 room_x.1 order_x right left (
          must _ λ r.
            leaves tl br (step p (delta_of east)) out r
              (up_keeps_lo tl.x br.x p.x x_cell cell_x.1 room_x.1 right left)
              (stays_hi br.y p.y y_cell below) (stays_lo tl.y p.y y_cell above)))
        kept_y
  reenter west out =
      step_x _ _
        (edge_down tl.x br.x p.x cell_x.0 cell_x.1 x_cell room_x.0 room_x.1 order_x right left (
          must _ λ l.
            leaves tl br (step p (delta_of west)) out
              (down_keeps_hi tl.x br.x p.x x_cell cell_x.0 room_x.0 right left) l
              (stays_hi br.y p.y y_cell below) (stays_lo tl.y p.y y_cell above)))
        kept_y
  reenter south out = step_x _ _ kept_x (
      edge_up tl.y br.y p.y cell_y.0 cell_y.1 y_cell room_y.0 room_y.1 order_y below above (
        must _ λ r.
          leaves tl br (step p (delta_of south)) out (stays_hi br.x p.x x_cell right)
            (stays_lo tl.x p.x x_cell left) r
            (up_keeps_lo tl.y br.y p.y y_cell cell_y.1 room_y.1 below above)))
  reenter north out = step_x _ _ kept_x (
      edge_down tl.y br.y p.y cell_y.0 cell_y.1 y_cell room_y.0 room_y.1 order_y below above (
        must _ λ l.
          leaves tl br (step p (delta_of north)) out (stays_hi br.x p.x x_cell right)
            (stays_lo tl.x p.x x_cell left)
            (down_keeps_hi tl.y br.y p.y y_cell cell_y.0 room_y.0 below above) l))

  -- A step in a cardinal direction from a position in the box, with room for one cell around it: if
  -- the step ends between the edges of the box, wrapping leaves it alone; if it does not, wrapping
  -- puts it where the next step in that direction is the cell at the opposite edge, in the same row
  -- or column.
  pub wrap_cardinal :
      (d : Direction)
      → let q = step p (delta_of d) in
        let w = wrap_in tl br (delta_of d) q in
        (Inside tl br q × (w ≡ q)) ⊎ ((¬ Inside tl br q) × (step w (delta_of d) ≡ entry d tl br p))
  unfolding wrap_in
  wrap_cardinal d = elim (Bool-cases (in_range tl br (step p (delta_of d)))) [
    | inl stay ↦ inl ((in_range_iff tl br (step p (delta_of d))).0 stay, rw stay)
    | inr out ↦ inr (
      (λ i. ground (arith, out, (in_range_iff tl br (step p (delta_of d))).1 i)),
      rw (out, cardinal_delta d) (reenter d out),
    )
  ]
