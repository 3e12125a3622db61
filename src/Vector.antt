-- ===== src/Vector.antt =====
-- src/vector.h, src/vector.c: vectors in Funge-Space.
use cfunge.Prelude.{
  ℕ, ◌+◌, ◌%◌, ◌^◌, Bool, true, false, ◌&&◌, not, ◌==◌, if◌then◌else◌, ◌≡◌, ◌↔◌, arith,
}
use cfunge.Cell.{abs, IsCell}

pub record Vector : Type 0 where
  pub x : ℕ
  pub y : ℕ

-- The sum is of unsigned cells.
unfoldable pub is_cardinal : Vector → Bool
unfolding abs
is_cardinal v =
    let x = abs v.x in
    let y = abs v.y in
    if not ((x + y) % 2 ^ 64 == 1)
    then false
    else if not (x == 0) && not (y == 0)
    then false
    else true

unfoldable pub same_vector : Vector → Vector → Bool
same_vector v w = v.x == w.x && v.y == w.y

pub same_vector_iff : (v w : Vector) → (same_vector v w ≡ true) ↔ (v ≡ w)
unfolding same_vector
same_vector_iff v w = ground arith

-- A vector whose coordinates are patterns of cells.
pub record IsVector (v : Vector) : Type 0 where
  pub x_cell : IsCell v.x
  pub y_cell : IsCell v.y
