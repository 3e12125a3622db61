-- ===== src/Space/Tests.antt =====
-- The theorems on Funge-Space at the space that a run begins with.
use cfunge.Prelude.{ℕ, ◌==◌, ◌-◌, ◌^◌, ◌≡◌, ◌⊎◌, refl, arith, some, if◌then◌else◌}
use cfunge.Vector.{Vector, IsVector, same_vector}
use cfunge.Table.Instance.{assoc_lib}
use cfunge.Space.{Space, create, get}
use cfunge.Space.Set.{set}
use cfunge.Space.Bounds.{scan_inward}
use cfunge.Space.Bounds.Scan.{Tight, scan_inward-Tight}
use cfunge.Space.Wrap.{wrap_in}
use cfunge.Space.Wrap.Cardinal.{east, delta_of, step, IsBox, wrap_cardinal}
use cfunge.Space.Bounds.Covers.{Inside, Covers, create-Covers, set_lem}

-- Far to the left of the static area.
abbrev far : Vector
far = record { x = 2 ^ 64 - 1000; y = 3 }

set_lem_example :
    (t : Space assoc_lib) × (set assoc_lib 65 far (create assoc_lib) ≡ some t)
    × ((q : Vector)
        → IsVector q
        → get assoc_lib t q
          ≡ (if same_vector far q then 65 else get assoc_lib (create assoc_lib) q))
    × Covers assoc_lib t
set_lem_example =
    set_lem assoc_lib 65 far (create assoc_lib) (omega arith) (create-Covers assoc_lib)

abbrev corner : Vector
corner = record { x = 0; y = 0 }

abbrev last : Vector
last = record { x = 79; y = 24 }

abbrev edge : Vector
edge = record { x = 79; y = 3 }

corner-IsBox : IsBox corner last
corner-IsBox = record {
  cell_x = (omega arith, omega arith);
  cell_y = (omega arith, omega arith);
  order_x = refl;
  order_y = refl;
  room_x = (omega arith, omega arith);
  room_y = (omega arith, omega arith);
}

edge-IsVector : IsVector edge
edge-IsVector = record { x_cell = omega arith; y_cell = omega arith }

edge-Inside : Inside corner last edge
edge-Inside = record { right = refl; left = refl; below = refl; above = refl }

-- A step to the east from the last column.
wrap_cardinal_example :
    let q = step edge (delta_of east) in
    let w = wrap_in corner last (delta_of east) q in
    (Inside corner last q × (w ≡ q))
    ⊎ ((¬ Inside corner last q) × (step w (delta_of east) ≡ record { x = 0; y = 3 }))
wrap_cardinal_example = wrap_cardinal corner last edge corner-IsBox edge-IsVector edge-Inside east

-- Ten lines with cells in use in lines 2 and 5.
abbrev lines : ℕ → ℕ
lines i = if i == 2 then 7 else if i == 5 then 1 else 0

scan_inward-Tight_example : Tight lines 0 9 (scan_inward lines 0 9)
scan_inward-Tight_example = scan_inward-Tight lines 0 9 (omega arith) (omega arith) refl
