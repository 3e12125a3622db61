-- ===== src/Space/Load/Tests.antt =====
-- The theorems on the loads of a text at a program of two lines, the first with a carriage return.
use cfunge.Prelude.{ℕ, true, false, ◌^◌, ◌-◌, ◌≡◌, arith, some, List, [], ◌∷◌}
use cfunge.Vector.{Vector, IsVector}
use cfunge.Table.Instance.{assoc_lib}
use cfunge.Space.{Space, create, get}
use cfunge.Space.Bounds.Covers.{Covers, IsInitial, create-Covers}
use cfunge.Space.Load.{load_string, load_at_offset}
use cfunge.Space.Load.Layout.{unix}
use cfunge.Space.Load.Text.{or_old}
use cfunge.Space.Load.Lines.{cell_of, unless_space}
use cfunge.Space.Load.Program.{relative, load_string_lem, load_at_offset_lem}

-- "v1\r\n >"
abbrev program : List ℕ
program = 118 ∷ 49 ∷ 13 ∷ 10 ∷ 32 ∷ 62 ∷ []

load_string_lem_example :
    (t : Space assoc_lib) × (load_string assoc_lib program (create assoc_lib) ≡ some t)
    × ((q : Vector) → IsVector q → get assoc_lib t q ≡ cell_of (unix false program) q.x q.y)
    × IsInitial assoc_lib t
load_string_lem_example = load_string_lem assoc_lib program (omega arith)

-- Left of the static area.
abbrev left : Vector
left = record { x = 2 ^ 64 - 1000; y = 3 }

left-IsVector : IsVector left
left-IsVector = record { x_cell = omega arith; y_cell = omega arith }

load_at_offset_lem_example :
    (new_size : Vector) × (t : Space assoc_lib) × (load_at_offset assoc_lib
        (some program)
        left
        false
        (record { x = 0; y = 0 })
        (create assoc_lib)
      ≡ some (true, new_size, t))
    × ((q : Vector)
        → IsVector q
        → get assoc_lib t q
          ≡ or_old
              (unless_space (cell_of (unix false program) (relative left q).x (relative left q).y))
              (get assoc_lib (create assoc_lib) q))
    × Covers assoc_lib t
load_at_offset_lem_example =
    load_at_offset_lem assoc_lib left left-IsVector program (record { x = 0; y = 0 })
      (create assoc_lib) (omega arith) (create-Covers assoc_lib)
