-- ===== src/Space/Save/Tests.antt =====
-- The round trip of a saved text at two letters in the corner of a plane of letters.
use cfunge.Prelude.{ℕ, zero, suc, ◌<◌, ◌≡◌, refl, arith, true, some, List, length}
use cfunge.Vector.{Vector}
use cfunge.Table.Instance.{assoc_lib}
use cfunge.Space.{Space, create, get}
use cfunge.Space.Load.{kind, load_string}
use cfunge.Space.Save.{System, save_to_file, row_cells, area_rows, write_rows, trim, text_of}
use cfunge.Space.Save.Rows.{IsText}
use cfunge.Space.Save.RoundTrip.{cell_at, Works, IsArea, rows_of, load_string-save_to_file}

abbrev letters : Space assoc_lib
unfolding create
letters = record (create assoc_lib) { cells = λ _. b'A' }

abbrev sys : System
sys = record { opens = true; reserves = true; alloc = λ _. true; writes = true; outside = λ _. 0 }

works : Works sys
works = record { opens = refl; alloc = λ _. refl; writes = refl }

abbrev offset : Vector
offset = record { x = 0; y = 0 }

abbrev size : Vector
size = record { x = 2; y = 1 }

letters-IsText : (i j : ℕ) → i < 2 → j < 1 → IsText (get assoc_lib letters (cell_at offset i j))
unfolding get letters create kind
letters-IsText zero zero p q = record { byte = omega arith; plain = refl }
letters-IsText (suc zero) zero p q = record { byte = omega arith; plain = refl }
letters-IsText (suc (suc i)) zero p q = absurd (omega arith)
letters-IsText i (suc j) p q = absurd (omega arith)

area : IsArea assoc_lib offset size letters
area = record {
  offset_cells = record { x_cell = omega arith; y_cell = omega arith };
  size_cells = record { x_cell = omega arith; y_cell = omega arith };
  right = refl;
  below = refl;
  line_room = omega arith;
  text_room = omega arith;
  text = letters-IsText;
}

two_bytes : length (text_of (rows_of assoc_lib sys works offset size letters area)) ≡ 2
unfolding get letters create area_rows row_cells text_of write_rows trim
two_bytes = refl

load_string-save_to_file_example :
    (bytes : List ℕ) × (t : Space assoc_lib) × (save_to_file assoc_lib sys offset size true letters
      ≡ some bytes)
    × (load_string assoc_lib bytes (create assoc_lib) ≡ some t)
    × ((i j : ℕ)
        → i < size.x
        → j < size.y
        → get assoc_lib t (record { x = i; y = j }) ≡ get assoc_lib letters (cell_at offset i j))
load_string-save_to_file_example =
    load_string-save_to_file assoc_lib sys works offset size letters area (omega (arith, two_bytes))
      (omega (arith, two_bytes))
