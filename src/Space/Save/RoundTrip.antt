-- ===== src/Space/Save/RoundTrip.antt =====
-- A text that is saved and loaded again.
use Prim.Native.Nat.{◌/◌}
use cfunge.Prelude.{
  ◌==◌, ℕ, zero, suc, ◌+◌, ◌*◌, ◌%◌, ◌^◌, ◌<◌, ◌≡◌, ◌≢◌, refl, ap, ◌∙◌, arith, true, false, some,
  List, [], ◌∷◌, ltb, get_or, length, Bool-cases, inl, inr,
}
use mathlib.Core.Path.{subst, subst⁻¹}
use cfunge.Cell.{add, mul, slt, space, IsCell}
use cfunge.Vector.{Vector, IsVector}
use cfunge.Table.{HashLib}
use cfunge.Space.{Space, create, get}
use cfunge.Space.Load.{load_string}
use cfunge.Space.Load.Layout.{unix}
use cfunge.Space.Load.Lines.{cell_of}
use cfunge.Space.Load.Program.{load_string_lem}
use cfunge.Space.Save.Room.{held_room, map-held, length-write_rows}
use cfunge.Space.Save.{
  to_byte, trim, write_rows, rounds, row_cells, area_rows, text_of, System, save_to_file,
}
use cfunge.Space.Save.Rows.{
  IsText, none_left, more, AllText, AllRows, no_row, row_more, cell_of-text_of, unix-text_of,
}

rounds_lem : (a n : ℕ) → IsCell a → IsCell n → slt a (add a n) ≡ true → rounds a (add a n) ≡ n
rounds_lem a n ha hn h = rw h (omega arith)

-- The cell in a column and a row of an area.
abbrev pub cell_at : Vector → ℕ → ℕ → Vector
cell_at offset i j = record { x = add offset.x i; y = add offset.y j }

module _ (lib : HashLib) (s : Space lib) where
  abbrev cell : ℕ → ℕ → ℕ
  cell x y = get lib s (record { x = x; y = y })

  get_or-row_cells :
      (n i x y : ℕ) → IsCell x → i < n → get_or (row_cells lib n x y s) i space ≡ cell (add x i) y
  unfolding row_cells
  get_or-row_cells zero i x y hx h = absurd (omega arith)
  get_or-row_cells (suc n) zero x y hx h = ap (λ k. cell k y) (omega arith)
  get_or-row_cells (suc n) (suc i) x y hx h =
      get_or-row_cells n i (add x 1) y (omega arith) (omega arith)
      ∙ ap (λ k. cell k y) (omega arith)

  get_or-area_rows :
      (n j w x y : ℕ)
      → IsCell y
      → j < n
      → get_or (area_rows lib n w x y s) j [] ≡ row_cells lib w x (add y j) s
  unfolding area_rows
  get_or-area_rows zero j w x y hy h = absurd (omega arith)
  get_or-area_rows (suc n) zero w x y hy h = ap (λ k. row_cells lib w x k s) (omega arith)
  get_or-area_rows (suc n) (suc j) w x y hy h =
      get_or-area_rows n j w x (add y 1) (omega arith) (omega arith)
      ∙ ap (λ k. row_cells lib w x k s) (omega arith)

  row_cells-AllText :
      (n x y : ℕ)
      → IsCell x
      → ((i : ℕ) → i < n → IsText (cell (add x i) y))
      → AllText (row_cells lib n x y s)
  unfolding row_cells
  row_cells-AllText zero x y hx h = none_left
  row_cells-AllText (suc n) x y hx h =
      let here : add x 0 ≡ x = omega arith in
      more (subst (λ k. IsText (cell k y)) here (h 0 (omega arith))) (
        row_cells-AllText n (add x 1) y (omega arith) (λ i p.
          let next : add (add x 1) i ≡ add x (suc i) = omega arith in
          subst⁻¹ (λ k. IsText (cell k y)) next (h (suc i) (omega arith))))

  area_rows-AllRows :
      (n w x y : ℕ)
      → IsCell x
      → IsCell y
      → ((i j : ℕ) → i < w → j < n → IsText (cell (add x i) (add y j)))
      → AllRows (area_rows lib n w x y s)
  unfolding area_rows
  area_rows-AllRows zero w x y hx hy h = no_row
  area_rows-AllRows (suc n) w x y hx hy h =
      let here : add y 0 ≡ y = omega arith in
      row_more
        (row_cells-AllText w x y hx
          (λ i p. subst (λ k. IsText (cell (add x i) k)) here (h i 0 p (omega arith))))
        (area_rows-AllRows n w x (add y 1) hx (omega arith) (λ i j p q.
          let next : add (add y 1) j ≡ add y (suc j) = omega arith in
          subst⁻¹ (λ k. IsText (cell (add x i) k)) next (h i (suc j) p (omega arith))))

-- The system refuses nothing.
pub record Works (sys : System) : Type 0 where
  pub opens : sys.opens ≡ true
  pub alloc : (n : ℕ) → sys.alloc n ≡ true
  pub writes : sys.writes ≡ true

no_bytes : (l : List ℕ) → ltb 1 (length l) ≡ false → length l ≢ 1 → [] ≡ l
no_bytes [] h ne = refl
no_bytes (x ∷ l) h ne = absurd (ne (ground arith))

-- An area of positive size that does not wrap, of cells that a text can hold, for which the sizes
-- of the two buffers are no more than a size_t.
pub record IsArea (lib : HashLib) (offset size : Vector) (s : Space lib) : Type 0 where
  pub offset_cells : IsVector offset
  pub size_cells : IsVector size
  pub right : slt offset.x (add offset.x size.x) ≡ true
  pub below : slt offset.y (add offset.y size.y) ≡ true
  pub line_room : size.x * 8 < 2 ^ 64
  pub text_room : size.x * size.y + size.y < 2 ^ 64
  pub text : (i j : ℕ) → i < size.x → j < size.y → IsText (get lib s (cell_at offset i j))

module _ (lib : HashLib) (sys : System) (works : Works sys) (offset size : Vector) (s : Space lib)
    (area : IsArea lib offset size s) where
  abbrev pub rows_of : List (List ℕ)
  rows_of = area_rows lib size.y size.x offset.x offset.y s

  save_to_file_lem :
      length (text_of rows_of) ≢ 1
      → save_to_file lib sys offset size true s ≡ some (text_of rows_of)
  unfolding save_to_file text_of mul
  save_to_file_lem ne =
      let height =
        rounds_lem offset.y size.y area.offset_cells.y_cell area.size_cells.y_cell area.below in
      let width =
        rounds_lem offset.x size.x area.offset_cells.x_cell area.size_cells.x_cell area.right in
      let line_bytes : size.x * 8 % 2 ^ 64 / 8 ≡ size.x = omega (arith, area.line_room) in
      let text_bytes : add (mul size.x size.y) size.y ≡ size.x * size.y + size.y =
        omega (arith, area.text_room) in
      let room = works.alloc (size.x * size.y + size.y) in
      let line = works.alloc (size.x * 8 % 2 ^ 64) in
      let lines = map-held lib s size.x sys.outside size.y size.x offset.x offset.y (omega arith) in
      let short = length-write_rows lib s (λ c. c == space) size.y size.x offset.x offset.y in
      let towrite =
        held_room (size.x * size.y + size.y) (λ i. to_byte (sys.outside i)) 0
          (write_rows (trim λ c. c == space) rows_of) (omega (arith, short)) in
      elim (Bool-cases (ltb 1 (length (text_of rows_of)))) [
        | inl long ↦
            rw
              (
                height, width, text_bytes, line_bytes, lines, towrite, works.opens, room, line,
                long, works.writes,
              )
              refl
        | inr short ↦
            rw
              (
                height, width, text_bytes, line_bytes, lines, towrite, works.opens, room, line,
                short,
              )
              (ap some (no_bytes (text_of rows_of) short ne))
      ]

  cell_of_saved :
      (i j : ℕ)
      → i < size.x
      → j < size.y
      → cell_of (unix false (text_of rows_of)) i j ≡ get lib s (cell_at offset i j)
  cell_of_saved i j p q =
      let texts =
        area_rows-AllRows lib s size.y size.x offset.x offset.y area.offset_cells.x_cell
          area.offset_cells.y_cell area.text in
      ap (λ l. cell_of l i j) (unix-text_of rows_of texts)
      ∙ cell_of-text_of rows_of i j texts
      ∙ ap (λ r. get_or r i space)
          (get_or-area_rows lib s size.y j size.x offset.x offset.y area.offset_cells.y_cell q)
      ∙ get_or-row_cells lib s size.x i offset.x (add offset.y j) area.offset_cells.x_cell p

  -- An area of cells that are bytes and no line ends or form feeds, which does not wrap and for which
  -- the sizes of the two buffers, 8 bytes for each column and a byte for each cell and each row, are
  -- less than 2 ^ 64, saved as a
  -- text where the system refuses nothing, and not cut down to a text of one byte: loaded as a
  -- program, the text, of less than 2 ^ 64 bytes, has at each column and row the cell that stands
  -- there in the area.
  pub load_string-save_to_file :
      length (text_of rows_of) ≢ 1
      → length (text_of rows_of) < 2 ^ 64
      → (bytes : List ℕ) × (t : Space lib) × (save_to_file lib sys offset size true s ≡ some bytes)
        × (load_string lib bytes (create lib) ≡ some t)
        × ((i j : ℕ)
            → i < size.x
            → j < size.y
            → get lib t (record { x = i; y = j }) ≡ get lib s (cell_at offset i j))
  load_string-save_to_file ne small =
      let (t, loaded, reads, _) = load_string_lem lib (text_of rows_of) small in
      (
        text_of rows_of,
        t,
        save_to_file_lem ne,
        loaded,
        λ i j p q.
            reads (record { x = i; y = j })
              (record {
                x_cell = omega (arith, area.size_cells.x_cell);
                y_cell = omega (arith, area.size_cells.y_cell);
              })
            ∙ cell_of_saved i j p q,
      )
