-- ===== src/Space/Save.antt =====
-- src/funge-space/funge-space.c: saving an area of Funge-Space to a file.
pub mod Text
pub mod Rows
pub mod Room
pub mod RoundTrip
mod Tests
use Prim.Native.Nat.{◌/◌}
use cfunge.Prelude.{
  ℕ, zero, suc, ◌+◌, ◌*◌, ◌%◌, ◌^◌, Bool, true, false, not, ◌||◌, Option, none, some, List, [], ◌∷◌,
  ◌++◌, map, ltb, ◌==◌, if◌then◌else◌, length,
}
use cfunge.Cell.{add, sub, mul, slt, space}
use cfunge.Vector.{Vector}
use cfunge.Table.{HashLib}
use cfunge.Space.{Space, get}

-- The rounds of `for (i = from; i < to; i++)`.
abbrev pub rounds : ℕ → ℕ → ℕ
rounds from to = if slt from to then sub to from else 0

abbrev pub to_byte : ℕ → ℕ
to_byte c = c % 256

abbrev pub cut : Bool → ℕ → List ℕ → List ℕ
cut true c [] = []
cut true c (d ∷ ds) = c ∷ d ∷ ds
cut false c rest = c ∷ rest

-- `do { last--; } while (last >= 0 && ...)`: the list without the elements at its end that pass.
unfoldable pub trim : (ℕ → Bool) → List ℕ → List ℕ
trim p [] = []
trim p (c ∷ cs) = cut (p c) c (trim p cs)

module _ (lib : HashLib) where
  -- The loops over the cells of a row and over the rows.
  unfoldable pub row_cells : ℕ → ℕ → ℕ → Space lib → List ℕ
  row_cells zero x y s = []
  row_cells (suc n) x y s = get lib s (record { x = x; y = y }) ∷ row_cells n (add x 1) y s

  unfoldable pub area_rows : ℕ → ℕ → ℕ → ℕ → Space lib → List (List ℕ)
  area_rows zero width x y s = []
  area_rows (suc n) width x y s = row_cells width x y s ∷ area_rows n width x (add y 1) s

-- Each row, as a function leaves it, with a line feed behind it.
unfoldable pub write_rows : (List ℕ → List ℕ) → List (List ℕ) → List ℕ
write_rows f [] = []
write_rows f (r ∷ rs) = map to_byte (f r) ++ (10 ∷ write_rows f rs)

-- `towrite` without the line feeds at its end, where there is room for it
unfoldable pub text_of : List (List ℕ) → List ℕ
text_of rows = trim (λ c. c == 10) (write_rows (trim λ c. c == space) rows)

-- What comes back from an array with room for some elements that a list is written to: a write
-- behind its end is lost.
unfoldable pub held : ℕ → (ℕ → ℕ) → ℕ → List ℕ → List ℕ
held room outside i [] = []
held room outside i (c ∷ cs) = (if ltb i room then c else outside i) ∷ held room outside (suc i) cs

-- What the system does: whether it opens the file, reserves its room, gives memory, and writes all;
-- and what is read behind the end of an array.
pub record System : Type 0 where
  pub opens : Bool
  pub reserves : Bool
  pub alloc : ℕ → Bool
  pub writes : Bool
  pub outside : ℕ → ℕ

module _ (lib : HashLib) (sys : System) where
  -- `fungespace_save_to_file`: the bytes of the file, or `none` for false. The size is positive in
  -- both directions, as the source asserts.
  unfoldable pub save_to_file : Vector → Vector → Bool → Space lib → Option (List ℕ)
  save_to_file offset size textfile s =
      let height = rounds offset.y (add offset.y size.y) in
      let width = rounds offset.x (add offset.x size.x) in
      let rows = area_rows lib height width offset.x offset.y s in
      let text_room = add (mul size.x size.y) size.y in
      let line_room = size.x * 8 % 2 ^ 64 in
      let lines = map (held (line_room / 8) sys.outside 0) rows in
      let towrite =
        held text_room (λ i. to_byte (sys.outside i)) 0 (write_rows (trim λ c. c == space) lines) in
      let text = trim (λ c. c == 10) towrite in
      if not sys.opens
      then none
      else if not textfile
      then (if sys.reserves then some (write_rows (λ r. r) rows) else none)
      else if not (sys.alloc text_room)
      then none
      else if not (sys.alloc line_room || height == 0)
      then none
      else if ltb 1 (length text)
      then (if sys.writes then some text else none)
      else some []
