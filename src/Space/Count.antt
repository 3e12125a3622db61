-- ===== src/Space/Count.antt =====
-- src/funge-space/funge-space.c: the numbers of cells other than space in each column and row.
use cfunge.Prelude.{ℕ, Bool, false, Option, none, some, ltb, ◌==◌, if◌then◌else◌, update}
use cfunge.Cell.{add, sub}
use cfunge.Vector.{Vector}
use cfunge.Table.{HashLib}
use cfunge.Space.{Space, static_coord, static_x, static_y}

module _ (lib : HashLib) where
  open lib use {fspacecount}

  abbrev or_zero : Option ℕ → ℕ
  or_zero none = 0
  or_zero (some n) = n

  unfoldable pub get_count_col : Space lib → ℕ → ℕ
  get_count_col s x =
      let sx = static_coord x in
      if ltb sx static_x then s.use_count_col sx else or_zero (fspacecount.get s.col_count x)

  unfoldable pub get_count_row : Space lib → ℕ → ℕ
  get_count_row s y =
      let sy = static_coord y in
      if ltb sy static_y then s.use_count_row sy else or_zero (fspacecount.get s.row_count y)

  -- FSPACE_COUNT_OP_OR_NEW with what the operation makes of a count that is there.
  abbrev write_count : fspacecount.Carrier → ℕ → ℕ → fspacecount.Carrier
  write_count table key count =
      let t = fspacecount.assign table key count in
      if count == 0 then fspacecount.remove t key else t

  abbrev new_count : fspacecount.Carrier → ℕ → ℕ → fspacecount.Carrier
  new_count table key value = elim (fspacecount.insert table key value) [
    | some t ↦ t
    | none ↦ fspacecount.replace table key value
  ]

  -- `++` and `--` on a `funge_unsigned_cell`
  abbrev pub step_count : Bool → ℕ → ℕ
  step_count isset n = if isset then add n 1 else sub n 1

  unfoldable pub op_or_new : Bool → fspacecount.Carrier → ℕ → fspacecount.Carrier
  op_or_new isset table key = elim (fspacecount.get table key) [
    | some n ↦ write_count table key (step_count isset n)
    | none ↦ new_count table key (if isset then 1 else 0)
  ]

  unfoldable pub check_pos : ℕ → ℕ → Space lib → Space lib
  check_pos x y s =
      if x == s.bottom_right.x
      then record s { bounds_exact = false }
      else if y == s.bottom_right.y
      then record s { bounds_exact = false }
      else if x == s.top_left.x
      then record s { bounds_exact = false }
      else if y == s.top_left.y
      then record s { bounds_exact = false }
      else s

  unfoldable pub count_x : Bool → ℕ → Space lib → Space lib
  count_x isset x s =
      let sx = static_coord x in
      if ltb sx static_x
      then record s {
        use_count_col = update s.use_count_col sx (step_count isset (s.use_count_col sx));
      }
      else record s { col_count = op_or_new isset s.col_count x }

  unfoldable pub count_y : Bool → ℕ → Space lib → Space lib
  count_y isset y s =
      let sy = static_coord y in
      if ltb sy static_y
      then record s {
        use_count_row = update s.use_count_row sy (step_count isset (s.use_count_row sy));
      }
      else record s { row_count = op_or_new isset s.row_count y }

  -- `fungespace_count`
  unfoldable pub count : Bool → Vector → Space lib → Space lib
  count isset p s =
      let t = count_y isset p.y (count_x isset p.x s) in if isset then t else check_pos p.x p.y t
