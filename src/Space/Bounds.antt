-- ===== src/Space/Bounds.antt =====
-- src/funge-space/funge-space.c: the bounding box, and how it is made exact.
pub mod Covers
pub mod Scan
use cfunge.Prelude.{
  ℕ, zero, suc, ◌+◌, ◌-◌, ◌*◌, ◌%◌, ◌^◌, Bool, true, false, not, ◌&&◌, ◌||◌, List, [], ◌∷◌, ltb,
  ◌==◌, if◌then◌else◌,
}
use cfunge.Cell.{add, sub, slt}
use cfunge.Vector.{Vector}
use cfunge.Table.{HashLib}
use cfunge.Space.{Space, static_offset, static_x, static_y, simplebounds_max}
use cfunge.Space.Count.{get_count_col, get_count_row}

-- src/rect.h
pub record FungeRect : Type 0 where
  pub x : ℕ
  pub y : ℕ
  pub w : ℕ
  pub h : ℕ

-- `for (; lo < hi; lo++) if (count(lo) != 0) break;` The unsigned difference bounds the rounds.
unfoldable pub scan_up : (ℕ → ℕ) → ℕ → ℕ → ℕ → ℕ
scan_up count zero lo hi = lo
scan_up count (suc fuel) lo hi =
    let rest = scan_up count fuel (add lo 1) hi in
    if slt lo hi then (if not (count lo == 0) then lo else rest) else lo

-- `for (; hi > lo; hi--) if (count(hi) != 0) break;`
unfoldable pub scan_down : (ℕ → ℕ) → ℕ → ℕ → ℕ → ℕ
scan_down count zero lo hi = hi
scan_down count (suc fuel) lo hi =
    let rest = scan_down count fuel lo (sub hi 1) in
    if slt lo hi then (if not (count hi == 0) then hi else rest) else hi

-- Both loops for one dimension, as (min, max).
unfoldable pub scan_inward : (ℕ → ℕ) → ℕ → ℕ → ℕ × ℕ
scan_inward count lo hi =
    let lo' = scan_up count (sub hi lo) lo hi in (lo', scan_down count (sub hi lo') lo' hi)

-- An interval stretched to a value.
abbrev pub stretch : ℕ → ℕ × ℕ → ℕ × ℕ
stretch value (lo, hi) = (if slt value lo then value else lo, if slt hi value then value else hi)

-- The scan of the hash table's keys in `largemodel_minimise`.
unfoldable pub stretch_keys : Bool → List ℕ → ℕ × ℕ → ℕ × ℕ
stretch_keys first [] box = box
stretch_keys first (k ∷ ks) box = stretch_keys false ks (if first then (k, k) else stretch k box)

-- The scan of the static array: the indices from `i` on, with `left` of them to go.
unfoldable pub stretch_static : (ℕ → ℕ) → ℕ → ℕ → ℕ × ℕ → ℕ × ℕ
stretch_static sarray zero i box = box
stretch_static sarray (suc left) i box =
    stretch_static sarray left (i + 1)
      (if ltb 0 (sarray i) then stretch (sub i static_offset) box else box)

-- `largemodel_minimise`, as (min, max)
unfoldable pub largemodel_minimise : List ℕ → (ℕ → ℕ) → ℕ → ℕ × ℕ
unfolding stretch_keys stretch_static
largemodel_minimise keys sarray sarray_len =
    stretch_static sarray sarray_len 0 (stretch_keys true keys (0, 0))

module _ (lib : HashLib) where
  open lib use {fspacecount}

  unfoldable pub minimize_x : Space lib → ℕ × ℕ
  minimize_x s =
      let lo = s.top_left.x in
      let hi = s.bottom_right.x in
      if slt simplebounds_max (sub hi lo)
      then largemodel_minimise (fspacecount.keys s.col_count) s.use_count_col static_x
      else scan_inward (get_count_col lib s) lo hi

  unfoldable pub minimize_y : Space lib → ℕ × ℕ
  minimize_y s =
      let lo = s.top_left.y in
      let hi = s.bottom_right.y in
      if slt simplebounds_max (sub hi lo)
      then largemodel_minimise (fspacecount.keys s.row_count) s.use_count_row static_y
      else scan_inward (get_count_row lib s) lo hi

  -- `fungespace_minimize_bounds`
  unfoldable pub minimize_bounds : Space lib → Space lib
  minimize_bounds s =
      let (minx, maxx) = minimize_x s in
      let (miny, maxy) = minimize_y s in
      if s.bounds_exact then s else record s {
        top_left = record { x = minx; y = miny };
        bottom_right = record { x = maxx; y = maxy };
        bounds_exact = true;
      }

  -- `fungespace_get_bounds_rect`: the rectangle, and the space with its bounds made exact
  unfoldable pub get_bounds_rect : Space lib → FungeRect × Space lib
  unfolding minimize_bounds
  get_bounds_rect s =
      let t = minimize_bounds s in
      (
        record {
          x = t.top_left.x;
          y = t.top_left.y;
          w = sub t.bottom_right.x t.top_left.x;
          h = sub t.bottom_right.y t.top_left.y;
        },
        t,
      )

-- `fungespace_in_range`, on the corners
unfoldable pub in_range : Vector → Vector → Vector → Bool
in_range top_left bottom_right p =
    if slt bottom_right.x p.x || slt p.x top_left.x || slt bottom_right.y p.y || slt p.y top_left.y
    then false
    else true
