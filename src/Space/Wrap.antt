-- ===== src/Space/Wrap.antt =====
-- src/funge-space/funge-space.c: wrapping round the edges of the bounding box.
pub mod Cardinal
use cfunge.Prelude.{
  ℕ, ◌+◌, ◌*◌, ◌%◌, ◌^◌, Bool, true, false, not, ◌&&◌, ◌||◌, ltb, ◌==◌, if◌then◌else◌,
}
use cfunge.Cell.{add, sub, mul, slt, quot, rem}
use cfunge.Vector.{Vector, is_cardinal}
use cfunge.Table.{HashLib}
use cfunge.Space.{Space, simplebounds_max}
use cfunge.Space.Bounds.{minimize_bounds, in_range}

unfoldable pub wrap_frac : ℕ → ℕ → ℕ
wrap_frac n d = if rem n d == 0 then quot n d else quot (add n d) d

unfoldable pub wrap_frac_dir : ℕ → ℕ → ℕ → ℕ → ℕ
wrap_frac_dir a r s da = if slt 0 da then wrap_frac (sub a r) da else wrap_frac (sub a s) da

-- `wrap` of a position, between two corners
unfoldable pub wrap : Vector → Vector → Vector → Vector → Vector
wrap top_left bottom_right delta pos =
    let fx = wrap_frac_dir pos.x top_left.x bottom_right.x delta.x in
    let fy = wrap_frac_dir pos.y top_left.y bottom_right.y delta.y in
    let m =
      if delta.x == 0 then fy else if delta.y == 0 then fx else if slt fx fy then fx else fy in
    if delta.x == 0 && delta.y == 0
    then pos
    else record { x = sub pos.x (mul m delta.x); y = sub pos.y (mul m delta.y) }

-- One coordinate of the quick way for cardinal deltas: just outside the opposite edge.
unfoldable pub wrap_edge : ℕ → ℕ → ℕ → ℕ
wrap_edge lo hi a = if slt a lo then add hi 1 else if slt hi a then sub lo 1 else a

unfoldable pub wrap_in : Vector → Vector → Vector → Vector → Vector
wrap_in top_left bottom_right delta pos =
    if not (in_range top_left bottom_right pos)
    then if is_cardinal delta
      then record {
        x = wrap_edge top_left.x bottom_right.x pos.x;
        y = wrap_edge top_left.y bottom_right.y pos.y;
      }
      else wrap top_left bottom_right delta pos
    else pos

module _ (lib : HashLib) where
  -- BOUNDS_TOO_LARGE in either dimension
  abbrev pub bounds_too_large : Space lib → Bool
  bounds_too_large s =
      slt simplebounds_max (sub s.bottom_right.x s.top_left.x)
      || slt simplebounds_max (sub s.bottom_right.y s.top_left.y)

  -- The space that the wrapping looks at: its bounds are made exact if they are large.
  unfoldable pub wrap_bounds : Space lib → Space lib
  wrap_bounds s = if not s.bounds_exact && bounds_too_large s then minimize_bounds lib s else s

  -- `fungespace_wrap`
  unfoldable pub fungespace_wrap : Vector → Vector → Space lib → Vector × Space lib
  unfolding wrap_in
  fungespace_wrap pos delta s =
      let t = wrap_bounds s in (wrap_in t.top_left t.bottom_right delta pos, t)
