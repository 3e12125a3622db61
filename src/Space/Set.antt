-- ===== src/Space/Set.antt =====
-- src/funge-space/funge-space.c: writing cells.
pub mod Laws
use cfunge.Prelude.{
  ℕ, Bool, true, false, not, ◌&&◌, ◌||◌, Option, none, some, ltb, ◌==◌, if◌then◌else◌, update,
}
use cfunge.Cell.{add, slt, space}
use cfunge.Vector.{Vector}
use cfunge.Table.{HashLib}
use cfunge.Space.{Space, in_static, static_index}
use cfunge.Space.Count.{count}

module _ (lib : HashLib) where
  open lib use {fspace}

  unfoldable pub set_static : ℕ → Vector → Space lib → Space lib
  set_static value p s =
      let i = static_index p in
      let prev = s.cells i in
      let t = record s { cells = update s.cells i value } in
      if not (value == prev) && (prev == space || value == space)
      then count lib (not (value == space)) p t
      else t

  -- `none` is the exit by DIAG_FATAL_LOC: the table refuses a key that it was just asked for.
  unfoldable pub set_hashed : ℕ → Vector → Space lib → Option (Space lib)
  set_hashed value p s = elim (fspace.get s.entries p) [
    | none ↦ if value == space then some s else elim (fspace.insert s.entries p value) [
      | none ↦ none
      | some t ↦ some (count lib true p (record s { entries = t }))
    ]
    | some prev ↦
        if value == space
        then some (count lib false p (record s { entries = fspace.remove s.entries p }))
        else some (record s { entries = fspace.assign s.entries p value })
  ]

  -- `fungespace_set_no_bounds_update`
  unfoldable pub set_no_bounds_update : ℕ → Vector → Space lib → Option (Space lib)
  set_no_bounds_update value p s =
      if in_static p then some (set_static value p s) else set_hashed value p s

  -- The box grown by a position. The four tests of the source touch different coordinates.
  unfoldable pub grow_bounds : Vector → Space lib → Space lib
  grow_bounds p s = record s {
    bottom_right = record {
      x = if slt s.bottom_right.x p.x then p.x else s.bottom_right.x;
      y = if slt s.bottom_right.y p.y then p.y else s.bottom_right.y;
    };
    top_left = record {
      x = if slt p.x s.top_left.x then p.x else s.top_left.x;
      y = if slt p.y s.top_left.y then p.y else s.top_left.y;
    };
  }

  -- `fungespace_set`
  unfoldable pub set : ℕ → Vector → Space lib → Option (Space lib)
  set value p s = set_no_bounds_update value p (if not (value == space) then grow_bounds p s else s)

  -- `fungespace_set_initial`
  unfoldable pub set_initial : ℕ → Vector → Space lib → Option (Space lib)
  set_initial value p s = set_no_bounds_update value p (
      if s.bounds_valid
      then grow_bounds p s
      else record s { top_left = p; bottom_right = p; bounds_valid = true })

  -- `fungespace_set_offset`
  unfoldable pub set_offset : ℕ → Vector → Vector → Space lib → Option (Space lib)
  set_offset value p offset s = set value (record { x = add p.x offset.x; y = add p.y offset.y }) s
