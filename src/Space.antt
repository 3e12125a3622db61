-- ===== src/Space.antt =====
-- src/funge-space/funge-space.c, built with exact bounds: a static array near the origin, a hash
-- table for the rest, the use counts of columns and rows, and the bounding box.
pub mod Count
pub mod Set
pub mod Bounds
pub mod Wrap
pub mod Load
pub mod Save
mod Tests
use cfunge.Prelude.{ℕ, ◌+◌, ◌*◌, Bool, true, false, ◌&&◌, Option, none, some, ltb, if◌then◌else◌}
use cfunge.Cell.{add, space}
use cfunge.Vector.{Vector}
use cfunge.Table.{HashLib}

abbrev pub static_offset : ℕ
static_offset = 64

abbrev pub static_x : ℕ
static_x = 512

abbrev pub static_y : ℕ
static_y = 1024

abbrev pub simplebounds_max : ℕ
simplebounds_max = 0x10000

-- The coordinate of the array for a coordinate of Funge-Space.
abbrev pub static_coord : ℕ → ℕ
static_coord a = add a static_offset

abbrev pub in_static : Vector → Bool
in_static p = ltb (static_coord p.x) static_x && ltb (static_coord p.y) static_y

abbrev pub static_index : Vector → ℕ
static_index p = static_coord p.x + static_coord p.y * static_x

module _ (lib : HashLib) where
  open lib use {fspace, fspacecount}

  pub record Space : Type 0 where
    pub cells : ℕ → ℕ  -- cfun_static_space
    pub use_count_col : ℕ → ℕ
    pub use_count_row : ℕ → ℕ
    pub entries : fspace.Carrier
    pub col_count : fspacecount.Carrier
    pub row_count : fspacecount.Carrier
    pub top_left : Vector
    pub bottom_right : Vector
    pub bounds_exact : Bool
    pub bounds_valid : Bool

  abbrev origin : Vector
  origin = record { x = 0; y = 0 }

  unfoldable pub create : Space
  create = record {
    cells = λ _. space;
    use_count_col = λ _. 0;
    use_count_row = λ _. 0;
    entries = fspace.empty;
    col_count = fspacecount.empty;
    row_count = fspacecount.empty;
    top_left = origin;
    bottom_right = origin;
    bounds_exact = true;
    bounds_valid = false;
  }

  abbrev pub or_space : Option ℕ → ℕ
  or_space none = space
  or_space (some v) = v

  abbrev pub look : (ℕ → ℕ) → fspace.Carrier → Vector → ℕ
  look cells entries p =
      if in_static p then cells (static_index p) else or_space (fspace.get entries p)

  -- `fungespace_get`
  unfoldable pub get : Space → Vector → ℕ
  get s p = look s.cells s.entries p

  -- `fungespace_get_offset`
  unfoldable pub get_offset : Space → Vector → Vector → ℕ
  unfolding get
  get_offset s p offset = get s (record { x = add p.x offset.x; y = add p.y offset.y })
