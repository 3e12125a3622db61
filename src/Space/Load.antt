-- ===== src/Space/Load.antt =====
-- src/funge-space/funge-space.c: loading a text into Funge-Space. What `do_mmap` maps is the list of
-- the file's bytes.
pub mod Layout
pub mod Text
pub mod Lines
pub mod Program
mod Tests
use cfunge.Prelude.{
  ℕ, Bool, true, false, not, Option, none, some, ◌>>=◌, List, [], ◌∷◌, ◌==◌, if◌then◌else◌,
}
use cfunge.Cell.{add, slt, space}
use cfunge.Vector.{Vector}
use cfunge.Table.{HashLib}
use cfunge.Space.{Space}
use cfunge.Space.Set.{set, set_initial, set_offset}

abbrev pub form_feed : ℕ
form_feed = 12

abbrev pub line_feed : ℕ
line_feed = 10

abbrev pub carriage_return : ℕ
carriage_return = 13

-- The cases of the switch on a byte; a space is one of `other`.
pub data Kind : Type 0 where
  feeds returns ends other : Kind

unfoldable pub kind : ℕ → Kind
kind c =
    if c == form_feed
    then feeds
    else if c == carriage_return
    then returns
    else if c == line_feed
    then ends
    else other

-- The local variables of the loops. `width` is size->x, which the initial load does not have.
pub record Cursor : Type 0 where
  pub last_was_cr : Bool
  pub pos : Vector
  pub width : ℕ

abbrev pub next_line : Vector → Vector
next_line p = record { x = 0; y = add p.y 1 }

abbrev pub next_column : Vector → Vector
next_column p = record { x = add p.x 1; y = p.y }

-- `if (pos > size) size = pos`
abbrev pub wider : ℕ → ℕ → ℕ
wider size pos = if slt size pos then pos else size

-- FUNGE_INITIAL_NEWLINE and FUNGE_OFFSET_NEWLINE
unfoldable pub newline : Cursor → Cursor
newline k = record k { pos = next_line k.pos; width = wider k.width k.pos.x }

-- A carriage return before a byte that does not continue it ends the line.
unfoldable pub end_line : Cursor → Cursor
unfolding newline
end_line k = if k.last_was_cr then record (newline k) { last_was_cr = false } else k

abbrev pub start : Cursor
start = record { last_was_cr = false; pos = record { x = 0; y = 0 }; width = 0 }

module _ (lib : HashLib) (write : ℕ → Vector → Space lib → Option (Space lib)) where
  -- The step of the cases `default` and ' ': the byte is written unless it is a space.
  unfoldable pub place : ℕ → Cursor → Space lib → Option (Cursor × Space lib)
  place c k s = do
    t ← if c == space then some s else write c k.pos s
    some (record k { pos = next_column k.pos }, t)

  -- The body of the loops over the bytes in `fungespace_load_string` and, for a text,
  -- `fungespace_load_at_offset`.
  unfoldable pub load_byte : ℕ → Cursor → Space lib → Option (Cursor × Space lib)
  unfolding newline
  load_byte c k s = elim (kind c) [
    | feeds ↦ some (k, s)
    | returns ↦ some (record (if k.last_was_cr then newline k else k) { last_was_cr = true }, s)
    | ends ↦ some (record (newline k) { last_was_cr = false }, s)
    | other ↦ place c (end_line k) s
  ]

  unfoldable pub load_bytes : List ℕ → Cursor → Space lib → Option (Cursor × Space lib)
  load_bytes [] k s = some (k, s)
  load_bytes (c ∷ cs) k s = load_byte c k s >>= λ (r : Cursor × Space lib). load_bytes cs r.0 r.1

module _ (lib : HashLib) where
  -- `fungespace_load_string`
  unfoldable pub load_string : List ℕ → Space lib → Option (Space lib)
  load_string program s =
      load_bytes lib (set_initial lib) program start s >>= λ (r : Cursor × Space lib). some r.1

  -- `fungespace_load`: false, where the file cannot be mapped, leaves the space alone.
  unfoldable pub load : Option (List ℕ) → Space lib → Option (Bool × Space lib)
  load none s = some (false, s)
  load (some bytes) s = load_string bytes s >>= λ (t : Space lib). some (true, t)

  unfoldable pub load_binary : List ℕ → Vector → Space lib → Option (Vector × Space lib)
  load_binary [] p s = some (p, s)
  load_binary (c ∷ cs) p s =
      (if not (c == space) then set lib c p s else some s) >>= λ (t : Space lib).
      load_binary cs (next_column p) t

  -- `fungespace_load_at_offset`: whether it succeeds, the size, and the space
  unfoldable pub load_at_offset :
      Option (List ℕ) → Vector → Bool → Vector → Space lib → Option (Bool × Vector × Space lib)
  load_at_offset none offset binary size s = some (false, size, s)
  load_at_offset (some []) offset binary size s = some (true, record { x = 0; y = 0 }, s)
  load_at_offset (some bytes) offset true size s = do
    (p, t) ← load_binary bytes offset s
    some (true, record { x = wider 0 p.x; y = wider 0 p.y }, t)
  load_at_offset (some bytes) offset false size s = do
    (k, t) ← load_bytes lib (λ c p. set_offset lib c p offset) bytes start s
    let y = if k.last_was_cr then add k.pos.y 1 else k.pos.y
    some (true, record { x = wider k.width k.pos.x; y = wider 0 y }, t)
