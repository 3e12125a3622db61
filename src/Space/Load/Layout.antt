-- ===== src/Space/Load/Layout.antt =====
-- Where the bytes of a text stand, said without the loop: first the line ends are made one, then
-- each line is a row.
use cfunge.Prelude.{
  ℕ, Bool, true, false, not, ◌&&◌, Option, none, some, List, [], ◌∷◌, ◌==◌, if◌then◌else◌,
}
use cfunge.Cell.{space}
use cfunge.Vector.{Vector, same_vector}
use cfunge.Space.Load.{line_feed, feeds, returns, ends, other, kind, next_line, next_column}

-- A text with line feeds for all line ends and without form feeds; the flag tells that a carriage
-- return stands before it, with which a line feed is one line end.
abbrev pub unix : Bool → List ℕ → List ℕ
unix after_cr [] = []
unix after_cr (c ∷ cs) = elim (kind c) [
  | feeds ↦ unix after_cr cs
  | returns ↦ line_feed ∷ unix true cs
  | ends ↦ elim after_cr [ true ↦ unix false cs | false ↦ line_feed ∷ unix false cs ]
  | other ↦ c ∷ unix false cs
]

abbrev pub or_else : Option ℕ → Option ℕ → Option ℕ
or_else none o = o
or_else (some v) o = some v

-- What a text with line feeds puts at `q`, if its first byte stands at `p` and a position is moved
-- by `at`.
abbrev pub placed : (Vector → Vector) → List ℕ → Vector → Vector → Option ℕ
placed at [] p q = none
placed at (c ∷ cs) p q =
    let rest = placed at cs (if c == line_feed then next_line p else next_column p) q in
    or_else rest
      (if not (c == line_feed) && not (c == space) && same_vector (at p) q then some c else none)
