-- ===== src/Input.antt =====
-- src/input.c: characters, lines and numbers from standard input, by way of a buffer of one line;
-- and cf_getline of src/support.c. Memory for the buffer is always there.
pub mod Number
pub mod Loop
pub mod Laws
mod Tests
use cfunge.Prelude.{
  ℕ, zero, suc, ◌+◌, ◌-◌, ◌*◌, ◌/◌, ◌%◌, ◌^◌, Bool, true, false, not, ◌&&◌, ◌||◌, Option, none,
  some, List, [], ◌∷◌, ltb, leb, ◌==◌, if◌then◌else◌, get_or, length, drop,
}

-- `line` holds the `linelength` bytes of `lastline`, behind which a 0 stands; `current` is the
-- index of `lastline_current`, and `none` is NULL; `stdin` is what there is still to read.
pub record Input : Type 0 where
  pub line : List ℕ
  pub current : Option ℕ
  pub stdin : List ℕ

-- `cf_getline`: the bytes up to a newline, which is one of them, and the rest.
unfoldable pub cf_getline : List ℕ → List ℕ × List ℕ
cf_getline [] = ([], [])
cf_getline (c ∷ cs) =
    let (line, rest) = cf_getline cs in if c == b'\n' then (c ∷ [], cs) else (c ∷ line, rest)

abbrev pub next_line : List ℕ → Option Input
next_line [] = none
next_line (c ∷ cs) =
    let (line, rest) = cf_getline (c ∷ cs) in
    some (record { line = line; current = some 0; stdin = rest })

-- The index of the next byte, if the buffer has one.
abbrev pub unread_at : Input → Option ℕ
unread_at i = elim i.current [
  | none ↦ none
  | some at ↦ if leb (length i.line) at then none else some at
]

-- `get_line`; `none` is `false`, the end of the input.
unfoldable pub get_line : Input → Option Input
get_line i = elim (unread_at i) [ none ↦ next_line i.stdin | some at ↦ some i ]

unfoldable pub discard_line : Input → Input
discard_line i = record { line = []; current = none; stdin = i.stdin }

abbrev at_or_zero : Option ℕ → ℕ
at_or_zero none = 0
at_or_zero (some at) = at

abbrev pub position : Input → ℕ
position i = at_or_zero i.current

abbrev move_to : ℕ → Input → Input
move_to at i = if leb (length i.line) at then discard_line i else record i { current = some at }

-- `input_getchar`; a result `none` is `false`.
unfoldable pub input_getchar : Input → Option ℕ × Input
unfolding discard_line
input_getchar i = elim (get_line i) [
  | none ↦ (none, i)
  | some j ↦ (some (get_or j.line (position j) 0), move_to (position j + 1) j)
]

-- What `strdup` copies: the bytes before the first 0.
unfoldable pub before_zero : List ℕ → List ℕ
before_zero [] = []
before_zero (c ∷ cs) = if c == 0 then [] else c ∷ before_zero cs

-- `input_getline`
unfoldable pub input_getline : Input → Option (List ℕ) × Input
input_getline i = elim (get_line i) [
  | none ↦ (none, i)
  | some j ↦ (some (before_zero (drop (position j) j.line)), discard_line j)
]
