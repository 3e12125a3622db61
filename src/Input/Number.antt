-- ===== src/Input/Number.antt =====
-- src/input.c: reading a number in a base.
use cfunge.Prelude.{
  ℕ, zero, suc, ◌+◌, ◌-◌, ◌*◌, ◌/◌, Bool, true, false, ◌&&◌, ◌||◌, Option, none, some, List, [],
  ◌∷◌, ltb, leb, ◌==◌, if◌then◌else◌, get_or, length, drop,
}
use cfunge.Cell.{cell_max}
use cfunge.Input.{Input, get_line, discard_line, position}

abbrev between : ℕ → ℕ → ℕ → Bool
between low high c = leb low c && leb c high

-- `strchr(digits, c) - digits`, which finds the 0 that ends the string, too
unfoldable pub digit_index : ℕ → Option ℕ
digit_index c =
    if between b'0' b'9' c
    then some (c - b'0')
    else if between b'a' b'z' c
    then some (c - b'a' + 10)
    else if c == 0
    then some 36
    else none

unfoldable pub digit_below : ℕ → ℕ → Option ℕ
digit_below base c = elim (digit_index c) [
  | none ↦ none
  | some d ↦ if leb base d then none else some d
]

-- The loop of `parse_int` with `left` rounds to go: how many digits it takes, and the number.
unfoldable pub parse_int : ℕ → ℕ → List ℕ → ℕ → ℕ × ℕ
unfolding digit_below
parse_int base zero s result = (0, result)
parse_int base (suc left) s result =
    if ltb (cell_max / base) result then (0, result) else elim (digit_below base (get_or s 0 0)) [
      | none ↦ (0, result)
      | some d ↦
          let (more, value) = parse_int base left (drop 1 s) (result * base + d) in
          if ltb (cell_max - d) (result * base) then (0, result) else (suc more, value)
    ]

-- `isdigit` and `isxdigit`, and the test for the other bases
unfoldable pub starts_number : ℕ → ℕ → Bool
unfolding digit_below
starts_number base c =
    if base == 10
    then between b'0' b'9' c
    else if base == 16
    then between b'0' b'9' c || between b'A' b'F' c || between b'a' b'f' c
    else elim (digit_below base c) [ none ↦ false | some d ↦ true ]

-- The bytes from the first one on that starts a number; the 0 behind a line starts none.
unfoldable pub find_number : ℕ → List ℕ → Option (List ℕ)
find_number base [] = none
find_number base (c ∷ cs) = if starts_number base c then some (c ∷ cs) else find_number base cs

-- `ret_getint`, with the number that it comes with
pub data GetInt : Type 0 where
  rgi_success : ℕ → GetInt
  rgi_eof rgi_noint : GetInt

-- What becomes of the buffer after a number, of which `at` is the end.
unfoldable pub after_number : ℕ → Input → Input
after_number at j =
    let c = get_or j.line at 0 in
    if c == b'\n' || c == b'\r' || leb (length j.line) at
    then discard_line j
    else record j { current = some at }

-- `input_getint` on a buffer that has an unread byte. The number of rounds that `parse_int` gets is
-- as in the source, where it is more than there are bytes.
unfoldable pub getint_from : ℕ → Input → GetInt × Input
unfolding find_number parse_int after_number
getint_from base j = elim (find_number base (drop (position j) j.line)) [
  | none ↦ (rgi_noint, record j { current = none })
  | some found ↦
      let start = length j.line - length found in
      let (taken, value) = parse_int base (start + length j.line + 1) found 0 in
      (rgi_success value, after_number (start + taken) j)
]

-- `input_getint`
unfoldable pub input_getint : ℕ → Input → GetInt × Input
unfolding getint_from
input_getint base i = elim (get_line i) [ none ↦ (rgi_eof, i) | some j ↦ getint_from base j ]

-- The loop of the instruction & and of I in BASE.
unfoldable pub read_int : ℕ → ℕ → Input → Option (GetInt × Input)
read_int base zero i = none
read_int base (suc fuel) i =
    let (result, j) = input_getint base i in
    let again = read_int base fuel j in
    elim result [
      | rgi_noint ↦ again
      | rgi_eof ↦ some (rgi_eof, j)
      | rgi_success v ↦ some (rgi_success v, j)
    ]
