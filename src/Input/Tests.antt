-- ===== src/Input/Tests.antt =====
-- Reading from lines of input.
use cfunge.Prelude.{ℕ, ◌≡◌, refl, arith, some, none, List, [], ◌∷◌}
use cfunge.Input.{Input, input_getchar, input_getline}
use cfunge.Input.Number.{rgi_success, parse_int, input_getint, read_int}
use cfunge.Input.Laws.{Parsed, parse_int-Parsed}
use cfunge.Input.Loop.{pending, Answered, read_int_lem}

-- "ab", a newline, "x12 3", a newline
abbrev two_lines : Input
two_lines = record {
  line = [];
  current = none;
  stdin = b'a' ∷ b'b' ∷ b'\n' ∷ b'x' ∷ b'1' ∷ b'2' ∷ b' ' ∷ b'3' ∷ b'\n' ∷ [];
}

first_char : (input_getchar two_lines).0 ≡ some b'a'
unfolding input_getchar cfunge.Input.get_line cfunge.Input.cf_getline
first_char = refl

rest_of_line : (input_getline (input_getchar two_lines).1).0 ≡ some (b'b' ∷ b'\n' ∷ [])
unfolding input_getline cfunge.Input.get_line input_getchar cfunge.Input.cf_getline
    cfunge.Input.before_zero
rest_of_line = refl

number_in_second_line :
    read_int 10 3 two_lines
    ≡ some (
      rgi_success 12,
      record { line = b'x' ∷ b'1' ∷ b'2' ∷ b' ' ∷ b'3' ∷ b'\n' ∷ []; current = some 3; stdin = [] },
    )
unfolding read_int input_getint cfunge.Input.get_line cfunge.Input.cf_getline
    cfunge.Input.Number.starts_number cfunge.Input.Number.digit_index
number_in_second_line = refl

-- A hexadecimal digit in upper case starts a number and is no digit of it: it is read as 0, and
-- stays where it is.
abbrev upper_case : Input
upper_case = record { line = b'A' ∷ b'1' ∷ b'\n' ∷ []; current = some 0; stdin = [] }

stays_there : input_getint 16 upper_case ≡ (rgi_success 0, upper_case)
unfolding input_getint cfunge.Input.get_line cfunge.Input.Number.starts_number
    cfunge.Input.Number.digit_index
stays_there = refl

abbrev digits : List ℕ
digits = b'4' ∷ b'2' ∷ b'z' ∷ []

parse_int-Parsed_example : Parsed 10 4 digits 0 (parse_int 10 4 digits 0)
parse_int-Parsed_example = parse_int-Parsed 10 4 digits 0 (omega arith) (omega arith) (omega arith)

read_int_example : Answered 10 (pending two_lines) (read_int 10 11 two_lines)
read_int_example = read_int_lem 10 (omega arith) (omega arith) 11 two_lines (omega arith)
