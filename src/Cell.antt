-- ===== src/Cell.antt =====
-- src/global.h, src/division.h: a `funge_cell` is an `int64_t`, held here by its bit pattern, a
-- number below 2 ^ 64. Signed arithmetic wraps, where C leaves an overflow undefined; a cast to
-- `funge_unsigned_cell` changes nothing.
pub mod Laws
mod Tests
use mathlib.Core.Bool.{xor}
use cfunge.Prelude.{
  ℕ, ◌+◌, ◌-◌, ◌*◌, ◌/◌, ◌%◌, ◌^◌, ◌<◌, Bool, not, ◌&&◌, ltb, leb, ◌==◌, if◌then◌else◌,
}

abbrev pub cell_mod : ℕ
cell_mod = 2 ^ 64

-- FUNGECELL_MIN, FUNGECELL_MAX and -1
abbrev pub cell_min : ℕ
cell_min = 2 ^ 63

abbrev pub cell_max : ℕ
cell_max = 2 ^ 63 - 1

abbrev pub minus_one : ℕ
minus_one = 2 ^ 64 - 1

abbrev pub space : ℕ
space = b' '

abbrev pub IsCell : ℕ → Type 0
IsCell a = a < cell_mod

abbrev pub add : ℕ → ℕ → ℕ
add a b = (a + b) % 2 ^ 64

abbrev pub sub : ℕ → ℕ → ℕ
sub a b = (a + 2 ^ 64 - b) % 2 ^ 64

abbrev pub neg : ℕ → ℕ
neg a = (2 ^ 64 - a) % 2 ^ 64

unfoldable pub mul : ℕ → ℕ → ℕ
mul a b = a * b % 2 ^ 64

abbrev pub is_neg : ℕ → Bool
is_neg a = leb (2 ^ 63) a

-- `a < b` on signed cells: the order of the patterns moved by 2 ^ 63
abbrev pub slt : ℕ → ℕ → Bool
slt a b = ltb ((a + 2 ^ 63) % 2 ^ 64) ((b + 2 ^ 63) % 2 ^ 64)

abbrev pub sle : ℕ → ℕ → Bool
sle a b = leb ((a + 2 ^ 63) % 2 ^ 64) ((b + 2 ^ 63) % 2 ^ 64)

-- The magnitude, as `ABS` cast to unsigned gives it; `llabs(INT64_MIN)` comes back as its pattern.
unfoldable pub abs : ℕ → ℕ
abs a = if is_neg a then neg a else a

-- A magnitude with a sign; `true` is minus.
abbrev pub signed : Bool → ℕ → ℕ
signed minus m = if minus then neg m else m

-- C's `/` and `%` on a divisor that is not 0: the quotient is cut towards 0, and the remainder
-- has the dividend's sign.
unfoldable pub quot : ℕ → ℕ → ℕ
quot a b = signed (xor (is_neg a) (is_neg b)) (abs a / abs b)

unfoldable pub rem : ℕ → ℕ → ℕ
rem a b = signed (is_neg a) (abs a % abs b)

unfoldable pub funge_division : ℕ → ℕ → ℕ
funge_division numerator denominator =
    if denominator == 0
    then 0
    else if numerator == cell_min && denominator == minus_one
    then cell_min
    else quot numerator denominator

unfoldable pub funge_modulo : ℕ → ℕ → ℕ
funge_modulo numerator denominator =
    if denominator == 0
    then 0
    else if numerator == cell_min && denominator == minus_one
    then 0
    else rem numerator denominator
