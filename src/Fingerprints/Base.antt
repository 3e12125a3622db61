-- ===== src/Fingerprints/Base.antt =====
-- src/fingerprints/BASE/BASE.c: numbers in other bases. What a function prints is a list of bytes;
-- printf is a parameter. The size of the buffer in N, which comes from logarithms, is left out.
pub mod Laws
mod Tests
use cfunge.Prelude.{
  ℕ, zero, suc, ◌+◌, ◌-◌, ◌/◌, ◌%◌, ◌||◌, Bool, true, false, Option, none, some, List, [], ◌∷◌,
  ◌++◌, ltb, ◌==◌, if◌then◌else◌, length, replicate,
}
use cfunge.Cell.{slt, is_neg}
use cfunge.Stack.{push, pop}
use cfunge.Ip.{Ip, toss, set_toss, reverse}
use cfunge.Input.{Input}
use cfunge.Input.Number.{GetInt, rgi_success, rgi_eof, rgi_noint, read_int}

-- `binary`; each call halves the number, so that 64 calls are enough for a cell.
unfoldable pub binary_digits : ℕ → ℕ → List ℕ
binary_digits zero number = []
binary_digits (suc fuel) number =
    let rest = binary_digits fuel (number / 2) in
    if slt 0 number then rest ++ ((if number % 2 == 1 then b'1' else b'0') ∷ []) else []

-- B
unfoldable pub output_binary : Ip → List ℕ × Ip
unfolding binary_digits
output_binary ip =
    let (x, st) = pop (toss ip) in (binary_digits 65 x ++ (b' ' ∷ []), set_toss st ip)

-- O and H; `print` is printf with their formats.
unfoldable pub output_unsigned : (ℕ → List ℕ) → Ip → List ℕ × Ip
output_unsigned print ip = let (x, st) = pop (toss ip) in (print x ++ (b' ' ∷ []), set_toss st ip)

abbrev pub digit_char : ℕ → ℕ
digit_char d = if ltb d 10 then b'0' + d else b'a' + (d - 10)

-- The two loops of N: `result` is filled from the lowest digit up and printed from the highest down,
-- in front of `printed`.
unfoldable pub digits_onto : ℕ → ℕ → ℕ → List ℕ → List ℕ
digits_onto base zero val printed = printed
digits_onto base (suc fuel) val printed =
    if val == 0
    then printed
    else digits_onto base fuel (val / base) (digit_char (val % base) ∷ printed)

-- What N prints; a cell has at most 63 digits in any base from 2 on.
unfoldable pub printed_in : ℕ → ℕ → List ℕ
unfolding digits_onto
printed_in base val =
    if base == 1
    then replicate val b'0' ++ (b' ' ∷ [])
    else if val == 0
    then b'0' ∷ []
    else digits_onto base 64 val (b' ' ∷ [])

-- N
unfoldable pub output_base : Ip → List ℕ × Ip
unfolding printed_in
output_base ip =
    let (base, s₁) = pop (toss ip) in
    let (val, s₂) = pop s₁ in
    if slt base 1 || slt 36 base || is_neg val
    then ([], reverse (set_toss s₂ ip))
    else (printed_in base val, set_toss s₂ ip)

-- I
unfoldable pub input_base : Ip → Input → Ip × Input
input_base ip i =
    let (base, st) = pop (toss ip) in
    let ip' = set_toss st ip in
    if slt base 1 || slt 36 base
    then (reverse ip', i)
    else elim (read_int base (length i.stdin + 2) i) [
      | none ↦ (ip', i)
      | some (result, j) ↦ elim result [
        | rgi_success a ↦ (set_toss (push a st) ip, j)
        | rgi_eof ↦ (reverse ip', j)
        | rgi_noint ↦ (reverse ip', j)
      ]
    ]
