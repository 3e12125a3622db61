-- ===== src/Fingerprints/Base/Laws.antt =====
-- src/fingerprints/BASE/BASE.c and src/input.c: what N prints, read as a number.
use native.Mathlib.Nat.{
  div-add-mod', pow-suc, mul-le-mul_left, mod-lt, div-lt_iff_lt-mul, div-le_self, le-div_iff_mul-le,
  div-mul-le_self,
}
use cfunge.Prelude.{
  ℕ, zero, suc, ◌+◌, ◌-◌, ◌*◌, ◌/◌, ◌%◌, ◌^◌, ◌≤◌, ◌<◌, ◌≡◌, refl, sym, ap, ◌∙◌, arith, true, false,
  some, List, [], ◌∷◌, ltb, ◌==◌, if◌then◌else◌, length, Bool-cases, inl, inr,
}
use cfunge.Cell.{cell_max}
use cfunge.Input.Number.{
  digit_below, digit_index, parse_int, starts_number, find_number, input_getint, rgi_success,
}
use cfunge.Input.Laws.{input_getint-first}
use cfunge.Fingerprints.Base.{digit_char, digits_onto, printed_in}

digit_below-digit_char :
    (base d : ℕ) → base ≤ 36 → d < base → digit_below base (digit_char d) ≡ some d
unfolding digit_below digit_index
digit_below-digit_char base d most h = ground arith

-- One round on the lowest digit of a number.
parse_digit :
    (base left val : ℕ) (printed : List ℕ)
    → 1 < base
    → base ≤ 36
    → val ≤ cell_max
    → parse_int base (suc left) (digit_char (val % base) ∷ printed) (val / base)
      ≡ (let (more, value) = parse_int base left printed val in (suc more, value))
unfolding parse_int
parse_digit base left val printed more_than_one most h =
    rw
      (
        small_quotient,
        digit_below-digit_char base (val % base) most (mod-lt val (omega arith)),
        no_overflow,
        div-add-mod' val base,
      )
      refl
  where
    pos : 0 < base
    pos = omega arith

    small_quotient : ltb (cell_max / base) (val / base) ≡ false
    small_quotient =
        let le =
          (le-div_iff_mul-le {k = base} {x = val / base} {y = cell_max} pos).1
            (omega (arith, div-mul-le_self val base)) in
        ground (arith, le)

    no_overflow : ltb (cell_max - val % base) (val / base * base) ≡ false
    no_overflow = ground (arith, div-add-mod' val base)

-- The number of digits of a number.
pub count_digits : ℕ → ℕ → ℕ → ℕ
count_digits base zero val = 0
count_digits base (suc fuel) val =
    let rest = count_digits base fuel (val / base) in if val == 0 then 0 else suc rest

shift_pair : (n : ℕ) (r : ℕ × ℕ) → ℕ × ℕ
shift_pair n (taken, value) = (n + taken, value)

shift_zero : (r : ℕ × ℕ) → r ≡ shift_pair 0 r
unfolding shift_pair
shift_zero (taken, value) = ap (λ n. (n, value)) (omega arith)

shift_suc : (n : ℕ) (r : ℕ × ℕ) → shift_pair n (suc r.0, r.1) ≡ shift_pair (suc n) r
unfolding shift_pair
shift_suc n (taken, value) = ap (λ m. (m, value)) (omega arith)

nothing_to_read :
    (base left val : ℕ) (printed : List ℕ)
    → val ≡ 0
    → parse_int base (0 + left) printed 0 ≡ shift_pair 0 (parse_int base left printed val)
nothing_to_read base left val printed e =
    shift_zero (parse_int base (0 + left) printed 0)
    ∙ ap (λ n. shift_pair 0 (parse_int base n printed 0)) (omega arith)
    ∙ ap (λ v. shift_pair 0 (parse_int base left printed v)) (sym e)

add_suc : (n m : ℕ) → suc n + m ≡ n + suc m
add_suc n m = omega arith

half : (val base fuel : ℕ) → 1 < base → val < 2 ^ suc fuel → val / base < 2 ^ fuel
half val base fuel h enough =
    (div-lt_iff_lt-mul {k = base} {x = val} {y = 2 ^ fuel} (omega arith)).1
      (omega (arith, enough, pow-suc 2 fuel, mul-le-mul_left (2 ^ fuel) h))

parse_int-digits_onto :
    (base fuel left val : ℕ) (printed : List ℕ)
    → 1 < base
    → base ≤ 36
    → val ≤ cell_max
    → val < 2 ^ fuel
    → parse_int base (count_digits base fuel val + left) (digits_onto base fuel val printed) 0
      ≡ shift_pair (count_digits base fuel val) (parse_int base left printed val)
unfolding digits_onto count_digits shift_pair
parse_int-digits_onto base zero left val printed more most h enough =
    nothing_to_read base left val printed (omega arith)
parse_int-digits_onto base (suc fuel) left val printed more most h enough =
    elim (Bool-cases (val == 0)) [
      | inl e ↦ rw e (nothing_to_read base left val printed (ground arith))
      | inr e ↦
          let n = count_digits base fuel (val / base) in
          let low = digit_char (val % base) ∷ printed in
          rw e (
            ap (λ m. parse_int base m (digits_onto base fuel (val / base) low) 0) (add_suc n left)
            ∙ parse_int-digits_onto base fuel (suc left) (val / base) low more most
                (omega (arith, h, div-le_self val base)) (half val base fuel more enough)
            ∙ ap (shift_pair n) (parse_digit base left val printed more most h)
            ∙ shift_suc n (parse_int base left printed val))
    ]

starts_number-digit_char :
    (base d : ℕ) → base ≤ 36 → d < base → starts_number base (digit_char d) ≡ true
unfolding starts_number digit_below digit_index
starts_number-digit_char base d most h = ground arith

found_at_once :
    (base d : ℕ) (cs : List ℕ)
    → base ≤ 36
    → d < base
    → find_number base (digit_char d ∷ cs) ≡ some (digit_char d ∷ cs)
unfolding find_number
found_at_once base d cs most h = rw (starts_number-digit_char base d most h) refl

find_number-digits_onto :
    (base fuel val : ℕ) (printed : List ℕ)
    → 1 < base
    → base ≤ 36
    → find_number base printed ≡ some printed
    → find_number base (digits_onto base fuel val printed)
      ≡ some (digits_onto base fuel val printed)
unfolding digits_onto
find_number-digits_onto base zero val printed more most h = h
find_number-digits_onto base (suc fuel) val printed more most h = elim (Bool-cases (val == 0)) [
  | inl e ↦ rw e h
  | inr e ↦ rw e (
      find_number-digits_onto base fuel (val / base) (digit_char (val % base) ∷ printed) more most
        (found_at_once base (val % base) printed most (mod-lt val (omega arith))))
]

find_number-printed_in :
    (base val : ℕ)
    → 1 < base
    → base ≤ 36
    → find_number base (printed_in base val) ≡ some (printed_in base val)
unfolding printed_in digits_onto
find_number-printed_in base val more most = elim (Bool-cases (val == 0)) [
  | inl e ↦ rw (not_one, e) (found_at_once base 0 [] most (omega arith))
  | inr e ↦
      rw (not_one, e)
        (find_number-digits_onto base 63 (val / base) (digit_char (val % base) ∷ b' ' ∷ []) more
          most (found_at_once base (val % base) (b' ' ∷ []) most (mod-lt val (omega arith))))
]
  where
    not_one : (base == 1) ≡ false
    not_one = ground arith

length-digits_onto :
    (base fuel val : ℕ) (printed : List ℕ)
    → length (digits_onto base fuel val printed) ≡ count_digits base fuel val + length printed
unfolding digits_onto count_digits
length-digits_onto base zero val printed = omega arith
length-digits_onto base (suc fuel) val printed = elim (Bool-cases (val == 0)) [
  | inl e ↦ rw e (omega arith)
  | inr e ↦
      rw e (
        omega
          (arith, length-digits_onto base fuel (val / base) (digit_char (val % base) ∷ printed)))
]

at_space : (base left val : ℕ) → (parse_int base (suc left) (b' ' ∷ []) val).1 ≡ val
unfolding parse_int digit_below digit_index
at_space base left val = ground arith

shifted_value : (n : ℕ) (r : ℕ × ℕ) → (shift_pair n r).1 ≡ r.1
unfolding shift_pair
shifted_value n (taken, value) = refl

parse_int-digits :
    (base fuel val : ℕ)
    → 1 < base
    → base ≤ 36
    → val ≤ cell_max
    → val < 2 ^ fuel
    → (let printed = digits_onto base fuel val (b' ' ∷ []) in
        (parse_int base (length printed + 1) printed 0).1)
      ≡ val
parse_int-digits base fuel val more most h enough =
    let printed = digits_onto base fuel val (b' ' ∷ []) in
    let n = count_digits base fuel val in
    ap (λ m. (parse_int base m printed 0).1)
      (omega (arith, length-digits_onto base fuel val (b' ' ∷ [])))
    ∙ ap (λ r. r.1) (parse_int-digits_onto base fuel 2 val (b' ' ∷ []) more most h enough)
    ∙ shifted_value n (parse_int base 2 (b' ' ∷ []) val)
    ∙ at_space base 1 val

parse_zero : (base : ℕ) → 1 < base → base ≤ 36 → (parse_int base 2 (b'0' ∷ []) 0).1 ≡ 0
unfolding parse_int digit_below digit_index
parse_zero base more most = ground arith

parse_int-printed_in :
    (base val : ℕ)
    → 1 < base
    → base ≤ 36
    → val ≤ cell_max
    → (parse_int base (length (printed_in base val) + 1) (printed_in base val) 0).1 ≡ val
unfolding printed_in
parse_int-printed_in base val more most h = elim (Bool-cases (val == 0)) [
  | inl e ↦
      ap (λ l. (parse_int base (length l + 1) l 0).1) (printed_zero e)
      ∙ parse_zero base more most
      ∙ (ground arith)
  | inr e ↦
      ap (λ l. (parse_int base (length l + 1) l 0).1) (printed_other e)
      ∙ parse_int-digits base 64 val more most h (omega arith)
]
  where
    not_one : (base == 1) ≡ false
    not_one = ground arith

    printed_zero : (val == 0) ≡ true → printed_in base val ≡ b'0' ∷ []
    printed_zero e = rw (printed_in, not_one, e) refl

    printed_other : (val == 0) ≡ false → printed_in base val ≡ digits_onto base 64 val (b' ' ∷ [])
    printed_other e = rw (printed_in, not_one, e) refl

-- A number below 2 ^ 63 that N prints in a base from 2 to 36 is read by input_getint in the same
-- base as that number.
pub input_getint-printed_in :
    (base val : ℕ) (stdin : List ℕ)
    → 1 < base
    → base ≤ 36
    → val ≤ cell_max
    → (input_getint base (record { line = printed_in base val; current = some 0; stdin = stdin })).0
      ≡ rgi_success val
input_getint-printed_in base val stdin more most h =
    input_getint-first base (printed_in base val) stdin (find_number-printed_in base val more most)
    ∙ ap rgi_success (parse_int-printed_in base val more most h)
