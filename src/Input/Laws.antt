-- ===== src/Input/Laws.antt =====
-- src/input.c: which digits `parse_int` takes, and where it stops.
use native.Mathlib.Nat.{div-lt_iff_lt-mul}
use cfunge.Prelude.{
  false, leb, ℕ, zero, suc, ◌+◌, ◌-◌, ◌*◌, ◌/◌, ◌≤◌, ◌<◌, ◌≡◌, ◌⊎◌, inl, inr, refl, sym, ap, ◌∙◌,
  arith, Option, none, some, List, [], ◌∷◌, ltb, leb, if◌then◌else◌, get_or, length, drop,
  Bool-cases, Option-cases,
}
use cfunge.Cell.{cell_max}
use cfunge.Input.{get_line}
use cfunge.Input.Number.{
  find_number, getint_from, input_getint, rgi_success, digit_below, digit_index, parse_int,
}

-- The number of which a list gives the digits, after `acc`.
abbrev pub number_of : ℕ → ℕ → List ℕ → ℕ
number_of base acc [] = acc
number_of base acc (d ∷ ds) = number_of base (acc * base + d) ds

-- What `parse_int` gives: the number of digits that it takes, and their number.
pub record Parsed (base left : ℕ) (s : List ℕ) (acc : ℕ) (r : ℕ × ℕ) : Type 0 where
  pub digits : List ℕ
  pub taken : length digits ≡ r.0
  pub are_digits : (i : ℕ) → i < r.0 → digit_below base (get_or s i 0) ≡ some (get_or digits i 0)
  pub value : r.1 ≡ number_of base acc digits
  pub fits : r.1 ≤ cell_max
  pub stops :
      (r.0 ≡ left)
      ⊎ ((digit_below base (get_or s r.0 0) ≡ none)
          ⊎ ((d : ℕ) × (digit_below base (get_or s r.0 0) ≡ some d) × (cell_max < r.1 * base + d)))

kept-lt :
    (base d : ℕ) (o : Option ℕ)
    → elim o [ none ↦ none | some i ↦ if leb base i then none else some i ] ≡ some d
    → d < base
kept-lt base d none e = ground arith
kept-lt base d (some i) e = ground arith

digit-lt : (base c d : ℕ) → digit_below base c ≡ some d → d < base
unfolding digit_below
digit-lt base c d e = kept-lt base d (digit_index c) e

get_or-drop : (s : List ℕ) (i : ℕ) → get_or (drop 1 s) i 0 ≡ get_or s (suc i) 0
get_or-drop [] i = refl
get_or-drop (x ∷ s) i = refl

no_digits :
    (base left : ℕ) (s : List ℕ) (acc : ℕ)
    → acc ≤ cell_max
    → (0 ≡ left)
      ⊎ ((digit_below base (get_or s 0 0) ≡ none)
          ⊎ ((d : ℕ) × (digit_below base (get_or s 0 0) ≡ some d) × (cell_max < acc * base + d)))
    → Parsed base left s acc (0, acc)
no_digits base left s acc h stop = record {
  digits = [];
  taken = refl;
  are_digits = λ i less. absurd (omega arith);
  value = refl;
  fits = h;
  stops = stop;
}

one_more :
    (base left : ℕ) (s : List ℕ) (acc d : ℕ) (r : ℕ × ℕ)
    → digit_below base (get_or s 0 0) ≡ some d
    → Parsed base left (drop 1 s) (acc * base + d) r
    → Parsed base (suc left) s acc (suc r.0, r.1)
one_more base left s acc d r e p = record {
  digits = d ∷ p.digits;
  taken = ap suc p.taken;
  are_digits = digit_at;
  value = p.value;
  fits = p.fits;
  stops = stop p.stops;
}
  where
    here :
        (i : ℕ) → digit_below base (get_or (drop 1 s) i 0) ≡ digit_below base (get_or s (suc i) 0)
    here i = ap (digit_below base) (get_or-drop s i)

    digit_at :
        (i : ℕ) → i < suc r.0 → digit_below base (get_or s i 0) ≡ some (get_or (d ∷ p.digits) i 0)
    digit_at zero h = e
    digit_at (suc i) h = sym (here i) ∙ p.are_digits i (omega arith)

    stop :
        (r.0 ≡ left)
          ⊎ ((digit_below base (get_or (drop 1 s) r.0 0) ≡ none)
              ⊎ ((d : ℕ) × (digit_below base (get_or (drop 1 s) r.0 0) ≡ some d)
                  × (cell_max < r.1 * base + d)))
        → (suc r.0 ≡ suc left)
          ⊎ ((digit_below base (get_or s (suc r.0) 0) ≡ none)
              ⊎ ((d : ℕ) × (digit_below base (get_or s (suc r.0) 0) ≡ some d)
                  × (cell_max < r.1 * base + d)))
    stop (inl same) = inl (ap suc same)
    stop (inr (inl not_one)) = inr (inl (sym (here r.0) ∙ not_one))
    stop (inr (inr (b, one, big))) = inr (inr (b, sym (here r.0) ∙ one, big))

too_large :
    (base left : ℕ) (s : List ℕ) (acc : ℕ)
    → 0 < base
    → acc ≤ cell_max
    → cell_max / base < acc
    → Parsed base left s acc (0, acc)
too_large base left s acc pos h large = elim (Option-cases (digit_below base (get_or s 0 0))) [
  | inl e ↦ no_digits base left s acc h (inr (inl e))
  | inr (d, e) ↦
      no_digits base left s acc h
        (inr (inr (d, e, omega (arith, (div-lt_iff_lt-mul {x = cell_max} {y = acc} pos).0 large))))
]

-- parse_int in a base from 1 to 36 gives a number below 2 ^ 63, that of the digits that it takes;
-- and it takes all up to the end of its rounds, or up to a byte that is no digit, or up to a
-- digit with which the number would be 2 ^ 63 or more.
pub parse_int-Parsed :
    (base left : ℕ) (s : List ℕ) (acc : ℕ)
    → 0 < base
    → base ≤ 36
    → acc ≤ cell_max
    → Parsed base left s acc (parse_int base left s acc)
unfolding parse_int
parse_int-Parsed base zero s acc pos most h = no_digits base 0 s acc h (inl refl)
parse_int-Parsed base (suc left) s acc pos most h = elim (Bool-cases (ltb (cell_max / base) acc)) [
  | inl large ↦ rw large (too_large base (suc left) s acc pos h (ground arith))
  | inr e ↦ rw e (elim (Option-cases (digit_below base (get_or s 0 0))) [
    | inl no_digit ↦ rw no_digit (no_digits base (suc left) s acc h (inr (inl no_digit)))
    | inr (d, digit) ↦ rw digit (elim (Bool-cases (ltb (cell_max - d) (acc * base))) [
      | inl over ↦ rw over (
          no_digits base (suc left) s acc h
            (inr (inr (d, digit, ground (arith, digit-lt base (get_or s 0 0) d digit)))))
      | inr fits ↦ rw fits (
          one_more base left s acc d (parse_int base left (drop 1 s) (acc * base + d)) digit (
            parse_int-Parsed base left (drop 1 s) (acc * base + d) pos most
              (ground (arith, digit-lt base (get_or s 0 0) d digit))))
    ])
  ])
]

same_rounds : (n : ℕ) → n - n + n + 1 ≡ n + 1
same_rounds n = omega arith

not_empty :
    (base : ℕ) (line : List ℕ) → find_number base line ≡ some line → leb (length line) 0 ≡ false
unfolding find_number
not_empty base [] e = absurd (ground arith)
not_empty base (c ∷ cs) e = ground arith

-- A number at the start of the buffer.
pub input_getint-first :
    (base : ℕ) (line stdin : List ℕ)
    → find_number base line ≡ some line
    → (input_getint base (record { line = line; current = some 0; stdin = stdin })).0
      ≡ rgi_success (parse_int base (length line + 1) line 0).1
unfolding input_getint get_line
input_getint-first base line stdin e =
    rw (input_getint, get_line, not_empty base line e, getint_from, e)
      (ap (λ n. rgi_success (parse_int base n line 0).1) (same_rounds (length line)))
