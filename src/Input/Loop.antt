-- ===== src/Input/Loop.antt =====
-- src/input.c: the loop that reads lines until one has a number.
use mathlib.Core.Path.{subst}
use cfunge.Prelude.{
  ℕ, zero, suc, ◌+◌, ◌-◌, ◌≤◌, ◌<◌, ◌≡◌, ◌⊎◌, inl, inr, refl, ap, ◌∙◌, arith, Bool, true, false,
  ◌||◌, Option, none, some, List, [], ◌∷◌, ◌++◌, ◌==◌, length, drop, Bool-cases, Option-cases,
}
use cfunge.Cell.{cell_max}
use cfunge.Input.{Input, unread_at, get_line, cf_getline, position}
use cfunge.Input.Number.{
  GetInt, rgi_success, rgi_eof, rgi_noint, starts_number, find_number, parse_int, getint_from,
  input_getint, read_int,
}
use cfunge.Input.Laws.{parse_int-Parsed}

abbrev pub any : (ℕ → Bool) → List ℕ → Bool
any p [] = false
any p (c ∷ cs) = p c || any p cs

or_assoc : (a b c : Bool) → (a || (b || c)) ≡ ((a || b) || c)
or_assoc true b c = refl
or_assoc false b c = refl

any-append : (p : ℕ → Bool) (xs ys : List ℕ) → any p (xs ++ ys) ≡ (any p xs || any p ys)
any-append p [] ys = refl
any-append p (x ∷ xs) ys =
    ap (λ b. p x || b) (any-append p xs ys) ∙ or_assoc (p x) (any p xs) (any p ys)

-- The bytes that are still to read: those of the buffer, and those of standard input.
abbrev pub pending : Input → List ℕ
pending i = elim (unread_at i) [ none ↦ i.stdin | some at ↦ drop at i.line ++ i.stdin ]

cf_getline-append : (cs : List ℕ) → (cf_getline cs).0 ++ (cf_getline cs).1 ≡ cs
unfolding cf_getline
cf_getline-append [] = refl
cf_getline-append (c ∷ cs) = elim (Bool-cases (c == b'\n')) [
  | inl e ↦ rw e refl
  | inr e ↦ rw e (ap (λ l. c ∷ l) (cf_getline-append cs))
]

cf_getline_shorter : (c : ℕ) (cs : List ℕ) → length (cf_getline (c ∷ cs)).1 ≤ length cs
unfolding cf_getline
cf_getline_shorter c [] = ground arith
cf_getline_shorter c (x ∷ cs) = ground (arith, cf_getline_shorter x cs)

-- A number is found if there is one, and else the end of the input.
abbrev pub Answered : ℕ → List ℕ → Option (GetInt × Input) → Type 0
Answered base bytes r =
    ((any (starts_number base) bytes ≡ true)
      × (v : ℕ) × (j : Input) × (v ≤ cell_max)
      × (r ≡ some (rgi_success v, j)))
    ⊎ ((any (starts_number base) bytes ≡ false) × (j : Input) × (r ≡ some (rgi_eof, j)))

module _ (base : ℕ) (pos : 0 < base) (most : base ≤ 36) where
  Found : List ℕ → Input → GetInt × Input → Type 0
  Found bytes j r =
      ((any (starts_number base) bytes ≡ true)
        × (v : ℕ) × (k : Input) × (v ≤ cell_max)
        × (r ≡ (rgi_success v, k)))
      ⊎ ((any (starts_number base) bytes ≡ false) × (r ≡ (rgi_noint, record j { current = none })))

  find_number_lem :
      (bytes : List ℕ)
      → ((any (starts_number base) bytes ≡ true)
          × (found : List ℕ) × (find_number base bytes ≡ some found))
        ⊎ ((any (starts_number base) bytes ≡ false) × (find_number base bytes ≡ none))
  unfolding find_number
  find_number_lem [] = inr (refl, refl)
  find_number_lem (c ∷ cs) = elim (Bool-cases (starts_number base c)) [
    | inl e ↦ rw e (inl (refl, c ∷ cs, refl))
    | inr e ↦ rw e (find_number_lem cs)
  ]

  getint_from_lem : (j : Input) → Found (drop (position j) j.line) j (getint_from base j)
  unfolding Found getint_from
  getint_from_lem j = elim (find_number_lem (drop (position j) j.line)) [
    | inl (there, found, e) ↦
        let start = length j.line - length found in
        let left = start + length j.line + 1 in
        let p = parse_int-Parsed base left found 0 pos most (omega arith) in
        rw (getint_from, e) (inl (there, (parse_int base left found 0).1, _, p.fits, refl))
    | inr (none_there, e) ↦ rw (getint_from, e) (inr (none_there, refl))
  ]

  answer : ℕ → GetInt × Input → Option (GetInt × Input)
  answer fuel (result, j) = elim result [
    | rgi_noint ↦ read_int base fuel j
    | rgi_eof ↦ some (rgi_eof, j)
    | rgi_success v ↦ some (rgi_success v, j)
  ]

  read_int-success :
      (fuel v : ℕ) (i k : Input)
      → input_getint base i ≡ (rgi_success v, k)
      → read_int base (suc fuel) i ≡ some (rgi_success v, k)
  unfolding read_int answer
  read_int-success fuel v i k e = ap (answer fuel) e

  read_int-noint :
      (fuel : ℕ) (i k : Input)
      → input_getint base i ≡ (rgi_noint, k)
      → read_int base (suc fuel) i ≡ read_int base fuel k
  unfolding read_int answer
  read_int-noint fuel i k e = ap (answer fuel) e

  read_int-eof :
      (fuel : ℕ) (i k : Input)
      → input_getint base i ≡ (rgi_eof, k)
      → read_int base (suc fuel) i ≡ some (rgi_eof, k)
  unfolding read_int answer
  read_int-eof fuel i k e = ap (answer fuel) e

  success :
      (bytes more : List ℕ) (fuel v : ℕ) (i k : Input)
      → any (starts_number base) bytes ≡ true
      → v ≤ cell_max
      → input_getint base i ≡ (rgi_success v, k)
      → Answered base (bytes ++ more) (read_int base (suc fuel) i)
  success bytes more fuel v i k there fits e = inl (
    any-append (starts_number base) bytes more ∙ ap (λ b. b || any (starts_number base) more) there,
    v,
    k,
    fits,
    read_int-success fuel v i k e,
  )

  next_round :
      (bytes more : List ℕ) (fuel : ℕ) (i k : Input)
      → any (starts_number base) bytes ≡ false
      → input_getint base i ≡ (rgi_noint, k)
      → Answered base more (read_int base fuel k)
      → Answered base (bytes ++ more) (read_int base (suc fuel) i)
  next_round bytes more fuel i k no_start e again =
      rw (any-append (starts_number base) bytes more, no_start, read_int-noint fuel i k e) again

  from_buffer :
      (bytes more : List ℕ) (fuel : ℕ) (i j : Input)
      → input_getint base i ≡ getint_from base j
      → Found bytes j (getint_from base j)
      → Answered base more (read_int base fuel (record j { current = none }))
      → Answered base (bytes ++ more) (read_int base (suc fuel) i)
  unfolding Found
  from_buffer bytes more fuel i j e (inl (there, v, k, fits, r)) again =
      success bytes more fuel v i k there fits (e ∙ r)
  from_buffer bytes more fuel i j e (inr (no_start, r)) again =
      next_round bytes more fuel i (record j { current = none }) no_start (e ∙ r) again

  read_new_lines :
      (fuel : ℕ) (line : List ℕ) (current : Option ℕ) (stdin : List ℕ)
      → unread_at (record { line = line; current = current; stdin = stdin }) ≡ none
      → length stdin < fuel
      → Answered base stdin
          (read_int base fuel (record { line = line; current = current; stdin = stdin }))
  unfolding input_getint get_line
  read_new_lines zero line current stdin h enough = absurd (omega arith)
  read_new_lines (suc fuel) line current [] h enough = inr (refl, _, read_int-eof fuel _ _ ended)
    where
      ended :
          input_getint base (record { line = line; current = current; stdin = [] })
          ≡ (rgi_eof, record { line = line; current = current; stdin = [] })
      ended = rw (input_getint, get_line, h) refl
  read_new_lines (suc fuel) line current (c ∷ cs) h enough =
      let (new, rest) = cf_getline (c ∷ cs) in
      let i : Input = record { line = line; current = current; stdin = c ∷ cs } in
      let j : Input = record { line = new; current = some 0; stdin = rest } in
      subst (λ l. Answered base l (read_int base (suc fuel) i)) (cf_getline-append (c ∷ cs))
        (from_buffer new rest fuel i j begun (getint_from_lem j)
          (read_new_lines fuel new none rest refl (omega (arith, cf_getline_shorter c cs))))
    where
      begun :
          input_getint base (record { line = line; current = current; stdin = c ∷ cs })
          ≡ getint_from base (record {
            line = (cf_getline (c ∷ cs)).0;
            current = some 0;
            stdin = (cf_getline (c ∷ cs)).1;
          })
      begun = rw (input_getint, get_line, h) refl

  unread_at-position : (i : Input) (at : ℕ) → unread_at i ≡ some at → position i ≡ at
  unread_at-position i at e = elim (Option-cases i.current) [
    | inl nothing ↦ ground (arith, nothing)
    | inr (k, there) ↦ ground (arith, there)
  ]

  -- With more fuel than there are bytes on standard input and one, the loop around input_getint
  -- for a base from 1 to 36 ends: with a number below 2 ^ 63 if a byte still to be read can start
  -- one, and else with the end of the input.
  pub read_int_lem :
      (fuel : ℕ) (i : Input)
      → length i.stdin + 1 < fuel
      → Answered base (pending i) (read_int base fuel i)
  unfolding input_getint get_line
  read_int_lem zero i enough = absurd (omega arith)
  read_int_lem (suc fuel) i enough = elim (Option-cases (unread_at i)) [
    | inl e ↦ rw (pending, e) (read_new_lines (suc fuel) i.line i.current i.stdin e (omega arith))
    | inr (at, e) ↦
        rw (pending, e)
          (from_buffer (drop at i.line) i.stdin fuel i i (rw (input_getint, get_line, e) refl)
            (subst (λ n. Found (drop n i.line) i (getint_from base i)) (unread_at-position i at e)
              (getint_from_lem i))
            (read_new_lines fuel i.line none i.stdin refl (omega arith)))
  ]
