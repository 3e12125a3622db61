-- ===== src/Fingerprints/Strn.antt =====
-- src/fingerprints/STRN/STRN.c: strings on the stack. `alloc` says whether the system gives so many
-- bytes; L, M and R use the string that they pop without a look at whether there was memory for it,
-- and here there is. printf, atoi and funge_strstr are parameters. `none` is for a loop that runs
-- out of fuel.
pub mod Plane
pub mod Laws
pub mod Compare
mod Tests
use mathlib.Core.Option
use cfunge.Prelude.{
  ℕ, zero, suc, ◌+◌, ◌-◌, ◌*◌, Bool, true, false, Option, none, some, ◌>>=◌, List, [], ◌∷◌, ◌++◌,
  ltb, ◌==◌, ◌||◌, if◌then◌else◌, get_or, length, drop,
}
use cfunge.Cell.{sub, is_neg}
use cfunge.Stack.{Stack, push, pop, strlen}
use cfunge.Stack.Text.{
  push_string, push_string_multibyte, push_cells, pop_cells, pop_string, pop_string_multibyte,
}
use cfunge.Ip.{Ip, toss, set_toss, reverse}
use cfunge.Input.{Input, before_zero, input_getline}

abbrev pub Alloc : Type 0
Alloc = ℕ → Bool

-- Two strings, the upper one first, and what is done with them; or a reversal.
abbrev pub with_two : Alloc → (List ℕ → List ℕ → Ip → Ip) → Ip → Option Ip
with_two alloc f ip = do
  (top, s₁) ← pop_string_multibyte alloc (toss ip)
  (bottom, s₂) ← pop_string_multibyte alloc s₁
  some (elim top [
    | none ↦ reverse (set_toss s₂ ip)
    | some a ↦ elim bottom [ none ↦ reverse (set_toss s₂ ip) | some b ↦ f a b (set_toss s₂ ip) ]
  ])

abbrev pub join : Alloc → List ℕ → List ℕ → Ip → Ip
join alloc top bottom ip =
    if alloc ((length top + length bottom + 1) * 8)
    then set_toss (push_string_multibyte (top ++ bottom) (toss ip)) ip
    else reverse ip

-- A
unfoldable pub strn_append : Alloc → Ip → Option Ip
strn_append alloc ip = with_two alloc (join alloc) ip

-- The loop of C for `n` rounds; behind a string stands a 0.
unfoldable pub first_difference : ℕ → List ℕ → List ℕ → ℕ
first_difference zero a b = 0
first_difference (suc n) a b =
    let diff = sub (get_or a 0 0) (get_or b 0 0) in
    let rest = first_difference n (drop 1 a) (drop 1 b) in if diff == 0 then rest else diff

-- `minlen`
abbrev pub shorter : List ℕ → List ℕ → ℕ
shorter a b = if ltb (length a) (length b) then length a else length b

-- C
unfoldable pub strn_compare : Alloc → Ip → Option Ip
unfolding first_difference
strn_compare alloc ip =
    with_two alloc
      (λ a b ip'. set_toss (push (first_difference (shorter a b + 1) a b) (toss ip')) ip') ip

-- F
unfoldable pub strn_search : (List ℕ → List ℕ → Option (List ℕ)) → Alloc → Ip → Option Ip
strn_search strstr alloc ip =
    with_two alloc
      (λ top bottom ip'. elim (strstr top bottom) [
        | none ↦ set_toss (push 0 (toss ip')) ip'
        | some c ↦ set_toss (push_string_multibyte c (toss ip')) ip'
      ])
      ip

-- What D and V have around their use of a string of bytes.
abbrev with_bytes {ℓ} : {A : Type ℓ} → Alloc → (List ℕ → Ip → A) → (Ip → A) → Ip → Option A
with_bytes alloc f failed ip = do
  (str, st) ← pop_string alloc (toss ip)
  some (elim str [ none ↦ failed (reverse (set_toss st ip)) | some s ↦ f s (set_toss st ip) ])

-- D: the bytes that it prints; fputs stops at a 0, to which the cast to a byte may take a cell.
unfoldable pub strn_display : Alloc → Ip → Option (List ℕ × Ip)
strn_display alloc ip = with_bytes alloc (λ s ip'. (before_zero s, ip')) (λ ip'. ([], ip')) ip

-- V
unfoldable pub strn_atoi : (List ℕ → ℕ) → Alloc → Ip → Option Ip
strn_atoi atoi alloc ip =
    with_bytes alloc (λ s ip'. set_toss (push (atoi (before_zero s)) (toss ip')) ip') (λ ip'. ip')
      ip

-- The bytes before the last newline, if there is one.
unfoldable pub cut_newline : List ℕ → Option (List ℕ)
cut_newline [] = none
cut_newline (c ∷ cs) = elim (cut_newline cs) [
  | none ↦ if c == b'\n' then some [] else none
  | some kept ↦ some (c ∷ kept)
]

abbrev without_newline : List ℕ → List ℕ
without_newline line = elim (cut_newline line) [ none ↦ line | some kept ↦ kept ]

-- I
unfoldable pub strn_input : Ip → Input → Ip × Input
strn_input ip i =
    let (line, j) = input_getline i in
    elim line [
      | none ↦ (reverse ip, j)
      | some l ↦ (set_toss (push_string (without_newline l) (toss ip)) ip, j)
    ]

-- L; with `n` at 0 the call has a `len` of -1 and pushes nothing.
unfoldable pub strn_left : Ip → Option Ip
strn_left ip = do
  let (n, st) = pop (toss ip)
  (s, t) ← pop_cells st
  let taken = if ltb (length s) n then length s else n
  some (
      if is_neg n
      then reverse (set_toss t ip)
      else if n == 0
      then set_toss (push 0 t) ip
      else set_toss (push_cells (λ i. get_or s i 0) taken (push 0 t)) ip)

-- `s[i] = '\0'`
unfoldable pub put_zero : ℕ → List ℕ → List ℕ
put_zero i [] = []
put_zero zero (c ∷ cs) = 0 ∷ cs
put_zero (suc i) (c ∷ cs) = c ∷ put_zero i cs

-- M; `p + n` is taken as a `size_t`.
unfoldable pub strn_slice : Ip → Option Ip
unfolding put_zero
strn_slice ip = do
  let (n, s₁) = pop (toss ip)
  let (p, s₂) = pop s₁
  (s, t) ← pop_cells s₂
  let taken = if ltb (length s) (p + n) then length s - p else n
  some (
      if is_neg p || is_neg n || ltb (length s) p
      then reverse (set_toss t ip)
      else set_toss (push_string_multibyte (drop p (put_zero (p + taken) s)) t) ip)

-- N
unfoldable pub strn_length : Ip → Ip
strn_length ip = set_toss (push (strlen (toss ip)) (toss ip)) ip

-- R
unfoldable pub strn_right : Ip → Option Ip
strn_right ip = do
  let (n, st) = pop (toss ip)
  (s, t) ← pop_cells st
  let taken = if ltb (length s) n then length s else n
  some (
      if is_neg n
      then reverse (set_toss t ip)
      else set_toss (push_string_multibyte (drop (length s - taken) s) t) ip)

-- S; `buffer` says whether there is memory for the string buffer.
unfoldable pub strn_itoa : (ℕ → List ℕ) → Bool → Ip → Ip
strn_itoa print buffer ip =
    let (n, st) = pop (toss ip) in
    if buffer then set_toss (push_string (print n) st) ip else reverse (set_toss st ip)
