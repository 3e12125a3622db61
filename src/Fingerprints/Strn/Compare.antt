-- ===== src/Fingerprints/Strn/Compare.antt =====
-- src/fingerprints/STRN/STRN.c: the comparison C of two strings.
use cfunge.Prelude.{
  ℕ, zero, suc, ◌+◌, ◌<◌, ◌≡◌, ◌≢◌, ◌↔◌, refl, sym, ap, ap₂, ◌∙◌, arith, true, some, List, [], ◌∷◌,
  ◌==◌, Bool-cases, inl, inr,
}
use cfunge.Cell.{sub, IsCell}
use mathlib.Core.Path.{subst⁻¹}
use cfunge.Stack.{Stack, push}
use cfunge.Stack.Contents.{contents, IsValid, contents-push}
use cfunge.Stack.Text.Laws.{text_of, after_text}
use cfunge.Ip.{Ip, toss, set_toss}
use cfunge.Ip.Toss.{toss-set_toss, set_toss-set_toss}
use cfunge.Fingerprints.Strn.{Alloc, shorter, first_difference, strn_compare}
use cfunge.Fingerprints.Strn.Laws.{popped, popped_two}

-- Cells that are not 0.
abbrev pub NoZero : List ℕ → Type 0
NoZero [] = Unit {0}
NoZero (x ∷ l) = (x ≢ 0) × IsCell x × NoZero l

sub_zero : (x y : ℕ) → IsCell x → IsCell y → ((sub x y == 0) ≡ true) → x ≡ y
sub_zero x y hx hy e = ground arith

sub_same : (x y : ℕ) → IsCell x → x ≡ y → (sub x y == 0) ≡ true
sub_same x y hx e = ground arith

shorter-suc : (x y : ℕ) (a b : List ℕ) → shorter (x ∷ a) (y ∷ b) ≡ suc (shorter a b)
shorter-suc x y a b = ground arith

next_cells :
    (x y n : ℕ) (a b : List ℕ)
    → IsCell x
    → IsCell y
    → first_difference (suc n) (x ∷ a) (y ∷ b) ≡ 0
    → (x ≡ y) × (first_difference n a b ≡ 0)
unfolding first_difference
next_cells x y n a b hx hy e = elim (Bool-cases (sub x y == 0)) [
  | inl same ↦ (sub_zero x y hx hy same, ground (arith, e))
  | inr other ↦ absurd (ground (arith, e))
]

one_is_longer :
    (x n : ℕ) (a b : List ℕ)
    → IsCell x
    → x ≢ 0
    → ((first_difference (suc n) [] (x ∷ b) ≢ 0) × (first_difference (suc n) (x ∷ a) [] ≢ 0))
unfolding first_difference
one_is_longer x n a b hx ne = (λ e. ground arith, λ e. ground arith)

same_lists :
    (n : ℕ) (a b : List ℕ)
    → NoZero a
    → NoZero b
    → shorter a b < n
    → first_difference n a b ≡ 0
    → a ≡ b
same_lists zero a b ha hb h e = absurd (omega arith)
same_lists (suc n) [] [] ha hb h e = refl
same_lists (suc n) [] (y ∷ b) ha hb h e = absurd ((one_is_longer y n [] b hb.1 hb.0).0 e)
same_lists (suc n) (x ∷ a) [] ha hb h e = absurd ((one_is_longer x n a [] ha.1 ha.0).1 e)
same_lists (suc n) (x ∷ a) (y ∷ b) ha hb h e =
    let (first, rest) = next_cells x y n a b ha.1 hb.1 e in
    ap₂ ◌∷◌ first (same_lists n a b ha.2 hb.2 (omega (arith, shorter-suc x y a b)) rest)

no_difference : (a : List ℕ) (n : ℕ) → NoZero a → first_difference n a a ≡ 0
unfolding first_difference
no_difference a zero h = refl
no_difference [] (suc n) h = no_difference [] n h
no_difference (x ∷ a) (suc n) h = ground (arith, no_difference a n h.2)

first_difference_iff :
    (a b : List ℕ) → NoZero a → NoZero b → (first_difference (shorter a b + 1) a b ≡ 0) ↔ (a ≡ b)
first_difference_iff a b ha hb = (
  same_lists (shorter a b + 1) a b ha hb (omega arith),
  λ e.
      ap (λ l. first_difference (shorter a l + 1) a l) (sym e)
      ∙ no_difference a (shorter a a + 1) ha,
)

-- C on a valid stack, where the system has the memory, replaces the two strings on top, of cells
-- that are not 0, by one cell, and this is 0 exactly if they are the same string; the cells below
-- and the rest of the instruction pointer are as before.
pub strn_compare_iff :
    (alloc : Alloc) (ip : Ip)
    → ((n : ℕ) → alloc n ≡ true)
    → IsValid (toss ip)
    → NoZero (text_of (contents (toss ip)))
    → NoZero (text_of (after_text (contents (toss ip))))
    → (let c = contents (toss ip) in
        (d : ℕ) × (t : Stack) × (strn_compare alloc ip ≡ some (set_toss t ip))
        × (contents t ≡ d ∷ after_text (after_text c))
        × ((d ≡ 0) ↔ (text_of c ≡ text_of (after_text c))))
unfolding strn_compare
strn_compare_iff alloc ip memory v ha hb =
    let c = contents (toss ip) in
    let (s, first, below, vs) = popped alloc (toss ip) memory v in
    let (t, second, below', vt) = popped alloc s memory vs in
    let a = text_of c in
    let b = text_of (contents s) in
    let d = first_difference (shorter a b + 1) a b in
    let difference : List ℕ → List ℕ → Ip → Ip =
      λ a b ip'. set_toss (push (first_difference (shorter a b + 1) a b) (toss ip')) ip' in
    let (same, other) = first_difference_iff a b ha (subst⁻¹ (λ l. NoZero (text_of l)) below hb) in
    (
      d,
      push d t,
      popped_two alloc difference ip a b s t first second
          ∙ ap (λ u. some (set_toss (push d u) (set_toss t ip))) (toss-set_toss t ip)
          ∙ ap some (set_toss-set_toss t (push d t) ip),
      contents-push d t vt ∙ ap (λ l. d ∷ l) (below' ∙ ap after_text below),
      (λ e. same e ∙ ap text_of below, λ e. other (e ∙ ap text_of (sym below))),
    )
