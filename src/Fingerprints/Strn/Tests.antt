-- ===== src/Fingerprints/Strn/Tests.antt =====
-- Runs of functions of STRN, and the theorems on A and C.
use cfunge.Prelude.{
  ℕ, ◌+◌, ◌≡◌, ◌↔◌, refl, arith, true, Bool, Option, none, some, List, [], ◌∷◌, ◌++◌, get_or,
  length,
}
use cfunge.Stack.{Stack}
use cfunge.Stack.Contents.{contents, IsValid}
use cfunge.Stack.Text.Laws.{text_of, after_text}
use cfunge.Ip.{Ip, ip_create, toss, set_toss}
use cfunge.Fingerprints.Strn.{Alloc, strn_append, strn_slice, strn_left, strn_compare}
use cfunge.Fingerprints.Strn.Laws.{strn_append_lem}
use cfunge.Fingerprints.Strn.Compare.{NoZero, strn_compare_iff}

abbrev stack_of : List ℕ → ℕ → Stack
stack_of cells n = record { entries = λ i. get_or cells i 0; size = 16; top = n }

abbrev ip_with : List ℕ → Ip
ip_with cells = set_toss (stack_of cells (length cells)) (ip_create (λ _. 0))

abbrev cells_of : Option Ip → List ℕ
cells_of none = []
cells_of (some ip) = contents (toss ip)

abbrev always : Alloc
always n = true

two_leftmost : cells_of (strn_left (ip_with (0 ∷ 7 ∷ 8 ∷ 9 ∷ 2 ∷ []))) ≡ 9 ∷ 8 ∷ 0 ∷ []
unfolding strn_left cfunge.Stack.Text.pop_cells cfunge.Stack.pop cfunge.Prelude.update ip_create
    cfunge.Ip.stackstack_create cfunge.Stack.Text.push_cells cfunge.Stack.prealloc_space
    cfunge.Stack.push cfunge.Stack.store
two_leftmost = refl

-- M with p and n at 1 on a string of four cells: the second cell, and below it the last one as
-- another string.
rest_stays_below :
    cells_of (strn_slice (ip_with (0 ∷ 6 ∷ 7 ∷ 8 ∷ 9 ∷ 1 ∷ 1 ∷ []))) ≡ 8 ∷ 0 ∷ 6 ∷ 0 ∷ []
unfolding strn_slice cfunge.Stack.Text.pop_cells cfunge.Stack.pop cfunge.Prelude.update ip_create
    cfunge.Ip.stackstack_create cfunge.Stack.Text.push_string_multibyte cfunge.Stack.prealloc_space
    cfunge.Stack.store
rest_stays_below = refl

-- Two strings, of which the upper one is (2, 1).
abbrev ip : Ip
ip = ip_with (0 ∷ 4 ∷ 3 ∷ 0 ∷ 1 ∷ 2 ∷ [])

strn_append_example :
    let c = contents (toss ip) in
    (t : Stack) × (strn_append always ip ≡ some (set_toss t ip))
    × (contents t ≡ text_of c ++ (text_of (after_text c) ++ (0 ∷ after_text (after_text c))))
    × IsValid t
unfolding cfunge.Prelude.update ip_create cfunge.Ip.stackstack_create
strn_append_example = strn_append_lem always ip (λ n. refl) (record { fits = omega arith })

-- Two strings, both (5, 6).
abbrev twice : Ip
twice = ip_with (4 ∷ 0 ∷ 6 ∷ 5 ∷ 0 ∷ 6 ∷ 5 ∷ [])

word-NoZero : NoZero (5 ∷ 6 ∷ [])
word-NoZero = (λ e. omega arith, omega arith, (λ e. omega arith, omega arith, tt))

strn_compare_iff_example :
    let c = contents (toss twice) in
    (d : ℕ) × (t : Stack) × (strn_compare always twice ≡ some (set_toss t twice))
    × (contents t ≡ d ∷ after_text (after_text c))
    × ((d ≡ 0) ↔ (text_of c ≡ text_of (after_text c)))
unfolding cfunge.Prelude.update ip_create cfunge.Ip.stackstack_create
strn_compare_iff_example =
    strn_compare_iff always twice (λ n. refl) (record { fits = omega arith }) word-NoZero
      word-NoZero
