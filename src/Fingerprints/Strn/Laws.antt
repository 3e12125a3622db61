-- ===== src/Fingerprints/Strn/Laws.antt =====
-- src/fingerprints/STRN/STRN.c: what A and C do to the strings on the stack.
use cfunge.Prelude.{
  ℕ, ◌+◌, ◌*◌, ◌≡◌, refl, ap, ◌∙◌, true, some, List, [], ◌∷◌, ◌++◌, map, append_assoc, length,
}
use cfunge.Stack.{Stack}
use cfunge.Stack.Contents.{contents, IsValid}
use cfunge.Stack.Text.{push_string_multibyte, pop_string_multibyte}
use cfunge.Stack.Text.Laws.{
  text_of, after_text, pop_cells-Popped, contents-push_string, push_string-IsValid,
}
use cfunge.Ip.{Ip, toss, set_toss}
use cfunge.Ip.Toss.{toss-set_toss, set_toss-set_toss}
use cfunge.Fingerprints.Strn.{Alloc, with_two, join, strn_append}

map_same : (l : List ℕ) → map (λ c. c) l ≡ l
map_same [] = refl
map_same (c ∷ l) = ap (λ t. c ∷ t) (map_same l)

-- A string that is popped, where there is memory for it.
pub popped :
    (alloc : Alloc) (s : Stack)
    → ((n : ℕ) → alloc n ≡ true)
    → IsValid s
    → (t : Stack) × (pop_string_multibyte alloc s ≡ some (some (text_of (contents s)), t))
      × (contents t ≡ after_text (contents s))
      × IsValid t
unfolding pop_string_multibyte
popped alloc s memory v =
    let p = pop_cells-Popped s v in
    (
      p.rest,
      rw (memory ((s.top + 1) * 8), p.returns, map_same (text_of (contents s))) refl,
      p.below,
      p.valid,
    )

pub popped_two :
    (alloc : Alloc) (f : List ℕ → List ℕ → Ip → Ip) (ip : Ip) (a b : List ℕ) (s t : Stack)
    → pop_string_multibyte alloc (toss ip) ≡ some (some a, s)
    → pop_string_multibyte alloc s ≡ some (some b, t)
    → with_two alloc f ip ≡ some (f a b (set_toss t ip))
popped_two alloc f ip a b s t first second = rw (first, second) refl

joined :
    (alloc : Alloc) (a b : List ℕ) (t : Stack) (ip : Ip)
    → ((n : ℕ) → alloc n ≡ true)
    → join alloc a b (set_toss t ip) ≡ set_toss (push_string_multibyte (a ++ b) t) ip
joined alloc a b t ip memory =
    rw (memory ((length a + length b + 1) * 8), toss-set_toss t ip)
      (set_toss-set_toss t (push_string_multibyte (a ++ b) t) ip)

-- A on a valid stack, where the system has the memory, replaces the two strings on top by one,
-- the upper one followed by the lower one; the cells below and the rest of the instruction
-- pointer are as before.
pub strn_append_lem :
    (alloc : Alloc) (ip : Ip)
    → ((n : ℕ) → alloc n ≡ true)
    → IsValid (toss ip)
    → (let c = contents (toss ip) in
        (t : Stack) × (strn_append alloc ip ≡ some (set_toss t ip))
        × (contents t ≡ text_of c ++ (text_of (after_text c) ++ (0 ∷ after_text (after_text c))))
        × IsValid t)
unfolding strn_append push_string_multibyte
strn_append_lem alloc ip memory v =
    let c = contents (toss ip) in
    let (s, first, below, vs) = popped alloc (toss ip) memory v in
    let (t, second, below', vt) = popped alloc s memory vs in
    (
      push_string_multibyte (text_of c ++ text_of (contents s)) t,
      popped_two alloc (join alloc) ip (text_of c) (text_of (contents s)) s t first second
          ∙ ap some (joined alloc (text_of c) (text_of (contents s)) t ip memory),
      contents-push_string (text_of c ++ text_of (contents s)) t vt
          ∙ append_assoc (text_of c) (text_of (contents s)) (0 ∷ contents t)
          ∙ ap (λ l. text_of c ++ (text_of (contents s) ++ (0 ∷ l))) below'
          ∙ ap (λ l. text_of c ++ (text_of l ++ (0 ∷ after_text l))) below,
      push_string-IsValid (text_of c ++ text_of (contents s)) t vt,
    )
