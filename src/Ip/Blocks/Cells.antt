-- ===== src/Ip/Blocks/Cells.antt =====
-- The cells that a block moves there and back.
use cfunge.Prelude.{
  ℕ, zero, suc, ◌-◌, ◌≤◌, ◌≡◌, refl, sym, ap, ap₂, ◌∙◌, arith, true, List, [], ◌∷◌, ◌++◌,
  append-nil, take, drop, replicate, length, ltb, if◌then◌else◌, Bool-cases, inl, inr,
}
use cfunge.Cell.{neg, is_neg, slt, IsCell}
use cfunge.Vector.{Vector}
use cfunge.Stack.{Stack, push, pop, push_vector, pop_vector}
use cfunge.Stack.Contents.{
  contents, IsValid, length-contents, contents-push, contents-pop, push-IsValid, pop-IsValid,
  contents-discard, pop_value, head_or_zero, down, drop-down,
}
use cfunge.StackStack.{zero_fill, bulk_copy}
use cfunge.StackStack.Copy.{contents-zero_fill, zero_fill-IsValid, contents-bulk_copy}
use cfunge.Ip.Blocks.{begin_cells, end_cells}

pop_same : (s : Stack) (l : List ℕ) → contents s ≡ l → contents (pop s).1 ≡ drop 1 l
pop_same s l h = contents-pop s ∙ ap (drop 1) h

pop_same_value : (s : Stack) (l : List ℕ) → contents s ≡ l → (pop s).0 ≡ head_or_zero l
pop_same_value s l h = pop_value s ∙ ap head_or_zero h

pop_vector-push_vector :
    (v : Vector) (s : Stack)
    → IsValid s
    → ((pop_vector (push_vector v s)).0 ≡ v)
      × (contents (pop_vector (push_vector v s)).1 ≡ contents s)
      × IsValid (pop_vector (push_vector v s)).1
unfolding pop_vector push_vector
pop_vector-push_vector v s h =
    let u = push v.y (push v.x s) in
    let full =
      contents-push v.y (push v.x s) (push-IsValid v.x s h)
      ∙ ap (λ l. v.y ∷ l) (contents-push v.x s h) in
    let rest = pop_same u (v.y ∷ v.x ∷ contents s) full in
    (
      λ i. record {
        x = pop_same_value (pop u).1 (v.x ∷ contents s) rest i;
        y = pop_same_value u (v.y ∷ v.x ∷ contents s) full i;
      },
      pop_same (pop u).1 (v.x ∷ contents s) rest,
      pop-IsValid (pop u).1 (pop-IsValid u (push-IsValid v.y (push v.x s) (push-IsValid v.x s h))),
    )

take-drop : (n : ℕ) (l : List ℕ) → n ≤ length l → take n (take n l) ++ drop n l ≡ l
take-drop zero l h = refl
take-drop (suc n) [] h = absurd (omega arith)
take-drop (suc n) (x ∷ l) h = ap (◌∷◌ x) (take-drop n l (omega arith))

drop-replicate : (n : ℕ) (l : List ℕ) → drop n (replicate n 0 ++ l) ≡ l
drop-replicate zero l = refl
drop-replicate (suc n) l = drop-replicate n l

length-take : (n : ℕ) (l : List ℕ) → n ≤ length l → length (take n l) ≡ n
length-take zero l h = refl
length-take (suc n) [] h = absurd (omega arith)
length-take (suc n) (x ∷ l) h = ap suc (length-take n l (omega arith))

no_cells : (t : Stack) → t.top ≡ 0 → contents t ≡ []
no_cells t h = ap (down t.entries) h

no_zeros : (n : ℕ) (l : List ℕ) → n ≡ 0 → replicate n 0 ++ l ≡ l
no_zeros n l h = ap (λ k. replicate k 0 ++ l) h

-- The new stack after the copy to it.
copied :
    (count : ℕ) (soss t : Stack)
    → t.top ≡ 0
    → count ≤ soss.top
    → contents (bulk_copy t soss count) ≡ take count (contents soss)
copied count soss t ht enough =
    contents-bulk_copy t soss count (record { fits = omega arith })
    ∙ ap (λ l. take count (contents soss) ++ l)
        (no_zeros (count - soss.top) (contents t) (omega arith) ∙ no_cells t ht)
    ∙ append-nil (take count (contents soss))

copied_back :
    (count : ℕ) (soss rest t : Stack)
    → IsValid rest
    → t.top ≡ 0
    → count ≤ soss.top
    → contents rest ≡ drop count (contents soss)
    → contents (bulk_copy rest (bulk_copy t soss count) count) ≡ contents soss
copied_back count soss rest t hr ht enough h =
    let t' = bulk_copy t soss count in
    let there = copied count soss t ht enough in
    let long : count ≤ length (contents soss) = omega (arith, length-contents soss) in
    let size : t'.top ≡ count =
      sym (length-contents t') ∙ ap length there ∙ length-take count (contents soss) long in
    contents-bulk_copy rest t' count hr
    ∙ ap₂ (λ a b. take count a ++ b) there
        (no_zeros (count - t'.top) (contents rest) (omega arith) ∙ h)
    ∙ take-drop count (contents soss) long

abbrev taken : ℕ → Stack → ℕ
taken count soss = if ltb soss.top count then 0 else soss.top - count

-- The cells of a block that is begun and ended with the same count, nothing else happening.
pub end_cells-begin_cells :
    (count : ℕ) (offset : Vector) (soss t : Stack)
    → IsCell count
    → IsValid soss
    → t.top ≡ 0
    → (slt 0 count ≡ true → count ≤ soss.top)
    → let (soss', t') = begin_cells count soss t in
      let (offset', soss'') = pop_vector (push_vector offset soss') in
      (offset' ≡ offset) × (contents (end_cells count soss'' t') ≡ contents soss)
unfolding begin_cells end_cells
end_cells-begin_cells count offset soss t hc hs ht enough = elim (Bool-cases (slt 0 count)) [
  | inl up ↦
      let less : taken count soss ≡ soss.top - count = ground arith in
      let soss₁ : Stack = record soss { top = taken count soss } in
      let valid : IsValid soss₁ = record { fits = omega arith } in
      let (same, cells, rest) = pop_vector-push_vector offset soss₁ valid in
      rw up (
        same,
        copied_back count soss (pop_vector (push_vector offset soss₁)).1 t rest ht (enough up)
            (cells ∙ ap (down soss.entries) less ∙ sym (drop-down soss.entries count soss.top)),
      )
  | inr p ↦ elim (Bool-cases (is_neg count)) [
    | inl down ↦
        let soss₁ = zero_fill (neg count) soss in
        let (same, cells, rest) =
          pop_vector-push_vector offset soss₁ (zero_fill-IsValid (neg count) soss hs) in
        rw (p, down)
          (
            same,
            contents-discard (neg count) (pop_vector (push_vector offset soss₁)).1
                ∙ ap (drop (neg count)) (cells ∙ contents-zero_fill (neg count) soss hs)
                ∙ drop-replicate (neg count) (contents soss),
          )
    | inr level ↦
        let (same, cells, rest) = pop_vector-push_vector offset soss hs in
        rw (p, level) (same, cells)
  ]
]
