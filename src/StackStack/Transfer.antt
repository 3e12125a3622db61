-- ===== src/StackStack/Transfer.antt =====
-- What `stackstack_transfer` does to the two stacks.
use cfunge.Prelude.{
  ℕ, zero, suc, ◌^◌, ◌≤◌, ◌<◌, ◌≡◌, refl, ap, ap₂, ◌∙◌, arith, List, [], ◌∷◌, length, drop, true,
  false,
}
use cfunge.Cell.{neg, is_neg, slt}
use cfunge.Stack.{Stack, pop, push}
use cfunge.Stack.Contents.{
  contents, IsValid, length-contents, pop-IsValid, push-IsValid, contents-push, contents-pop,
  pop_value, head_or_zero,
}
use cfunge.StackStack.{move_cells, transfer}

-- One cell after the other from a list with zeros at its end onto another list.
abbrev pub pour : ℕ → List ℕ → List ℕ → List ℕ
pour zero from to = to
pour (suc n) from to = pour n (drop 1 from) (head_or_zero from ∷ to)

drop-one : (k : ℕ) (l : List ℕ) → drop k (drop 1 l) ≡ drop (suc k) l
drop-one zero [] = refl
drop-one (suc k) [] = refl
drop-one k (x ∷ l) = refl

pub contents-move_cells :
    (n : ℕ) (from to : Stack)
    → IsValid to
    → (contents (move_cells n from to).0 ≡ drop n (contents from))
      × (contents (move_cells n from to).1 ≡ pour n (contents from) (contents to))
unfolding move_cells
contents-move_cells zero from to h = (refl, refl)
contents-move_cells (suc n) from to h =
    let ih =
      contents-move_cells n (pop from).1 (push (pop from).0 to) (push-IsValid (pop from).0 to h) in
    (
      ih.0 ∙ ap (drop n) (contents-pop from) ∙ drop-one n (contents from),
      ih.1
          ∙ ap₂ (pour n) (contents-pop from)
              (contents-push (pop from).0 to h ∙ ap (λ v. v ∷ contents to) (pop_value from)),
    )

drop-suc : (n : ℕ) (l : List ℕ) → drop (suc n) l ≡ drop 1 (drop n l)
drop-suc zero l = refl
drop-suc (suc n) [] = refl
drop-suc (suc n) (x ∷ l) = drop-suc n l

drop-pour : (n : ℕ) (from to : List ℕ) → drop n (pour n from to) ≡ to
drop-pour zero from to = refl
drop-pour (suc n) from to =
    drop-suc n (pour n (drop 1 from) (head_or_zero from ∷ to))
    ∙ ap (drop 1) (drop-pour n (drop 1 from) (head_or_zero from ∷ to))

-- The last cell poured is the one that ends up on top.
pub pour_last :
    (n : ℕ) (from to : List ℕ) → pour (suc n) from to ≡ head_or_zero (drop n from) ∷ pour n from to
pour_last zero from to = refl
pour_last (suc n) from to =
    pour_last n (drop 1 from) (head_or_zero from ∷ to)
    ∙ ap (λ l. head_or_zero l ∷ pour n (drop 1 from) (head_or_zero from ∷ to)) (drop-one n from)

-- Pouring back restores the list.
pour-pour :
    (n : ℕ) (from to : List ℕ) → n ≤ length from → pour n (pour n from to) (drop n from) ≡ from
pour-pour zero from to h = refl
pour-pour (suc n) [] to h = absurd (omega arith)
pour-pour (suc n) (x ∷ from) to h =
    pour_last n (pour n from (x ∷ to)) (drop n from)
    ∙ ap₂ ◌∷◌ (ap head_or_zero (drop-pour n from (x ∷ to)))
        (pour-pour n from (x ∷ to) (omega arith))

pub move_cells-IsValid :
    (n : ℕ) (from to : Stack)
    → IsValid from
    → IsValid to
    → IsValid (move_cells n from to).0 × IsValid (move_cells n from to).1
unfolding move_cells
move_cells-IsValid zero from to hf ht = (hf, ht)
move_cells-IsValid (suc n) from to hf ht =
    move_cells-IsValid n (pop from).1 (push (pop from).0 to) (pop-IsValid from hf)
      (push-IsValid (pop from).0 to ht)

transfer_pos :
    (n : ℕ) (toss soss : Stack)
    → 0 < n
    → n < 2 ^ 63
    → transfer n toss soss ≡ ((move_cells n soss toss).1, (move_cells n soss toss).0)
unfolding transfer
transfer_pos n toss soss p q = let up : slt 0 n ≡ true = ground arith in rw up

transfer-neg :
    (n : ℕ) (toss soss : Stack)
    → 0 < n
    → n < 2 ^ 63
    → transfer (neg n) toss soss ≡ move_cells n toss soss
unfolding transfer
transfer-neg n toss soss p q =
    let down : slt 0 (neg n) ≡ false = ground arith in
    let minus : is_neg (neg n) ≡ true = ground arith in
    let twice : neg (neg n) ≡ n = omega arith in rw (down, minus, twice)

-- `u` with a count that the second stack holds, then `u` with its negation, gives both stacks
-- their cells back.
pub transfer_back :
    (n : ℕ) (toss soss : Stack)
    → IsValid toss
    → IsValid soss
    → 0 < n
    → n < 2 ^ 63
    → n ≤ soss.top
    → let (t₁, s₁) = transfer n toss soss in
      let (t₂, s₂) = transfer (neg n) t₁ s₁ in
      (contents t₂ ≡ contents toss) × (contents s₂ ≡ contents soss)
transfer_back n toss soss ht hs p q enough =
    let (s₁, t₁) = move_cells n soss toss in
    let v = move_cells-IsValid n soss toss hs ht in
    let there = contents-move_cells n soss toss ht in
    let back = contents-move_cells n t₁ s₁ v.0 in
    rw (transfer_pos n toss soss p q, transfer-neg n t₁ s₁ p q)
      (
        back.0 ∙ ap (drop n) there.1 ∙ drop-pour n (contents soss) (contents toss),
        back.1
            ∙ ap₂ (pour n) there.1 there.0
            ∙ pour-pour n (contents soss) (contents toss) (omega (arith, length-contents soss)),
      )
