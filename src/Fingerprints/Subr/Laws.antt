-- ===== src/Fingerprints/Subr/Laws.antt =====
-- The cells that a call saves and a return takes back.
use cfunge.Prelude.{
  ℕ, zero, suc, ◌≤◌, ◌≡◌, refl, ap, ap₂, ◌∙◌, arith, List, [], ◌∷◌, ◌++◌, take, drop, length,
}
use cfunge.Vector.{Vector}
use cfunge.Stack.{Stack, create, push, pop, push_vector, pop_vector}
use cfunge.Stack.Contents.{
  contents, IsValid, push-IsValid, pop-IsValid, contents-push, contents-pop, pop_value,
  head_or_zero,
}
use cfunge.StackStack.{move_cells}
use cfunge.StackStack.Transfer.{pour, pour_last, contents-move_cells, move_cells-IsValid}
use cfunge.Fingerprints.Subr.{save, restore}

take-suc :
    (n : ℕ) (l m : List ℕ)
    → suc n ≤ length l
    → take n l ++ (head_or_zero (drop n l) ∷ m) ≡ take (suc n) l ++ m
take-suc zero [] m h = absurd (omega arith)
take-suc zero (x ∷ l) m h = refl
take-suc (suc n) [] m h = absurd (omega arith)
take-suc (suc n) (x ∷ l) m h = ap (◌∷◌ x) (take-suc n l m (omega arith))

-- Cells that are poured twice are in their order.
pour_twice :
    (n : ℕ) (from to back : List ℕ)
    → n ≤ length from
    → pour n (pour n from to) back ≡ take n from ++ back
pour_twice zero from to back h = refl
pour_twice (suc n) from to back h =
    ap (λ l. pour (suc n) l back) (pour_last n from to)
    ∙ pour_twice n from to (head_or_zero (drop n from) ∷ back) (omega arith)
    ∙ take-suc n from back h

module _ (memory : ℕ → ℕ) where
  empty_IsValid : IsValid (create memory)
  unfolding create
  empty_IsValid = record { fits = omega arith }

  contents-create : contents (create memory) ≡ []
  unfolding create
  contents-create = refl

  -- The two halves of a call and of a return, with any change of the stack between them.
  moved_twice :
      (n : ℕ) (s below : Stack)
      → IsValid s
      → IsValid below
      → n ≤ length (contents s)
      → contents (move_cells n (move_cells n s (create memory)).1 below).1
        ≡ take n (contents s) ++ contents below
  moved_twice n s below hs hb enough =
      let (rest, tmp) = move_cells n s (create memory) in
      (contents-move_cells n tmp below hb).1
      ∙ ap (λ l. pour n l (contents below))
          (contents-move_cells n s (create memory) empty_IsValid).1
      ∙ pour_twice n (contents s) (contents (create memory)) (contents below) enough

  take-append : (r z : List ℕ) → take (length r) (r ++ z) ≡ r
  take-append [] z = refl
  take-append (x ∷ r) z = ap (◌∷◌ x) (take-append r z)

  drop-append : (r z : List ℕ) → drop (length r) (r ++ z) ≡ z
  drop-append [] z = refl
  drop-append (x ∷ r) z = drop-append r z

  length-append : (r z : List ℕ) → length r ≤ length (r ++ z)
  length-append [] z = omega arith
  length-append (x ∷ r) z = omega (arith, length-append r z)

  pub drop-take : (n : ℕ) (l z : List ℕ) → n ≤ length l → drop n (take n l ++ z) ≡ z
  drop-take zero l z h = refl
  drop-take (suc n) [] z h = absurd (omega arith)
  drop-take (suc n) (x ∷ l) z h = drop-take n l z (omega arith)

  push_vector_lem :
      (v : Vector) (s : Stack)
      → IsValid s
      → (contents (push_vector v s) ≡ v.y ∷ v.x ∷ contents s) × IsValid (push_vector v s)
  unfolding push_vector
  push_vector_lem v s h = (
    contents-push v.y (push v.x s) (push-IsValid v.x s h) ∙ ap (◌∷◌ v.y) (contents-push v.x s h),
    push-IsValid v.y (push v.x s) (push-IsValid v.x s h),
  )

  pub pop_vector_lem :
      (v : Vector) (l : List ℕ) (s : Stack)
      → contents s ≡ v.y ∷ v.x ∷ l
      → IsValid s
      → ((pop_vector s).0 ≡ v) × (contents (pop_vector s).1 ≡ l) × IsValid (pop_vector s).1
  unfolding pop_vector
  pop_vector_lem v l s h hs =
      let below : contents (pop s).1 ≡ v.x ∷ l = contents-pop s ∙ ap (drop 1) h in
      (
        λ i. record {
          x = (pop_value (pop s).1 ∙ ap head_or_zero below) i;
          y = (pop_value s ∙ ap head_or_zero h) i;
        },
        contents-pop (pop s).1 ∙ ap (drop 1) below,
        pop-IsValid (pop s).1 (pop-IsValid s hs),
      )

  -- The cells of a call: the arguments above the delta and the position.
  abbrev pub frame : Vector → Vector → List ℕ → List ℕ
  frame p d l = d.y ∷ d.x ∷ p.y ∷ p.x ∷ l

  pub contents-save :
      (n : ℕ) (p d : Vector) (s : Stack)
      → IsValid s
      → n ≤ length (contents s)
      → contents (save memory n p d s) ≡ take n (contents s) ++ frame p d (drop n (contents s))
  unfolding save
  contents-save n p d s h enough =
      let rest = (move_cells n s (create memory)).0 in
      let hr = (move_cells-IsValid n s (create memory) h empty_IsValid).0 in
      let (cells, valid) = push_vector_lem p rest hr in
      let (cells', valid') = push_vector_lem d (push_vector p rest) valid in
      moved_twice n s (push_vector d (push_vector p rest)) h valid' enough
      ∙ ap (λ l. take n (contents s) ++ l)
          (cells'
            ∙ ap (λ l. d.y ∷ d.x ∷ l) cells
            ∙ ap (frame p d) (contents-move_cells n s (create memory) empty_IsValid).0)

  pub restore_lem :
      (r l : List ℕ) (p d : Vector) (t : Stack)
      → IsValid t
      → contents t ≡ r ++ frame p d l
      → let (p', d', s) = restore memory (length r) t in (p' ≡ p) × (d' ≡ d) × (contents s ≡ r ++ l)
  unfolding restore
  restore_lem r l p d t h cells =
      let n = length r in
      let rest = (move_cells n t (create memory)).0 in
      let hr = (move_cells-IsValid n t (create memory) h empty_IsValid).0 in
      let left : contents rest ≡ frame p d l =
        (contents-move_cells n t (create memory) empty_IsValid).0
        ∙ ap (drop n) cells
        ∙ drop-append r (frame p d l) in
      let (delta, below, hb) = pop_vector_lem d (p.y ∷ p.x ∷ l) rest left hr in
      let (position, last, hl) = pop_vector_lem p l (pop_vector rest).1 below hb in
      (
        position,
        delta,
        moved_twice n t (pop_vector (pop_vector rest).1).1 h hl
              (omega (arith, length-append r (frame p d l), ap length cells))
            ∙ ap₂ ◌++◌ (ap (take n) cells ∙ take-append r (frame p d l)) last,
      )
