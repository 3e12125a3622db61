-- ===== src/Stack/Contents.antt =====
-- What a stack holds, as a list from the top down.
use native.Mathlib.Numerals.{add-one}
use native.Mathlib.Nat.{sub-eq-zero_of_le, sub-zero, zero-sub}
use cfunge.Prelude.{
  ℕ, zero, suc, ◌+◌, ◌-◌, ◌≤◌, ◌<◌, ◌≡◌, ◌≢◌, refl, sym, ap, ap₂, ◌∙◌, List, [], ◌∷◌, arith,
  Bool-cases, inl, inr, update, update_self, update_ne, length, drop, ltb, ◌==◌,
}
use cfunge.Stack.{Stack, store, prealloc_space, push_no_check, push, pop, discard, peek, alloc_size}

-- The entries below `n`, the last first.
abbrev pub down : (ℕ → ℕ) → ℕ → List ℕ
down f zero = []
down f (suc n) = f n ∷ down f n

abbrev pub contents : Stack → List ℕ
contents s = down s.entries s.top

-- The representation invariant.
pub record IsValid (s : Stack) : Type 0 where
  pub fits : s.top ≤ s.size

pub length-down : (f : ℕ → ℕ) (n : ℕ) → length (down f n) ≡ n
length-down f zero = refl
length-down f (suc n) = ap suc (length-down f n)

pub length-contents : (s : Stack) → length (contents s) ≡ s.top
length-contents s = length-down s.entries s.top

pub down-update : (f : ℕ → ℕ) (i v n : ℕ) → n ≤ i → down (update f i v) n ≡ down f n
down-update f i v zero h = refl
down-update f i v (suc n) h =
    ap₂ ◌∷◌ (update_ne f i n v (omega arith)) (down-update f i v n (omega arith))

pub down-update_top : (f : ℕ → ℕ) (v n : ℕ) → down (update f n v) (suc n) ≡ v ∷ down f n
down-update_top f v n = ap₂ ◌∷◌ (update_self f n v) (down-update f n v n (omega arith))

pub down_of_pos : (f : ℕ → ℕ) (n : ℕ) → n ≢ 0 → down f n ≡ f (n - 1) ∷ down f (n - 1)
down_of_pos f zero h = absurd (h refl)
down_of_pos f (suc n) h = ap (λ k. f k ∷ down f k) (omega arith)

sub_suc : (n k : ℕ) → n - k ≡ suc n - suc k
sub_suc n k = omega arith

pub drop-down : (f : ℕ → ℕ) (k n : ℕ) → drop k (down f n) ≡ down f (n - k)
drop-down f zero n = ap (down f) (sym (sub-zero n))
drop-down f (suc k) zero = ap (down f) (sym (zero-sub (suc k)))
drop-down f (suc k) (suc n) = drop-down f k n ∙ ap (down f) (sub_suc n k)

pub store_ok :
    (v : ℕ) (s : Stack)
    → s.top < s.size
    → store s.top v s ≡ record s { entries = update s.entries s.top v }
unfolding store
store_ok v s h = ground arith

pub contents-push_no_check :
    (v : ℕ) (s : Stack) → s.top < s.size → contents (push_no_check v s) ≡ v ∷ contents s
unfolding push_no_check
contents-push_no_check v s h = rw (store_ok v s h, add-one) (down-update_top s.entries v s.top)

-- `stack_push` puts the value on top, growing the array where it is full.
pub contents-push : (v : ℕ) (s : Stack) → IsValid s → contents (push v s) ≡ v ∷ contents s
unfolding push
contents-push v s h = elim (Bool-cases (s.top == s.size)) [
  | inl full ↦
      rw (full, store_ok v (record s { size = s.size + alloc_size }) (omega arith), add-one)
        (down-update_top s.entries v s.top)
  | inr room ↦ rw (room, store_ok v s (ground arith), add-one) (down-update_top s.entries v s.top)
]

pub push-IsValid : (v : ℕ) (s : Stack) → IsValid s → IsValid (push v s)
unfolding push store
push-IsValid v s h = ground arith

pub pop-IsValid : (s : Stack) → IsValid s → IsValid (pop s).1
unfolding pop
pop-IsValid s h = ground arith

pub discard-IsValid : (n : ℕ) (s : Stack) → IsValid s → IsValid (discard n s)
unfolding discard
discard-IsValid n s h = ground arith

pub prealloc_space_room :
    (n : ℕ) (s : Stack) → IsValid s → (prealloc_space n s).top + n < (prealloc_space n s).size
unfolding prealloc_space
prealloc_space_room n s h = ground arith

pub contents-prealloc_space : (n : ℕ) (s : Stack) → contents (prealloc_space n s) ≡ contents s
unfolding prealloc_space
contents-prealloc_space n s = ground arith

-- The list that a reader of an empty stack sees is one of zeros.
abbrev pub head_or_zero : List ℕ → ℕ
head_or_zero [] = 0
head_or_zero (x ∷ xs) = x

abbrev pub pop_list : List ℕ → ℕ × List ℕ
pop_list [] = (0, [])
pop_list (x ∷ xs) = (x, xs)

pub pop_value : (s : Stack) → (pop s).0 ≡ head_or_zero (contents s)
unfolding pop
pop_value s = ground (arith, down_of_pos s.entries s.top)

pub contents-pop : (s : Stack) → contents (pop s).1 ≡ drop 1 (contents s)
unfolding pop
contents-pop s = ground (arith, down_of_pos s.entries s.top)

pub pop_refines : (s : Stack) → ((pop s).0, contents (pop s).1) ≡ pop_list (contents s)
unfolding pop
pop_refines s = ground (arith, down_of_pos s.entries s.top)

pub peek_refines : (s : Stack) → peek s ≡ head_or_zero (contents s)
unfolding peek
peek_refines s = ground (arith, down_of_pos s.entries s.top)

pub contents-discard : (n : ℕ) (s : Stack) → contents (discard n s) ≡ drop n (contents s)
unfolding discard
contents-discard n s = rw (drop-down s.entries n s.top) (elim (Bool-cases (ltb n s.top)) [
  | inl more ↦ rw more
  | inr all ↦ rw (all, sub-eq-zero_of_le {n = s.top} {m = n} (ground arith))
])
