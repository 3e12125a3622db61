-- ===== src/StackStack/Copy.antt =====
-- What the copies do to the cells of a stack.
use native.Mathlib.Nat.{add-zero}
use cfunge.Prelude.{
  ℕ, zero, suc, ◌+◌, ◌-◌, ◌≤◌, ◌<◌, ◌≡◌, refl, sym, ap, ap₂, ◌∙◌, arith, List, [], ◌∷◌, ◌++◌,
  Bool-cases, inl, inr, true, ltb, leb, length, take, replicate, memset, memcpy,
}
use cfunge.Stack.{Stack, prealloc_space}
use cfunge.Stack.Contents.{
  contents, IsValid, down, length-contents, prealloc_space_room, contents-prealloc_space,
}
use cfunge.StackStack.{zero_fill, copy_top, bulk_copy}

-- Changes at or above `n` are not seen below it.
pub down-eq : (f g : ℕ → ℕ) (n : ℕ) → ((j : ℕ) → j < n → f j ≡ g j) → down f n ≡ down g n
down-eq f g zero h = refl
down-eq f g (suc n) h = ap₂ ◌∷◌ (h n (omega arith)) (down-eq f g n (λ j p. h j (omega arith)))

plus_suc : (i m : ℕ) → i + suc m ≡ suc (i + m)
plus_suc i m = omega arith

down-memset :
    (f : ℕ → ℕ) (i n m : ℕ) → m ≤ n → down (memset f i 0 n) (i + m) ≡ replicate m 0 ++ down f i
down-memset f i n zero h =
    ap (down (memset f i 0 n)) (add-zero i)
    ∙ down-eq (memset f i 0 n) f i (λ j p. unfold memset in ground arith)
down-memset f i n (suc m) h =
    ap (down (memset f i 0 n)) (plus_suc i m)
    ∙ ap₂ ◌∷◌ (unfold memset in ground arith) (down-memset f i n m (omega arith))

shift : (k i m : ℕ) → k + (i + m - i) ≡ k + m
shift k i m = omega arith

-- Copied cells come in the order that they had.
down-memcpy :
    (f : ℕ → ℕ) (i : ℕ) (g : ℕ → ℕ) (k n m : ℕ)
    → m ≤ n
    → down (memcpy f i g k n) (i + m) ≡ take m (down g (k + m)) ++ down f i
down-memcpy f i g k n zero h =
    ap (down (memcpy f i g k n)) (add-zero i)
    ∙ down-eq (memcpy f i g k n) f i (λ j p. unfold memcpy in ground arith)
down-memcpy f i g k n (suc m) h =
    ap (down (memcpy f i g k n)) (plus_suc i m)
    ∙ ap₂ ◌∷◌ (copied ∙ ap g (shift k i m)) (down-memcpy f i g k n m (omega arith))
    ∙ ap (λ j. take (suc m) (down g j) ++ down f i) (sym (plus_suc k m))
  where
    copied : memcpy f i g k n (i + m) ≡ g (k + (i + m - i))
    copied = unfold memcpy in ground arith

-- `stack_zero_fill` puts zeros on top.
pub contents-zero_fill :
    (n : ℕ) (s : Stack) → IsValid s → contents (zero_fill n s) ≡ replicate n 0 ++ contents s
unfolding zero_fill
contents-zero_fill n s h =
    let t = prealloc_space n s in
    let room : leb (t.top + n) t.size ≡ true = ground (arith, prealloc_space_room n s h) in
    rw room (
      down-memset t.entries t.top n n (omega arith)
      ∙ ap (λ l. replicate n 0 ++ l) (contents-prealloc_space n s))

pub zero_fill-IsValid : (n : ℕ) (s : Stack) → IsValid s → IsValid (zero_fill n s)
unfolding zero_fill
zero_fill-IsValid n s h = record { fits = omega (arith, prealloc_space_room n s h) }

take-down : (g : ℕ → ℕ) (n t : ℕ) → n ≤ t → take n (down g (t - n + n)) ≡ take n (down g t)
take-down g n t h = ap (λ k. take n (down g k)) (omega arith)

contents-copy_top :
    (dest src : Stack) (n : ℕ)
    → dest.top + n ≤ dest.size
    → n ≤ src.top
    → contents (copy_top dest src n) ≡ take n (contents src) ++ contents dest
unfolding copy_top
contents-copy_top dest src n room enough =
    let fits : leb (dest.top + n) dest.size ≡ true = ground arith in
    rw fits (
      down-memcpy dest.entries dest.top src.entries (src.top - n) n n (omega arith)
      ∙ ap (λ l. l ++ contents dest) (take-down src.entries n src.top enough))

take-all : (n : ℕ) (l : List ℕ) → length l ≤ n → take n l ≡ l
take-all zero [] h = refl
take-all zero (x ∷ l) h = absurd (omega arith)
take-all (suc n) [] h = refl
take-all (suc n) (x ∷ l) h = ap (λ m. x ∷ m) (take-all n l (omega arith))

no_zeros : (t n : ℕ) → n ≤ t → 0 ≡ n - t
no_zeros t n h = omega arith

zero_fill_room : (n : ℕ) (s : Stack) → s.top + n < s.size → (zero_fill n s).size ≡ s.size
unfolding zero_fill prealloc_space
zero_fill_room n s h = ground arith

top-zero_fill : (n : ℕ) (s : Stack) → (zero_fill n s).top ≡ s.top + n
unfolding zero_fill prealloc_space
top-zero_fill n s = ground arith

zeros_room :
    (dest src : Stack) (count : ℕ)
    → IsValid dest
    → src.top < count
    → let z = zero_fill (count - src.top) (prealloc_space count dest) in
      z.top + (count - (count - src.top)) ≤ z.size
zeros_room dest src count h more =
    let t = prealloc_space count dest in
    let room = prealloc_space_room count dest h in
    omega
      (arith, top-zero_fill (count - src.top) t, zero_fill_room (count - src.top) t (omega arith))

prealloc_space-IsValid : (n : ℕ) (s : Stack) → IsValid s → IsValid (prealloc_space n s)
prealloc_space-IsValid n s h = record { fits = omega (arith, prealloc_space_room n s h) }

copy_over_zeros :
    (dest src : Stack) (count : ℕ)
    → IsValid dest
    → src.top < count
    → contents (
        copy_top
          (zero_fill (count - src.top) (prealloc_space count dest))
          src
          (count - (count - src.top)))
      ≡ take count (contents src) ++ (replicate (count - src.top) 0 ++ contents dest)
copy_over_zeros dest src count h more =
    let n = count - (count - src.top) in
    let t = prealloc_space count dest in
    contents-copy_top (zero_fill (count - src.top) t) src n (zeros_room dest src count h more)
      (omega arith)
    ∙ ap₂ ◌++◌
        (take-all n (contents src) (omega (arith, length-contents src))
          ∙ sym (take-all count (contents src) (omega (arith, length-contents src))))
        (contents-zero_fill (count - src.top) t (prealloc_space-IsValid count dest h)
          ∙ ap (λ l. replicate (count - src.top) 0 ++ l) (contents-prealloc_space count dest))

-- `stack_bulk_copy` puts the top `count` cells of the source on the destination in the order that
-- they had, over zeros for those that the source lacks.
pub contents-bulk_copy :
    (dest src : Stack) (count : ℕ)
    → IsValid dest
    → contents (bulk_copy dest src count)
      ≡ take count (contents src) ++ (replicate (count - src.top) 0 ++ contents dest)
unfolding bulk_copy
contents-bulk_copy dest src count h = elim (Bool-cases (ltb src.top count)) [
  | inl more ↦ rw more (copy_over_zeros dest src count h (ground arith))
  | inr enough ↦ rw enough (
      contents-copy_top (prealloc_space count dest) src count
        (omega (arith, prealloc_space_room count dest h)) (ground arith)
      ∙ ap (λ l. take count (contents src) ++ l)
          (contents-prealloc_space count dest
            ∙ ap (λ k. replicate k 0 ++ contents dest) (no_zeros src.top count (ground arith))))
]

pub bulk_copy-IsValid :
    (dest src : Stack) (count : ℕ) → IsValid dest → IsValid (bulk_copy dest src count)
unfolding bulk_copy copy_top
bulk_copy-IsValid dest src count h = elim (Bool-cases (ltb src.top count)) [
  | inl more ↦ rw more (record { fits = zeros_room dest src count h (ground arith) })
  | inr enough ↦ rw enough (record { fits = omega (arith, prealloc_space_room count dest h) })
]
