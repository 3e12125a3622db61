-- ===== src/Fingerprints/Frth/Roll.antt =====
-- What L of FRTH does to the cells of the stack.
use cfunge.Prelude.{
  ℕ, zero, suc, ◌+◌, ◌-◌, ◌*◌, ◌^◌, ◌<◌, ◌≡◌, refl, sym, ap, ap₂, ◌∙◌, arith, Bool, true, false,
  List, ◌∷◌, ◌++◌, take, drop, length, update_self, ◌%◌,
}
use cfunge.Cell.{add, sle, is_neg}
use cfunge.Stack.{Stack, push, pop, discard}
use cfunge.Stack.Contents.{
  contents, IsValid, down, push-IsValid, pop-IsValid, discard-IsValid, contents-push, contents-pop,
  contents-discard, pop_value, drop-down, head_or_zero, length-contents,
}
use cfunge.Ip.{Ip, toss}
use cfunge.Fingerprints.Frth.{push_from, roll_cells, forth_roll}

-- The last of the cells that are taken from a stack.
take_last :
    (n i : ℕ) (e : ℕ → ℕ) (l : List ℕ)
    → take (suc n) (down e (suc (i + n))) ++ l ≡ take n (down e (suc (i + n))) ++ (e i ∷ l)
take_last zero i e l = ap (λ k. e k ∷ l) (omega arith)
take_last (suc n) i e l =
    let same : suc (i + n) ≡ i + suc n = omega arith in
    ap₂ ◌∷◌ refl (
      ap (λ k. take (suc n) (down e k) ++ l) (sym same)
      ∙ take_last n i e l
      ∙ ap (λ k. take n (down e k) ++ (e i ∷ l)) same)

push_from-IsValid : (n i : ℕ) (e : ℕ → ℕ) (s : Stack) → IsValid s → IsValid (push_from n e i s)
unfolding push_from
push_from-IsValid zero i e s h = h
push_from-IsValid (suc n) i e s h =
    push_from-IsValid n (i + 1) e (push (e i) s) (push-IsValid (e i) s h)

contents-push_from :
    (n i : ℕ) (e : ℕ → ℕ) (s : Stack)
    → IsValid s
    → contents (push_from n e i s) ≡ take n (down e (i + n)) ++ contents s
unfolding push_from
contents-push_from zero i e s h = refl
contents-push_from (suc n) i e s h =
    let same : i + 1 + n ≡ suc (i + n) = omega arith in
    let other : suc (i + n) ≡ i + suc n = omega arith in
    contents-push_from n (i + 1) e (push (e i) s) (push-IsValid (e i) s h)
    ∙ ap₂ (λ k l. take n (down e k) ++ l) same (contents-push (e i) s h)
    ∙ sym (take_last n i e (contents s))
    ∙ ap (λ k. take (suc n) (down e k) ++ contents s) other

-- The cell under n others of a stack.
head-drop-down : (e : ℕ → ℕ) (u s : ℕ) → u < s → e (s - (u + 1)) ≡ head_or_zero (drop u (down e s))
head-drop-down e u s h =
    let same : s - u - 1 ≡ s - (u + 1) = omega arith in
    let pos : s - u ≡ suc (s - (u + 1)) = omega arith in
    sym (ap head_or_zero (drop-down e u s ∙ ap (down e) pos))

contents-roll_cells :
    (u : ℕ) (st : Stack)
    → IsValid st
    → u < st.top
    → st.top < 2 ^ 63
    → contents (roll_cells u st)
      ≡ head_or_zero (drop u (contents st)) ∷ (take u (contents st) ++ drop (suc u) (contents st))
unfolding roll_cells
contents-roll_cells u st h less fits =
    let s = st.top in
    let rest = discard (add u 1) st in
    let hr = discard-IsValid (add u 1) st h in
    let n : add u 1 ≡ suc u = omega arith in
    let i : s - u + u ≡ s = omega arith in
    contents-push (st.entries (s - (u + 1))) (push_from u st.entries (s - u) rest)
      (push_from-IsValid u (s - u) st.entries rest hr)
    ∙ ap₂ ◌∷◌ (head-drop-down st.entries u s less) (
        contents-push_from u (s - u) st.entries rest hr
        ∙ ap₂ (λ k l. take u (down st.entries k) ++ l) i
            (contents-discard (add u 1) st ∙ ap (λ k. drop k (contents st)) n))

-- On a valid stack with a number u on top, and more than u cells, fewer than 2 ^ 63, below it, L
-- takes u away and the cell under u others to the top, if the system has the memory; the other
-- cells keep their order.
pub forth_roll_lem :
    (alloc : ℕ → Bool) (u : ℕ) (l : List ℕ) (ip : Ip)
    → IsValid (toss ip)
    → contents (toss ip) ≡ u ∷ l
    → u < length l
    → length l < 2 ^ 63
    → alloc (8 * length l) ≡ true
    → contents (toss (forth_roll alloc ip)) ≡ head_or_zero (drop u l) ∷ (take u l ++ drop (suc u) l)
unfolding forth_roll
forth_roll_lem alloc u l ip h cells less fits memory =
    let st = (pop (toss ip)).1 in
    let value : (pop (toss ip)).0 ≡ u = pop_value (toss ip) ∙ ap head_or_zero cells in
    let rest : contents st ≡ l = contents-pop (toss ip) ∙ ap (drop 1) cells in
    let top : st.top ≡ length l = sym (length-contents st) ∙ ap length rest in
    let forward : is_neg u ≡ false = ground arith in
    let inside : sle (st.top % 2 ^ 64) u ≡ false = ground arith in
    let room : alloc (8 * st.top) ≡ true = ap (λ n. alloc (8 * n)) top ∙ memory in
    rw (value, forward, inside, room)
      (ap contents (update_self ip.stackstack.stacks ip.stackstack.current (roll_cells u st))
        ∙ contents-roll_cells u st (pop-IsValid (toss ip) h) (omega arith) (omega arith)
        ∙ ap (λ c. head_or_zero (drop u c) ∷ (take u c ++ drop (suc u) c)) rest)
