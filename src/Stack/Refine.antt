-- ===== src/Stack/Refine.antt =====
-- The array of src/stack.c against an endless list of cells with zeros at the bottom.
use cfunge.Prelude.{
  ℕ, ◌+◌, ◌<◌, ◌≡◌, ◌≢◌, refl, ap, ◌∙◌, List, [], ◌∷◌, arith, drop, length, Bool-cases, inl, inr,
  ◌==◌,
}
use cfunge.Stack.{
  Stack, prealloc_space, push_no_check, push, pop, discard, peek, clear, store, dup_top, swap_top,
}
use cfunge.Stack.Contents.{
  contents, IsValid, pop_list, head_or_zero, length-contents, contents-push_no_check, contents-push,
  push-IsValid, pop-IsValid, discard-IsValid, prealloc_space_room, contents-prealloc_space,
  pop_value, contents-pop, pop_refines, peek_refines, contents-discard,
}

-- What a client asks of a stack.
pub data Op : Type 0 where
  put : ℕ → Op
  take_top look duplicate exchange empty : Op
  drop_many : ℕ → Op

-- The same on lists, the top first.
abbrev pub dup_list : List ℕ → List ℕ
dup_list [] = 0 ∷ 0 ∷ []
dup_list (x ∷ xs) = x ∷ x ∷ xs

abbrev pub swap_list : List ℕ → List ℕ
swap_list [] = 0 ∷ 0 ∷ []
swap_list (x ∷ []) = 0 ∷ x ∷ []
swap_list (x ∷ y ∷ xs) = y ∷ x ∷ xs

-- The cells that a sequence of calls returns, and the stack that it leaves.
unfoldable pub run : List Op → Stack → List ℕ × Stack
run [] s = ([], s)
run (put v ∷ ops) s = run ops (push v s)
run (take_top ∷ ops) s = let (v, t) = pop s in let (vs, u) = run ops t in (v ∷ vs, u)
run (look ∷ ops) s = let (vs, u) = run ops s in (peek s ∷ vs, u)
run (duplicate ∷ ops) s = run ops (dup_top s)
run (exchange ∷ ops) s = run ops (swap_top s)
run (empty ∷ ops) s = run ops (clear s)
run (drop_many n ∷ ops) s = run ops (discard n s)

unfoldable pub run_list : List Op → List ℕ → List ℕ × List ℕ
run_list [] l = ([], l)
run_list (put v ∷ ops) l = run_list ops (v ∷ l)
run_list (take_top ∷ ops) l = let (v, m) = pop_list l in let (vs, r) = run_list ops m in (v ∷ vs, r)
run_list (look ∷ ops) l = let (vs, r) = run_list ops l in (head_or_zero l ∷ vs, r)
run_list (duplicate ∷ ops) l = run_list ops (dup_list l)
run_list (exchange ∷ ops) l = run_list ops (swap_list l)
run_list (empty ∷ ops) l = run_list ops []
run_list (drop_many n ∷ ops) l = run_list ops (drop n l)

top-push : (v : ℕ) (s : Stack) → (push v s).top ≡ s.top + 1
unfolding push
top-push v s = refl

dup_nil : (l : List ℕ) → length l ≡ 0 → 0 ∷ head_or_zero l ∷ l ≡ dup_list l
dup_nil [] h = refl
dup_nil (x ∷ l) h = absurd (omega arith)

dup_cons : (l : List ℕ) → length l ≢ 0 → head_or_zero l ∷ l ≡ dup_list l
dup_cons [] h = absurd (h refl)
dup_cons (x ∷ l) h = refl

swap_parts :
    (l : List ℕ) → head_or_zero (drop 1 l) ∷ head_or_zero l ∷ drop 1 (drop 1 l) ≡ swap_list l
swap_parts [] = refl
swap_parts (x ∷ []) = refl
swap_parts (x ∷ y ∷ l) = refl

contents-push-peek :
    (s : Stack) → IsValid s → contents (push (peek s) s) ≡ head_or_zero (contents s) ∷ contents s
contents-push-peek s h = contents-push (peek s) s h ∙ ap (λ v. v ∷ contents s) (peek_refines s)

-- `:` duplicates the top cell; on an empty stack it leaves two zeros.
pub contents-dup_top : (s : Stack) → IsValid s → contents (dup_top s) ≡ dup_list (contents s)
unfolding dup_top
contents-dup_top s h = elim (Bool-cases ((push (peek s) s).top == 1)) [
  | inl one ↦ rw one (
      contents-push 0 (push (peek s) s) (push-IsValid (peek s) s h)
      ∙ ap (λ l. 0 ∷ l) (contents-push-peek s h)
      ∙ dup_nil (contents s) (ground (arith, length-contents s, top-push (peek s) s)))
  | inr more ↦ rw more (
      contents-push-peek s h
      ∙ dup_cons (contents s) (ground (arith, length-contents s, top-push (peek s) s)))
]

pub dup_top-IsValid : (s : Stack) → IsValid s → IsValid (dup_top s)
unfolding dup_top
dup_top-IsValid s h =
    let t = push (peek s) s in
    let v = push-IsValid (peek s) s h in ground (arith, v, push-IsValid 0 t v)

-- `stack_prealloc_space` makes room, so the two writes after it stay inside the array.
contents-push_two :
    (a b : ℕ) (s : Stack)
    → s.top + 2 < s.size
    → contents (push_no_check b (push_no_check a s)) ≡ b ∷ a ∷ contents s
contents-push_two a b s h =
    contents-push_no_check b (push_no_check a s) (unfold push_no_check store in ground arith)
    ∙ ap (λ l. b ∷ l) (contents-push_no_check a s (omega arith))

-- `\` exchanges the two top cells, reading zeros below the bottom.
pub contents-swap_top : (s : Stack) → IsValid s → contents (swap_top s) ≡ swap_list (contents s)
unfolding swap_top
contents-swap_top s h =
    let t = (pop (pop s).1).1 in
    let v = pop-IsValid (pop s).1 (pop-IsValid s h) in
    contents-push_two (pop s).0 (pop (pop s).1).0 (prealloc_space 2 t) (prealloc_space_room 2 t v)
    ∙ rw
        (
          contents-prealloc_space 2 t,
          pop_value (pop s).1,
          contents-pop (pop s).1,
          pop_value s,
          contents-pop s,
        )
        (swap_parts (contents s))

pub swap_top-IsValid : (s : Stack) → IsValid s → IsValid (swap_top s)
unfolding swap_top push_no_check store
swap_top-IsValid s h =
    let t = (pop (pop s).1).1 in
    ground (arith, prealloc_space_room 2 t (pop-IsValid (pop s).1 (pop-IsValid s h)))

cons_first :
    (v : ℕ) {p q : List ℕ × List ℕ}
    → p ≡ q
    → ◌≡◌ {A = List ℕ × List ℕ} (v ∷ p.0, p.1) (v ∷ q.0, q.1)
cons_first v e = ap (λ r. (v ∷ r.0, r.1)) e

-- No sequence of calls tells a valid stack from the list of its cells.
pub run_refines :
    (ops : List Op) (s : Stack)
    → IsValid s
    → ((run ops s).0, contents (run ops s).1) ≡ run_list ops (contents s)
unfolding run run_list clear
run_refines [] s h = refl
run_refines (put v ∷ ops) s h =
    rw (← contents-push v s h) (run_refines ops (push v s) (push-IsValid v s h))
run_refines (take_top ∷ ops) s h =
    rw (← pop_refines s) (cons_first (pop s).0 (run_refines ops (pop s).1 (pop-IsValid s h)))
run_refines (look ∷ ops) s h = rw (← peek_refines s) (cons_first (peek s) (run_refines ops s h))
run_refines (duplicate ∷ ops) s h =
    rw (← contents-dup_top s h) (run_refines ops (dup_top s) (dup_top-IsValid s h))
run_refines (exchange ∷ ops) s h =
    rw (← contents-swap_top s h) (run_refines ops (swap_top s) (swap_top-IsValid s h))
run_refines (empty ∷ ops) s h = run_refines ops (clear s) (record { fits = omega arith })
run_refines (drop_many n ∷ ops) s h =
    rw (← contents-discard n s) (run_refines ops (discard n s) (discard-IsValid n s h))
