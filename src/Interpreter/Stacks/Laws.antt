-- ===== src/Interpreter/Stacks/Laws.antt =====
-- What the instructions do to the contents of the stack.
use cfunge.Prelude.{ℕ, zero, suc, ◌*◌, ◌%◌, ◌^◌, ◌≡◌, refl, ap, ap₂, ◌∙◌, List, [], ◌∷◌, drop}
use cfunge.Cell.{add}
use cfunge.Stack.{Stack, pop}
use cfunge.Stack.Contents.{
  contents, IsValid, contents-push, contents-pop, pop_value, pop-IsValid, head_or_zero,
}
use cfunge.Interpreter.Stacks.{binary, read_fingerprint}

-- A case with two operands takes the second cell as its first operand and the top as its second,
-- with 0 for a cell that is not there, and puts its result in their place.
pub contents-binary :
    (f : ℕ → ℕ → ℕ) (s : Stack)
    → IsValid s
    → contents (binary f s)
      ≡ f (head_or_zero (drop 1 (contents s))) (head_or_zero (contents s))
        ∷ drop 1 (drop 1 (contents s))
unfolding binary
contents-binary f s h =
    let s₁ = (pop s).1 in
    let a = (pop s₁).0 in
    contents-push (f a (pop s).0) (pop s₁).1 (pop-IsValid s₁ (pop-IsValid s h))
    ∙ ap₂ ◌∷◌ (ap₂ f (pop_value s₁ ∙ ap head_or_zero (contents-pop s)) (pop_value s))
        (contents-pop s₁ ∙ ap (drop 1) (contents-pop s))

-- The number whose digits in base 256 are the first cells of a list, the first one highest, with
-- zeros after its end.
abbrev pub name_of : ℕ → ℕ → List ℕ → ℕ
name_of zero fprint l = fprint
name_of (suc n) fprint l = name_of n (add (fprint * 256 % 2 ^ 64) (head_or_zero l)) (drop 1 l)

drop-one : (k : ℕ) (l : List ℕ) → drop k (drop 1 l) ≡ drop (suc k) l
drop-one zero [] = refl
drop-one (suc k) [] = refl
drop-one k (x ∷ l) = refl

-- The loop over n cells gives the number of the first n cells, and takes them off the stack.
pub read_fingerprint_lem :
    (n fprint : ℕ) (s : Stack)
    → ((read_fingerprint n fprint s).0 ≡ name_of n fprint (contents s))
      × (contents (read_fingerprint n fprint s).1 ≡ drop n (contents s))
unfolding read_fingerprint
read_fingerprint_lem zero fprint s = (refl, refl)
read_fingerprint_lem (suc n) fprint s =
    let ih = read_fingerprint_lem n (add (fprint * 256 % 2 ^ 64) (pop s).0) (pop s).1 in
    (
      ih.0
          ∙ ap₂ (λ v l. name_of n (add (fprint * 256 % 2 ^ 64) v) l) (pop_value s) (contents-pop s),
      ih.1 ∙ ap (drop n) (contents-pop s) ∙ drop-one n (contents s),
    )
