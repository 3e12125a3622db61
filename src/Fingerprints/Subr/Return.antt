-- ===== src/Fingerprints/Subr/Return.antt =====
-- A call and its return.
use cfunge.Prelude.{
  ℕ, ◌≤◌, ◌<◌, ◌≡◌, ap, ◌∙◌, arith, false, List, ◌∷◌, ◌++◌, take, drop, length, ◌^◌,
}
use cfunge.Cell.{is_neg}
use cfunge.Vector.{Vector}
use cfunge.Table.{HashLib}
use cfunge.Space.{Space}
use cfunge.Space.Wrap.{fungespace_wrap}
use cfunge.Stack.{pop, pop_vector}
use cfunge.Stack.Contents.{contents, IsValid, pop-IsValid, contents-pop, pop_value, head_or_zero}
use cfunge.Ip.Toss.{toss-set_toss}
use cfunge.Ip.{Ip, toss, set_position}
use cfunge.Fingerprints.Subr.{save, restore, call, return}
use cfunge.Fingerprints.Subr.Laws.{pop_vector_lem, frame, contents-save, restore_lem, drop-take}

module _ (memory : ℕ → ℕ) (lib : HashLib) where
  -- The stack in the subroutine.
  pub contents-call :
      (n : ℕ) (target : Vector) (l : List ℕ) (ip : Ip) (s : Space lib)
      → IsValid (toss ip)
      → contents (toss ip) ≡ n ∷ target.y ∷ target.x ∷ l
      → n ≤ length l
      → n < 2 ^ 63
      → contents (toss (call memory lib ip s).0)
        ≡ take n l ++ frame memory ip.position ip.delta (drop n l)
  unfolding call set_position
  contents-call n target l ip s h cells enough small =
      let s₁ = (pop (toss ip)).1 in
      let s₂ = (pop_vector s₁).1 in
      let value : (pop (toss ip)).0 ≡ n = pop_value (toss ip) ∙ ap head_or_zero cells in
      let (same, rest, valid) =
        pop_vector_lem memory target l s₁ (contents-pop (toss ip) ∙ ap (drop 1) cells)
          (pop-IsValid (toss ip) h) in
      let plus : is_neg n ≡ false = ground arith in
      rw (value, plus)
        (ap contents (toss-set_toss (save memory n ip.position ip.delta s₂) ip)
          ∙ contents-save memory n ip.position ip.delta s₂ valid (omega (arith, ap length rest))
          ∙ ap (λ c. take n c ++ frame memory ip.position ip.delta (drop n c)) rest)

  return_lem :
      (r l : List ℕ) (p d : Vector) (ip : Ip) (s : Space lib)
      → IsValid (toss ip)
      → contents (toss ip) ≡ length r ∷ (r ++ frame memory p d l)
      → length r < 2 ^ 63
      → let ip' = (return memory lib ip s).0 in
        (contents (toss ip') ≡ r ++ l)
        × (ip'.delta ≡ d)
        × (ip'.position ≡ (fungespace_wrap lib p ip.delta s).0)
  unfolding return set_position
  return_lem r l p d ip s h cells small =
      let s₁ = (pop (toss ip)).1 in
      let value : (pop (toss ip)).0 ≡ length r = pop_value (toss ip) ∙ ap head_or_zero cells in
      let plus : is_neg (length r) ≡ false = ground arith in
      let (position, delta, rest) =
        restore_lem memory r l p d s₁ (pop-IsValid (toss ip) h)
          (contents-pop (toss ip) ∙ ap (drop 1) cells) in
      rw (value, plus)
        (
          ap contents (toss-set_toss (restore memory (length r) s₁).2 ip) ∙ rest,
          delta,
          ap (λ v. (fungespace_wrap lib v ip.delta s).0) position,
        )

  -- C with n arguments, n < 2 ^ 63, on a valid stack that has them, and R from any IP and Funge-Space
  -- that the subroutine leaves, where the stack is valid and the cells r, fewer than 2 ^ 63, and
  -- their number are on it in place of the arguments: the IP has its delta again, and stands where it
  -- was, wrapped; r stands on the stack in place of the arguments.
  pub return-call :
      (n : ℕ) (target : Vector) (l r : List ℕ) (ip ip' : Ip) (s s' : Space lib)
      → IsValid (toss ip)
      → contents (toss ip) ≡ n ∷ target.y ∷ target.x ∷ l
      → n ≤ length l
      → n < 2 ^ 63
      → IsValid (toss ip')
      → contents (toss ip') ≡ length r ∷ (r ++ drop n (contents (toss (call memory lib ip s).0)))
      → length r < 2 ^ 63
      → let back = (return memory lib ip' s').0 in
        (contents (toss back) ≡ r ++ drop n l)
        × (back.delta ≡ ip.delta)
        × (back.position ≡ (fungespace_wrap lib ip.position ip'.delta s').0)
  return-call n target l r ip ip' s s' h cells enough small h' cells' small' =
      let called = contents-call n target l ip s h cells enough small in
      return_lem r (drop n l) ip.position ip.delta ip' s' h'
        (cells'
          ∙ ap (λ c. length r ∷ (r ++ drop n c)) called
          ∙ ap (λ c. length r ∷ (r ++ c))
              (drop-take memory n l (frame memory ip.position ip.delta (drop n l)) enough))
        small'
