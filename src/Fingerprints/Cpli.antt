-- ===== src/Fingerprints/Cpli.antt =====
-- src/fingerprints/CPLI/CPLI.c: complex integers, the imaginary part on top. What O prints is a
-- list of bytes; printf is a parameter, and so is the square root of a long double.
mod Tests
use cfunge.Prelude.{ℕ, List, [], ◌∷◌, ◌++◌, ◌&&◌, not, ◌==◌, if◌then◌else◌}
use cfunge.Cell.{add, sub, mul, slt, funge_division}
use cfunge.Stack.{push, pop}
use cfunge.Ip.{Ip, toss, set_toss}

-- What A, D, M and S have around their formulas for the two parts.
abbrev on_complex : (ℕ → ℕ → ℕ → ℕ → ℕ) → (ℕ → ℕ → ℕ → ℕ → ℕ) → Ip → Ip
on_complex real imaginary ip =
    let (bi, s₁) = pop (toss ip) in
    let (br, s₂) = pop s₁ in
    let (ai, s₃) = pop s₂ in
    let (ar, s₄) = pop s₃ in set_toss (push (imaginary ar ai br bi) (push (real ar ai br bi) s₄)) ip

-- A
unfoldable pub cpli_add : Ip → Ip
cpli_add ip = on_complex (λ ar ai br bi. add ar br) (λ ar ai br bi. add ai bi) ip

-- S
unfoldable pub cpli_sub : Ip → Ip
cpli_sub ip = on_complex (λ ar ai br bi. sub ar br) (λ ar ai br bi. sub ai bi) ip

-- M
unfoldable pub cpli_mul : Ip → Ip
cpli_mul ip =
    on_complex (λ ar ai br bi. sub (mul ar br) (mul ai bi))
      (λ ar ai br bi. add (mul ar bi) (mul ai br)) ip

abbrev denominator : ℕ → ℕ → ℕ
denominator br bi = add (mul bi bi) (mul br br)

-- D
unfoldable pub cpli_div : Ip → Ip
cpli_div ip =
    on_complex (λ ar ai br bi. funge_division (add (mul ai bi) (mul ar br)) (denominator br bi))
      (λ ar ai br bi. funge_division (sub (mul ai br) (mul ar bi)) (denominator br bi)) ip

-- O; `print` is printf with the format for a cell.
unfoldable pub out : (ℕ → List ℕ) → Ip → List ℕ × Ip
out print ip =
    let (i, s₁) = pop (toss ip) in
    let (r, s₂) = pop s₁ in
    (
      print r ++ ((if slt 0 i then b'+' ∷ [] else []) ++ (print i ++ (b'i' ∷ b' ' ∷ []))),
      set_toss s₂ ip,
    )

-- V; `sqrt` takes a cell to the cell that the cast of its root gives.
unfoldable pub cpli_abs : (ℕ → ℕ) → Ip → Ip
cpli_abs sqrt ip =
    let (i, s₁) = pop (toss ip) in
    let (r, s₂) = pop s₁ in set_toss (push (sqrt (add (mul r r) (mul i i))) s₂) ip
