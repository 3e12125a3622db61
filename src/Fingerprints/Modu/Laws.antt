-- ===== src/Fingerprints/Modu/Laws.antt =====
-- What the remainders of MODU are.
use cfunge.Prelude.{ℕ, ◌≡◌, ap, arith, fun_ext}
use cfunge.Cell.{rem, funge_modulo}
use cfunge.Ip.{Ip, toss, set_toss}
use cfunge.Interpreter.Stacks.{binary}
use cfunge.Fingerprints.Modu.{guarded, remainder}

guarded-rem : (x y : ℕ) → guarded rem x y ≡ funge_modulo x y
unfolding guarded funge_modulo
guarded-rem x y = ground arith

-- R of MODU does to the stack what the instruction % does.
pub remainder_lem : (ip : Ip) → remainder ip ≡ set_toss (binary funge_modulo (toss ip)) ip
unfolding remainder
remainder_lem ip =
    ap (λ (f : ℕ → ℕ → ℕ). set_toss (binary f (toss ip)) ip)
      (fun_ext λ x. fun_ext λ y. guarded-rem x y)
