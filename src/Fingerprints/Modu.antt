-- ===== src/Fingerprints/Modu.antt =====
-- src/fingerprints/MODU/MODU.c: modulo operations.
pub mod Laws
use cfunge.Prelude.{ℕ, ◌^◌, ◌-◌, Bool, ◌&&◌, ◌==◌, if◌then◌else◌}
use cfunge.Cell.{sub, mul, abs, is_neg, cell_min, minus_one, quot, rem}
use cfunge.Stack.{Stack, push, pop}
use cfunge.Ip.{Ip, toss, set_toss}
use cfunge.Interpreter.Stacks.{binary}

unfoldable pub floordiv : ℕ → ℕ → ℕ
floordiv x y = let q = quot x y in if is_neg q then sub q 1 else q

-- The three functions answer 0 where the division would overflow or is by 0.
unfoldable pub guarded : (ℕ → ℕ → ℕ) → ℕ → ℕ → ℕ
guarded f x y = if x == cell_min && y == minus_one then 0 else if y == 0 then 0 else f x y

abbrev on_cells : (ℕ → ℕ → ℕ) → Ip → Ip
on_cells f ip = set_toss (binary (guarded f) (toss ip)) ip

-- M
unfoldable pub signed_result : Ip → Ip
signed_result ip = on_cells (λ x y. sub x (mul (floordiv x y) y)) ip

-- U
unfoldable pub unsigned_result : Ip → Ip
unsigned_result ip = on_cells (λ x y. abs (rem x y)) ip

-- R
unfoldable pub remainder : Ip → Ip
remainder ip = on_cells rem ip
