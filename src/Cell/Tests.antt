-- ===== src/Cell/Tests.antt =====
-- Division of cells at signed inputs, and the theorems there.
use cfunge.Prelude.{ℕ, ◌-◌, ◌^◌, ◌≡◌, refl, arith}
use cfunge.Cell.{add, mul, abs, cell_min, minus_one, funge_division, funge_modulo, quot, rem}
use cfunge.Cell.Laws.{division-modulo}

-- -7
abbrev minus_seven : ℕ
minus_seven = 2 ^ 64 - 7

division_cases :
    (funge_division minus_seven 2 ≡ 2 ^ 64 - 3)
    × (funge_modulo minus_seven 2 ≡ 2 ^ 64 - 1)
    × (funge_division 5 0 ≡ 0)
    × (funge_division cell_min minus_one ≡ cell_min)
unfolding funge_division funge_modulo quot rem abs mathlib.Core.Bool.xor
division_cases = (refl, refl, refl, refl)

division-modulo_example :
    add (mul (funge_division minus_seven 2) 2) (funge_modulo minus_seven 2) ≡ minus_seven
division-modulo_example = division-modulo minus_seven 2 (omega arith) (omega arith) (omega arith)
