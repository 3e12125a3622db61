-- ===== src/Cell/Laws.antt =====
-- Laws of cell arithmetic, and of src/division.h.
use native.Mathlib.Nat.{mod-eq_of_lt, mod-lt, div-add-mod'}
use mathlib.Core.Bool.{xor}
use cfunge.Prelude.{
  ℕ, zero, suc, ◌+◌, ◌-◌, ◌*◌, ◌/◌, ◌%◌, ◌^◌, ◌≤◌, ◌<◌, ◌⊎◌, ◌≡◌, ◌≢◌, refl, sym, ap, ◌∙◌, Bool,
  true, false, arith,
}
use cfunge.Cell.{
  IsCell, add, neg, mul, is_neg, abs, signed, quot, rem, funge_division, funge_modulo,
}

mul-lt : (a b : ℕ) → IsCell (mul a b)
unfolding mul
mul-lt a b = omega arith

abs_zero : abs 0 ≡ 0
unfolding abs
abs_zero = refl

neg-neg : {a : ℕ} → IsCell a → neg (neg a) ≡ a
neg-neg h = omega arith

-- Factors that add up to the modulus have products that do.
comp-mul : (p q b : ℕ) → p + q ≡ 2 ^ 64 → p * b % 2 ^ 64 ≡ neg (q * b % 2 ^ 64)
comp-mul p q b e = omega (arith, ap (λ (t : ℕ). t * b) e)

pub neg-mul : (q b : ℕ) → q < 2 ^ 64 → mul (neg q) b ≡ neg (mul q b)
unfolding mul
neg-mul zero b h = omega arith
neg-mul (suc q) b h =
    rw (mod-eq_of_lt {n = 2 ^ 64 - suc q} {m = 2 ^ 64} (omega arith))
      (comp-mul (2 ^ 64 - suc q) (suc q) b (omega arith))

pub mul_comm : (a b : ℕ) → mul a b ≡ mul b a
unfolding mul
mul_comm a b = omega arith

pub mul-neg : (q b : ℕ) → b < 2 ^ 64 → mul q (neg b) ≡ neg (mul q b)
mul-neg q b h = mul_comm q (neg b) ∙ neg-mul b q h ∙ ap neg (mul_comm b q)

-- The magnitudes divide as numbers do.
quot_rem_abs :
    (n d : ℕ) → IsCell n → IsCell d → add (mul (abs n / abs d) (abs d)) (abs n % abs d) ≡ abs n
unfolding mul abs
quot_rem_abs n d hn hd = ground (arith, div-add-mod' (abs n) (abs d))

abs-lt : (a : ℕ) → IsCell a → IsCell (abs a)
unfolding abs
abs-lt a h = ground arith

quot_abs-lt : (n d : ℕ) → IsCell n → IsCell (abs n / abs d)
quot_abs-lt n d h = omega (arith, abs-lt n h)

-- A cell is its magnitude with its sign put back.
abs_sign : (a : ℕ) → IsCell a → a ≡ signed (is_neg a) (abs a)
unfolding abs
abs_sign a h = ground arith

mul-signed :
    (minus minus' : Bool) (q b : ℕ)
    → IsCell q
    → IsCell b
    → mul (signed (xor minus minus') q) (signed minus' b) ≡ signed minus (mul q b)
unfolding xor
mul-signed false false q b hq hb = refl
mul-signed true false q b hq hb = neg-mul q b hq
mul-signed false true q b hq hb =
    neg-mul q (neg b) hq ∙ ap neg (mul-neg q b hb) ∙ neg-neg (mul-lt q b)
mul-signed true true q b hq hb = mul-neg q b hb

add-signed :
    (minus : Bool) (a b : ℕ)
    → IsCell a
    → IsCell b
    → add (signed minus a) (signed minus b) ≡ signed minus (add a b)
add-signed false a b ha hb = refl
add-signed true a b ha hb = omega arith

-- C's `/` and `%` on every pair of cells: quotient times divisor plus remainder is the dividend.
pub quot-rem : (n d : ℕ) → IsCell n → IsCell d → add (mul (quot n d) d) (rem n d) ≡ n
unfolding quot rem
quot-rem n d hn hd =
    ap (λ e. add (mul (quot n d) e) (rem n d)) (abs_sign d hd)
    ∙ ap (λ p. add p (rem n d))
        (mul-signed (is_neg n) (is_neg d) (abs n / abs d) (abs d) (quot_abs-lt n d hn)
          (abs-lt d hd))
    ∙ add-signed (is_neg n) (mul (abs n / abs d) (abs d)) (abs n % abs d)
        (mul-lt (abs n / abs d) (abs d)) (omega (arith, abs-lt n hn))
    ∙ ap (signed (is_neg n)) (quot_rem_abs n d hn hd)
    ∙ sym (abs_sign n hn)

-- Division of signed cells: quotient times divisor plus remainder gives the dividend back.
pub division-modulo :
    (n d : ℕ)
    → IsCell n
    → IsCell d
    → d ≢ 0
    → add (mul (funge_division n d) d) (funge_modulo n d) ≡ n
unfolding funge_division funge_modulo mul
division-modulo n d hn hd ne = ground (arith, quot-rem n d)

abs-signed : (minus : Bool) (m : ℕ) → m < 2 ^ 63 → abs (signed minus m) ≡ m
unfolding abs
abs-signed minus m h = ground arith

sign_of_signed : (minus : Bool) (m : ℕ) → m < 2 ^ 63 → (m ≡ 0) ⊎ (is_neg (signed minus m) ≡ minus)
sign_of_signed minus m h = ground arith

abs-pos : (d : ℕ) → IsCell d → d ≢ 0 → (0 < abs d) × (abs d ≤ 2 ^ 63)
unfolding abs
abs-pos d hd ne = ground arith

rem_bound :
    (n d : ℕ)
    → IsCell d
    → d ≢ 0
    → (abs (rem n d) < abs d) × ((rem n d ≡ 0) ⊎ (is_neg (rem n d) ≡ is_neg n))
unfolding rem
rem_bound n d hd ne =
    let p = abs-pos d hd ne in
    let small : abs n % abs d < abs d = mod-lt (abs n) p.0 in
    ground (
      arith,
      abs-signed (is_neg n) (abs n % abs d) (omega arith),
      sign_of_signed (is_neg n) (abs n % abs d) (omega arith),
    )

-- A remainder is smaller than the divisor in magnitude, and has the dividend's sign unless it is 0.
modulo_bound :
    (n d : ℕ)
    → IsCell d
    → d ≢ 0
    → (abs (funge_modulo n d) < abs d)
      × ((funge_modulo n d ≡ 0) ⊎ (is_neg (funge_modulo n d) ≡ is_neg n))
unfolding funge_modulo
modulo_bound n d hd ne = ground (arith, rem_bound n d hd ne, abs-pos d hd ne, abs_zero)
