-- ===== src/Fingerprints/Date/Calendar.antt =====
-- src/fingerprints/DATE/DATE.c: both conversions on cells, for days that long double counts exactly.
use native.Mathlib.Nat.{mod-eq_of_lt}
use cfunge.Prelude.{
  ℕ, ◌+◌, ◌-◌, ◌*◌, ◌/◌, ◌%◌, ◌^◌, ◌≤◌, ◌<◌, ◌≡◌, ◌⊎◌, refl, sym, ap, ◌∙◌, arith, false,
}
use cfunge.Cell.{add, sub, mul, sle, is_neg}
use cfunge.Fingerprints.Date.{julian_to_ymd, ymd_to_julian}
use cfunge.Fingerprints.Date.Days.{
  IsDay, in_century, in_year, on_scale, century_of, rest_of_century, year_of, rest_of_year,
  month_of, day_of, days_of_year, days_of_century,
}

-- What floorl does on a quotient of numbers that a double has exactly.
abbrev pub Exact : (ℕ → ℕ → ℕ) → Type 0
Exact floorl = (x c : ℕ) → 0 < c → x < 2 ^ 53 → floorl x c ≡ x / c

mul_small : (k x : ℕ) → k * x < 2 ^ 64 → mul k x ≡ k * x
unfolding mul
mul_small k x h = mod-eq_of_lt h

module _ (floorl : ℕ → ℕ → ℕ) (exact : Exact floorl) where
  floor_mul : (k x c n : ℕ) → 0 < c → k * x < 2 ^ 53 → k * x / c ≡ n → floorl (mul k x) c ≡ n
  floor_mul k x c n pos small e =
      ap (λ t. floorl t c) (mul_small k x (omega arith)) ∙ exact (k * x) c pos small ∙ e

  floor_mul-add :
      (k x b c n : ℕ)
      → 0 < c
      → k * x + b < 2 ^ 53
      → (k * x + b) / c ≡ n
      → floorl (add (mul k x) b) c ≡ n
  floor_mul-add k x b c n pos small e =
      ap (λ t. floorl (add t b) c) (mul_small k x (omega arith))
      ∙ ap (λ t. floorl t c) (mod-eq_of_lt {n = k * x + b} {m = 2 ^ 64} (omega arith))
      ∙ exact (k * x + b) c pos small
      ∙ e

  at_century :
      (p days : ℕ)
      → p < 2 ^ 30
      → 1 ≤ days
      → days ≤ 36525
      → (days < 36525) ⊎ (p % 4 ≡ 3)
      → floorl (mul 4 (on_scale p days)) 146097 ≡ p + 1
  at_century p days small h₁ h₂ h₃ =
      floor_mul 4 (on_scale p days) 146097 (p + 1) (omega arith) (omega arith)
        (century_of p days h₁ h₂ h₃)

  after_century :
      (p days : ℕ)
      → p < 2 ^ 30
      → 1 ≤ days
      → days ≤ 36525
      → sub (on_scale p days) (floorl (add (mul 146097 (p + 1)) 3) 4) ≡ days - 1
  after_century p days small h₁ h₂ =
      ap (sub (on_scale p days))
        (floor_mul-add 146097 (p + 1) 3 4 _ (omega arith) (omega arith) refl)
      ∙ omega (arith, rest_of_century p days h₁)

  at_year :
      (q e : ℕ)
      → q < 100
      → 1 ≤ e
      → e ≤ 366
      → (e < 366) ⊎ (q % 4 ≡ 3)
      → floorl (mul 4000 (add (in_century q e - 1) 1)) 1461001 ≡ q
  at_year q e h₁ h₂ h₃ h₄ =
      ap (λ t. floorl (mul 4000 t) 1461001) (omega arith)
      ∙ floor_mul 4000 (in_century q e) 1461001 q (omega arith) (omega arith)
          (year_of q e h₁ h₂ h₃ h₄)

  after_year :
      (q e : ℕ)
      → q < 100
      → 1 ≤ e
      → e ≤ 366
      → add (sub (in_century q e - 1) (floorl (mul 1461 q) 4)) 31 ≡ e + 30
  after_year q e h₁ h₂ h₃ =
      ap (λ t. add (sub (in_century q e - 1) t) 31)
        (floor_mul 1461 q 4 (1461 * q / 4) (omega arith) (omega arith) refl)
      ∙ omega (arith, rest_of_year q e h₂)

  at_month : (p q m d : ℕ) → IsDay p q m d → floorl (mul 80 (in_year m d + 30)) 2447 ≡ m + 1
  at_month p q m d h =
      floor_mul 80 (in_year m d + 30) 2447 (m + 1) (omega arith)
        (omega (arith, days_of_year p q m d h)) (month_of p q m d h)

  at_day : (p q m d : ℕ) → IsDay p q m d → sub (in_year m d + 30) (floorl (mul 2447 (m + 1)) 80) ≡ d
  at_day p q m d h =
      ap (sub (in_year m d + 30)) (
        floor_mul 2447 (m + 1) 80 (2447 * (m + 1) / 80) (omega arith)
          (omega (arith, h.month_in_year)) refl)
      ∙ omega (arith, days_of_year p q m d h, day_of p q m d h)

  in_full :
      (p q k : ℕ)
      → 48 ≤ p
      → p < 2 ^ 30
      → q < 100
      → k < 2
      → add (add (mul 100 (sub (p + 1) 49)) q) k ≡ 100 * p + q + k - 4800
  unfolding mul
  in_full p q k h₁ h₂ h₃ h₄ = omega arith

  month_from_march :
      (m : ℕ) → m < 12 → sub (add (m + 1) 2) (mul 12 ((m + 1) / 11)) ≡ m + 3 - 12 * ((m + 1) / 11)
  unfolding mul
  month_from_march m h = omega arith

  -- `julian_to_ymd` on a day of the calendar from the year 1 on.
  pub julian_to_ymd_lem :
      (p q m d : ℕ)
      → IsDay p q m d
      → 48 ≤ p
      → p < 2 ^ 30
      → 4800 < 100 * p + q + (m + 1) / 11
      → julian_to_ymd floorl (on_scale p (in_century q (in_year m d)) - 68569) ≡ record {
        year = 100 * p + q + (m + 1) / 11 - 4800;
        month = m + 3 - 12 * ((m + 1) / 11);
        day = d;
      }
  unfolding julian_to_ymd
  julian_to_ymd_lem p q m d h from small late =
      let in_y = days_of_year p q m d h in
      let in_c = days_of_century p q m d h in
      rw
        (
          shifted,
          at_century p (in_century q (in_year m d)) small in_c.0 in_c.1 in_c.2,
          after_century p (in_century q (in_year m d)) small in_c.0 in_c.1,
          at_year q (in_year m d) h.year_in_century in_y.0 in_y.1 in_y.2,
          after_year q (in_year m d) h.year_in_century in_y.0 in_y.1,
          at_month p q m d h,
          exact (m + 1) 11 (omega arith) (omega (arith, h.month_in_year)),
          in_full p q ((m + 1) / 11) from small h.year_in_century (omega (arith, h.month_in_year)),
          not_before_one,
          month_from_march m h.month_in_year,
          at_day p q m d h,
        )
        refl
    where
      shifted :
          add (on_scale p (in_century q (in_year m d)) - 68569) 68569
          ≡ on_scale p (in_century q (in_year m d))
      shifted = omega (arith, days_of_century p q m d h)

      not_before_one : sle (100 * p + q + (m + 1) / 11 - 4800) 0 ≡ false
      not_before_one = ground (arith, h.year_in_century, h.month_in_year)

  sum_of_days :
      (y m d : ℕ)
      → 4800 ≤ y
      → y < 2 ^ 36
      → m < 12
      → 1 ≤ d
      → d ≤ 31
      → sub
          (add
            (sub (add (add (add d ((153 * m + 2) / 5)) (mul 365 y)) (y / 4)) (y / 100))
            (y / 400))
          32045
        ≡ on_scale (y / 100) (in_century (y % 100) (in_year m d)) - 68569
  unfolding mul
  sum_of_days y m d h₁ h₂ h₃ h₄ h₅ = omega arith

  -- `ymd_to_julian` on a date from the year 1 on.
  pub ymd_to_julian_lem :
      (year month day a y m : ℕ)
      → 1 ≤ year
      → year < 2 ^ 32
      → 1 ≤ month
      → month ≤ 12
      → 1 ≤ day
      → day ≤ 31
      → a ≡ (14 - month) / 12
      → y ≡ year + 4800 - a
      → m ≡ month + 12 * a - 3
      → ymd_to_julian floorl (record { year = year; month = month; day = day })
        ≡ on_scale (y / 100) (in_century (y % 100) (in_year m day)) - 68569
  unfolding ymd_to_julian
  ymd_to_julian_lem year month day a y m h₁ h₂ h₃ h₄ h₅ h₆ ea ey em =
      rw
        (
          before_march,
          positive,
          year_from_march,
          month_from_january,
          floor_mul-add 153 m 2 5 ((153 * m + 2) / 5) (omega arith) (omega arith) refl,
          exact y 4 (omega arith) (omega arith),
          exact y 100 (omega arith) (omega arith),
          exact y 400 (omega arith) (omega arith),
        )
        (sum_of_days y m day (omega arith) (omega arith) (omega arith) h₅ h₆)
    where
      before_march : floorl (sub 14 month) 12 ≡ a
      before_march =
          ap (λ t. floorl t 12) (omega arith)
          ∙ exact (14 - month) 12 (omega arith) (omega arith)
          ∙ sym ea

      positive : is_neg year ≡ false
      positive = ground arith

      year_from_march : sub (add year 4800) a ≡ y
      year_from_march = omega arith

      month_from_january : sub (add month (mul 12 a)) 3 ≡ m
      month_from_january =
          ap (λ t. sub (add month t) 3) (mul_small 12 a (omega arith)) ∙ omega arith
