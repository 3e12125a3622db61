-- ===== src/Fingerprints/Date/Days.antt =====
-- src/fingerprints/DATE/DATE.c: the divisions of julian_to_ymd, on numbers. A year begins in March,
-- and is year q of century p; m counts its months, and e its days, from 1.
use cfunge.Prelude.{ℕ, ◌+◌, ◌-◌, ◌*◌, ◌/◌, ◌%◌, ◌≤◌, ◌<◌, ◌≡◌, ◌⊎◌, arith}

-- The days of the century before a day.
abbrev pub in_century : ℕ → ℕ → ℕ
in_century q e = 365 * q + q / 4 + e

-- The days of a year up to a day of a month.
abbrev pub in_year : ℕ → ℕ → ℕ
in_year m d = d + (153 * m + 2) / 5

-- The days up to a day of a century, on the scale of the code.
abbrev pub on_scale : ℕ → ℕ → ℕ
on_scale p days = 36524 * (p + 1) + p / 4 + days

-- A day d of month m in year q of century p, where the last day of February needs a leap year.
pub record IsDay (p q m d : ℕ) : Type 0 where
  pub year_in_century : q < 100
  pub month_in_year : m < 12
  pub from_one : 1 ≤ d
  pub in_month : (m ≡ 11) ⊎ (in_year m d < in_year (m + 1) 1)
  pub in_february : (m < 11) ⊎ (d ≤ 29)
  pub leap_day : (in_year m d < 366) ⊎ (q % 4 ≡ 3)
  pub leap_century : (in_year m d < 366) ⊎ ((q < 99) ⊎ (p % 4 ≡ 3))

pub century_of :
    (p days : ℕ)
    → 1 ≤ days
    → days ≤ 36525
    → (days < 36525) ⊎ (p % 4 ≡ 3)
    → 4 * on_scale p days / 146097 ≡ p + 1
century_of p days h₁ h₂ h₃ = omega arith

pub rest_of_century :
    (p days : ℕ) → 1 ≤ days → on_scale p days - (146097 * (p + 1) + 3) / 4 ≡ days - 1
rest_of_century p days h = omega arith

pub year_of :
    (q e : ℕ)
    → q < 100
    → 1 ≤ e
    → e ≤ 366
    → (e < 366) ⊎ (q % 4 ≡ 3)
    → 4000 * in_century q e / 1461001 ≡ q
year_of q e h₁ h₂ h₃ h₄ = omega arith

pub rest_of_year : (q e : ℕ) → 1 ≤ e → in_century q e - 1 - 1461 * q / 4 + 31 ≡ e + 30
rest_of_year q e h = omega arith

pub month_of : (p q m d : ℕ) → IsDay p q m d → 80 * (in_year m d + 30) / 2447 ≡ m + 1
month_of p q m d h = omega arith

thirty : (m : ℕ) → m < 12 → 2447 * (m + 1) / 80 ≡ (153 * m + 2) / 5 + 30
thirty m h = omega arith

pub day_of : (p q m d : ℕ) → IsDay p q m d → in_year m d + 30 - 2447 * (m + 1) / 80 ≡ d
day_of p q m d h = omega (arith, thirty m h.month_in_year)

pub days_of_year :
    (p q m d : ℕ)
    → IsDay p q m d
    → (1 ≤ in_year m d) × (in_year m d ≤ 366) × ((in_year m d < 366) ⊎ (q % 4 ≡ 3))
days_of_year p q m d h = (omega arith, omega arith, h.leap_day)

pub days_of_century :
    (p q m d : ℕ)
    → IsDay p q m d
    → (1 ≤ in_century q (in_year m d))
      × (in_century q (in_year m d) ≤ 36525)
      × ((in_century q (in_year m d) < 36525) ⊎ (p % 4 ≡ 3))
days_of_century p q m d h = (omega arith, omega arith, omega arith)
