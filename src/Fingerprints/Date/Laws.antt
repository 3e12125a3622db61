-- ===== src/Fingerprints/Date/Laws.antt =====
-- src/fingerprints/DATE/DATE.c: a date and its Julian day.
use cfunge.Prelude.{
  ℕ, ◌+◌, ◌-◌, ◌*◌, ◌/◌, ◌%◌, ◌^◌, ◌≤◌, ◌<◌, ◌≡◌, ◌≢◌, ◌⊎◌, inl, inr, refl, ap, ◌∙◌, arith, true,
  false, ◌==◌, Bool-cases,
}
use cfunge.Cell.{is_neg, abs, rem}
use cfunge.Fingerprints.Date.{Ymd, is_leap_year, month_length, julian_to_ymd, ymd_to_julian}
use cfunge.Fingerprints.Date.Days.{IsDay}
use cfunge.Fingerprints.Date.Calendar.{Exact, julian_to_ymd_lem, ymd_to_julian_lem}

abs_small : (a : ℕ) → a < 2 ^ 63 → abs a ≡ a
unfolding abs
abs_small a h = ground arith

rem_small : (a b : ℕ) → a < 2 ^ 63 → b < 2 ^ 63 → rem a b ≡ a % b
unfolding rem
rem_small a b ha hb = rw (abs_small a ha, abs_small b hb, positive) refl
  where
    positive : is_neg a ≡ false
    positive = ground arith

-- The rule for leap years.
leap_rule :
    (year : ℕ)
    → year < 2 ^ 32
    → is_leap_year year ≡ true
    → (year % 4 ≡ 0) × ((0 < year % 100) ⊎ (year % 400 ≡ 0))
unfolding is_leap_year
leap_rule year h e = ground (
  arith,
  e,
  rem_small year 4 (omega arith) (omega arith),
  rem_small year 100 (omega arith) (omega arith),
  rem_small year 400 (omega arith) (omega arith),
)

not_leap : (year : ℕ) → is_leap_year year ≡ false → month_length year 2 ≡ 28
unfolding month_length
not_leap year e = rw e refl

longest : (year : ℕ) → month_length year 2 ≤ 29
unfolding month_length
longest year = elim (Bool-cases (is_leap_year year)) [
  | inl e ↦ rw e (omega arith)
  | inr e ↦ rw e (omega arith)
]

-- The last days of the months but February.
other_months :
    (year month : ℕ)
    → 1 ≤ month
    → month ≤ 12
    → month ≢ 2
    → (month_length year month ≤ 31)
      × ((month_length year month ≡ 30) ⊎ ((month ≢ 4) × (month ≢ 6) × (month ≢ 9) × (month ≢ 11)))
unfolding month_length
other_months year month h₁ h₂ ne = ground arith

-- A date of the code is a day of its year from March on.
date-IsDay :
    (year month day a y m : ℕ)
    → 1 ≤ year
    → year < 2 ^ 32
    → 1 ≤ month
    → month ≤ 12
    → 1 ≤ day
    → day ≤ month_length year month
    → a ≡ (14 - month) / 12
    → y ≡ year + 4800 - a
    → m ≡ month + 12 * a - 3
    → IsDay (y / 100) (y % 100) m day
date-IsDay year month day a y m h₁ h₂ h₃ h₄ h₅ h₆ ea ey em = elim (Bool-cases (month == 2)) [
  | inl e ↦
      let february : month ≡ 2 = ground (arith, e) in
      let last : day ≤ 29 = omega (arith, h₆, ap (month_length year) february, longest year) in
      let leap : (day ≤ 28) ⊎ ((year % 4 ≡ 0) × ((0 < year % 100) ⊎ (year % 400 ≡ 0))) =
        elim (Bool-cases (is_leap_year year)) [
          | inl is ↦ inr (leap_rule year h₂ is)
          | inr other ↦
              inl (omega (arith, h₆, ap (month_length year) february, not_leap year other))
        ] in
      record {
        year_in_century = omega arith;
        month_in_year = omega arith;
        from_one = h₅;
        in_month = inl (omega arith);
        in_february = inr last;
        leap_day = ground (arith, leap);
        leap_century = ground (arith, leap);
      }
  | inr e ↦
      let other : month ≢ 2 = ground (arith, e) in
      let last = other_months year month h₃ h₄ other in
      record {
        year_in_century = omega arith;
        month_in_year = omega arith;
        from_one = h₅;
        in_month = inr (ground (arith, last));
        in_february = inl (omega arith);
        leap_day = inl (ground (arith, last));
        leap_century = inl (ground (arith, last));
      }
]

same_date :
    (year month year' month' day : ℕ)
    → year' ≡ year
    → month' ≡ month
    → (let date : Ymd = record { year = year'; month = month'; day = day } in date)
      ≡ record { year = year; month = month; day = day }
same_date year month year' month' day ey em = λ i. record { year = ey i; month = em i; day = day }

-- With a floorl that is exact on numbers below 2 ^ 53: a date of the Gregorian calendar from the
-- year 1 to 2 ^ 32 - 1, turned into its Julian day and back, is the same date.
pub julian_to_ymd-ymd_to_julian :
    (floorl : ℕ → ℕ → ℕ) (year month day : ℕ)
    → Exact floorl
    → 1 ≤ year
    → year < 2 ^ 32
    → 1 ≤ month
    → month ≤ 12
    → 1 ≤ day
    → day ≤ month_length year month
    → julian_to_ymd floorl (ymd_to_julian floorl (record { year = year; month = month; day = day }))
      ≡ record { year = year; month = month; day = day }
julian_to_ymd-ymd_to_julian floorl year month day exact h₁ h₂ h₃ h₄ h₅ h₆ =
    round_trip ((14 - month) / 12) (year + 4800 - (14 - month) / 12)
      (month + 12 * ((14 - month) / 12) - 3) refl refl refl
  where
    round_trip :
        (a y m : ℕ)
        → a ≡ (14 - month) / 12
        → y ≡ year + 4800 - a
        → m ≡ month + 12 * a - 3
        → julian_to_ymd floorl
            (ymd_to_julian floorl (record { year = year; month = month; day = day }))
          ≡ record { year = year; month = month; day = day }
    round_trip a y m ea ey em =
        let is_day = date-IsDay year month day a y m h₁ h₂ h₃ h₄ h₅ h₆ ea ey em in
        ap (julian_to_ymd floorl) (
          ymd_to_julian_lem floorl exact year month day a y m h₁ h₂ h₃ h₄ h₅ (omega (arith, is_day))
            ea ey em)
        ∙ julian_to_ymd_lem floorl exact (y / 100) (y % 100) m day is_day (omega arith)
            (omega arith) (omega arith)
        ∙ same_date year month _ _ day (omega arith) (omega arith)
