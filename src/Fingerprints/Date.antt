-- ===== src/Fingerprints/Date.antt =====
-- src/fingerprints/DATE/DATE.c: dates of the Gregorian calendar, and Julian days. `floorl x c` is the
-- cell that floorl gives for the quotient of a cell and a positive constant; the sums of such
-- numbers, which the code takes as a long double, are cells here.
pub mod Days
pub mod Calendar
pub mod Laws
mod Tests
use cfunge.Prelude.{
  ℕ, zero, suc, ◌+◌, Bool, true, false, ◌||◌, Option, none, some, ◌==◌, if◌then◌else◌,
}
use cfunge.Cell.{add, sub, mul, is_neg, slt, sle, rem}
use cfunge.Stack.{push, pop}
use cfunge.Ip.{Ip, toss, set_toss, reverse}

pub record Ymd : Type 0 where
  pub year : ℕ
  pub month : ℕ
  pub day : ℕ

-- The years before 1 are those below 0, and 0 is none.
abbrev pub astronomical : ℕ → ℕ
astronomical y = if is_neg y then add y 1 else y

unfoldable pub is_leap_year : ℕ → Bool
is_leap_year year =
    let y = astronomical year in
    if rem y 4 == 0
    then (if rem y 400 == 0 then true else if rem y 100 == 0 then false else true)
    else false

unfoldable pub month_length : ℕ → ℕ → ℕ
unfolding is_leap_year
month_length year month =
    if month == 1
      || month == 3
      || month == 5
      || month == 7
      || month == 8
      || month == 10
      || month == 12
    then 31
    else if month == 2
    then (if is_leap_year year then 29 else 28)
    else 30

-- `pop_ymd`; `none` comes with the IP reversed.
unfoldable pub pop_ymd : Ip → Option Ymd × Ip
pop_ymd ip =
    let (d, s₁) = pop (toss ip) in
    let (m, s₂) = pop s₁ in
    let (y, s₃) = pop s₂ in
    let ip' = set_toss s₃ ip in
    if sle d 0 || sle m 0 || slt 12 m || y == 0
    then (none, reverse ip')
    else if slt (month_length y m) d
    then (none, reverse ip')
    else (some (record { year = y; month = m; day = d }), ip')

unfoldable pub push_ymd : Ymd → Ip → Ip
push_ymd date ip = set_toss (push date.day (push date.month (push date.year (toss ip)))) ip

-- A function on the date that it pops.
abbrev on_date : (Ymd → Ip → Ip) → Ip → Ip
on_date f ip = let (date, ip') = pop_ymd ip in elim date [ none ↦ ip' | some d ↦ f d ip' ]

abbrev push_cell : ℕ → Ip → Ip
push_cell a ip = set_toss (push a (toss ip)) ip

-- The loop of T over the months after `i`: how many are over, and the day of the next one.
unfoldable pub months_from : ℕ → ℕ → ℕ → ℕ → ℕ × ℕ
months_from zero year i dom = (i, dom)
months_from (suc left) year i dom =
    let rest = sub dom (month_length year (i + 1)) in
    let later = months_from left year (i + 1) rest in if slt 0 rest then later else (i, dom)

-- T
unfoldable pub year_day_to_full : Ip → Ip
unfolding months_from
year_day_to_full ip =
    let (n, s₁) = pop (toss ip) in
    let (year, s₂) = pop s₁ in
    let doy = add n 1 in
    let ip' = set_toss s₂ ip in
    let (month, dom) = months_from 12 year 0 doy in
    if slt (if is_leap_year year then 366 else 365) doy
    then reverse ip'
    else push_ymd (record { year = year; month = month + 1; day = dom }) ip'

module _ (floorl : ℕ → ℕ → ℕ) where
  unfoldable pub ymd_to_julian : Ymd → ℕ
  ymd_to_julian date =
      let a = floorl (sub 14 date.month) 12 in
      let y = sub (add (astronomical date.year) 4800) a in
      let m = sub (add date.month (mul 12 a)) 3 in
      let days = add date.day (floorl (add (mul 153 m) 2) 5) in
      let leap_days =
        add (sub (add (add days (mul 365 y)) (floorl y 4)) (floorl y 100)) (floorl y 400) in
      sub leap_days 32045

  unfoldable pub julian_to_ymd : ℕ → Ymd
  julian_to_ymd date =
      let l₁ = add date 68569 in
      let n = floorl (mul 4 l₁) 146097 in
      let l₂ = sub l₁ (floorl (add (mul 146097 n) 3) 4) in
      let i = floorl (mul 4000 (add l₂ 1)) 1461001 in
      let l₃ = add (sub l₂ (floorl (mul 1461 i) 4)) 31 in
      let j = floorl (mul 80 l₃) 2447 in
      let l₄ = floorl j 11 in
      let year = add (add (mul 100 (sub n 49)) i) l₄ in
      record {
        year = if sle year 0 then sub year 1 else year;
        month = sub (add j 2) (mul 12 l₄);
        day = sub l₃ (floorl (mul 2447 j) 80);
      }

  -- A
  unfoldable pub add_days : Ip → Ip
  unfolding ymd_to_julian julian_to_ymd
  add_days ip =
      let (days, st) = pop (toss ip) in
      on_date (λ date ip'. push_ymd (julian_to_ymd (add (ymd_to_julian date) days)) ip')
        (set_toss st ip)

  -- C
  unfoldable pub jdn_to_ymd : Ip → Ip
  unfolding julian_to_ymd
  jdn_to_ymd ip = let (date, st) = pop (toss ip) in push_ymd (julian_to_ymd date) (set_toss st ip)

  -- D
  unfoldable pub day_diff : Ip → Ip
  unfolding ymd_to_julian
  day_diff ip =
      on_date (λ a. on_date (λ b ip'. push_cell (sub (ymd_to_julian b) (ymd_to_julian a)) ip')) ip

  -- J
  unfoldable pub ymd_to_jdn : Ip → Ip
  unfolding ymd_to_julian
  ymd_to_jdn ip = on_date (λ date ip'. push_cell (ymd_to_julian date) ip') ip

  -- W
  unfoldable pub week_day : Ip → Ip
  unfolding ymd_to_julian
  week_day ip = on_date (λ date ip'. push_cell (rem (ymd_to_julian date) 7) ip') ip

  -- Y
  unfoldable pub year_day : Ip → Ip
  unfolding ymd_to_julian
  year_day ip =
      on_date
        (λ date ip'.
          let first : Ymd = record { year = date.year; month = 1; day = 1 } in
          push_cell (sub (ymd_to_julian date) (ymd_to_julian first)) ip')
        ip
