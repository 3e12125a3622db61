-- ===== src/Fingerprints/Date/Tests.antt =====
-- Dates and their Julian days, with a floorl that is exact on cells that are not negative.
use cfunge.Prelude.{ℕ, ◌+◌, ◌-◌, ◌/◌, ◌^◌, ◌≡◌, refl, arith, List, [], ◌∷◌, get_or, length}
use cfunge.Cell.{minus_one}
use cfunge.Stack.{Stack, pop}
use cfunge.Ip.{Ip, ip_create, toss, set_toss}
use cfunge.Fingerprints.Date.{julian_to_ymd, ymd_to_julian, year_day_to_full}
use cfunge.Fingerprints.Date.Laws.{julian_to_ymd-ymd_to_julian}

abbrev floorl : ℕ → ℕ → ℕ
floorl x c = x / c

leap_day : ymd_to_julian floorl (record { year = 2000; month = 2; day = 29 }) ≡ 2451604
unfolding ymd_to_julian cfunge.Cell.mul
leap_day = refl

day_after : julian_to_ymd floorl 2451605 ≡ record { year = 2000; month = 3; day = 1 }
unfolding julian_to_ymd cfunge.Cell.mul
day_after = refl

abbrev ip_with : List ℕ → Ip
ip_with cells =
    set_toss (record { entries = λ i. get_or cells i 0; size = 16; top = length cells })
      (ip_create (λ _. 0))

-- T takes a day before the first one of the year, and gives the day -1 of January.
before_new_year : (pop (toss (year_day_to_full (ip_with (2009 ∷ (2 ^ 64 - 2) ∷ []))))).0 ≡ minus_one
unfolding pop year_day_to_full cfunge.Fingerprints.Date.is_leap_year cfunge.Cell.rem
    cfunge.Prelude.update ip_create cfunge.Ip.stackstack_create
    cfunge.Fingerprints.Date.month_length cfunge.Cell.abs cfunge.Fingerprints.Date.push_ymd
    cfunge.Stack.push cfunge.Stack.store
before_new_year = refl

julian_to_ymd-ymd_to_julian_example :
    julian_to_ymd floorl (ymd_to_julian floorl (record { year = 2000; month = 2; day = 29 }))
    ≡ record { year = 2000; month = 2; day = 29 }
unfolding cfunge.Fingerprints.Date.month_length cfunge.Cell.rem cfunge.Cell.abs
julian_to_ymd-ymd_to_julian_example =
    julian_to_ymd-ymd_to_julian floorl 2000 2 29 (λ x c pos small. refl) (omega arith) (omega arith)
      (omega arith) (omega arith) (omega arith) (omega arith)
