-- ===== src/Fingerprints/Hrti/Tests.antt =====
-- HRTI on a clock that moves on by 5000 nanoseconds.
use cfunge.Prelude.{ℕ, ◌≡◌, refl, true, Option, some, List, [], ◌∷◌}
use mathlib.Core.Option
use cfunge.Stack.Contents.{contents}
use cfunge.Ip.{Timespec, Ip, ip_create, toss}
use cfunge.Fingerprints.Hrti.{setup_hrti, mark, timer}

abbrev ip : Ip
ip = ip_create (λ _. 0)

abbrev start : Timespec
start = record { tv_sec = 1; tv_nsec = 999999000 }

abbrev later : Timespec
later = record { tv_sec = 2; tv_nsec = 4000 }

-- The first load measures 5 microseconds.
first_load : Option.map (λ r. r.0) (setup_hrti true start (start ∷ later ∷ []) 0 ip) ≡ some 5
unfolding setup_hrti cfunge.Fingerprints.Hrti.measure cfunge.Cell.mul cfunge.Cell.quot
    mathlib.Core.Bool.xor cfunge.Cell.abs
first_load = refl

-- The second one divides what the first one left once more.
second_load : Option.map (λ r. r.0) (setup_hrti true start (start ∷ later ∷ []) 5 ip) ≡ some 0
unfolding setup_hrti cfunge.Cell.quot mathlib.Core.Bool.xor cfunge.Cell.abs
second_load = refl

elapsed : contents (toss (timer later (mark true start ip))) ≡ 5 ∷ []
unfolding timer mark cfunge.Fingerprints.Hrti.check_ip_have_hrti ip_create cfunge.Prelude.update
    cfunge.Ip.stackstack_create cfunge.Stack.push cfunge.Stack.create cfunge.Stack.store
    cfunge.Fingerprints.Hrti.get_difference cfunge.Cell.mul cfunge.Cell.quot mathlib.Core.Bool.xor
    cfunge.Cell.abs
elapsed = refl
