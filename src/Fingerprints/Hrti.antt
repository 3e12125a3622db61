-- ===== src/Fingerprints/Hrti.antt =====
-- src/fingerprints/HRTI/HRTI.c, with clock_gettime: what the clock reads is an argument. The
-- static variable is passed on.
mod Tests
use cfunge.Prelude.{
  ℕ, Bool, true, false, Option, none, some, ◌>>=◌, List, [], ◌∷◌, ◌==◌, if◌then◌else◌,
}
use cfunge.Cell.{add, sub, mul, quot, slt}
use cfunge.Stack.{push}
use cfunge.Ip.{Timespec, Ip, toss, set_toss, reverse}

-- ZERO_TIMETYPE
abbrev zero_time : Timespec
zero_time = record { tv_sec = 0; tv_nsec = 0 }

-- MSEC
abbrev msec : ℕ → ℕ
msec x = quot x 1000

unfoldable pub get_difference : Timespec → Timespec → ℕ
get_difference before after =
    add (mul 1000000 (sub after.tv_sec before.tv_sec)) (msec (sub after.tv_nsec before.tv_nsec))

-- `check_ip_have_HRTI`, where the memory may be had; `none` is its false.
unfoldable pub check_ip_have_hrti : Bool → Ip → Option Ip
check_ip_have_hrti alloc ip = elim ip.finger_hrti_timestamp [
  | none ↦ if alloc then some (record ip { finger_hrti_timestamp = some zero_time }) else none
  | some t ↦ some ip
]

-- E
unfoldable pub erase_mark : Bool → Ip → Ip
erase_mark alloc ip = elim (check_ip_have_hrti alloc ip) [
  | none ↦ reverse ip
  | some ip' ↦ record ip' { finger_hrti_timestamp = some zero_time }
]

-- G
unfoldable pub granularity : ℕ → Ip → Ip
granularity resolution ip = set_toss (push resolution (toss ip)) ip

-- M
unfoldable pub mark : Bool → Timespec → Ip → Ip
mark alloc now ip = elim (check_ip_have_hrti alloc ip) [
  | none ↦ reverse ip
  | some ip' ↦ record ip' { finger_hrti_timestamp = some now }
]

-- T
unfoldable pub timer : Timespec → Ip → Ip
timer now ip = elim ip.finger_hrti_timestamp [
  | none ↦ reverse ip
  | some t ↦
      if t.tv_sec == 0 then reverse ip else set_toss (push (get_difference t now) (toss ip)) ip
]

-- S
unfoldable pub second : Timespec → Ip → Ip
second now ip = set_toss (push (msec now.tv_nsec) (toss ip)) ip

-- The loop of `setup_HRTI` over what the clock reads; `none` if it never moves on far enough.
unfoldable pub measure : Timespec → List Timespec → Option ℕ
measure before [] = none
measure before (after ∷ readings) =
    let resolution =
      sub (add (mul 1000000000 (sub after.tv_sec before.tv_sec)) after.tv_nsec) before.tv_nsec in
    let rest = measure before readings in if slt resolution 1000 then rest else some resolution

-- `setup_HRTI`: the new resolution, and the IP, where `none` is its false.
unfoldable pub setup_hrti : Bool → Timespec → List Timespec → ℕ → Ip → Option (ℕ × Option Ip)
setup_hrti alloc before readings resolution ip =
    (if resolution == 0 then measure before readings else some resolution) >>= λ (measured : ℕ).
    some (msec measured, check_ip_have_hrti alloc ip)
