-- ===== src/Fingerprints/Time.antt =====
-- src/fingerprints/TIME/TIME.c. The clock, read as UTC or as local time, is an argument, and the
-- static variable TIMEuseUTC is passed on.
use cfunge.Prelude.{ℕ, Bool, true, false}
use cfunge.Cell.{add}
use cfunge.Stack.{push}
use cfunge.Ip.{Ip, toss, set_toss}

-- The fields of `struct tm` that are read, as cells
pub record CurTime : Type 0 where
  pub tm_year : ℕ
  pub tm_mon : ℕ
  pub tm_mday : ℕ
  pub tm_hour : ℕ
  pub tm_min : ℕ
  pub tm_sec : ℕ
  pub tm_wday : ℕ
  pub tm_yday : ℕ

abbrev push_time : ℕ → Ip → Ip
push_time value ip = set_toss (push value (toss ip)) ip

-- G and L leave the new value of TIMEuseUTC.
unfoldable pub use_gmt : Bool → Bool
use_gmt use_utc = true

unfoldable pub use_local : Bool → Bool
use_local use_utc = false

-- GetTheTime is `clock use_utc`.
module _ (clock : Bool → CurTime) (use_utc : Bool) (ip : Ip) where
  -- D
  unfoldable pub day : Ip
  day = push_time (clock use_utc).tm_mday ip

  -- F
  unfoldable pub day_of_year : Ip
  day_of_year = push_time (clock use_utc).tm_yday ip

  -- H
  unfoldable pub hour : Ip
  hour = push_time (clock use_utc).tm_hour ip

  -- M
  unfoldable pub minute : Ip
  minute = push_time (clock use_utc).tm_min ip

  -- O
  unfoldable pub month : Ip
  month = push_time (add (clock use_utc).tm_mon 1) ip

  -- S
  unfoldable pub second : Ip
  second = push_time (clock use_utc).tm_sec ip

  -- W
  unfoldable pub day_of_week : Ip
  day_of_week = push_time (add (clock use_utc).tm_wday 1) ip

  -- Y
  unfoldable pub year : Ip
  year = push_time (add 1900 (clock use_utc).tm_year) ip
