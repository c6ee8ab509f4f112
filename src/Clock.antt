-- ===== src/Clock.antt =====
-- src/clock.c: the real-time clock's date, whether it can be trusted, and its twelve digits.
-- `clock_read` hands on what the chip's library reads; that library is not part of the repository.
pub mod Plausible
pub mod Format
mod Tests
use mega_irc.Common.{
  ℕ, ◌+◌, ◌/◌, ◌%◌, ◌^◌, Bool, true, false, ◌||◌, List, [], ◌∷◌, ◌++◌, Str, ltb, if◌then◌else◌,
}

-- `clock_date`; every field is a byte.
pub record ClockDate : Type 0 where
  pub yy : ℕ
  pub mm : ℕ
  pub dd : ℕ
  pub hh : ℕ
  pub mi : ℕ
  pub ss : ℕ

-- The addition is clamped where the byte wraps.
latest_year : ℕ → ℕ
latest_year min_yy = let hi = (min_yy + 20) % 2 ^ 8 in if ltb hi min_yy then 99 else hi

unfoldable pub clock_plausible : ClockDate → ℕ → Bool
unfolding latest_year
clock_plausible d min_yy =
    if ltb d.mm 1 || ltb 12 d.mm
    then false
    else if ltb d.dd 1 || ltb 31 d.dd
    then false
    else if ltb 23 d.hh || ltb 59 d.mi
    then false
    else if ltb 60 d.ss
    then false
    else if ltb d.yy min_yy
    then false
    else if ltb (latest_year min_yy) d.yy
    then false
    else true

-- The two bytes that `two` writes.
pub two : ℕ → Str
two v = ((b'0' + v / 10) % 2 ^ 8) ∷ ((b'0' + v % 10) % 2 ^ 8) ∷ []

unfoldable pub clock_format : ClockDate → Str
unfolding two
clock_format d = two d.yy ++ two d.mm ++ two d.dd ++ two d.hh ++ two d.mi ++ two d.ss

-- What the chip's library reads: the year counts from 1900, the month from 1.
pub record RtcTime : Type 0 where
  pub tm_year : ℕ
  pub tm_mon : ℕ
  pub tm_mday : ℕ
  pub tm_hour : ℕ
  pub tm_min : ℕ
  pub tm_sec : ℕ

-- The date, and whether it is plausible; `built_yy` is the year that the build wrote in.
unfoldable pub clock_read : ℕ → RtcTime → ClockDate × Bool
clock_read built_yy tm =
    let d : ClockDate = record {
      yy = (tm.tm_year + 1900) % 2 ^ 16 % 100;
      mm = tm.tm_mon;
      dd = tm.tm_mday;
      hh = tm.tm_hour;
      mi = tm.tm_min;
      ss = tm.tm_sec;
    } in
    (d, clock_plausible d built_yy)
