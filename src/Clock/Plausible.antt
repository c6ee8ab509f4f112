-- ===== src/Clock/Plausible.antt =====
-- src/clock.c: which dates `clock_plausible` trusts.
use mega_irc.Common.{ℕ, ◌+◌, ◌≤◌, true, ◌≡◌, ◌↔◌, arith}
use mega_irc.Clock.{ClockDate, clock_plausible}

-- Each field lies in its range.
pub record InRange (d : ClockDate) : Type 0 where
  pub month : (1 ≤ d.mm) × (d.mm ≤ 12)
  pub day : (1 ≤ d.dd) × (d.dd ≤ 31)
  pub hour : d.hh ≤ 23
  pub minute : d.mi ≤ 59
  pub second : d.ss ≤ 60

-- For a build year of two digits a date is trusted exactly if every field is in its range and the
-- year is the build's or one of the twenty after it: the clamp never takes effect.
pub clock_plausible_iff :
    (d : ClockDate) (min_yy : ℕ)
    → min_yy ≤ 99
    → (clock_plausible d min_yy ≡ true) ↔ (InRange d × (min_yy ≤ d.yy) × (d.yy ≤ min_yy + 20))
unfolding clock_plausible
clock_plausible_iff d min_yy h = (λ e. ground arith, λ r. ground arith)
