-- ===== src/Clock/Tests.antt =====
-- src/clock.c at concrete dates.
use mega_irc.Common.{◌+◌, ◌≤◌, true, false, ◌≡◌, ◌↔◌, refl, arith, codes}
use mega_irc.Clock.{ClockDate, clock_plausible, clock_format, clock_read}
use mega_irc.Clock.Plausible.{InRange, clock_plausible_iff}

-- A leap second.
abbrev leap : ClockDate
leap = record { yy = 26; mm = 12; dd = 31; hh = 23; mi = 59; ss = 60 }

leap_text : clock_format leap ≡ codes "261231235960"
unfolding clock_format
leap_text = refl

read_1999 :
    clock_read 25
      (record { tm_year = 99; tm_mon = 1; tm_mday = 1; tm_hour = 0; tm_min = 0; tm_sec = 0 })
    ≡ (record { yy = 99; mm = 1; dd = 1; hh = 0; mi = 0; ss = 0 }, false)
unfolding clock_read clock_plausible
read_1999 = refl

clock_plausible_iff_example :
    (clock_plausible leap 25 ≡ true) ↔ (InRange leap × (25 ≤ 26) × (26 ≤ 25 + 20))
clock_plausible_iff_example = clock_plausible_iff leap 25 (omega arith)
