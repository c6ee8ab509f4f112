-- ===== src/Input/Clocked.antt =====
-- src/ircc.c: the clock that is kept as digits.
use mega_irc.Common.{ℕ, zero, suc, ◌+◌, ◌*◌, ◌%◌, ◌^◌, ◌<◌, ◌≡◌, inl, inr, arith, ◌==◌, Bool-cases}
use mega_irc.Input.{Uptime, tick}

-- The digits are in their ranges.
pub record IsTime (t : Uptime) : Type 0 where
  pub hours : t.up_h < 256
  pub minutes : t.up_m < 60
  pub seconds : t.up_s < 60

abbrev pub seconds_of : Uptime → ℕ
seconds_of t = t.up_h * 3600 + t.up_m * 60 + t.up_s

-- A day of the counter: 256 hours, after which it begins anew.
abbrev pub round_of : ℕ
round_of = 921600

-- One tick is one second more, round the 256 hours that the hours' byte counts, and the minutes and
-- seconds stay below sixty.
tick_lem :
    (t : Uptime)
    → IsTime t
    → IsTime (tick t) × (seconds_of (tick t) ≡ (seconds_of t + 1) % round_of)
unfolding tick
tick_lem t h =
    let hh = h.hours in
    let hm = h.minutes in
    let hs = h.seconds in
    elim (Bool-cases ((t.up_s + 1) % 2 ^ 8 == 60)) [
      | inr e ↦
          (let below : t.up_s + 1 < 60 = ground (arith, e, hs) in
            rw e (
              record { hours = hh; minutes = hm; seconds = omega (arith, below) },
              omega (arith, below),
            ))
      | inl e ↦ elim (Bool-cases ((t.up_m + 1) % 2 ^ 8 == 60)) [
        | inr d ↦
            (let last : t.up_s ≡ 59 = ground (arith, e, hs) in
              let below : t.up_m + 1 < 60 = ground (arith, d, hm) in
              rw (e, d)
                (
                  record { hours = hh; minutes = omega (arith, below); seconds = omega arith },
                  omega (arith, last, below),
                ))
        | inl d ↦
            (let last : t.up_s ≡ 59 = ground (arith, e, hs) in
              let last_minute : t.up_m ≡ 59 = ground (arith, d, hm) in
              rw (e, d)
                (
                  record { hours = omega arith; minutes = omega arith; seconds = omega arith },
                  omega (arith, last, last_minute),
                ))
      ]
    ]

-- A number of ticks.
abbrev pub ticks : ℕ → Uptime → Uptime
ticks zero t = t
ticks (suc n) t = tick (ticks n t)

-- After any number of ticks from a time whose digits are in their ranges, the digits are in their
-- ranges and tell the seconds that have gone by since zero, round the 256 hours that a byte counts.
ticks-seconds :
    (n : ℕ) (t : Uptime)
    → IsTime t
    → IsTime (ticks n t) × (seconds_of (ticks n t) ≡ (seconds_of t + n) % round_of)
ticks-seconds zero t h =
    (h, (let hh = h.hours in let hm = h.minutes in let hs = h.seconds in omega arith))
ticks-seconds (suc n) t h =
    let (k, e) = ticks-seconds n t h in
    let (l, f) = tick_lem (ticks n t) k in (l, omega (arith, e, f))
