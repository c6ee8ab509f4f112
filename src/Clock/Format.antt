-- ===== src/Clock/Format.antt =====
-- src/clock.c: the twelve digits of a date.
use mega_irc.Common.{
  ℕ, ◌+◌, ◌-◌, ◌*◌, ◌/◌, ◌%◌, ◌^◌, ◌<◌, [], ◌∷◌, ◌++◌, ◌≡◌, refl, ap, ◌∙◌, arith, Str, All, length,
  IsDigit, value_from,
}
use mega_irc.Clock.{ClockDate, two, clock_format}

-- Every field is written by two digits.
pub record IsTwoDigits (d : ClockDate) : Type 0 where
  pub yy : d.yy < 100
  pub mm : d.mm < 100
  pub dd : d.dd < 100
  pub hh : d.hh < 100
  pub mi : d.mi < 100
  pub ss : d.ss < 100

-- The date as one number; later dates of a century have greater ones.
abbrev pub stamp : ClockDate → ℕ
stamp d = ((((d.yy * 100 + d.mm) * 100 + d.dd) * 100 + d.hh) * 100 + d.mi) * 100 + d.ss

-- The two bytes, when they do not wrap.
abbrev digit_pair : ℕ → Str
digit_pair v = (b'0' + v / 10) ∷ (b'0' + v % 10) ∷ []

two-digit_pair : (v : ℕ) → v < 100 → two v ≡ digit_pair v
unfolding two
two-digit_pair v h =
    let tens : (b'0' + v / 10) % 2 ^ 8 ≡ b'0' + v / 10 = omega arith in
    let ones : (b'0' + v % 10) % 2 ^ 8 ≡ b'0' + v % 10 = omega arith in rw (tens, ones) refl

digits_of : ClockDate → Str
digits_of d =
    digit_pair d.yy
    ++ digit_pair d.mm
    ++ digit_pair d.dd
    ++ digit_pair d.hh
    ++ digit_pair d.mi
    ++ digit_pair d.ss

format-digits_of : (d : ClockDate) → IsTwoDigits d → clock_format d ≡ digits_of d
unfolding clock_format digits_of
format-digits_of d h = λ i.
    two-digit_pair d.yy h.yy i
    ++ two-digit_pair d.mm h.mm i
    ++ two-digit_pair d.dd h.dd i
    ++ two-digit_pair d.hh h.hh i
    ++ two-digit_pair d.mi h.mi i
    ++ two-digit_pair d.ss h.ss i

pair-IsDigit : (v : ℕ) → v < 100 → IsDigit (b'0' + v / 10) × IsDigit (b'0' + v % 10)
pair-IsDigit v h = omega arith

read_pair :
    (v acc : ℕ) → (acc * 10 + (b'0' + v / 10 - b'0')) * 10 + (b'0' + v % 10 - b'0') ≡ acc * 100 + v
read_pair v acc = omega arith

value_from_pair :
    (v acc : ℕ) (s : Str) → value_from acc (digit_pair v ++ s) ≡ value_from (acc * 100 + v) s
value_from_pair v acc s = ap (λ a. value_from a s) (read_pair v acc)

digits_of_value : (d : ClockDate) → value_from 0 (digits_of d) ≡ stamp d
unfolding digits_of
digits_of_value d =
    value_from_pair d.yy 0
      (digit_pair d.mm ++ digit_pair d.dd ++ digit_pair d.hh ++ digit_pair d.mi ++ digit_pair d.ss)
    ∙ value_from_pair d.mm (0 * 100 + d.yy)
        (digit_pair d.dd ++ digit_pair d.hh ++ digit_pair d.mi ++ digit_pair d.ss)
    ∙ value_from_pair d.dd ((0 * 100 + d.yy) * 100 + d.mm)
        (digit_pair d.hh ++ digit_pair d.mi ++ digit_pair d.ss)
    ∙ value_from_pair d.hh (((0 * 100 + d.yy) * 100 + d.mm) * 100 + d.dd)
        (digit_pair d.mi ++ digit_pair d.ss)
    ∙ value_from_pair d.mi ((((0 * 100 + d.yy) * 100 + d.mm) * 100 + d.dd) * 100 + d.hh)
        (digit_pair d.ss)
    ∙ value_from_pair d.ss
        (((((0 * 100 + d.yy) * 100 + d.mm) * 100 + d.dd) * 100 + d.hh) * 100 + d.mi) []
    ∙ omega arith

-- A date is written as twelve digits, which read as its stamp.
pub clock_format_lem :
    (d : ClockDate)
    → IsTwoDigits d
    → (length (clock_format d) ≡ 12)
      × All IsDigit (clock_format d)
      × (value_from 0 (clock_format d) ≡ stamp d)
unfolding digits_of
clock_format_lem d h =
    let y = pair-IsDigit d.yy h.yy in
    let m = pair-IsDigit d.mm h.mm in
    let a = pair-IsDigit d.dd h.dd in
    let b = pair-IsDigit d.hh h.hh in
    let c = pair-IsDigit d.mi h.mi in
    let s = pair-IsDigit d.ss h.ss in
    rw (format-digits_of d h) (
      refl,
      (y.0, (y.1, (m.0, (m.1, (a.0, (a.1, (b.0, (b.1, (c.0, (c.1, (s.0, (s.1, tt)))))))))))),
      digits_of_value d,
    )
