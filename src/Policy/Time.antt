-- ===== src/Policy/Time.antt =====
-- src/tls/policy.c and src/clock.c: the order of the twelve digits is the order of the dates.
use mega_irc.Common.{
  ℕ, zero, suc, ◌+◌, ◌-◌, ◌*◌, ◌≤◌, ◌<◌, true, some, [], ◌∷◌, ◌≡◌, ◌↔◌, ◌∙◌, inl, inr, refl, sym,
  arith, Str, All, IsDigit, value_from, ltb, ◌==◌, if◌then◌else◌, length, Bool-cases,
}
use mega_irc.Clock.{ClockDate, clock_format}
use mega_irc.Clock.Format.{IsTwoDigits, stamp, clock_format_lem}
use mega_irc.Der.{Cert}
use mega_irc.Policy.{
  Sign, negative, zero_sign, positive, cmp_first, cmp12, valid_dates, within, chain_valid_at,
}

-- How two numbers compare.
abbrev pub sign_of : ℕ → ℕ → Sign
sign_of a b = if a == b then zero_sign else if ltb a b then negative else positive

-- Reading more digits behind two numbers, a lead stays a lead.
value_lead :
    (n acc acc' : ℕ) (a b : Str)
    → length a ≡ n
    → length b ≡ n
    → All IsDigit a
    → All IsDigit b
    → acc < acc'
    → value_from acc a < value_from acc' b
value_lead zero acc acc' [] [] p q d e h = h
value_lead zero acc acc' [] (y ∷ b) p q d e h = absurd (omega arith)
value_lead zero acc acc' (x ∷ a) b p q d e h = absurd (omega arith)
value_lead (suc n) acc acc' [] b p q d e h = absurd (omega arith)
value_lead (suc n) acc acc' (x ∷ a) [] p q d e h = absurd (omega arith)
value_lead (suc n) acc acc' (x ∷ a) (y ∷ b) p q d e h =
    value_lead n (acc * 10 + (x - b'0')) (acc' * 10 + (y - b'0')) a b (omega arith) (omega arith)
      d.1 e.1 (lead x y d.0 e.0)
  where
    lead : (x y : ℕ) → IsDigit x → IsDigit y → acc * 10 + (x - b'0') < acc' * 10 + (y - b'0')
    lead x y d e = omega arith

sign-lt : (a b : ℕ) → a < b → sign_of a b ≡ negative
sign-lt a b h = ground arith

sign-gt : (a b : ℕ) → b < a → sign_of a b ≡ positive
sign-gt a b h = ground arith

-- Over digits the comparison is that of the numbers.
cmp_first-sign_of :
    (n acc : ℕ) (a b : Str)
    → length a ≡ n
    → length b ≡ n
    → All IsDigit a
    → All IsDigit b
    → cmp_first n a b ≡ sign_of (value_from acc a) (value_from acc b)
unfolding cmp_first
cmp_first-sign_of zero acc [] [] p q d e = ground arith
cmp_first-sign_of zero acc [] (y ∷ b) p q d e = absurd (omega arith)
cmp_first-sign_of zero acc (x ∷ a) b p q d e = absurd (omega arith)
cmp_first-sign_of (suc n) acc [] b p q d e = absurd (omega arith)
cmp_first-sign_of (suc n) acc (x ∷ a) [] p q d e = absurd (omega arith)
cmp_first-sign_of (suc n) acc (x ∷ a) (y ∷ b) p q d e = elim (Bool-cases (x == y)) [
  | inl k ↦
      let same : x ≡ y = ground arith in
      rw k (
        rw same
          (cmp_first-sign_of n (acc * 10 + (y - b'0')) a b (omega arith) (omega arith) d.1 e.1))
  | inr k ↦ rw k (elim (Bool-cases (ltb x y)) [
    | inl l ↦ rw l (
        sym (
          sign-lt _ _ (
            value_lead n (acc * 10 + (x - b'0')) (acc * 10 + (y - b'0')) a b (omega arith)
              (omega arith) d.1 e.1 (ground arith))))
    | inr l ↦ rw l (
        sym (
          sign-gt _ _ (
            value_lead n (acc * 10 + (y - b'0')) (acc * 10 + (x - b'0')) b a (omega arith)
              (omega arith) e.1 d.1 (ground arith))))
  ])
]

-- Two dates of two-digit fields compare, as the twelve digits that the clock writes, as their stamps
-- do: earlier, equal or later.
cmp12-clock_format :
    (d e : ClockDate)
    → IsTwoDigits d
    → IsTwoDigits e
    → cmp12 (clock_format d) (clock_format e) ≡ sign_of (stamp d) (stamp e)
unfolding cmp12
cmp12-clock_format d e h k =
    let (l, a, v) = clock_format_lem d h in
    let (l', a', v') = clock_format_lem e k in
    cmp_first-sign_of 12 0 (clock_format d) (clock_format e) l l' a a' ∙ rw (v, v') refl

within_iff :
    (now nb na : Str) (x y z : ℕ)
    → cmp12 now nb ≡ sign_of y x
    → cmp12 now na ≡ sign_of y z
    → (within now (some (nb, na)) ≡ true) ↔ ((x ≤ y) × (y ≤ z))
unfolding within
within_iff now nb na x y z p q = (λ e. ground arith, λ h. ground arith)

-- A certificate whose validity is read as two dates of two-digit fields is valid at a clock reading exactly if
-- the reading is neither before the first nor behind the second.
chain_valid_at_iff :
    (c : Cert) (n b a : ClockDate)
    → IsTwoDigits n
    → IsTwoDigits b
    → IsTwoDigits a
    → valid_dates c ≡ some (clock_format b, clock_format a)
    → (chain_valid_at c (clock_format n) ≡ true) ↔ ((stamp b ≤ stamp n) × (stamp n ≤ stamp a))
unfolding chain_valid_at
chain_valid_at_iff c n b a hn hb ha e = rw e (
    within_iff (clock_format n) (clock_format b) (clock_format a) (stamp b) (stamp n) (stamp a)
      (cmp12-clock_format n b hn hb) (cmp12-clock_format n a hn ha))
