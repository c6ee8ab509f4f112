-- ===== src/Pkcs1/Numbers.antt =====
-- src/crypto/pkcs1.c: the numbers that big-endian bytes stand for, and what mp.h says of its
-- operations on them.
use mega_irc.Common.{
  ℕ, zero, suc, ◌+◌, ◌*◌, ◌%◌, ◌^◌, ◌≤◌, ◌<◌, true, [], ◌∷◌, ◌≡◌, ◌↔◌, refl, arith, Str, All,
  length,
}
use mega_irc.Pkcs1.{Mp}

-- The number of a text of bytes behind `acc`, the most significant byte first.
abbrev pub be_from : ℕ → Str → ℕ
be_from acc [] = acc
be_from acc (b ∷ s) = be_from (acc * 256 + b) s

abbrev pub be_value : Str → ℕ
be_value s = be_from 0 s

-- How many values so many bytes can hold.
abbrev pub room : ℕ → ℕ
room zero = 1
room (suc k) = 256 * room k

abbrev pub IsByte : ℕ → Type 0
IsByte b = b < 256

pub be_from_inj :
    (a b : ℕ) (s t : Str)
    → length s ≡ length t
    → All IsByte s
    → All IsByte t
    → be_from a s ≡ be_from b t
    → (a ≡ b) × (s ≡ t)
be_from_inj a b [] [] l hs ht e = (e, refl)
be_from_inj a b [] (y ∷ t) l hs ht e = absurd (omega (arith, l))
be_from_inj a b (x ∷ s) [] l hs ht e = absurd (omega (arith, l))
be_from_inj a b (x ∷ s) (y ∷ t) l hs ht e =
    let (p, q) = be_from_inj (a * 256 + x) (b * 256 + y) s t (omega (arith, l)) hs.1 ht.1 e in
    ground (arith, p, q, hs.0, ht.0)

be_from-lt : (acc : ℕ) (s : Str) → All IsByte s → be_from acc s < (acc + 1) * room (length s)
be_from-lt acc [] h = omega arith
be_from-lt acc (b ∷ s) h = grind (arith, be_from-lt (acc * 256 + b) s h.1, h.0)

pub be_value-lt : (s : Str) → All IsByte s → be_value s < room (length s)
be_value-lt s h = omega (arith, be_from-lt 0 s h)

-- What mp.h documents: numbers below the modulus, given by big-endian bytes of its length, are
-- raised to a power by way of the Montgomery form, modulo an odd number of at most 512 bytes.
pub record MpLaws (m : Mp) : Type 0 where
  pub value : m.Num → ℕ
  pub modulus_value :
      (n : Str) → All IsByte n → length n ≤ 512 → value (m.modulus (m.mp_init n)) ≡ be_value n
  pub from_be_value :
      (n s : Str)
      → All IsByte s
      → length n ≤ 512
      → length s ≤ length n
      → value (m.mp_from_be (m.mp_init n) s) ≡ be_value s
  pub less_iff : (c : m.Ctx) (a b : m.Num) → (m.mp_less c a b ≡ true) ↔ (value a < value b)
  pub exp_value :
      (n e : Str) (a : m.Num)
      → length n ≤ 512
      → be_value n % 2 ≡ 1
      → value a < be_value n
      → value (
          m.mp_from_mont
            (m.mp_init n)
            (m.mp_mont_exp (m.mp_init n) (m.mp_to_mont (m.mp_init n) a) e))
        ≡ value a ^ be_value e % be_value n
  pub to_be_length : (c : m.Ctx) (a : m.Num) (k : ℕ) → length (m.mp_to_be c a k) ≡ k
  pub to_be_bytes : (c : m.Ctx) (a : m.Num) (k : ℕ) → All IsByte (m.mp_to_be c a k)
  pub to_be_value :
      (c : m.Ctx) (a : m.Num) (k : ℕ) → value a < room k → be_value (m.mp_to_be c a k) ≡ value a
