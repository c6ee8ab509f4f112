-- ===== src/Pkcs1/Sample.antt =====
-- crypto/mp.h by plain numbers, for the tests.
use mega_irc.Common.{
  ℕ, zero, suc, ◌+◌, ◌/◌, ◌%◌, ◌^◌, ◌<◌, [], ◌∷◌, ◌≡◌, ◌∙◌, ap, refl, arith, Str, All, ltb, ltb→lt,
  lt→ltb, length, replicate,
}
use mega_irc.Pkcs1.{Mp}
use mega_irc.Pkcs1.Textbook.{IsKey}
use mega_irc.Pkcs1.Numbers.{MpLaws, IsByte, be_from, be_value, room}

-- The big-endian bytes of a number in front of others.
abbrev to_bytes : ℕ → ℕ → Str → Str
to_bytes zero x s = s
to_bytes (suc k) x s = to_bytes k (x / 256) ((x % 256) ∷ s)

-- A context is the modulus; the Montgomery form is the number itself.
abbrev pub plain_mp : Mp
plain_mp = record {
  Ctx = ℕ;
  Num = ℕ;
  mp_init = be_value;
  modulus = λ c. c;
  mp_from_be = λ c s. be_value s;
  mp_less = λ c. ltb;
  mp_to_mont = λ c a. a;
  mp_mont_exp = λ c a e. a ^ be_value e % c;
  mp_from_mont = λ c a. a;
  mp_to_be = λ c a k. to_bytes k a [];
}

length-to_bytes : (k x : ℕ) (s : Str) → length (to_bytes k x s) ≡ k + length s
length-to_bytes zero x s = omega arith
length-to_bytes (suc k) x s = omega (arith, length-to_bytes k (x / 256) ((x % 256) ∷ s))

to_bytes-bytes : (k x : ℕ) (s : Str) → All IsByte s → All IsByte (to_bytes k x s)
to_bytes-bytes zero x s h = h
to_bytes-bytes (suc k) x s h = to_bytes-bytes k (x / 256) ((x % 256) ∷ s) (omega arith, h)

to_bytes-value : (k x : ℕ) (s : Str) → x < room k → be_from 0 (to_bytes k x s) ≡ be_from x s
to_bytes-value zero x s h = ap (λ (a : ℕ). be_from a s) (omega arith)
to_bytes-value (suc k) x s h =
    to_bytes-value k (x / 256) ((x % 256) ∷ s) (omega arith)
    ∙ ap (λ (a : ℕ). be_from a s) (omega arith)

pub plain_laws : MpLaws plain_mp
plain_laws = record {
  value = λ a. a;
  modulus_value = λ n h l. refl;
  from_be_value = λ n s h l k. refl;
  less_iff = λ c a b. (ltb→lt a b, lt→ltb a b);
  exp_value = λ n e a l o h. refl;
  to_be_length = λ c a k. omega (arith, length-to_bytes k a []);
  to_be_bytes = λ c a k. to_bytes-bytes k a [] tt;
  to_be_value = λ c a k. to_bytes-value k a [];
}

-- A modulus of 1024 ones.
abbrev pub sample_n : Str
sample_n = replicate 128 0xff

pub sample_n-IsKey : IsKey sample_n
sample_n-IsKey = record {
  bytes = omega arith;
  smallest = omega arith;
  largest = omega arith;
  words = omega arith;
  top = omega arith;
  odd = omega arith;
}
