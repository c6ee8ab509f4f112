-- ===== src/Pkcs1.antt =====
-- src/crypto/pkcs1.c: the check of an RSASSA-PKCS1-v1_5 signature with SHA-256.
-- The multi-precision arithmetic behind it, crypto/mp.c, is a copy from another project: its
-- operations are the fields of `Mp`. A pointer and its length are one list of bytes.
pub mod Numbers
pub mod Padding
pub mod Textbook
pub mod Sample
mod Tests
use mega_irc.Common.{
  ℕ, zero, suc, ◌+◌, ◌-◌, ◌*◌, ◌/◌, ◌%◌, ◌^◌, Bool, true, false, ◌&&◌, ◌||◌, not, List, [], ◌∷◌,
  Str, ltb, leb, ◌==◌, if◌then◌else◌, length, get_or, drop,
}

-- What mp.h declares of the arithmetic modulo an odd number. `mp_less` is `mp_cmp(...) < 0`.
pub record Mp : Type 1 where
  pub Ctx : Type 0
  pub Num : Type 0
  pub mp_init : Str → Ctx
  pub modulus : Ctx → Num
  pub mp_from_be : Ctx → Str → Num
  pub mp_less : Ctx → Num → Num → Bool
  pub mp_to_mont : Ctx → Num → Num
  pub mp_mont_exp : Ctx → Num → Str → Num
  pub mp_from_mont : Ctx → Num → Num
  pub mp_to_be : Ctx → Num → ℕ → Str

-- The DigestInfo in front of a SHA-256 hash.
abbrev pub sha256_digestinfo : Str
sha256_digestinfo =
    0x30 ∷ 0x31 ∷ 0x30 ∷ 0x0d ∷ 0x06 ∷ 0x09 ∷ 0x60 ∷ 0x86 ∷ 0x48 ∷ 0x01 ∷ 0x65 ∷ 0x03 ∷ 0x04 ∷ 0x02
    ∷ 0x01 ∷ 0x05 ∷ 0x00 ∷ 0x04 ∷ 0x20 ∷ []

-- MP_MAX_LIMBS, of two bytes each
abbrev pub mp_max_limbs : ℕ
mp_max_limbs = 256

-- Whole 32-bit limbs and the top bit set.
unfoldable pub key_shape : Str → Str → Bool
key_shape n sig =
    leb 128 (length n)
    && leb (length n) (2 * mp_max_limbs)
    && length n % 4 == 0
    && length sig == length n
    && get_or n 0 0 / 128 % 2 == 1

-- The loop over the 0xff bytes: how many there are.
pub ones : Str → ℕ
ones [] = 0
ones (b ∷ em) = if b == 0xff then suc (ones em) else 0

-- The loops that compare the message with fixed bytes.
pub matches : Str → Str → Bool
matches [] em = true
matches (x ∷ want) [] = false
matches (x ∷ want) (b ∷ em) = if b == x then matches want em else false

-- What stands behind the 0xff bytes: `i` is the index there, `nlen` the length of the whole.
pub digest_ok : Str → Str → ℕ → ℕ → Bool
unfolding matches
digest_ok em hash nlen i =
    if ltb i 10
    then false
    else if leb nlen i || not (get_or em i 0 == 0)
    then false
    else if not ((nlen + 2 ^ 16 - (i + 1)) % 2 ^ 16 == 19 + 32)
    then false
    else if matches sha256_digestinfo (drop (i + 1) em)
    then matches hash (drop (i + 1 + 19) em)
    else false

-- EM = 0x00 0x01 || FF..FF || 0x00 || DigestInfo || H
unfoldable pub padding_ok : Str → Str → ℕ → Bool
unfolding ones digest_ok
padding_ok em hash nlen =
    if not (get_or em 0 0 == 0) || not (get_or em 1 0 == 1)
    then false
    else digest_ok em hash nlen (2 + ones (drop 2 em))

module _ (m : Mp) where
  open m use {
    Ctx, Num, mp_init, modulus, mp_from_be, mp_less, mp_to_mont, mp_mont_exp, mp_from_mont,
    mp_to_be,
  }

  -- The exponentiation, for a signature below the modulus.
  unfoldable pub recovered : Ctx → Num → Str → ℕ → Str
  recovered c s e nlen = mp_to_be c (mp_from_mont c (mp_mont_exp c (mp_to_mont c s) e)) nlen

  unfoldable pub rsa_pkcs1_sha256_verify : Str → Str → Str → Str → Bool
  rsa_pkcs1_sha256_verify n e sig hash =
      if not (key_shape n sig)
      then false
      else if length e == 0
      then false
      else let c = mp_init n in
        let s = mp_from_be c sig in
        if not (mp_less c s (modulus c))
        then false
        else padding_ok (recovered c s e (length n)) hash (length n)
