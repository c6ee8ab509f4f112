-- ===== src/Pkcs1/Textbook.antt =====
-- src/crypto/pkcs1.c: the signatures that are accepted, against RFC 8017.
use mega_irc.Common.{
  ℕ, zero, suc, ◌-◌, ◌%◌, ◌^◌, ◌≤◌, ◌<◌, true, [], ◌∷◌, ◌++◌, ◌≡◌, ◌↔◌, ◌∙◌, ap, sym, arith, Str,
  All, All-append, length, length-append, length-replicate, get_or, replicate,
}
use native.Mathlib.Nat.{mod-lt}
use mega_irc.Pkcs1.{
  Mp, sha256_digestinfo, key_shape, padding_ok, recovered, rsa_pkcs1_sha256_verify,
}
use mega_irc.Pkcs1.Numbers.{MpLaws, IsByte, be_value, be_from_inj, be_value-lt}
use mega_irc.Pkcs1.Padding.{encoded, padding_ok_iff}

-- A key that the arithmetic takes: an odd modulus of 1024 to 4096 bits in whole words, with its top
-- bit set.
pub record IsKey (n : Str) : Type 0 where
  pub bytes : All IsByte n
  pub smallest : 128 ≤ length n
  pub largest : length n ≤ 512
  pub words : length n % 4 ≡ 0
  pub top : 128 ≤ get_or n 0 0
  pub odd : be_value n % 2 ≡ 1

-- RSASSA-PKCS1-v1_5: the signature is as long as the modulus, stands for a number below it, and its
-- power is the number of the encoded message.
abbrev pub IsSignature : Str → Str → Str → Str → Type 0
IsSignature n e sig hash =
    (length sig ≡ length n)
    × (be_value sig < be_value n)
    × (be_value sig ^ be_value e % be_value n ≡ be_value (encoded hash (length n)))

get_or-IsByte : (s : Str) → All IsByte s → get_or s 0 0 < 256
get_or-IsByte [] h = omega arith
get_or-IsByte (b ∷ s) h = h.0

key_shape_iff : (n sig : Str) → IsKey n → (key_shape n sig ≡ true) ↔ (length sig ≡ length n)
unfolding key_shape
key_shape_iff n sig k = let b = get_or-IsByte n k.bytes in (λ q. ground arith, λ q. ground arith)

replicate-bytes : (k : ℕ) → All IsByte (replicate k 0xff)
replicate-bytes zero = tt
replicate-bytes (suc k) = (omega arith, replicate-bytes k)

encoded-bytes : (hash : Str) (nlen : ℕ) → All IsByte hash → All IsByte (encoded hash nlen)
encoded-bytes hash nlen h =
    let tail = All-append IsByte sha256_digestinfo hash (omega arith) h in
    let padding = replicate-bytes (nlen - 54) in
    (
      omega arith,
      (
        omega arith,
        All-append IsByte (replicate (nlen - 54) 0xff) (0 ∷ (sha256_digestinfo ++ hash)) padding
            (omega arith, tail),
      ),
    )

length-encoded :
    (hash : Str) (nlen : ℕ) → length hash ≡ 32 → 54 ≤ nlen → length (encoded hash nlen) ≡ nlen
length-encoded hash nlen l h = omega (
  arith,
  length-append (replicate (nlen - 54) 0xff) (0 ∷ (sha256_digestinfo ++ hash)),
  length-replicate {A = ℕ} (nlen - 54) 0xff,
  length-append sha256_digestinfo hash,
)

module _ (m : Mp) (laws : MpLaws m) (n e sig hash : Str) (key : IsKey n) (bytes : All IsByte sig)
    (hash_bytes : All IsByte hash) (hash_length : length hash ≡ 32) where
  -- The power, as the bytes that the padding check reads.
  recovered_value :
      length sig ≡ length n
      → be_value sig < be_value n
      → be_value (recovered m (m.mp_init n) (m.mp_from_be (m.mp_init n) sig) e (length n))
        ≡ be_value sig ^ be_value e % be_value n
  unfolding recovered
  recovered_value l below =
      let c = m.mp_init n in
      let s = m.mp_from_be c sig in
      let v = laws.from_be_value n sig bytes key.largest (omega arith) in
      let w = laws.exp_value n e s key.largest key.odd (rw v below) in
      let r : laws.value (m.mp_from_mont c (m.mp_mont_exp c (m.mp_to_mont c s) e))
          ≡ be_value sig ^ be_value e % be_value n =
        w ∙ ap (λ (x : ℕ). x ^ be_value e % be_value n) v in
      let small = mod-lt (be_value sig ^ be_value e) {m = be_value n} (omega arith) in
      let fits = be_value-lt n key.bytes in laws.to_be_value c _ (length n) (rw r (omega arith)) ∙ r

  message_iff :
      length sig ≡ length n
      → be_value sig < be_value n
      → (padding_ok
            (recovered m (m.mp_init n) (m.mp_from_be (m.mp_init n) sig) e (length n))
            hash
            (length n)
          ≡ true)
        ↔ (be_value sig ^ be_value e % be_value n ≡ be_value (encoded hash (length n)))
  message_iff l below =
      let c = m.mp_init n in
      let em = recovered m c (m.mp_from_be c sig) e (length n) in
      let v = recovered_value l below in
      let len : length em ≡ length n = unfold recovered in laws.to_be_length c _ (length n) in
      let tests =
        padding_ok_iff em hash (length n) len (omega (arith, key.smallest)) key.largest
          hash_length in
      let size = length-encoded hash (length n) hash_length (omega (arith, key.smallest)) in
      let em_bytes : All IsByte em = unfold recovered in laws.to_be_bytes c _ (length n) in
      (
        λ q. sym v ∙ ap be_value (tests.0 q),
        λ q.
            tests.1
              (be_from_inj 0 0 em (encoded hash (length n)) (len ∙ sym size) em_bytes
                (encoded-bytes hash (length n) hash_bytes) (v ∙ q)).1,
      )

  verify_steps :
      0 < length e
      → (rsa_pkcs1_sha256_verify m n e sig hash ≡ true) ↔ (
          (key_shape n sig ≡ true)
          × (m.mp_less (m.mp_init n) (m.mp_from_be (m.mp_init n) sig) (m.modulus (m.mp_init n))
              ≡ true)
          × (padding_ok
                (recovered m (m.mp_init n) (m.mp_from_be (m.mp_init n) sig) e (length n))
                hash
                (length n)
              ≡ true))
  unfolding rsa_pkcs1_sha256_verify
  verify_steps he = (λ q. ground arith, λ q. ground arith)

  less_below :
      length sig ≡ length n
      → (m.mp_less (m.mp_init n) (m.mp_from_be (m.mp_init n) sig) (m.modulus (m.mp_init n)) ≡ true)
        ↔ (be_value sig < be_value n)
  less_below l =
      let c = m.mp_init n in
      let v = laws.from_be_value n sig bytes key.largest (omega arith) in
      let w = laws.modulus_value n key.bytes key.largest in
      rw v at (rw w at (laws.less_iff c (m.mp_from_be c sig) (m.modulus c)))

  -- Over an arithmetic that does what mp.h documents, for a key that it takes, a signature and a
  -- hash of 32 bytes, and a public exponent that is not empty, the check accepts exactly the signatures of RSASSA-PKCS1-v1_5: as long as
  -- the modulus, below it, and with the encoded message of the hash for a power.
  pub rsa_pkcs1_sha256_verify_iff :
      0 < length e → (rsa_pkcs1_sha256_verify m n e sig hash ≡ true) ↔ IsSignature n e sig hash
  rsa_pkcs1_sha256_verify_iff he =
      let steps = verify_steps he in
      let shape = key_shape_iff n sig key in
      (
        λ q.
            let (k, l, p) = steps.0 q in
            let same = shape.0 k in
            let below = (less_below same).0 l in (same, below, (message_iff same below).0 p),
        λ q. steps.1 (shape.1 q.0, (less_below q.0).1 q.1, (message_iff q.0 q.1).1 q.2),
      )
