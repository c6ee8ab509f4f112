-- ===== src/Chain/Hash.antt =====
-- src/tls/chain.c: the hash of what is signed is read in pieces.
use mega_irc.Common.{
  ℕ, zero, suc, ◌+◌, ◌-◌, ◌%◌, ◌^◌, ◌<◌, min, some, inl, inr, [], ◌∷◌, ◌++◌, ◌≡◌, ◌∙◌, ap, refl,
  sym, arith, Str, All, length, ◌==◌, Bool-cases,
}
use mega_irc.Der.{Cert, der_read}
use mega_irc.Pkcs1.Numbers.{IsByte}
use mega_irc.Pkcs1.Numbers.{IsByte}
use mega_irc.Chain.{X509Key, Kit, ChainCert, hash_pieces, chain_tbs_hash}

-- What SHA-256 promises: a text may be handed over in parts, and hashes have 32 bytes.
pub record ShaLaws (k : Kit) : Type 0 where
  pub update_nil : (h : k.Sha) → k.sha256_update h [] ≡ h
  pub update-append :
      (h : k.Sha) (s t : Str) → k.sha256_update (k.sha256_update h s) t ≡ k.sha256_update h (s ++ t)
  pub length-final : (h : k.Sha) → length (k.sha256_final h) ≡ 32
  pub final-bytes : (h : k.Sha) → All IsByte (k.sha256_final h)
  pub length-spki_hash : (c : Cert) (key : X509Key) → length (k.spki_hash c key) ≡ 32

-- The hash of a text as a whole.
abbrev pub sha256 : Kit → Str → Str
sha256 k s = k.sha256_final (k.sha256_update k.sha256_init s)

der_read-split :
    (c : Cert) (off m n : ℕ) → der_read c off m ++ der_read c (off + m) n ≡ der_read c off (m + n)
der_read-split c off zero n =
    ap (λ (i : ℕ). der_read c i n) (omega arith) ∙ ap (λ (i : ℕ). der_read c off i) (omega arith)
der_read-split c off (suc m) n =
    let e : off + suc m ≡ off + 1 + m = omega arith in
    let l : suc m + n ≡ suc (m + n) = omega arith in
    rw (e, l) (ap (λ (s : Str). c.byte off ∷ s) (der_read-split c (off + 1) m n))

module _ (k : Kit) (laws : ShaLaws k) (c : Cert) where
  hash_pieces_lem :
      (f : ℕ) (h : k.Sha) (off left : ℕ)
      → left < f
      → off + left < 2 ^ 16
      → hash_pieces k c f h off left ≡ some (k.sha256_update h (der_read c off left))
  unfolding hash_pieces
  hash_pieces_lem zero h off left lt room = absurd (omega arith)
  hash_pieces_lem (suc f) h off left lt room = elim (Bool-cases (left == 0)) [
    | inl e ↦ let z : left ≡ 0 = ground arith in rw e (rw z (ap some (sym (laws.update_nil h))))
    | inr e ↦
        let n = min left 64 in
        let some_left : 0 < left = ground arith in
        let whole : n + (left - n) ≡ left = omega arith in
        let no_wrap : (off + n) % 2 ^ 16 ≡ off + n = omega arith in
        let rest =
          hash_pieces_lem f (k.sha256_update h (der_read c off n)) ((off + n) % 2 ^ 16) (left - n)
            (omega arith) (omega arith) in
        rw e (
          rest
          ∙ ap some (
              laws.update-append h (der_read c off n) (der_read c ((off + n) % 2 ^ 16) (left - n))
              ∙ ap (k.sha256_update h)
                  (rw no_wrap (der_read-split c off n (left - n)) ∙ ap (der_read c off) whole)))
  ]

  -- The pieces make up the whole: the hash is that of the range as it stands in the certificate.
  pub chain_tbs_hash_lem :
      (p : ChainCert)
      → p.tbs_off + p.tbs_len < 2 ^ 16
      → chain_tbs_hash k c p ≡ some (sha256 k (der_read c p.tbs_off p.tbs_len))
  unfolding chain_tbs_hash
  chain_tbs_hash_lem p room =
      rw (hash_pieces_lem (suc p.tbs_len) k.sha256_init p.tbs_off p.tbs_len (omega arith) room) refl
