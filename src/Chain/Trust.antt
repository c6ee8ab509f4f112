-- ===== src/Chain/Trust.antt =====
-- src/tls/chain.c: the chains that are accepted, by the textbook's signatures.
use mega_irc.Common.{
  ℕ, zero, suc, ◌+◌, ◌≤◌, ◌<◌, true, some, inl, inr, List, [], ◌∷◌, ◌≡◌, ◌↔◌, refl, arith, Str, All,
  length,
}
use mega_irc.Der.{Cert, der_read}
use mega_irc.Der.Exact.{IsBytes}
use mega_irc.Pkcs1.Numbers.{MpLaws, IsByte}
use mega_irc.Pkcs1.Textbook.{IsKey, IsSignature, rsa_pkcs1_sha256_verify_iff}
use mega_irc.Policy.{ChainStatus, ok}
use mega_irc.Chain.{rsa, X509Key, Kit, rsa_sha256, ChainCert, chain_verify}
use mega_irc.Chain.Hash.{ShaLaws, sha256}
use mega_irc.Chain.Signed.{IsSha256Rsa, chain_parts-IsSha256Rsa, IsSha256Rsa-chain_parts}
use mega_irc.Chain.Roots.{IsAnchor, roots_index_cases}
use mega_irc.Chain.Verdict.{
  IsCert, is_good, IsSigned, link_cases, Verdict, chain_verify-Verdict, top_carried, signed,
}

abbrev pub modulus_of : Cert → X509Key → Str
modulus_of c key = der_read c key.n_off key.n_len

-- A certificate's RSA key, if it has one, is a key for the arithmetic.
abbrev pub HasKey : Kit → Cert → Type 0
HasKey k c = (key : X509Key) → k.key_of c ≡ some key → key.kind ≡ rsa → IsKey (modulus_of c key)

-- The child's signature under the issuer's key, by the textbook, within the sizes of the buffers.
pub record IsTrustedLink (k : Kit) (child issuer : Cert) (key : X509Key)
    (tbs_off tbs_len sig_off sig_len : ℕ) : Type 0 where
  pub rsa_key : key.kind ≡ rsa
  pub modulus_some : 0 < key.n_len
  pub modulus_fits : key.n_len ≤ 512
  pub exponent_some : 0 < key.e_len
  pub exponent_fits : key.e_len ≤ 8
  pub signature_some : 0 < sig_len
  pub signature_fits : sig_len ≤ 512
  pub signature :
      IsSignature
        (modulus_of issuer key)
        (der_read issuer key.e_off key.e_len)
        (der_read child sig_off sig_len)
        (sha256 k (der_read child tbs_off tbs_len))

-- Each certificate is signed by the next one's key, and the top one's key is carried.
pub data Trusted (k : Kit) : List Cert → Type 0 where
  anchor :
      {c : Cert} {key : X509Key}
      → k.key_of c ≡ some key
      → IsAnchor (k.spki_hash c key)
      → Trusted k (c ∷ [])
  link :
      {c d : Cert} {certs : List Cert} {tbs_off tbs_len sig_off sig_len : ℕ} {key : X509Key}
      → IsSha256Rsa c tbs_off tbs_len sig_off sig_len
      → k.key_of d ≡ some key
      → IsTrustedLink k c d key tbs_off tbs_len sig_off sig_len
      → Trusted k (d ∷ certs)
      → Trusted k (c ∷ d ∷ certs)

length-der_read : (c : Cert) (off n : ℕ) → length (der_read c off n) ≡ n
length-der_read c off zero = refl
length-der_read c off (suc n) = omega (arith, length-der_read c (off + 1) n)

der_read-bytes : (c : Cert) (off n : ℕ) → IsBytes c → All IsByte (der_read c off n)
der_read-bytes c off zero b = tt
der_read-bytes c off (suc n) b = (b off, der_read-bytes c (off + 1) n b)

just_certs :
    (k : Kit) (certs : List Cert) → All (λ c. IsCert c × HasKey k c) certs → All IsCert certs
just_certs k [] h = tt
just_certs k (c ∷ certs) h = (h.0.0, just_certs k certs h.1)

module _ (k : Kit) (sha : ShaLaws k) (mp : MpLaws k.mp) where
  -- The check of the signature decides the textbook's.
  good_iff :
      (c d : Cert) (key : X509Key) (p : ChainCert)
      → IsBytes c
      → IsKey (modulus_of d key)
      → 0 < key.e_len
      → (is_good k c d key p ≡ true)
        ↔ IsSignature
            (modulus_of d key)
            (der_read d key.e_off key.e_len)
            (der_read c p.sig_off p.sig_len)
            (sha256 k (der_read c p.tbs_off p.tbs_len))
  good_iff c d key p bytes is_key h =
      rsa_pkcs1_sha256_verify_iff k.mp mp (modulus_of d key) (der_read d key.e_off key.e_len)
        (der_read c p.sig_off p.sig_len) (sha256 k (der_read c p.tbs_off p.tbs_len)) is_key
        (der_read-bytes c p.sig_off p.sig_len bytes) (sha.final-bytes _) (sha.length-final _)
        (omega (arith, length-der_read d key.e_off key.e_len))

  IsSigned-IsTrustedLink :
      (c d : Cert) (key : X509Key) (p : ChainCert)
      → IsBytes c
      → (key.kind ≡ rsa → IsKey (modulus_of d key))
      → IsSigned k c d key p
        ↔ ((p.alg ≡ rsa_sha256) × IsTrustedLink k c d key p.tbs_off p.tbs_len p.sig_off p.sig_len)
  IsSigned-IsTrustedLink c d key p bytes is_key = (
    λ s. (
      s.scheme,
      record {
        rsa_key = s.rsa_key;
        modulus_some = s.modulus_some;
        modulus_fits = s.modulus_fits;
        exponent_some = s.exponent_some;
        exponent_fits = s.exponent_fits;
        signature_some = s.signature_some;
        signature_fits = s.signature_fits;
        signature = (good_iff c d key p bytes (is_key s.rsa_key) s.exponent_some).0 s.good;
      },
    ),
    λ (a, t). record {
      rsa_key = t.rsa_key;
      modulus_some = t.modulus_some;
      modulus_fits = t.modulus_fits;
      exponent_some = t.exponent_some;
      exponent_fits = t.exponent_fits;
      scheme = a;
      signature_some = t.signature_some;
      signature_fits = t.signature_fits;
      good = (good_iff c d key p bytes (is_key t.rsa_key) t.exponent_some).1 t.signature;
    },
  )

  Verdict-Trusted :
      {certs : List Cert} {s : ChainStatus}
      → All (λ c. IsCert c × HasKey k c) certs
      → Verdict k certs s
      → s ≡ ok
      → Trusted k certs
  Verdict-Trusted h (top_carried e a) q = anchor e a
  Verdict-Trusted h (signed {c} {d} {certs} {p} {key} e n g v) q =
      link (chain_parts-IsSha256Rsa c h.0.0.0 h.0.0.1 p e g.scheme) n
        ((IsSigned-IsTrustedLink c d key p h.0.0.0 (λ r. h.1.0.1 key n r)).0 g).1
        (Verdict-Trusted h.1 v q)
  Verdict-Trusted h _ q = cc

  Trusted-ok :
      {certs : List Cert}
      → All (λ c. IsCert c × HasKey k c) certs
      → Trusted k certs
      → chain_verify k certs ≡ some ok
  unfolding chain_verify
  Trusted-ok h (anchor {c} {key} e a) =
      elim (roots_index_cases (k.spki_hash c key) (sha.length-spki_hash c key)) [
        | inl (r, _) ↦ rw e (rw r refl)
        | inr (_, n) ↦ absurd (n a)
      ]
  Trusted-ok h
        (link {c} {d} {certs} {tbs_off = to} {tbs_len = tl} {sig_off = so} {sig_len = sl} {key} i n
          t rest) =
      let p : ChainCert = record {
        tbs_off = to;
        tbs_len = tl;
        sig_off = so;
        sig_len = sl;
        alg = rsa_sha256;
      } in
      let e = IsSha256Rsa-chain_parts c h.0.0.0 h.0.0.1 to tl so sl i in
      let s = (IsSigned-IsTrustedLink c d key p h.0.0.0 (λ r. h.1.0.1 key n r)).1 (refl, t) in
      elim (link_cases k sha c d key p h.0.0 e) [
        | inl (l, _) ↦ rw e (rw n (rw l (Trusted-ok h.1 rest)))
        | inr (_, u) ↦ absurd (u s)
      ]

  -- Over a hash and an arithmetic that do what their headers document, for certificates below 65532
  -- bytes whose RSA keys the arithmetic takes, `chain_verify` returns OK exactly for the trusted
  -- chains: there is a certificate, each names sha256WithRSAEncryption and is signed by the next one's
  -- key in the sense of RSASSA-PKCS1-v1_5 with SHA-256 over its TBSCertificate, from that element's
  -- tag to its end, and the top one's key is among the anchors that are carried.
  pub chain_verify_iff :
      (certs : List Cert)
      → All (λ c. IsCert c × HasKey k c) certs
      → (chain_verify k certs ≡ some ok) ↔ Trusted k certs
  chain_verify_iff certs h = (
    λ q.
        let (s, r, v) = chain_verify-Verdict k sha certs (just_certs k certs h) in
        Verdict-Trusted h v (cc (q, r)),
    Trusted-ok h,
  )
