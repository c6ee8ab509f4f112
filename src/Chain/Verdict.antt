-- ===== src/Chain/Verdict.antt =====
-- src/tls/chain.c: what each verdict of `chain_verify` says of the chain.
use mega_irc.Common.{
  ◌≤◌, ◌<◌, Bool, true, false, ◌&&◌, none, some, inl, inr, List, [], ◌∷◌, ◌≡◌, ◌⊎◌, ◌↔◌, ◌∙◌, refl,
  arith, All, Bool-cases, Option-cases,
}
use mega_irc.Der.{Cert, der_read}
use mega_irc.Der.Exact.{IsBytes, range_max}
use mega_irc.Pkcs1.{rsa_pkcs1_sha256_verify}
use mega_irc.Policy.{ChainStatus, ok, malformed, bad_sig, no_anchor, unsupported}
use mega_irc.Chain.{
  rsa, X509Key, Kit, ChainAlg, unknown, rsa_sha256, ecdsa, ChainCert, chain_parts, key_fits,
  part_fits, signature_ok, chain_verify_link, chain_verify,
}
use mega_irc.Chain.Hash.{ShaLaws, sha256, chain_tbs_hash_lem}
use mega_irc.Chain.Parts.{chain_parts-IsLaidOut}
use mega_irc.Chain.Roots.{IsAnchor, roots_index_cases}

-- A certificate that the walk can index.
abbrev pub IsCert : Cert → Type 0
IsCert c = IsBytes c × (c.len ≤ range_max)

-- The signature is checked against the hash of the whole TBSCertificate.
abbrev pub is_good : Kit → Cert → Cert → X509Key → ChainCert → Bool
is_good k child issuer key p =
    rsa_pkcs1_sha256_verify k.mp (der_read issuer key.n_off key.n_len)
      (der_read issuer key.e_off key.e_len) (der_read child p.sig_off p.sig_len)
      (sha256 k (der_read child p.tbs_off p.tbs_len))

-- The key and the signature fit, and the signature is good.
pub record IsSigned (k : Kit) (child issuer : Cert) (key : X509Key) (p : ChainCert) : Type 0 where
  pub rsa_key : key.kind ≡ rsa
  pub modulus_some : 0 < key.n_len
  pub modulus_fits : key.n_len ≤ 512
  pub exponent_some : 0 < key.e_len
  pub exponent_fits : key.e_len ≤ 8
  pub scheme : p.alg ≡ rsa_sha256
  pub signature_some : 0 < p.sig_len
  pub signature_fits : p.sig_len ≤ 512
  pub good :
      rsa_pkcs1_sha256_verify k.mp
        (der_read issuer key.n_off key.n_len)
        (der_read issuer key.e_off key.e_len)
        (der_read child p.sig_off p.sig_len)
        (sha256 k (der_read child p.tbs_off p.tbs_len))
      ≡ true

-- The verdicts, the leaf first: the first link that fails gives it, and else the top.
pub data Verdict (k : Kit) : List Cert → ChainStatus → Type 0 where
  no_chain : Verdict k [] malformed
  top_unread : {c : Cert} → k.key_of c ≡ none → Verdict k (c ∷ []) malformed
  top_foreign :
      {c : Cert} {key : X509Key}
      → k.key_of c ≡ some key
      → ¬ IsAnchor (k.spki_hash c key)
      → Verdict k (c ∷ []) no_anchor
  top_carried :
      {c : Cert} {key : X509Key}
      → k.key_of c ≡ some key
      → IsAnchor (k.spki_hash c key)
      → Verdict k (c ∷ []) ok
  unread :
      {c d : Cert} {certs : List Cert} → chain_parts c ≡ none → Verdict k (c ∷ d ∷ certs) malformed
  unknown_scheme :
      {c d : Cert} {certs : List Cert} {p : ChainCert}
      → chain_parts c ≡ some p
      → p.alg ≡ unknown
      → Verdict k (c ∷ d ∷ certs) malformed
  elliptic :
      {c d : Cert} {certs : List Cert} {p : ChainCert}
      → chain_parts c ≡ some p
      → p.alg ≡ ecdsa
      → Verdict k (c ∷ d ∷ certs) unsupported
  no_key :
      {c d : Cert} {certs : List Cert} {p : ChainCert}
      → chain_parts c ≡ some p
      → p.alg ≡ rsa_sha256
      → k.key_of d ≡ none
      → Verdict k (c ∷ d ∷ certs) malformed
  unsigned :
      {c d : Cert} {certs : List Cert} {p : ChainCert} {key : X509Key}
      → chain_parts c ≡ some p
      → p.alg ≡ rsa_sha256
      → k.key_of d ≡ some key
      → ¬ IsSigned k c d key p
      → Verdict k (c ∷ d ∷ certs) bad_sig
  signed :
      {c d : Cert} {certs : List Cert} {p : ChainCert} {key : X509Key} {s : ChainStatus}
      → chain_parts c ≡ some p
      → k.key_of d ≡ some key
      → IsSigned k c d key p
      → Verdict k (d ∷ certs) s
      → Verdict k (c ∷ d ∷ certs) s

key_fits_iff :
    (key : X509Key)
    → (key_fits key ≡ true)
      ↔ ((key.kind ≡ rsa) × (0 < key.n_len) × (key.n_len ≤ 512) × (0 < key.e_len) × (key.e_len ≤ 8))
unfolding key_fits
key_fits_iff key = (λ q. ground arith, λ q. ground arith)

part_fits_iff :
    (p : ChainCert)
    → (part_fits p ≡ true) ↔ ((p.alg ≡ rsa_sha256) × (0 < p.sig_len) × (p.sig_len ≤ 512))
unfolding part_fits
part_fits_iff p = (λ q. ground arith, λ q. ground arith)

alg_cases : (a : ChainAlg) → (a ≡ unknown) ⊎ ((a ≡ ecdsa) ⊎ (a ≡ rsa_sha256))
alg_cases unknown = inl refl
alg_cases ecdsa = inr (inl refl)
alg_cases rsa_sha256 = inr (inr refl)

module _ (k : Kit) (laws : ShaLaws k) where
  signature_ok_lem :
      (c d : Cert) (key : X509Key) (p : ChainCert)
      → IsCert c
      → chain_parts c ≡ some p
      → signature_ok k c d key p
        ≡ some (
            rsa_pkcs1_sha256_verify k.mp
              (der_read d key.n_off key.n_len)
              (der_read d key.e_off key.e_len)
              (der_read c p.sig_off p.sig_len)
              (sha256 k (der_read c p.tbs_off p.tbs_len)))
  unfolding signature_ok
  signature_ok_lem c d key p is q =
      let l = chain_parts-IsLaidOut c is.0 is.1 q in
      let room = l.behind in
      let inside = l.inside in rw (chain_tbs_hash_lem k laws c p (omega arith)) refl

  -- The answer for one link, from its three tests.
  link_value :
      (c d : Cert) (key : X509Key) (p : ChainCert)
      → IsCert c
      → chain_parts c ≡ some p
      → chain_verify_link k c d key
        ≡ some (
            key_fits key
            && part_fits p
            && rsa_pkcs1_sha256_verify k.mp
                (der_read d key.n_off key.n_len)
                (der_read d key.e_off key.e_len)
                (der_read c p.sig_off p.sig_len)
                (sha256 k (der_read c p.tbs_off p.tbs_len)))
  unfolding chain_verify_link
  link_value c d key p is q = rw q (rw (signature_ok_lem c d key p is q) (ground arith))

  IsSigned-tests :
      (c d : Cert) (key : X509Key) (p : ChainCert)
      → IsSigned k c d key p
      → (key_fits key ≡ true)
        × (part_fits p ≡ true)
        × (rsa_pkcs1_sha256_verify k.mp
              (der_read d key.n_off key.n_len)
              (der_read d key.e_off key.e_len)
              (der_read c p.sig_off p.sig_len)
              (sha256 k (der_read c p.tbs_off p.tbs_len))
            ≡ true)
  IsSigned-tests c d key p s = (
    (key_fits_iff key).1
        (s.rsa_key, s.modulus_some, s.modulus_fits, s.exponent_some, s.exponent_fits),
    (part_fits_iff p).1 (s.scheme, s.signature_some, s.signature_fits),
    s.good,
  )

  tests-IsSigned :
      (c d : Cert) (key : X509Key) (p : ChainCert)
      → key_fits key ≡ true
      → part_fits p ≡ true
      → rsa_pkcs1_sha256_verify k.mp
          (der_read d key.n_off key.n_len)
          (der_read d key.e_off key.e_len)
          (der_read c p.sig_off p.sig_len)
          (sha256 k (der_read c p.tbs_off p.tbs_len))
        ≡ true
      → IsSigned k c d key p
  tests-IsSigned c d key p f g v =
      let (a0, a1, a2, a3, a4) = (key_fits_iff key).0 f in
      let (b0, b1, b2) = (part_fits_iff p).0 g in
      record {
        rsa_key = a0;
        modulus_some = a1;
        modulus_fits = a2;
        exponent_some = a3;
        exponent_fits = a4;
        scheme = b0;
        signature_some = b1;
        signature_fits = b2;
        good = v;
      }

  -- So it is the decision whether the link is signed.
  pub link_cases :
      (c d : Cert) (key : X509Key) (p : ChainCert)
      → IsCert c
      → chain_parts c ≡ some p
      → ((chain_verify_link k c d key ≡ some true) × IsSigned k c d key p)
        ⊎ ((chain_verify_link k c d key ≡ some false) × ¬ IsSigned k c d key p)
  link_cases c d key p is q =
      let v = link_value c d key p is q in
      elim (Bool-cases (key_fits key)) [
        | inr e ↦ inr (v ∙ rw e refl, λ s. cc (e, (IsSigned-tests c d key p s).0))
        | inl e ↦ elim (Bool-cases (part_fits p)) [
          | inr f ↦ inr (v ∙ rw (e, f) refl, λ s. cc (f, (IsSigned-tests c d key p s).1))
          | inl f ↦ elim (Bool-cases (is_good k c d key p)) [
            | inr g ↦ inr (v ∙ rw (e, f, g) refl, λ s. cc (g, s.good))
            | inl g ↦ inl (v ∙ rw (e, f, g) refl, tests-IsSigned c d key p e f g)
          ]
        ]
      ]

  -- Over a hash that takes a text in parts, every chain of certificates below 65532 bytes gets a verdict, and this is what it says: the
  -- first link that fails gives it, by the reason, and if all are signed the top does, which must be
  -- a carried anchor.
  pub chain_verify-Verdict :
      (certs : List Cert)
      → All IsCert certs
      → (s : ChainStatus) × (chain_verify k certs ≡ some s) × Verdict k certs s
  unfolding chain_verify
  chain_verify-Verdict [] h = (malformed, refl, no_chain)
  chain_verify-Verdict (c ∷ []) h = elim (Option-cases (k.key_of c)) [
    | inl e ↦ (malformed, rw e refl, top_unread e)
    | inr (key, e) ↦ elim (roots_index_cases (k.spki_hash c key) (laws.length-spki_hash c key)) [
      | inl (r, a) ↦ (ok, rw e (rw r refl), top_carried e a)
      | inr (r, n) ↦ (no_anchor, rw e (rw r refl), top_foreign e n)
    ]
  ]
  chain_verify-Verdict (c ∷ d ∷ certs) h = elim (Option-cases (chain_parts c)) [
    | inl e ↦ (malformed, rw e refl, unread e)
    | inr (p, e) ↦ elim (alg_cases p.alg) [
      | inl a ↦ (malformed, rw e (rw a refl), unknown_scheme e a)
      | inr (inl a) ↦ (unsupported, rw e (rw a refl), elliptic e a)
      | inr (inr a) ↦ elim (Option-cases (k.key_of d)) [
        | inl n ↦ (malformed, rw e (rw a (rw n refl)), no_key e a n)
        | inr (key, n) ↦
            let (s, r, v) = chain_verify-Verdict (d ∷ certs) h.1 in
            elim (link_cases c d key p h.0 e) [
              | inr (l, u) ↦ (bad_sig, rw e (rw a (rw n (rw l refl))), unsigned e a n u)
              | inl (l, g) ↦ (s, rw e (rw a (rw n (rw l r))), signed e n g v)
            ]
      ]
    ]
  ]
