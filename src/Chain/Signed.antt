-- ===== src/Chain/Signed.antt =====
-- src/tls/chain.c: what of a certificate is signed, and its signature, by their elements.
use mega_irc.Common.{
  ℕ, ◌+◌, ◌-◌, ◌%◌, ◌^◌, ◌≤◌, true, ◌&&◌, some, [], ◌∷◌, ◌≡◌, ◌↔◌, ◌∙◌, inl, inr, refl, sym, ap,
  arith, Str, leb, ◌==◌, some_inj, >>=-eq-some, require-eq-some, Bool-cases,
}
use mega_irc.Der.{Cert, Elem, der_elem, der_after, der_tbs, der_oid_is}
use native.Mathlib.Nat.{le_trans}
use mega_irc.Der.Exact.{IsBytes, range_max, der_elem_bounds}
use mega_irc.Der.Bounds.{der_after_bounds}
use mega_irc.Der.Oid.{IsOid, der_oid_is_iff}
use mega_irc.Chain.{rsa_sha256, ChainCert, chain_alg, chain_parts, oid_sha256_rsa, oid_ecdsa_sha2}

-- sha256WithRSAEncryption, 1.2.840.113549.1.1.11.
abbrev pub sha256_with_rsa : Str
sha256_with_rsa = 0x2a ∷ 0x86 ∷ 0x48 ∷ 0x86 ∷ 0xf7 ∷ 0x0d ∷ 0x01 ∷ 0x01 ∷ 0x0b ∷ []

-- The SEQUENCE of the whole holds the TBSCertificate, an AlgorithmIdentifier that begins with the
-- OID, and a BIT STRING with no unused bits.
pub record IsWritten (c : Cert) (e t a o s : Elem) : Type 0 where
  pub whole : der_elem c 0 c.len ≡ some e
  pub whole_tag : e.tag ≡ 0x30
  pub tbs : der_elem c e.off (der_after e) ≡ some t
  pub tbs_tag : t.tag ≡ 0x30
  pub algorithm : der_elem c (der_after t) (der_after e) ≡ some a
  pub algorithm_tag : a.tag ≡ 0x30
  pub oid : der_elem c a.off (der_after e) ≡ some o
  pub bits : der_elem c (der_after a) (der_after e) ≡ some s
  pub bits_tag : s.tag ≡ 0x03
  pub bits_some : 2 ≤ s.len
  pub unused : c.byte s.off ≡ 0

-- An RSA signature with SHA-256: what is signed is the TBSCertificate from its tag to its end, and
-- the signature is what stands behind the byte of unused bits.
pub record IsSha256Rsa (c : Cert) (tbs_off tbs_len sig_off sig_len : ℕ) : Type 0 where
  pub e : Elem
  pub t : Elem
  pub a : Elem
  pub o : Elem
  pub s : Elem
  pub written : IsWritten c e t a o s
  pub scheme : IsOid c o sha256_with_rsa
  pub from_tag : tbs_off ≡ e.off
  pub to_end : tbs_off + tbs_len ≡ der_after t
  pub behind_count : sig_off ≡ s.off + 1
  pub rest : sig_len + 1 ≡ s.len

chain_alg_iff : (c : Cert) (o : Elem) → (chain_alg c o ≡ rsa_sha256) ↔ IsOid c o sha256_with_rsa
unfolding chain_alg
chain_alg_iff c o =
    let decided = der_oid_is_iff c o sha256_with_rsa in
    (
      λ q. elim (Bool-cases (der_oid_is c o oid_sha256_rsa 9)) [
        | inl e ↦ decided.0 e
        | inr e ↦ elim (Bool-cases (der_oid_is c o oid_ecdsa_sha2 8)) [
          | inl f ↦ cc (rw (e, f) at q)
          | inr f ↦ cc (rw (e, f) at q)
        ]
      ],
      λ i. rw (decided.1 i) refl,
    )

-- The ranges that the code computes in 16 bits.
ranges :
    (e t a s : Elem) (n : ℕ)
    → n ≤ range_max
    → (e.off + 2 ≤ t.off) × (t.off ≤ der_after t) × (der_after t ≤ der_after e)
    → der_after e ≤ n
    → s.off + s.len ≤ der_after e
    → 2 ≤ s.len
    → (e.off + (der_after t + 2 ^ 16 - e.off) % 2 ^ 16 ≡ der_after t)
      × ((s.off + 1) % 2 ^ 16 ≡ s.off + 1)
      × ((s.len - 1) % 2 ^ 16 + 1 ≡ s.len)
ranges e t a s n h b l m k = (omega arith, omega arith, omega arith)

same_test : (t n : ℕ) → t ≡ n → (t == n) ≡ true
same_test t n h = ground arith

is_same : (t n : ℕ) → (t == n) ≡ true → t ≡ n
is_same t n h = ground arith

bits_tested : (s : Elem) → (s.tag == 0x03 && leb 2 s.len) ≡ true → (s.tag ≡ 0x03) × (2 ≤ s.len)
bits_tested s h = (ground arith, ground arith)

bits_test : (s : Elem) → s.tag ≡ 0x03 → 2 ≤ s.len → (s.tag == 0x03 && leb 2 s.len) ≡ true
bits_test s t l = ground arith

module _ (c : Cert) (bytes : IsBytes c) (small : c.len ≤ range_max) where
  written_ranges :
      (e t a o s : Elem)
      → IsWritten c e t a o s
      → (e.off + (der_after t + 2 ^ 16 - e.off) % 2 ^ 16 ≡ der_after t)
        × ((s.off + 1) % 2 ^ 16 ≡ s.off + 1)
        × ((s.len - 1) % 2 ^ 16 + 1 ≡ s.len)
  written_ranges e t a o s w =
      let be = der_after_bounds c bytes 0 c.len small w.whole in
      let end = le_trans be.2 small in
      ranges e t a s c.len small (der_after_bounds c bytes e.off (der_after e) end w.tbs) be.2
        (der_elem_bounds c (der_after a) (der_after e) bytes end w.bits).1 w.bits_some

  tbs_parts :
      {e t : Elem}
      → der_tbs c ≡ some (e, t)
      → (der_elem c 0 c.len ≡ some e)
        × (e.tag ≡ 0x30)
        × (der_elem c e.off (der_after e) ≡ some t)
        × (t.tag ≡ 0x30)
  unfolding der_tbs
  tbs_parts {e} {t} q =
      let (e', p, q1) = >>=-eq-some (der_elem c 0 c.len) _ q in
      let (u, q2) = require-eq-some (e'.tag == 0x30) _ q1 in
      let (t', r, q3) = >>=-eq-some (der_elem c e'.off (der_after e')) _ q2 in
      let (v, q4) = require-eq-some (t'.tag == 0x30) _ q3 in
      let pair = some_inj q4 in
      let se : e' ≡ e = ap (λ (y : Elem × Elem). y.0) pair in
      let st : t' ≡ t = ap (λ (y : Elem × Elem). y.1) pair in
      (
        p ∙ ap some se,
        ap (λ (y : Elem). y.tag) (sym se) ∙ is_same e'.tag 0x30 u,
        ap (λ (y : Elem). der_elem c y.off (der_after y)) (sym se) ∙ r ∙ ap some st,
        ap (λ (y : Elem). y.tag) (sym st) ∙ is_same t'.tag 0x30 v,
      )

  -- Where the code's walk ends with an RSA signature with SHA-256, the certificate has one there.
  pub chain_parts-IsSha256Rsa :
      (p : ChainCert)
      → chain_parts c ≡ some p
      → p.alg ≡ rsa_sha256
      → IsSha256Rsa c p.tbs_off p.tbs_len p.sig_off p.sig_len
  unfolding chain_parts
  chain_parts-IsSha256Rsa p q alg =
      let ((e, t), q0, q1) = >>=-eq-some (der_tbs c) _ q in
      let (a, q2, q3) = >>=-eq-some (der_elem c (der_after t) (der_after e)) _ q1 in
      let (u, q4) = require-eq-some (a.tag == 0x30) _ q3 in
      let (o, q5, q6) = >>=-eq-some (der_elem c a.off (der_after e)) _ q4 in
      let (_, q7) = require-eq-some (o.tag == 0x06) _ q6 in
      let (s, q8, q9) = >>=-eq-some (der_elem c (der_after a) (der_after e)) _ q7 in
      let (v, q10) = require-eq-some (s.tag == 0x03 && leb 2 s.len) _ q9 in
      let (w, q11) = require-eq-some (c.byte s.off == 0) _ q10 in
      let found = some_inj q11 in
      let (qe, te, qt, tt') = tbs_parts q0 in
      let writing : IsWritten c e t a o s = record {
        whole = qe;
        whole_tag = te;
        tbs = qt;
        tbs_tag = tt';
        algorithm = q2;
        algorithm_tag = is_same a.tag 0x30 u;
        oid = q5;
        bits = q8;
        bits_tag = (bits_tested s v).0;
        bits_some = (bits_tested s v).1;
        unused = is_same (c.byte s.off) 0 w;
      } in
      let (x, y, z) = written_ranges e t a o s writing in
      let scheme = ap (λ (r : ChainCert). r.alg) found ∙ alg in
      let tbs_off = ap (λ (r : ChainCert). r.tbs_off) (sym found) in
      let tbs_len = ap (λ (r : ChainCert). r.tbs_len) (sym found) in
      let sig_off = ap (λ (r : ChainCert). r.sig_off) (sym found) in
      let sig_len = ap (λ (r : ChainCert). r.sig_len) (sym found) in
      record {
        e = e;
        t = t;
        a = a;
        o = o;
        s = s;
        written = writing;
        scheme = (chain_alg_iff c o).0 scheme;
        from_tag = tbs_off;
        to_end = (λ k. tbs_off k + tbs_len k) ∙ x;
        behind_count = sig_off ∙ y;
        rest = ap (λ (n : ℕ). n + 1) sig_len ∙ z;
      }

  -- A certificate with such a signature is taken apart as it is written.
  pub IsSha256Rsa-chain_parts :
      (tbs_off tbs_len sig_off sig_len : ℕ)
      → IsSha256Rsa c tbs_off tbs_len sig_off sig_len
      → chain_parts c
        ≡ some (record {
          tbs_off = tbs_off;
          tbs_len = tbs_len;
          sig_off = sig_off;
          sig_len = sig_len;
          alg = rsa_sha256;
        })
  unfolding chain_parts der_tbs
  IsSha256Rsa-chain_parts to tl so sl i =
      let w = i.written in
      let (x, y, z) = written_ranges i.e i.t i.a i.o i.s w in
      let starts : i.e.off ≡ to = sym i.from_tag in
      let size : (der_after i.t + 2 ^ 16 - i.e.off) % 2 ^ 16 ≡ tl =
        omega (arith, i.from_tag, i.to_end) in
      let sig : (i.s.off + 1) % 2 ^ 16 ≡ so = y ∙ sym i.behind_count in
      let rest : (i.s.len - 1) % 2 ^ 16 ≡ sl = omega (arith, i.rest) in
      rw (w.whole) (
        rw (same_test i.e.tag 0x30 w.whole_tag) (
          rw (w.tbs) (
            rw (same_test i.t.tag 0x30 w.tbs_tag) (
              rw (w.algorithm) (
                rw (same_test i.a.tag 0x30 w.algorithm_tag) (
                  rw (w.oid) (
                    rw (same_test i.o.tag 0x06 i.scheme.tag) (
                      rw (w.bits) (
                        rw (bits_test i.s w.bits_tag w.bits_some) (
                          rw (same_test (c.byte i.s.off) 0 w.unused) (
                            rw ((chain_alg_iff c i.o).1 i.scheme) (λ k. some (record {
                              tbs_off = starts k;
                              tbs_len = size k;
                              sig_off = sig k;
                              sig_len = rest k;
                              alg = rsa_sha256;
                            })))))))))))))
