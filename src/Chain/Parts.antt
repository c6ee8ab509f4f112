-- ===== src/Chain/Parts.antt =====
-- src/tls/chain.c: where what is signed and its signature lie.
use mega_irc.Common.{
  ℕ, ◌+◌, ◌-◌, ◌%◌, ◌^◌, ◌≤◌, ◌&&◌, ◌>>◌, require, some, ◌≡◌, arith, leb, ◌==◌, >>=-eq-some,
  require-eq-some,
}
use native.Mathlib.Nat.{le_trans}
use mega_irc.Der.{Cert, Elem, der_elem, der_after, der_tbs}
use mega_irc.Der.Exact.{IsBytes, range_max, der_elem_bounds}
use mega_irc.Der.Bounds.{der_after_bounds}
use mega_irc.Chain.{ChainAlg, ChainCert, chain_parts, chain_alg}

-- Both ranges lie in the certificate, the signature behind what is signed, and neither is empty.
pub record IsLaidOut (c : Cert) (p : ChainCert) : Type 0 where
  pub tagged : 2 ≤ p.tbs_off
  pub signed : 2 ≤ p.tbs_len
  pub behind : p.tbs_off + p.tbs_len + 5 ≤ p.sig_off
  pub some_signature : 1 ≤ p.sig_len
  pub inside : p.sig_off + p.sig_len ≤ c.len

der_tbs_parts :
    (c : Cert) {e t : Elem}
    → der_tbs c ≡ some (e, t)
    → (der_elem c 0 c.len ≡ some e) × (der_elem c e.off (der_after e) ≡ some t)
unfolding der_tbs
der_tbs_parts c {e} {t} q =
    let (e', p, q1) = >>=-eq-some (der_elem c 0 c.len) _ q in
    let (_, q2) = require-eq-some (e'.tag == 0x30) _ q1 in
    let (t', r, q3) = >>=-eq-some (der_elem c e'.off (der_after e')) _ q2 in
    let (_, q4) = require-eq-some (t'.tag == 0x30) _ q3 in (cc (p, q4), cc (r, q4))

-- What the elements on the way say of the offsets.
laid_out :
    (c : Cert) (e t a s : Elem) (p : ChainCert)
    → c.len ≤ range_max
    → (2 ≤ e.off) × (e.off ≤ der_after e) × (der_after e ≤ c.len)
    → (e.off + 2 ≤ t.off) × (t.off ≤ der_after t) × (der_after t ≤ der_after e)
    → (der_after t + 2 ≤ a.off) × (a.off ≤ der_after a) × (der_after a ≤ der_after e)
    → (der_after a + 2 ≤ s.off) × (s.off + s.len ≤ der_after e)
    → 2 ≤ s.len
    → p.tbs_off ≡ e.off
    → p.tbs_len ≡ (der_after t + 2 ^ 16 - e.off) % 2 ^ 16
    → p.sig_off ≡ (s.off + 1) % 2 ^ 16
    → p.sig_len ≡ (s.len - 1) % 2 ^ 16
    → IsLaidOut c p
laid_out c e t a s p h be bt ba bs l q0 q1 q2 q3 = record {
  tagged = omega arith;
  signed = omega arith;
  behind = omega arith;
  some_signature = omega arith;
  inside = omega arith;
}

-- The end of the walk, behind the algorithm.
sig_part :
    (c : Cert) (e t a s : Elem) (alg : ChainAlg) (p : ChainCert)
    → (do
      require (s.tag == 0x03 && leb 2 s.len)
      require (c.byte s.off == 0)
      some (record {
        tbs_off = e.off;
        tbs_len = (der_after t + 2 ^ 16 - e.off) % 2 ^ 16;
        sig_off = (s.off + 1) % 2 ^ 16;
        sig_len = (s.len - 1) % 2 ^ 16;
        alg = alg;
      }))
      ≡ some p
    → (2 ≤ s.len)
      × (p.tbs_off ≡ e.off)
      × (p.tbs_len ≡ (der_after t + 2 ^ 16 - e.off) % 2 ^ 16)
      × (p.sig_off ≡ (s.off + 1) % 2 ^ 16)
      × (p.sig_len ≡ (s.len - 1) % 2 ^ 16)
sig_part c e t a s alg p q = ground arith

der_top :
    (e : Elem) (n : ℕ)
    → (0 + 2 ≤ e.off) × (e.off ≤ der_after e) × (der_after e ≤ n)
    → (2 ≤ e.off) × (e.off ≤ der_after e) × (der_after e ≤ n)
der_top e n b = omega arith

-- For a certificate below 65532 bytes, the walk leaves ranges that lie in it: what is signed, and
-- behind it the signature, with neither of them empty.
pub chain_parts-IsLaidOut :
    (c : Cert) {p : ChainCert}
    → IsBytes c
    → c.len ≤ range_max
    → chain_parts c ≡ some p
    → IsLaidOut c p
unfolding chain_parts
chain_parts-IsLaidOut c {p} bytes h q =
    let ((e, t), q0, q1) = >>=-eq-some (der_tbs c) _ q in
    let (a, q2, q3) = >>=-eq-some (der_elem c (der_after t) (der_after e)) _ q1 in
    let (_, q4) = require-eq-some (a.tag == 0x30) _ q3 in
    let (o, q5, q6) = >>=-eq-some (der_elem c a.off (der_after e)) _ q4 in
    let (_, q7) = require-eq-some (o.tag == 0x06) _ q6 in
    let (s, q8, q9) = >>=-eq-some (der_elem c (der_after a) (der_after e)) _ q7 in
    let (l, f0, f1, f2, f3) = sig_part c e t a s (chain_alg c o) p q9 in
    let (qe, qt) = der_tbs_parts c q0 in
    let be = der_after_bounds c bytes 0 c.len h qe in
    let end = le_trans be.2 h in
    laid_out c e t a s p h (der_top e c.len be)
      (der_after_bounds c bytes e.off (der_after e) end qt)
      (der_after_bounds c bytes (der_after t) (der_after e) end q2)
      (der_elem_bounds c (der_after a) (der_after e) bytes end q8) l f0 f1 f2 f3
