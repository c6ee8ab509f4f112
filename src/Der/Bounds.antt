-- ===== src/Der/Bounds.antt =====
-- src/tls/der.c: the walks of a certificate stay inside it.
use mega_irc.Common.{
  ℕ, zero, suc, ◌+◌, ◌≤◌, some, ◌≡◌, arith, ltb, ◌==◌, >>=-eq-some, require-eq-some,
}
use mega_irc.Der.{Cert, Elem, der_elem, der_after, der_tbs, tbs_walk, der_tbs_field}
use mega_irc.Der.Exact.{IsBytes, range_max, der_elem_bounds}

module _ (c : Cert) (bytes : IsBytes c) where
  -- Behind an element the walk has moved on, and has not left the range.
  pub der_after_bounds :
      (at end : ℕ) {e : Elem}
      → end ≤ range_max
      → der_elem c at end ≡ some e
      → (at + 2 ≤ e.off) × (e.off ≤ der_after e) × (der_after e ≤ end)
  unfolding der_after
  der_after_bounds at end h q = let b = der_elem_bounds c at end bytes h q in omega arith

  pub tbs_walk_bounds :
      (end k off : ℕ) {e : Elem}
      → end ≤ range_max
      → tbs_walk c end k off ≡ some e
      → der_after e ≤ end
  unfolding tbs_walk
  tbs_walk_bounds end zero off h q =
      let (t, r) = require-eq-some (ltb off end) (der_elem c off end) q in
      (der_after_bounds off end h r).2
  tbs_walk_bounds end (suc k) off h q =
      let (t, r) = require-eq-some (ltb off end) _ q in
      let (f, s, u) = >>=-eq-some (der_elem c off end) _ r in
      tbs_walk_bounds end k (der_after f) h u

  pub der_tbs_bounds :
      {e t : Elem}
      → c.len ≤ range_max
      → der_tbs c ≡ some (e, t)
      → (der_after e ≤ c.len) × (der_after t ≤ der_after e)
  unfolding der_tbs
  der_tbs_bounds {e} {t} h q =
      let (e', p, q1) = >>=-eq-some (der_elem c 0 c.len) _ q in
      let (_, q2) = require-eq-some (e'.tag == 0x30) _ q1 in
      let (t', r, q3) = >>=-eq-some (der_elem c e'.off (der_after e')) _ q2 in
      let (_, q4) = require-eq-some (t'.tag == 0x30) _ q3 in
      let b = der_after_bounds 0 c.len h p in
      let d = der_after_bounds e'.off (der_after e') (omega arith) r in ground (arith, b, d, q4)

  -- A field of the TBSCertificate ends inside the certificate.
  pub der_tbs_field_bounds :
      (want : ℕ) {f : Elem}
      → c.len ≤ range_max
      → der_tbs_field c want ≡ some f
      → der_after f ≤ c.len
  unfolding der_tbs_field
  der_tbs_field_bounds want {f} h q =
      let ((e, t), p, q1) = >>=-eq-some (der_tbs c) _ q in
      let (g, _, q2) = >>=-eq-some (der_elem c t.off (der_after t)) _ q1 in
      let b = der_tbs_bounds h p in
      let w = tbs_walk_bounds (der_after t) want _ (omega arith) q2 in omega arith
