-- ===== src/Policy/Hosts.antt =====
-- src/tls/policy.c: the certificates that name a host, by their elements.
use mega_irc.Common.{
  ℕ, ◌≤◌, ◌<◌, true, false, some, [], ◌∷◌, ◌≡◌, ◌↔◌, inl, inr, refl, ap, sym, ◌∙◌, arith, Str, ◌==◌,
  if◌then◌else◌, Bool-cases, some_inj, >>=-eq-some, require-eq-some,
}
use mega_irc.Der.{Cert, Elem, der_elem, der_after, der_tbs_field, der_oid_is}
use mega_irc.Der.Exact.{IsBytes, range_max}
use mega_irc.Der.Oid.{IsOid, der_oid_is_iff}
use mega_irc.Policy.{tbs_exts, oid_san, san_names, ext_oid, extensions, chain_host_matches}
use mega_irc.Policy.Walk.{Decides, Named}
use mega_irc.Policy.Extensions.{ExtFound, san, other, HostFound, HostFound-decides}

-- id-ce-subjectAltName, 2.5.29.17.
abbrev pub san_oid : Str
san_oid = 0x55 ∷ 0x1d ∷ 0x11 ∷ []

-- An element of a tag, in a range.
pub record IsElem (c : Cert) (at end tag : ℕ) (e : Elem) : Type 0 where
  pub elem : der_elem c at end ≡ some e
  pub tagged : e.tag ≡ tag

-- Behind the OID comes the OCTET STRING, or a BOOLEAN and the OCTET STRING.
pub data Value (c : Cert) (xend : ℕ) (o : Elem) : Elem → Type 0 where
  plain : {w : Elem} → IsElem c (der_after o) xend 0x04 w → Value c xend o w
  critical :
      {w : Elem} (v : Elem)
      → IsElem c (der_after o) xend 0x01 v
      → IsElem c (der_after v) xend 0x04 w
      → Value c xend o w

-- Its content is the SEQUENCE OF GeneralName.
pub record IsNames (c : Cert) (xend : ℕ) (o s : Elem) : Type 0 where
  pub octets : Elem
  pub value : Value c xend o octets
  pub names : IsElem c octets.off (der_after octets) 0x30 s

-- An extension, and the first element inside it.
pub record IsExt (c : Cert) (p pend : ℕ) (x o : Elem) : Type 0 where
  pub ext : IsElem c p pend 0x30 x
  pub first : der_elem c x.off (der_after x) ≡ some o

-- Among the extensions from an offset on the first with the OID of SAN holds a name of the host.
pub data ExtNamed (c : Cert) (host : Str) (pend : ℕ) : ℕ → Type 0 where
  at_san :
      {p : ℕ} (x o s : Elem)
      → p < pend
      → IsExt c p pend x o
      → IsOid c o san_oid
      → IsNames c (der_after x) o s
      → Named c host (der_after s) s.off
      → ExtNamed c host pend p
  behind :
      {p : ℕ} (x o : Elem)
      → p < pend
      → IsExt c p pend x o
      → ¬ IsOid c o san_oid
      → ExtNamed c host pend (der_after x)
      → ExtNamed c host pend p

-- The field of the extensions with its sequence, which names the host.
pub record HostNamed (c : Cert) (host : Str) : Type 0 where
  pub field : Elem
  pub exts : Elem
  pub third : der_tbs_field c tbs_exts ≡ some field
  pub tagged : field.tag ≡ 0xa3
  pub sequence : IsElem c field.off (der_after field) 0x30 exts
  pub named : ExtNamed c host (der_after exts) exts.off

tag_test : (t n : ℕ) → t ≡ n → (t == n) ≡ true
tag_test t n h = ground arith

tag_is : (t n : ℕ) → (t == n) ≡ true → t ≡ n
tag_is t n h = ground arith

ext_oid_iff :
    (c : Cert) (p pend : ℕ) (x o : Elem) → (ext_oid c p pend ≡ some (x, o)) ↔ IsExt c p pend x o
unfolding ext_oid
ext_oid_iff c p pend x o = (
  λ q.
      let (x', r, q1) = >>=-eq-some (der_elem c p pend) _ q in
      let (t, q2) = require-eq-some (x'.tag == 0x30) _ q1 in
      let (o', f, q3) = >>=-eq-some (der_elem c x'.off (der_after x')) _ q2 in
      let pair = some_inj q3 in
      let same : x' ≡ x = ap (λ (y : Elem × Elem). y.0) pair in
      let same_o : o' ≡ o = ap (λ (y : Elem × Elem). y.1) pair in
      record {
        ext = record {
          elem = r ∙ ap some same;
          tagged = ap (λ (y : Elem). y.tag) (sym same) ∙ tag_is x'.tag 0x30 t;
        };
        first = ap (λ (y : Elem). der_elem c y.off (der_after y)) (sym same) ∙ f ∙ ap some same_o;
      },
  λ i. rw (i.ext.elem) (rw (tag_test x.tag 0x30 i.ext.tagged) (rw (i.first) refl)),
)

elem_of :
    (c : Cert) (at end tag : ℕ) (e : Elem)
    → der_elem c at end ≡ some e
    → (e.tag == tag) ≡ true
    → IsElem c at end tag e
elem_of c at end tag e q t = record { elem = q; tagged = tag_is e.tag tag t }

Value-intro :
    (c : Cert) (xend : ℕ) (o v w : Elem)
    → der_elem c (der_after o) xend ≡ some v
    → (if v.tag == 0x01 then der_elem c (der_after v) xend else some v) ≡ some w
    → (w.tag == 0x04) ≡ true
    → Value c xend o w
Value-intro c xend o v w q r t = elim (Bool-cases (v.tag == 0x01)) [
  | inl e ↦
      critical v (elem_of c (der_after o) xend 0x01 v q e)
        (elem_of c (der_after v) xend 0x04 w (rw e at r) t)
  | inr e ↦
      let same : v ≡ w = some_inj (rw e at r) in
      plain (elem_of c (der_after o) xend 0x04 w (q ∙ ap some same) t)
]

san_names_iff :
    (c : Cert) (xend : ℕ) (o s : Elem) → (san_names c xend o ≡ some s) ↔ IsNames c xend o s
unfolding san_names
san_names_iff c xend o s = (
  λ q.
      let (v, p, q1) = >>=-eq-some (der_elem c (der_after o) xend) _ q in
      let (w, r, q2) =
        >>=-eq-some (if v.tag == 0x01 then der_elem c (der_after v) xend else some v) _ q1 in
      let (t, q3) = require-eq-some (w.tag == 0x04) _ q2 in
      let (x, f, q4) = >>=-eq-some (der_elem c w.off (der_after w)) _ q3 in
      let (u, q5) = require-eq-some (x.tag == 0x30) _ q4 in
      let same : x ≡ s = some_inj q5 in
      record {
        octets = w;
        value = Value-intro c xend o v w p r t;
        names = record {
          elem = f ∙ ap some same;
          tagged = ap (λ (y : Elem). y.tag) (sym same) ∙ tag_is x.tag 0x30 u;
        };
      },
  λ i. back i.octets i.value i.names,
)
  where
    back :
        (w : Elem)
        → Value c xend o w
        → IsElem c w.off (der_after w) 0x30 s
        → san_names c xend o ≡ some s
    back w (plain i) n =
        let not_bool : (w.tag == 0x01) ≡ false = rw (i.tagged) refl in
        rw (i.elem) (
          rw not_bool (
            rw (tag_test w.tag 0x04 i.tagged)
              (rw (n.elem) (rw (tag_test s.tag 0x30 n.tagged) refl))))
    back w (critical v i j) n = rw (i.elem) (
        rw (tag_test v.tag 0x01 i.tagged) (
          rw (j.elem) (
            rw (tag_test w.tag 0x04 j.tagged)
              (rw (n.elem) (rw (tag_test s.tag 0x30 n.tagged) refl)))))

not_oid : (c : Cert) (o : Elem) → ¬ IsOid c o san_oid → der_oid_is c o oid_san 3 ≡ false
not_oid c o n = elim (Bool-cases (der_oid_is c o oid_san 3)) [
  | inl e ↦ absurd (n ((der_oid_is_iff c o san_oid).0 e))
  | inr e ↦ e
]

found_named : {c : Cert} {host : Str} {pend p : ℕ} → ExtFound c host pend p → ExtNamed c host pend p
found_named {c} {pend = pend} {p = p} (san x o s l q k r n) =
    at_san x o s l ((ext_oid_iff c p pend x o).0 q) ((der_oid_is_iff c o san_oid).0 k)
      ((san_names_iff c (der_after x) o s).0 r) n
found_named {c} {pend = pend} {p = p} (other x o l q k n) =
    behind x o l ((ext_oid_iff c p pend x o).0 q) (λ i. cc (k, (der_oid_is_iff c o san_oid).1 i))
      (found_named n)

named_found : {c : Cert} {host : Str} {pend p : ℕ} → ExtNamed c host pend p → ExtFound c host pend p
named_found {c} {pend = pend} {p = p} (at_san x o s l i k r n) =
    san x o s l ((ext_oid_iff c p pend x o).1 i) ((der_oid_is_iff c o san_oid).1 k)
      ((san_names_iff c (der_after x) o s).1 r) n
named_found {c} {pend = pend} {p = p} (behind x o l i k n) =
    other x o l ((ext_oid_iff c p pend x o).1 i) (not_oid c o k) (named_found n)

host_named : (c : Cert) (host : Str) → HostFound c host ↔ HostNamed c host
unfolding extensions
host_named c host = (
  λ (x, q, n).
      let (e, r, q1) = >>=-eq-some (der_tbs_field c tbs_exts) _ q in
      let (t, q2) = require-eq-some (e.tag == 0xa3) _ q1 in
      let (x', f, q3) = >>=-eq-some (der_elem c e.off (der_after e)) _ q2 in
      let (u, q4) = require-eq-some (x'.tag == 0x30) _ q3 in
      let same : x' ≡ x = some_inj q4 in
      record {
        field = e;
        exts = x;
        third = r;
        tagged = tag_is e.tag 0xa3 t;
        sequence = record {
          elem = f ∙ ap some same;
          tagged = ap (λ (y : Elem). y.tag) (sym same) ∙ tag_is x'.tag 0x30 u;
        };
        named = found_named n;
      },
  λ h. (
    h.exts,
    rw (h.third) (
        rw (tag_test h.field.tag 0xa3 h.tagged)
          (rw (h.sequence.elem) (rw (tag_test h.exts.tag 0x30 h.sequence.tagged) refl))),
    named_found h.named,
  ),
)

-- On every certificate below 65532 bytes the walk ends, and `chain_host_matches` returns 1 if the
-- first of its extensions with the OID 2.5.29.17 holds a dNSName of at most 128 bytes that covers the
-- host, behind well-formed elements only, and 0 if not: a certificate without that extension covers
-- no host.
pub chain_host_matches_decides :
    (c : Cert) (host : Str)
    → IsBytes c
    → c.len ≤ range_max
    → Decides (chain_host_matches c host) (HostNamed c host)
chain_host_matches_decides c host b l = elim (HostFound-decides c host b l) [
  | inl (r, n) ↦ inl (r, (host_named c host).0 n)
  | inr (r, n) ↦ inr (r, λ h. n ((host_named c host).1 h))
]
