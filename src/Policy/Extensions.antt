-- ===== src/Policy/Extensions.antt =====
-- src/tls/policy.c: `chain_host_matches` finds a covering name exactly if the certificate holds one.
use mathlib.Core.Path.{subst₂}
use mega_irc.Common.{
  some_inj, same_some, ℕ, zero, suc, ◌-◌, ◌≤◌, ◌<◌, true, false, some, ◌≡◌, ◌⊎◌, inl, inr, refl,
  subst, arith, Str, ltb, ◌==◌, if◌then◌else◌, Bool-cases, Option-cases, ◌∙◌, ap, >>=-eq-some,
  require-eq-some,
}
use mega_irc.Der.{Cert, Elem, der_elem, der_after, der_tbs_field, der_oid_is}
use mega_irc.Der.Exact.{IsBytes, range_max}
use mega_irc.Der.Bounds.{der_after_bounds, der_tbs_field_bounds}
use mega_irc.Policy.{
  or_refuse, names_loop, san_names, ext_oid, ext_round, exts_loop, extensions, chain_host_matches,
  oid_san, tbs_exts,
}
use mega_irc.Policy.Walk.{Decides, Named, names_loop_decides}

-- A SAN extension stands among the extensions from an offset on, the first of its kind, and holds a
-- hit.
pub data ExtFound (c : Cert) (host : Str) (pend : ℕ) : ℕ → Type 0 where
  san :
      {p : ℕ} (x o s : Elem)
      → p < pend
      → ext_oid c p pend ≡ some (x, o)
      → der_oid_is c o oid_san 3 ≡ true
      → san_names c (der_after x) o ≡ some s
      → Named c host (der_after s) s.off
      → ExtFound c host pend p
  other :
      {p : ℕ} (x o : Elem)
      → p < pend
      → ext_oid c p pend ≡ some (x, o)
      → der_oid_is c o oid_san 3 ≡ false
      → ExtFound c host pend (der_after x)
      → ExtFound c host pend p

-- What an extension that is SAN must hold, and where the others lead.
abbrev SanNamed : Cert → Str → Elem → Elem → Type 0
SanNamed c host x o =
    (s : Elem) × (san_names c (der_after x) o ≡ some s) × Named c host (der_after s) s.off

ExtFound-inv :
    {c : Cert} {host : Str} {pend p : ℕ}
    → ExtFound c host pend p
    → (p < pend)
      × ((x : Elem) × (o : Elem) × (ext_oid c p pend ≡ some (x, o))
          × (((der_oid_is c o oid_san 3 ≡ true) × SanNamed c host x o)
              ⊎ ((der_oid_is c o oid_san 3 ≡ false) × ExtFound c host pend (der_after x))))
ExtFound-inv (san x o s l q k r n) = (l, (x, o, q, inl (k, (s, r, n))))
ExtFound-inv (other x o l q k n) = (l, (x, o, q, inr (k, n)))

-- With the extension known there is one way on.
at_san :
    {c : Cert} {host : Str} {pend p : ℕ} {x o : Elem}
    → ext_oid c p pend ≡ some (x, o)
    → der_oid_is c o oid_san 3 ≡ true
    → ExtFound c host pend p
    → SanNamed c host x o
at_san {c} {host} {x = x} {o = o} q k m =
    let (_, (x', o', q', alt)) = ExtFound-inv m in
    let sx : x' ≡ x = cc in
    let so : o' ≡ o = cc in
    elim alt [
      | inl (_, n) ↦ subst₂ (SanNamed c host) sx so n
      | inr (k', _) ↦ cc (k, subst (λ y. der_oid_is c y oid_san 3 ≡ false) so k')
    ]

at_other :
    {c : Cert} {host : Str} {pend p : ℕ} {x o : Elem}
    → ext_oid c p pend ≡ some (x, o)
    → der_oid_is c o oid_san 3 ≡ false
    → ExtFound c host pend p
    → ExtFound c host pend (der_after x)
at_other {c} {host} {pend} {x = x} {o = o} q k m =
    let (_, (x', o', q', alt)) = ExtFound-inv m in
    let sx : x' ≡ x = cc in
    let so : o' ≡ o = cc in
    elim alt [
      | inl (k', _) ↦ cc (k, subst (λ y. der_oid_is c y oid_san 3 ≡ true) so k')
      | inr (_, n) ↦ subst (λ y. ExtFound c host pend (der_after y)) sx n
    ]

module _ (c : Cert) (bytes : IsBytes c) where
  -- The names of a SAN extension lie inside it.
  san_names_bounds :
      (xend : ℕ) (o : Elem) {s : Elem}
      → xend ≤ range_max
      → san_names c xend o ≡ some s
      → der_after s ≤ xend
  unfolding san_names
  san_names_bounds xend o h q =
      let (v, p, q1) = >>=-eq-some (der_elem c (der_after o) xend) _ q in
      let (w, r, q2) =
        >>=-eq-some (if v.tag == 0x01 then der_elem c (der_after v) xend else some v) _ q1 in
      let (_, q3) = require-eq-some (w.tag == 0x04) _ q2 in
      let (x, t, q4) = >>=-eq-some (der_elem c w.off (der_after w)) _ q3 in
      let (_, q5) = require-eq-some (x.tag == 0x30) _ q4 in
      let bw : der_after w ≤ xend = value v w p r in
      let bx = der_after_bounds c bytes w.off (der_after w) (omega arith) t in
      ground (arith, bx, bw, q5)
    where
      value :
          (v w : Elem)
          → der_elem c (der_after o) xend ≡ some v
          → (if v.tag == 0x01 then der_elem c (der_after v) xend else some v) ≡ some w
          → der_after w ≤ xend
      value v w p r = elim (Bool-cases (v.tag == 0x01)) [
        | inl e ↦ (der_after_bounds c bytes (der_after v) xend h (rw e at r)).2
        | inr e ↦
            let same : v ≡ w = some_inj (rw e at r) in
            subst (λ y. der_after y ≤ xend) same (der_after_bounds c bytes (der_after o) xend h p).2
      ]

  ext_oid_elem :
      (p pend : ℕ) {x o : Elem} → ext_oid c p pend ≡ some (x, o) → der_elem c p pend ≡ some x
  unfolding ext_oid
  ext_oid_elem p pend {x} {o} q =
      let (x', r, q1) = >>=-eq-some (der_elem c p pend) _ q in
      let (_, q2) = require-eq-some (x'.tag == 0x30) _ q1 in
      let (o', _, q3) = >>=-eq-some (der_elem c x'.off (der_after x')) _ q2 in
      let same : x' ≡ x = cc in r ∙ ap some same

  module _ (host : Str) where
    san_decides :
        (x o : Elem)
        → der_after x ≤ range_max
        → Decides
            (or_refuse
              (λ s. names_loop c host (der_after s) (suc (der_after s)) s.off)
              (san_names c (der_after x) o))
            (SanNamed c host x o)
    unfolding or_refuse
    san_decides x o h = elim (Option-cases (san_names c (der_after x) o)) [
      | inl q ↦ inr (rw q refl, λ n. cc (q, n.1))
      | inr (s, q) ↦
          let b = san_names_bounds (der_after x) o h q in
          elim (names_loop_decides c bytes host (der_after s) (omega arith) (suc (der_after s))
            s.off (omega arith)) [
              | inl (r, n) ↦ inl (rw q r, (s, q, n))
              | inr (r, n) ↦ inr (
                rw q r,
                λ (s', q', n').
                    n (subst (λ y. Named c host (der_after y) y.off) (same_some q' q) n'),
              )
            ]
    ]

    module _ (pend : ℕ) (small : pend ≤ range_max) where
      exts_loop_decides :
          (f p : ℕ) → pend - p < f → Decides (exts_loop c host pend f p) (ExtFound c host pend p)
      unfolding exts_loop ext_round
      exts_loop_decides zero p h = absurd (omega arith)
      exts_loop_decides (suc f) p h = elim (Bool-cases (ltb p pend)) [
        | inr e ↦ inr (rw e refl, λ n. let i = ExtFound-inv n in absurd (ground arith))
        | inl e ↦ elim (Option-cases (ext_oid c p pend)) [
          | inl q ↦ inr (rw e (rw q refl), λ n. let i = ExtFound-inv n in cc (q, i.1.2))
          | inr ((x, o), q) ↦
              let b = der_after_bounds c bytes p pend small (ext_oid_elem p pend q) in
              let lt : p < pend = ground arith in
              elim (Bool-cases (der_oid_is c o oid_san 3)) [
                | inl k ↦ elim (san_decides x o (omega arith)) [
                  | inl (r, (s, t, n)) ↦
                      inl (rw e (rw q (rw (k, ext_round) r)), san x o s lt q k t n)
                  | inr (r, n) ↦ inr (rw e (rw q (rw (k, ext_round) r)), λ m. n (at_san q k m))
                ]
                | inr k ↦ elim (exts_loop_decides f (der_after x) (omega arith)) [
                  | inl (r, n) ↦ inl (rw e (rw q (rw (k, ext_round) r)), other x o lt q k n)
                  | inr (r, n) ↦ inr (rw e (rw q (rw (k, ext_round) r)), λ m. n (at_other q k m))
                ]
              ]
        ]
      ]

-- The certificate's extensions hold a SAN extension, and the first of them a name that covers the
-- host.
abbrev pub HostFound : Cert → Str → Type 0
HostFound c host = (x : Elem) × (extensions c ≡ some x) × ExtFound c host (der_after x) x.off

extensions_bounds :
    (c : Cert) {x : Elem}
    → IsBytes c
    → c.len ≤ range_max
    → extensions c ≡ some x
    → der_after x ≤ range_max
unfolding extensions
extensions_bounds c b h q =
    let (e, p, q1) = >>=-eq-some (der_tbs_field c tbs_exts) _ q in
    let (_, q2) = require-eq-some (e.tag == 0xa3) _ q1 in
    let (x, r, q3) = >>=-eq-some (der_elem c e.off (der_after e)) _ q2 in
    let (_, q4) = require-eq-some (x.tag == 0x30) _ q3 in
    let be = der_tbs_field_bounds c b tbs_exts h p in
    let bx = der_after_bounds c b e.off (der_after e) (omega arith) r in ground (arith, be, bx, q4)

pub HostFound-decides :
    (c : Cert) (host : Str)
    → IsBytes c
    → c.len ≤ range_max
    → Decides (chain_host_matches c host) (HostFound c host)
unfolding chain_host_matches
HostFound-decides c host b h = elim (Option-cases (extensions c)) [
  | inl q ↦ inr (rw q refl, λ n. cc (q, n.1))
  | inr (x, q) ↦
      let small = extensions_bounds c b h q in
      elim (exts_loop_decides c b host (der_after x) small (suc (der_after x)) x.off
        (omega arith)) [
          | inl (r, n) ↦ inl (rw q r, (x, q, n))
          | inr (r, n) ↦ inr (
            rw q r,
            λ (x', q', n').
                n (subst (λ y. ExtFound c host (der_after y) y.off) (same_some q' q) n'),
          )
        ]
]
