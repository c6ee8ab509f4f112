-- ===== src/Policy/Walk.antt =====
-- src/tls/policy.c: the walk over a SAN's names finds a covering name exactly if one is there.
use mega_irc.Common.{
  same_some, ℕ, zero, suc, ◌-◌, ◌≤◌, ◌<◌, Bool, true, false, Option, some, ◌≡◌, ◌⊎◌, inl, inr, refl,
  ◌↔◌, subst, arith, Str, ltb, Bool-cases, Option-cases,
}
use mega_irc.Der.{Cert, Elem, der_elem, der_after, der_read}
use mega_irc.Der.Exact.{IsBytes, range_max}
use mega_irc.Der.Bounds.{der_after_bounds}
use mega_irc.Policy.Names.{Covers, dns_matches_iff}
use mega_irc.Policy.{is_hit, or_refuse, name_round, names_loop}

-- A loop that ended decides a statement.
abbrev pub Decides : Option Bool → Type 0 → Type 0
Decides r P = ((r ≡ some true) × P) ⊎ ((r ≡ some false) × ¬ P)

-- A dNSName of at most 128 bytes that covers the host.
pub record IsNameOf (c : Cert) (host : Str) (o : Elem) : Type 0 where
  pub tag : o.tag ≡ 0x82
  pub some_bytes : 0 < o.len
  pub fits : o.len ≤ 128
  pub covers : Covers (der_read c o.off o.len) host

is_hit_iff : (c : Cert) (host : Str) (o : Elem) → (is_hit c host o ≡ true) ↔ IsNameOf c host o
unfolding is_hit
is_hit_iff c host o =
    let m = dns_matches_iff (der_read c o.off o.len) host in
    (
      λ q. record {
        tag = ground arith;
        some_bytes = ground arith;
        fits = ground arith;
        covers = m.0 (ground arith);
      },
      λ i.
          let t = i.tag in
          let l = i.some_bytes in let f = i.fits in let d = m.1 i.covers in ground arith,
    )

-- Among the names from an offset on stands a hit, with well-formed elements before it.
pub data Named (c : Cert) (host : Str) (pend : ℕ) : ℕ → Type 0 where
  here :
      {p : ℕ} (o : Elem)
      → p < pend
      → der_elem c p pend ≡ some o
      → IsNameOf c host o
      → Named c host pend p
  later :
      {p : ℕ} (o : Elem)
      → p < pend
      → der_elem c p pend ≡ some o
      → Named c host pend (der_after o)
      → Named c host pend p

Named-inv :
    {c : Cert} {host : Str} {pend p : ℕ}
    → Named c host pend p
    → (p < pend)
      × ((o : Elem) × (der_elem c p pend ≡ some o)
          × (IsNameOf c host o ⊎ Named c host pend (der_after o)))
Named-inv (here o l q h) = (l, (o, q, inl h))
Named-inv (later o l q n) = (l, (o, q, inr n))

module _ (c : Cert) (bytes : IsBytes c) (host : Str) (pend : ℕ) (small : pend ≤ range_max) where
  pub names_loop_decides :
      (f p : ℕ) → pend - p < f → Decides (names_loop c host pend f p) (Named c host pend p)
  unfolding names_loop name_round or_refuse
  names_loop_decides zero p h = absurd (omega arith)
  names_loop_decides (suc f) p h = elim (Bool-cases (ltb p pend)) [
    | inr e ↦ inr (rw e refl, λ n. let i = Named-inv n in absurd (ground arith))
    | inl e ↦ elim (Option-cases (der_elem c p pend)) [
      | inl q ↦ inr (rw e (rw q refl), λ n. let i = Named-inv n in cc (q, i.1.1))
      | inr (o, q) ↦
          let b = der_after_bounds c bytes p pend small q in
          let lt : p < pend = ground arith in
          elim (Bool-cases (is_hit c host o)) [
            | inl k ↦
                inl (rw e (rw q (rw (k, name_round) refl)), here o lt q ((is_hit_iff c host o).0 k))
            | inr k ↦ elim (names_loop_decides f (der_after o) (omega arith)) [
              | inl (r, n) ↦ inl (rw e (rw q (rw (k, name_round) r)), later o lt q n)
              | inr (r, n) ↦ inr (
                rw e (rw q (rw (k, name_round) r)),
                λ m.
                    let (_, (o', q', alt)) = Named-inv m in
                    let s : o' ≡ o = same_some q' q in
                    elim alt [
                      | inl k' ↦
                          cc (k, (is_hit_iff c host o).1 (subst (λ x. IsNameOf c host x) s k'))
                      | inr n' ↦ n (subst (λ x. Named c host pend (der_after x)) s n')
                    ],
              )
            ]
          ]
    ]
  ]
