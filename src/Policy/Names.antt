-- ===== src/Policy/Names.antt =====
-- src/tls/policy.c: which host a certificate's name covers, and what the walk over its names finds.
use mega_irc.Common.{
  ℕ, true, ◌&&◌, [], ◌∷◌, ◌++◌, map, ◌≡◌, ◌≢◌, ◌↔◌, ◌⊎◌, inl, inr, refl, sym, subst, arith, Str,
  ◌==◌, lower, Bool-cases,
}
use mega_irc.Irc.{take_until, drop_until}
use mega_irc.Irc.Words.{
  Avoids, AtBreak, take_until-Avoids, take_until-append-drop_until, drop_until-append,
}
use mega_irc.Policy.{match_bytes, match_dot, dns_matches}

match_bytes_iff :
    (dns host : Str) → (match_bytes dns host ≡ true) ↔ (map lower dns ≡ map lower host)
unfolding match_bytes
match_bytes_iff [] [] = ground arith
match_bytes_iff [] (h ∷ host) = ground arith
match_bytes_iff (a ∷ dns) [] = ground arith
match_bytes_iff (a ∷ dns) (b ∷ host) = ground (arith, match_bytes_iff dns host)

-- The host is one label, with no dot in it, and then the name from its dot on, case aside.
abbrev pub WildCovers : Str → Str → Type 0
WildCovers dns host =
    (label : Str) × (rest : Str) × (host ≡ label ++ rest)
    × Avoids b'.' label
    × (map lower (b'.' ∷ dns) ≡ map lower rest)

lower_dot : (c : ℕ) → lower b'.' ≡ lower c → c ≡ b'.'
unfolding lower
lower_dot c h = ground arith

dot_first :
    (dns rest : Str) → map lower (b'.' ∷ dns) ≡ map lower rest → AtBreak b'.' rest × (rest ≢ [])
dot_first dns [] h = ground arith
dot_first dns (c ∷ rest) h = (lower_dot c (ground arith), ground arith)

match_dot_iff :
    (dns h : Str) → h ≢ [] → (match_dot dns h ≡ true) ↔ (map lower (b'.' ∷ dns) ≡ map lower h)
unfolding match_dot
match_dot_iff dns [] n = absurd (n refl)
match_dot_iff dns (c ∷ h) n = match_bytes_iff (b'.' ∷ dns) (c ∷ h)

match_dot_some : (dns h : Str) → match_dot dns h ≡ true → h ≢ []
unfolding match_dot
match_dot_some dns [] e = cc
match_dot_some dns (c ∷ h) e = ground arith

wild_iff : (dns host : Str) → (match_dot dns (drop_until b'.' host) ≡ true) ↔ WildCovers dns host
wild_iff dns host = (
  λ e.
      let n = match_dot_some dns (drop_until b'.' host) e in
      (
        take_until b'.' host,
        drop_until b'.' host,
        sym (take_until-append-drop_until b'.' host),
        take_until-Avoids b'.' host,
        (match_dot_iff dns (drop_until b'.' host) n).0 e,
      ),
  λ (label, rest, split, a, same).
      let (at, n) = dot_first dns rest same in
      rw split (rw (drop_until-append b'.' label rest a at) ((match_dot_iff dns rest n).1 same)),
)

-- What a name covers: with "*." in front, the hosts of one more label; else the host that it spells.
abbrev pub Covers : Str → Str → Type 0
Covers dns host =
    ((d : Str) × (dns ≡ b'*' ∷ b'.' ∷ d) × WildCovers d host)
    ⊎ (((d : Str) → dns ≢ b'*' ∷ b'.' ∷ d) × (map lower dns ≡ map lower host))

abbrev NotWild : Str → Type 0
NotWild dns = (d : Str) → dns ≢ b'*' ∷ b'.' ∷ d

plain_iff : (dns host : Str) → NotWild dns → (match_bytes dns host ≡ true) ↔ Covers dns host
plain_iff dns host n = (
  λ e. inr (n, (match_bytes_iff dns host).0 e),
  λ c. elim c [ inl (d, q, w) ↦ absurd (n d q) | inr (m, e) ↦ (match_bytes_iff dns host).1 e ],
)

star_iff :
    (d host : Str) → (match_dot d (drop_until b'.' host) ≡ true) ↔ Covers (b'*' ∷ b'.' ∷ d) host
star_iff d host = (
  λ e. inl (d, refl, (wild_iff d host).0 e),
  λ c. elim c [
    | inl (d', q, w) ↦
        let same : d' ≡ d = cc in (wild_iff d host).1 (subst (λ x. WildCovers x host) same w)
    | inr (n, e) ↦ absurd (n d refl)
  ],
)

-- `dns_matches` decides, case aside, whether a name covers a host: one that begins with "*." covers
-- what has a single label in its place, and any other covers only itself.
pub dns_matches_iff : (dns host : Str) → (dns_matches dns host ≡ true) ↔ Covers dns host
unfolding dns_matches
dns_matches_iff [] host = plain_iff [] host (λ d q. cc)
dns_matches_iff (a ∷ []) host = plain_iff (a ∷ []) host (λ d q. cc)
dns_matches_iff (a ∷ b ∷ dns) host = elim (Bool-cases (a == b'*' && b == b'.')) [
  | inr e ↦ rw e (plain_iff (a ∷ b ∷ dns) host (λ d q. ground arith))
  | inl e ↦
      let p : a ≡ b'*' = ground arith in
      let q : b ≡ b'.' = ground arith in rw e (rw (p, q) (star_iff dns host))
]
