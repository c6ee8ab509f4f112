-- ===== src/Bank/Check.antt =====
-- src/bank/chain_api.c: the chains that the whole check passes.
use mega_irc.Common.{
  ℕ, zero, suc, ◌+◌, ◌%◌, ◌^◌, ◌≤◌, ◌<◌, some, List, [], ◌∷◌, map, ◌≡◌, ◌↔◌, ◌∙◌, ap, sym, refl,
  arith, Str, All, length, get_or, take, some_inj,
}
use mega_irc.Der.{Cert, chain_split}
use mega_irc.Der.Exact.{IsBytes, range_max}
use mega_irc.Der.Split.{Tiles, chain_split-Tiles}
use mega_irc.Pkcs1.Numbers.{MpLaws, IsByte}
use mega_irc.Policy.{ChainStatus, ok, malformed, bad_name, expired}
use mega_irc.Policy.Hosts.{HostNamed}
use mega_irc.Policy.Verdict.{InDate, Explains, chain_policy-Explains}
use mega_irc.Chain.{Kit, chain_verify}
use mega_irc.Chain.Hash.{ShaLaws}
use mega_irc.Chain.Verdict.{IsCert, chain_verify-Verdict}
use mega_irc.Chain.Trust.{HasKey, Trusted, chain_verify_iff}
use mega_irc.Bank.{cert_at, chain_max, store_refs, on_policy, ck_chain_run, ck_api_chain}

get_or-byte : (s : Str) (i : ℕ) → All IsByte s → get_or s i 0 < 2 ^ 8
get_or-byte [] zero h = omega arith
get_or-byte [] (suc i) h = omega arith
get_or-byte (b ∷ s) zero h = h.0
get_or-byte (b ∷ s) (suc i) h = get_or-byte s i h.1

cert_at-IsBytes : (s : Str) (stale : ℕ → ℕ) (p : ℕ × ℕ) → All IsByte s → IsBytes (cert_at s stale p)
unfolding cert_at
cert_at-IsBytes s stale (base, len) h i = get_or-byte s ((i + base) % 2 ^ 16) h

piece_len :
    (s : Str) (stale : ℕ → ℕ) (at off len : ℕ) {n : ℕ}
    → n ≤ range_max
    → at + len ≤ n
    → (cert_at s stale (off, len)).len ≤ range_max
unfolding cert_at
piece_len s stale at off len h l = omega arith

-- Every certificate of the store can be walked.
refs-IsCert :
    (s : Str) (stale : ℕ → ℕ) (c : Cert) (at : ℕ) (ps : List (ℕ × ℕ))
    → All IsByte s
    → c.len ≤ range_max
    → Tiles c at ps
    → All IsCert (map (cert_at s stale) ps)
refs-IsCert s stale c at [] h l t = tt
refs-IsCert s stale c at ((off, len) ∷ ps) h l (o, e, two, inside, rest) = (
  (cert_at-IsBytes s stale (off, len) h, piece_len s stale at off len l inside),
  refs-IsCert s stale c (at + len) ps h l rest,
)

-- The leaf, which comes first, names the host.
abbrev pub LeafNamed : List Cert → Str → Type 0
LeafNamed [] host = ⊥
LeafNamed (c ∷ certs) host = HostNamed c host

Explains-ok :
    (refs : List Cert) (host now : Str) (v : ChainStatus)
    → Explains refs host now v
    → (v ≡ ok) ↔ (LeafNamed refs host × InDate now refs)
Explains-ok [] host now malformed e = (λ q. cc, λ h. absurd h.0)
Explains-ok (c ∷ certs) host now ok e = (λ q. e, λ h. refl)
Explains-ok (c ∷ certs) host now bad_name e = (λ q. cc, λ h. absurd (e h.0))
Explains-ok (c ∷ certs) host now expired e = (λ q. cc, λ h. absurd (e.1 h.1))
Explains-ok _ host now _ e = absurd e

on_policy_iff :
    (k : Kit) (refs : List Cert) (v : ChainStatus)
    → (on_policy k refs v ≡ some ok) ↔ ((v ≡ ok) × (chain_verify k refs ≡ some ok))
unfolding on_policy
on_policy_iff k refs ok = (λ q. (refl, q), λ h. h.1)
on_policy_iff k refs _ = (λ q. cc, λ h. cc)

on_policy_total :
    (k : Kit) (refs : List Cert) (v : ChainStatus) {s : ChainStatus}
    → chain_verify k refs ≡ some s
    → (r : ChainStatus) × (on_policy k refs v ≡ some r)
unfolding on_policy
on_policy_total k refs ok {s} h = (s, h)
on_policy_total k refs v h = (v, refl)

both :
    (k : Kit) (certs : List Cert)
    → All IsCert certs
    → All (HasKey k) certs
    → All (λ c. IsCert c × HasKey k c) certs
both k [] h g = tt
both k (c ∷ certs) h g = ((h.0, g.0), both k certs h.1 g.1)

-- What the check passes, for the strings as the bank has them.
abbrev pub Passes : Kit → Str → (ℕ → ℕ) → Str → Str → Type 0
Passes k store stale host now =
    LeafNamed (store_refs store stale) host
    × InDate now (store_refs store stale)
    × Trusted k (store_refs store stale)

module _ (k : Kit) (sha : ShaLaws k) (mp : MpLaws k.mp) (store : Str) (stale : ℕ → ℕ)
    (bytes : All IsByte store) (small : length store ≤ range_max) where
  store_refs-IsCert : All IsCert (store_refs store stale)
  unfolding store_refs
  store_refs-IsCert =
      let c = cert_at store stale (0, length store) in
      let len : c.len ≤ range_max = unfold cert_at in small in
      refs-IsCert store stale c 0 (chain_split c chain_max) bytes len
        (chain_split-Tiles c (cert_at-IsBytes store stale (0, length store) bytes) len chain_max).0

  run_decides :
      (host now : Str)
      → All (HasKey k) (store_refs store stale)
      → (s : ChainStatus) × (ck_chain_run k store stale (some host) (some now)
          ≡ some (s, length (store_refs store stale)))
        × ((s ≡ ok) ↔ Passes k store stale host now)
  unfolding ck_chain_run
  run_decides host now keys =
      let refs = store_refs store stale in
      let certs = store_refs-IsCert in
      let (v, e, x) = chain_policy-Explains refs host now certs in
      let (s', q, _) = chain_verify-Verdict k sha refs certs in
      let (s, r) = on_policy_total k refs v q in
      let policy = Explains-ok refs host now v x in
      let split = on_policy_iff k refs v in
      let trust = chain_verify_iff k sha mp refs (both k refs certs keys) in
      (
        s,
        rw e (rw r refl),
        (
          λ h. let (a, b) = split.0 (r ∙ ap some h) in let (c, d) = policy.0 a in (c, d, trust.0 b),
          λ h. some_inj (sym r ∙ split.1 (policy.1 (h.0, h.1), trust.1 h.2)),
        ),
      )

  -- Over a hash and an arithmetic that do what their headers document, and any store of at most 65531 bytes, for a host and a clock, the whole check comes back with
  -- a verdict and the number of certificates. It is OK exactly if the first 63 bytes of the host
  -- are named by the leaf, every certificate is in date at the first twelve digits of the clock, and
  -- the certificates of the store, at most five, make a trusted chain. The RSA keys are ones that
  -- the arithmetic takes.
  pub ck_api_chain_decides :
      (host now : Str)
      → All (HasKey k) (store_refs store stale)
      → (s : ChainStatus) × (ck_api_chain k store stale (some host) (some now)
          ≡ some (s, length (store_refs store stale)))
        × ((s ≡ ok) ↔ Passes k store stale (take 63 host) (take 12 now))
  unfolding ck_api_chain
  ck_api_chain_decides host now keys = run_decides (take 63 host) (take 12 now) keys
