-- ===== src/Policy/Verdict.antt =====
-- src/tls/policy.c: what the verdict of `chain_policy` means.
use mega_irc.Common.{◌≤◌, some, List, [], ◌∷◌, ◌≡◌, ◌⊎◌, inl, inr, refl, Str, All, Bool-cases}
use mega_irc.Der.{Cert}
use mega_irc.Der.Exact.{IsBytes, range_max}
use mega_irc.Policy.{
  ChainStatus, ok, malformed, bad_name, expired, chain_valid_at, all_valid, chain_policy,
}
use mega_irc.Policy.Dates.{IsValidAt, chain_valid_at-IsValidAt}
use mega_irc.Policy.Hosts.{HostNamed, chain_host_matches_decides}

abbrev pub InDate : Str → List Cert → Type 0
InDate now certs = All (λ c. IsValidAt c now) certs

-- What each verdict says of the chain, for a host and a time that are given.
abbrev pub Explains : List Cert → Str → Str → ChainStatus → Type 0
Explains [] host now malformed = Unit {0}
Explains (c ∷ cs) host now ok = HostNamed c host × InDate now (c ∷ cs)
Explains (c ∷ cs) host now bad_name = ¬ HostNamed c host
Explains (c ∷ cs) host now expired = HostNamed c host × ¬ InDate now (c ∷ cs)
Explains _ host now _ = ⊥

all_valid_cases :
    (certs : List Cert) (now : Str)
    → ((all_valid certs now ≡ ok) × InDate now certs)
      ⊎ ((all_valid certs now ≡ expired) × ¬ InDate now certs)
unfolding all_valid
all_valid_cases [] now = inl (refl, tt)
all_valid_cases (c ∷ cs) now = elim (Bool-cases (chain_valid_at c now)) [
  | inr e ↦ inr (rw e refl, λ h. cc (e, (chain_valid_at-IsValidAt c now).1 h.0))
  | inl e ↦ elim (all_valid_cases cs now) [
    | inl (r, h) ↦ inl (rw e r, ((chain_valid_at-IsValidAt c now).0 e, h))
    | inr (r, n) ↦ inr (rw e r, λ h. n h.1)
  ]
]

-- With a host and a time given, for certificates below 65532 bytes, `chain_policy` always gives a
-- verdict: no certificate at all is a malformed chain; else it is OK exactly if the leaf names the
-- host and every certificate is in date, a bad name if the leaf does not name the host, and expired
-- if it does and some certificate is out of date.
pub chain_policy-Explains :
    (certs : List Cert) (host now : Str)
    → All (λ c. IsBytes c × (c.len ≤ range_max)) certs
    → (v : ChainStatus) × (chain_policy certs (some host) (some now) ≡ some v)
      × Explains certs host now v
unfolding chain_policy
chain_policy-Explains [] host now h = (malformed, refl, tt)
chain_policy-Explains (c ∷ cs) host now h = elim (chain_host_matches_decides c host h.0.0 h.0.1) [
  | inr (r, n) ↦ (bad_name, rw r refl, n)
  | inl (r, n) ↦ elim (all_valid_cases (c ∷ cs) now) [
    | inl (v, d) ↦ (ok, rw r (rw v refl), (n, d))
    | inr (v, d) ↦ (expired, rw r (rw v refl), (n, d))
  ]
]
