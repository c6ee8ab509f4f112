-- ===== src/Policy/Tests.antt =====
-- src/tls/policy.c at a concrete certificate, host and clock.
use mega_irc.Common.{ℕ, ◌<◌, true, false, some, [], ◌∷◌, ◌≡◌, ◌↔◌, refl, arith, Str, codes}
use mega_irc.Clock.{ClockDate, clock_format}
use mega_irc.Clock.Format.{IsTwoDigits}
use mega_irc.Der.{der_elem, der_after, der_tbs, der_tbs_field, der_oid_is}
use mega_irc.Der.Sample.{cert_of, cert_of-IsBytes, leaf_bytes}
use mega_irc.Policy.{
  ChainStatus, time12, valid_dates, dns_matches, chain_host_matches, chain_policy,
}
use mega_irc.Policy.Names.{Covers, dns_matches_iff}
use mega_irc.Policy.Walk.{Decides}
use mega_irc.Policy.Hosts.{HostNamed, chain_host_matches_decides}
use mega_irc.Policy.Verdict.{Explains, chain_policy-Explains}

abbrev new_year : ℕ → ClockDate
new_year yy = record { yy = yy; mm = 1; dd = 1; hh = 0; mi = 0; ss = 0 }

new_year-IsTwoDigits : (yy : ℕ) → yy < 100 → IsTwoDigits (new_year yy)
new_year-IsTwoDigits yy h = record {
  yy = h;
  mm = omega arith;
  dd = omega arith;
  hh = omega arith;
  mi = omega arith;
  ss = omega arith;
}

abbrev leaf_text : Str
leaf_text = leaf_bytes (codes "250101000000") (codes "270101000000") (codes "*.c64")

leaf_dates :
    valid_dates (cert_of leaf_text) ≡ some (clock_format (new_year 25), clock_format (new_year 27))
unfolding valid_dates time12 clock_format der_elem der_after der_tbs der_tbs_field
leaf_dates = refl

wildcard_one_label : dns_matches (codes "*.C64") (codes "irc.c64") ≡ true
unfolding dns_matches
wildcard_one_label = refl

wildcard_two_labels : dns_matches (codes "*.c64") (codes "a.irc.c64") ≡ false
unfolding dns_matches
wildcard_two_labels = refl

leaf_host : chain_host_matches (cert_of leaf_text) (codes "irc.c64") ≡ some true
unfolding chain_host_matches der_elem der_after der_tbs der_tbs_field der_oid_is dns_matches
leaf_host = refl

dns_matches_iff_example :
    (dns_matches (codes "*.c64") (codes "irc.c64") ≡ true)
    ↔ Covers (codes "*.c64") (codes "irc.c64")
dns_matches_iff_example = dns_matches_iff (codes "*.c64") (codes "irc.c64")

chain_host_matches_decides_example :
    Decides
      (chain_host_matches (cert_of leaf_text) (codes "irc.c64"))
      (HostNamed (cert_of leaf_text) (codes "irc.c64"))
chain_host_matches_decides_example =
    chain_host_matches_decides (cert_of leaf_text) (codes "irc.c64") (cert_of-IsBytes leaf_text)
      (omega arith)

chain_policy-Explains_example :
    (v : ChainStatus) × (chain_policy
        (cert_of leaf_text ∷ [])
        (some (codes "irc.c64"))
        (some (codes "260101000000"))
      ≡ some v)
    × Explains (cert_of leaf_text ∷ []) (codes "irc.c64") (codes "260101000000") v
chain_policy-Explains_example =
    chain_policy-Explains (cert_of leaf_text ∷ []) (codes "irc.c64") (codes "260101000000")
      ((cert_of-IsBytes leaf_text, omega arith), tt)
