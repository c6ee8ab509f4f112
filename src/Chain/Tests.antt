-- ===== src/Chain/Tests.antt =====
-- src/tls/chain.c at a concrete chain.
use mega_irc.Common.{some, [], ◌∷◌, ◌≡◌, ◌↔◌, refl, subst, some_inj, arith, replicate}
use mega_irc.Der.{Cert, der_elem, der_after, der_tbs, der_oid_is}
use mega_irc.Der.Sample.{cert_of, cert_of-IsBytes}
use mega_irc.Pkcs1.{key_shape, recovered, padding_ok, rsa_pkcs1_sha256_verify}
use mega_irc.Pkcs1.Sample.{plain_laws, sample_n-IsKey}
use mega_irc.Pkcs1.Textbook.{IsKey}
use mega_irc.Policy.{ChainStatus, ok, bad_sig}
use mega_irc.Chain.{
  X509Key, rsa_sha256, ChainCert, chain_parts, roots_index, chain_tbs_hash, chain_verify_link,
  chain_verify,
}
use mega_irc.Chain.Sample.{carried, sample_kit, sample_laws, issuer_bytes, leaf_bytes, signed_bytes}
use mega_irc.Chain.Parts.{IsLaidOut, chain_parts-IsLaidOut}
use mega_irc.Chain.Verdict.{Verdict, chain_verify-Verdict, IsCert}
use mega_irc.Chain.Trust.{HasKey, Trusted, chain_verify_iff, modulus_of}

abbrev leaf : Cert
leaf = cert_of leaf_bytes

abbrev issuer : Cert
issuer = cert_of issuer_bytes

abbrev leaf_parts : ChainCert
leaf_parts = record { tbs_off = 3; tbs_len = 2; sig_off = 22; sig_len = 128; alg = rsa_sha256 }

leaf_parts-found : chain_parts leaf ≡ some leaf_parts
unfolding chain_parts der_elem der_after der_tbs der_oid_is
leaf_parts-found = refl

second_anchor : roots_index carried ≡ 1
unfolding roots_index
second_anchor = refl

chain_accepted : chain_verify sample_kit (leaf ∷ issuer ∷ []) ≡ some ok
unfolding chain_verify chain_parts chain_verify_link roots_index chain_tbs_hash der_elem der_after
    der_tbs der_oid_is rsa_pkcs1_sha256_verify key_shape recovered padding_ok
chain_accepted = refl

signature_of_zeros_refused :
    chain_verify sample_kit (cert_of (signed_bytes (replicate 128 0)) ∷ issuer ∷ []) ≡ some bad_sig
unfolding chain_verify chain_parts chain_verify_link roots_index chain_tbs_hash der_elem der_after
    der_tbs der_oid_is rsa_pkcs1_sha256_verify key_shape recovered padding_ok
signature_of_zeros_refused = refl

leaf-IsCert : IsCert leaf
leaf-IsCert = (cert_of-IsBytes leaf_bytes, omega arith)

issuer-IsCert : IsCert issuer
issuer-IsCert = (cert_of-IsBytes issuer_bytes, omega arith)

leaf-HasKey : HasKey sample_kit leaf
leaf-HasKey key q r = cc

issuer-HasKey : HasKey sample_kit issuer
issuer-HasKey key q r =
    subst (λ (x : X509Key). IsKey (modulus_of issuer x)) (some_inj q) sample_n-IsKey

chain_parts-IsLaidOut_example : IsLaidOut leaf leaf_parts
chain_parts-IsLaidOut_example =
    chain_parts-IsLaidOut leaf (cert_of-IsBytes leaf_bytes) (omega arith) leaf_parts-found

chain_verify-Verdict_example :
    (s : ChainStatus) × (chain_verify sample_kit (leaf ∷ issuer ∷ []) ≡ some s)
    × Verdict sample_kit (leaf ∷ issuer ∷ []) s
chain_verify-Verdict_example =
    chain_verify-Verdict sample_kit sample_laws (leaf ∷ issuer ∷ [])
      (leaf-IsCert, (issuer-IsCert, tt))

chain_verify_iff_example :
    (chain_verify sample_kit (leaf ∷ issuer ∷ []) ≡ some ok)
    ↔ Trusted sample_kit (leaf ∷ issuer ∷ [])
chain_verify_iff_example =
    chain_verify_iff sample_kit sample_laws plain_laws (leaf ∷ issuer ∷ [])
      ((leaf-IsCert, leaf-HasKey), ((issuer-IsCert, issuer-HasKey), tt))
