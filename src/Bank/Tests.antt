-- ===== src/Bank/Tests.antt =====
-- src/bank/api.c, src/bank/chain_api.c at a concrete store: a leaf for "*.c64" and its issuer, both
-- in date from 2025 to 2027.
use mega_irc.Common.{
  ℕ, ◌-◌, some, none, [], ◌∷◌, ◌++◌, ◌≡◌, ◌↔◌, refl, subst, some_inj, arith, Str, codes, All,
  length, take, drop, ◌==◌, if◌then◌else◌,
}
use mega_irc.Der.{
  Cert, der_read, der_elem, der_after, der_tbs, der_tbs_field, der_oid_is, chain_split,
}
use mega_irc.Der.Sample.{leaf_bytes}
use mega_irc.Pkcs1.{key_shape, recovered, padding_ok, rsa_pkcs1_sha256_verify}
use mega_irc.Pkcs1.Padding.{encoded}
use mega_irc.Pkcs1.Sample.{plain_laws, sample_n, sample_n-IsKey}
use mega_irc.Pkcs1.Textbook.{IsKey}
use mega_irc.Policy.{
  ChainStatus, ok, bad_name, chain_policy, chain_host_matches, chain_valid_at, valid_dates, time12,
  dns_matches, cmp12,
}
use mega_irc.Chain.{
  Kit, X509Key, rsa, chain_parts, chain_verify, chain_verify_link, chain_tbs_hash, roots_index,
}
use mega_irc.Chain.Hash.{ShaLaws}
use mega_irc.Chain.Sample.{sample_kit, sample_laws, count_hash}
use mega_irc.Chain.Trust.{HasKey, modulus_of}
use mega_irc.Bank.{ck_cert_read, cert_at, store_refs, ck_api_chain}
use mega_irc.Bank.Reader.{ck_cert_read_lem}
use mega_irc.Bank.Check.{Passes, ck_api_chain_decides}

abbrev tbs : Str
tbs = drop 2 (leaf_bytes (codes "250101000000") (codes "270101000000") (codes "*.c64"))

abbrev leaf : Str
leaf =
    0x30
    ∷ 0x81
    ∷ 0xd4
    ∷ (tbs
        ++ (0x30
            ∷ 0x0b
            ∷ 0x06
            ∷ 0x09
            ∷ 0x2a
            ∷ 0x86
            ∷ 0x48
            ∷ 0x86
            ∷ 0xf7
            ∷ 0x0d
            ∷ 0x01
            ∷ 0x01
            ∷ 0x0b
            ∷ 0x03
            ∷ 0x81
            ∷ 0x81
            ∷ 0x00
            ∷ encoded (count_hash tbs) 128))

-- The key stands at the end: the modulus, and the exponent 1.
abbrev issuer : Str
issuer = 0x30 ∷ 0x81 ∷ 0xc4 ∷ (tbs ++ (sample_n ++ 1 ∷ []))

abbrev last_key : Cert → X509Key
last_key c = record {
  kind = rsa;
  spki_off = 0;
  spki_len = 0;
  n_off = c.len - 129;
  n_len = 128;
  e_off = c.len - 1;
  e_len = 1;
}

abbrev bank_kit : Kit
bank_kit = record sample_kit {
  key_of = λ c. if c.byte (c.len - 1) == 1 then some (last_key c) else none;
}

bank_laws : ShaLaws bank_kit
bank_laws = record {
  update_nil = sample_laws.update_nil;
  update-append = sample_laws.update-append;
  length-final = λ h. refl;
  final-bytes = λ h. omega arith;
  length-spki_hash = λ c key. refl;
}

abbrev nothing_stale : ℕ → ℕ
nothing_stale i = 0

abbrev store : Str
store = leaf ++ issuer

store_two :
    store_refs store nothing_stale
    ≡ cert_at store nothing_stale (0, 215) ∷ cert_at store nothing_stale (215, 199) ∷ []
unfolding store_refs chain_split der_elem der_after
store_two = refl

chain_passed :
    ck_api_chain bank_kit store nothing_stale (some (codes "irc.c64")) (some (codes "260101000000"))
    ≡ some (ok, 2)
unfolding ck_api_chain chain_split der_elem der_after der_tbs der_tbs_field der_oid_is chain_policy
    chain_host_matches chain_valid_at valid_dates time12 dns_matches cmp12 chain_verify chain_parts
    chain_verify_link roots_index chain_tbs_hash rsa_pkcs1_sha256_verify key_shape recovered
    padding_ok
chain_passed = refl

chain_of_another_host :
    ck_api_chain bank_kit store nothing_stale
      (some (codes "irc.c128"))
      (some (codes "260101000000"))
    ≡ some (bad_name, 2)
unfolding ck_api_chain chain_split der_elem der_after der_tbs der_tbs_field der_oid_is chain_policy
    chain_host_matches chain_valid_at valid_dates time12 dns_matches cmp12
chain_of_another_host = refl

-- Seventy bytes that begin before the end of the store and go past it.
ck_cert_read_lem_example :
    ck_cert_read store 215 150 70 ≡ der_read (cert_at store nothing_stale (215, 199)) 150 70
ck_cert_read_lem_example =
    ck_cert_read_lem store nothing_stale 215 199 150 70 (omega arith) (omega arith)

leaf_key : (key : X509Key) → bank_kit.key_of (cert_at store nothing_stale (0, 215)) ≡ some key → ⊥
unfolding cert_at
leaf_key key q = cc

issuer-IsKey :
    (key : X509Key)
    → bank_kit.key_of (cert_at store nothing_stale (215, 199)) ≡ some key
    → IsKey (modulus_of (cert_at store nothing_stale (215, 199)) key)
unfolding cert_at
issuer-IsKey key q =
    subst (λ (x : X509Key). IsKey (modulus_of (cert_at store nothing_stale (215, 199)) x))
      (some_inj q) sample_n-IsKey

store_keys : All (HasKey bank_kit) (store_refs store nothing_stale)
store_keys = rw store_two (λ key q r. absurd (leaf_key key q), (λ key q r. issuer-IsKey key q, tt))

ck_api_chain_decides_example :
    (s : ChainStatus) × (ck_api_chain bank_kit store nothing_stale
        (some (codes "irc.c64"))
        (some (codes "260101000000"))
      ≡ some (s, length (store_refs store nothing_stale)))
    × ((s ≡ ok)
        ↔ Passes bank_kit store nothing_stale
            (take 63 (codes "irc.c64"))
            (take 12 (codes "260101000000")))
ck_api_chain_decides_example =
    ck_api_chain_decides bank_kit bank_laws plain_laws store nothing_stale (omega arith)
      (omega arith) (codes "irc.c64") (codes "260101000000") store_keys
