-- ===== src/Chain.antt =====
-- src/tls/chain.c, src/tls/roots.c: each certificate's signature under the next one's key, and the
-- top against the anchors that the client carries.
-- SHA-256 and the key of a certificate (crypto/sha256.c, tls/x509.c, and crypto/mp.c behind the
-- signatures) are copies from another project: what chain.c calls of them are the fields of `Kit`.
-- The bank's buffers and the host's are not told apart: what is read into one is a value.
pub mod Hash
pub mod Parts
pub mod Signed
pub mod Roots
pub mod Verdict
pub mod Trust
pub mod Sample
mod Tests
use mega_irc.Common.{
  ℕ, zero, suc, ◌+◌, ◌-◌, ◌%◌, ◌^◌, min, Bool, true, false, ◌&&◌, ◌||◌, not, Option, none, some,
  ◌>>=◌, ◌>>◌, require, List, [], ◌∷◌, Str, ltb, leb, ◌==◌, if◌then◌else◌,
}
use mega_irc.Der.{Cert, Elem, der_read, der_elem, der_after, der_tbs, der_oid_is}
use mega_irc.Pkcs1.{Mp, rsa_pkcs1_sha256_verify}
use mega_irc.Policy.{ChainStatus, ok, malformed, bad_sig, no_anchor, unsupported}

-- `x509_key`: what chain.c reads of it.
pub data KeyKind : Type 0 where
  no_kind p256 ed25519 rsa : KeyKind

pub record X509Key : Type 0 where
  pub kind : KeyKind
  pub spki_off : ℕ
  pub spki_len : ℕ
  pub n_off : ℕ
  pub n_len : ℕ
  pub e_off : ℕ
  pub e_len : ℕ

pub record Kit : Type 1 where
  pub mp : Mp
  pub Sha : Type 0
  pub sha256_init : Sha
  pub sha256_update : Sha → Str → Sha
  pub sha256_final : Sha → Str
  pub key_of : Cert → Option X509Key
  pub spki_hash : Cert → X509Key → Str

abbrev pub n_cap : ℕ
n_cap = 512

abbrev pub e_cap : ℕ
e_cap = 8

abbrev pub sig_cap : ℕ
sig_cap = 512

abbrev pub oid_sha256_rsa : Str
oid_sha256_rsa = 0x2a ∷ 0x86 ∷ 0x48 ∷ 0x86 ∷ 0xf7 ∷ 0x0d ∷ 0x01 ∷ 0x01 ∷ 0x0b ∷ []

abbrev pub oid_ecdsa_sha2 : Str
oid_ecdsa_sha2 = 0x2a ∷ 0x86 ∷ 0x48 ∷ 0xce ∷ 0x3d ∷ 0x04 ∷ 0x03 ∷ []

-- `CHAIN_ALG_*`
pub data ChainAlg : Type 0 where
  unknown rsa_sha256 ecdsa : ChainAlg

pub record ChainCert : Type 0 where
  pub tbs_off : ℕ
  pub tbs_len : ℕ
  pub sig_off : ℕ
  pub sig_len : ℕ
  pub alg : ChainAlg

pub chain_alg : Cert → Elem → ChainAlg
chain_alg c o =
    if der_oid_is c o oid_sha256_rsa 9
    then rsa_sha256
    else if der_oid_is c o oid_ecdsa_sha2 8
    then ecdsa
    else unknown

-- What is signed, the algorithm and the signature.
unfoldable pub chain_parts : Cert → Option ChainCert
unfolding chain_alg
chain_parts c = do
  (e, t) ← der_tbs c
  let end = der_after e
  a ← der_elem c (der_after t) end
  require (a.tag == 0x30)
  o ← der_elem c a.off end
  require (o.tag == 0x06)
  s ← der_elem c (der_after a) end
  require (s.tag == 0x03 && leb 2 s.len)
  require (c.byte s.off == 0)
  some (record {
    tbs_off = e.off;
    tbs_len = (der_after t + 2 ^ 16 - e.off) % 2 ^ 16;
    sig_off = (s.off + 1) % 2 ^ 16;
    sig_len = (s.len - 1) % 2 ^ 16;
    alg = chain_alg c o;
  })

-- The two loops of `roots_index`: over 32 bytes, and over the anchors behind the `i`th.
pub same_hash : Str → Str → Bool
same_hash [] hash = true
same_hash (x ∷ root) [] = false
same_hash (x ∷ root) (b ∷ hash) = if x == b then same_hash root hash else false

pub roots_from : ℕ → List Str → Str → ℕ
unfolding same_hash
roots_from i [] hash = i
roots_from i (root ∷ roots) hash =
    let rest = roots_from (i + 1) roots hash in if same_hash root hash then i else rest

-- ISRG Root YR and ISRG Root X1
abbrev pub roots_spki : List Str
roots_spki =
    (0x7e ∷ 0x4e ∷ 0x88 ∷ 0x38 ∷ 0xa8 ∷ 0xad ∷ 0xd6 ∷ 0x29 ∷ 0x5d ∷ 0xe7 ∷ 0xae ∷ 0x3b ∷ 0x04 ∷ 0x7d
      ∷ 0x3a ∷ 0xba ∷ 0x34 ∷ 0x88 ∷ 0xab ∷ 0x95 ∷ 0xdb ∷ 0x0a ∷ 0x0a ∷ 0xa5 ∷ 0x6d ∷ 0x89 ∷ 0x7a
      ∷ 0x00 ∷ 0xd8 ∷ 0x61 ∷ 0x8b ∷ 0xcf ∷ [])
    ∷ (0x0b ∷ 0x9f ∷ 0xa5 ∷ 0xa5 ∷ 0x9e ∷ 0xed ∷ 0x71 ∷ 0x5c ∷ 0x26 ∷ 0xc1 ∷ 0x02 ∷ 0x0c ∷ 0x71
        ∷ 0x1b ∷ 0x4f ∷ 0x6e ∷ 0xc4 ∷ 0x2d ∷ 0x58 ∷ 0xb0 ∷ 0x01 ∷ 0x5e ∷ 0x14 ∷ 0x33 ∷ 0x7a ∷ 0x39
        ∷ 0xda ∷ 0xd3 ∷ 0x01 ∷ 0xc5 ∷ 0xaf ∷ 0xc3 ∷ [])
    ∷ []

abbrev pub roots_count : ℕ
roots_count = 2

unfoldable pub roots_index : Str → ℕ
unfolding roots_from
roots_index hash = roots_from 0 roots_spki hash

-- A key that the buffers take.
pub key_fits : X509Key → Bool
key_fits key = elim key.kind [
  | rsa ↦ not (key.n_len == 0 || ltb n_cap key.n_len || key.e_len == 0 || ltb e_cap key.e_len)
  | other ↦ false
]

-- A signature that the buffers take, of the only scheme that is verified.
pub part_fits : ChainCert → Bool
part_fits p = elim p.alg [
  | rsa_sha256 ↦ not (p.sig_len == 0 || ltb sig_cap p.sig_len)
  | other ↦ false
]

module _ (k : Kit) where
  open k use {mp, Sha, sha256_init, sha256_update, sha256_final, key_of, spki_hash}

  -- The loop over pieces of 64 bytes, on fuel; `none` means that the fuel ran out.
  pub hash_pieces : Cert → ℕ → Sha → ℕ → ℕ → Option Sha
  hash_pieces c zero h off left = none
  hash_pieces c (suc f) h off left =
      let n = min left 64 in
      let rest =
        hash_pieces c f (sha256_update h (der_read c off n)) ((off + n) % 2 ^ 16) (left - n) in
      if left == 0 then some h else rest

  unfoldable pub chain_tbs_hash : Cert → ChainCert → Option Str
  unfolding hash_pieces
  chain_tbs_hash c p = do
    h ← hash_pieces c (suc p.tbs_len) sha256_init p.tbs_off p.tbs_len
    some (sha256_final h)

  pub signature_ok : Cert → Cert → X509Key → ChainCert → Option Bool
  unfolding chain_tbs_hash
  signature_ok child issuer key p = do
    hash ← chain_tbs_hash child p
    some (
        rsa_pkcs1_sha256_verify mp (der_read issuer key.n_off key.n_len)
          (der_read issuer key.e_off key.e_len) (der_read child p.sig_off p.sig_len) hash)

  pub parts_ok : Cert → Cert → X509Key → Option ChainCert → Option Bool
  unfolding part_fits signature_ok
  parts_ok child issuer key none = some false
  parts_ok child issuer key (some p) =
      if part_fits p then signature_ok child issuer key p else some false

  unfoldable pub chain_verify_link : Cert → Cert → X509Key → Option Bool
  unfolding key_fits parts_ok
  chain_verify_link child issuer key =
      if key_fits key then parts_ok child issuer key (chain_parts child) else some false

  -- The top must be an anchor.
  pub anchored : Cert → Option X509Key → ChainStatus
  unfolding roots_index
  anchored c none = malformed
  anchored c (some key) = if roots_index (spki_hash c key) == roots_count then no_anchor else ok

  -- One round of the loop; `next` is what the rounds behind it give.
  pub on_link : Option ChainStatus → Option Bool → Option ChainStatus
  on_link next none = none
  on_link next (some verified) = if verified then next else some bad_sig

  pub on_key : Cert → Cert → Option ChainStatus → Option X509Key → Option ChainStatus
  unfolding on_link chain_verify_link
  on_key child issuer next none = some malformed
  on_key child issuer next (some key) = on_link next (chain_verify_link child issuer key)

  pub on_alg : Cert → Cert → Option ChainStatus → ChainAlg → Option ChainStatus
  unfolding on_key
  on_alg child issuer next unknown = some malformed
  on_alg child issuer next ecdsa = some unsupported
  on_alg child issuer next rsa_sha256 = on_key child issuer next (key_of issuer)

  pub on_parts : Cert → Cert → Option ChainStatus → Option ChainCert → Option ChainStatus
  unfolding on_alg
  on_parts child issuer next none = some malformed
  on_parts child issuer next (some p) = on_alg child issuer next p.alg

  unfoldable pub chain_verify : List Cert → Option ChainStatus
  unfolding anchored on_parts
  chain_verify [] = some malformed
  chain_verify (c ∷ []) = some (anchored c (key_of c))
  chain_verify (c ∷ d ∷ certs) = on_parts c d (chain_verify (d ∷ certs)) (chain_parts c)
