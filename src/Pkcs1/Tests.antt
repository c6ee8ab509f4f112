-- ===== src/Pkcs1/Tests.antt =====
-- src/crypto/pkcs1.c at concrete keys and signatures.
use mega_irc.Common.{true, false, [], ◌∷◌, ◌++◌, ◌≡◌, ◌↔◌, refl, arith, Str, replicate}
use mega_irc.Pkcs1.{key_shape, recovered, padding_ok, rsa_pkcs1_sha256_verify}
use mega_irc.Pkcs1.Padding.{encoded}
use mega_irc.Pkcs1.Sample.{plain_mp, plain_laws, sample_n, sample_n-IsKey}
use mega_irc.Pkcs1.Textbook.{IsSignature, rsa_pkcs1_sha256_verify_iff}

abbrev sample_hash : Str
sample_hash = replicate 32 0xab

-- With the exponent 1 a message is its own signature.
message_accepted :
    rsa_pkcs1_sha256_verify plain_mp sample_n (1 ∷ []) (encoded sample_hash 128) sample_hash ≡ true
unfolding rsa_pkcs1_sha256_verify key_shape recovered padding_ok
message_accepted = refl

-- A byte behind the hash, and a padding that is shorter by one to make room for it.
trailing_byte_refused : padding_ok (encoded sample_hash 127 ++ 0 ∷ []) sample_hash 128 ≡ false
unfolding padding_ok
trailing_byte_refused = refl

rsa_pkcs1_sha256_verify_iff_example :
    (rsa_pkcs1_sha256_verify plain_mp sample_n (1 ∷ []) (encoded sample_hash 128) sample_hash
      ≡ true)
    ↔ IsSignature sample_n (1 ∷ []) (encoded sample_hash 128) sample_hash
rsa_pkcs1_sha256_verify_iff_example =
    rsa_pkcs1_sha256_verify_iff plain_mp plain_laws sample_n (1 ∷ []) (encoded sample_hash 128)
      sample_hash sample_n-IsKey (omega arith) (omega arith) refl (omega arith)
