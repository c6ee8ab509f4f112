-- ===== src/Chain/Sample.antt =====
-- A chain of two certificates for the tests, with a hash that counts the bytes.
use mega_irc.Common.{
  ◌%◌, some, none, [], ◌∷◌, ◌++◌, refl, arith, append-nil, append_assoc, Str, length, replicate,
  ◌==◌, if◌then◌else◌, get_or,
}
use mega_irc.Pkcs1.Padding.{encoded}
use mega_irc.Pkcs1.Sample.{plain_mp, sample_n}
use mega_irc.Chain.{rsa, X509Key, Kit, roots_spki}
use mega_irc.Chain.Hash.{ShaLaws}

-- The key at the start of the certificate: a modulus of 128 bytes and an exponent of one.
abbrev pub first_key : X509Key
first_key = record {
  kind = rsa;
  spki_off = 0;
  spki_len = 0;
  n_off = 0;
  n_len = 128;
  e_off = 128;
  e_len = 1;
}

abbrev pub carried : Str
carried = get_or roots_spki 1 []

abbrev pub count_hash : Str → Str
count_hash s = replicate 32 (length s % 256)

abbrev pub sample_kit : Kit
sample_kit = record {
  mp = plain_mp;
  Sha = Str;
  sha256_init = [];
  sha256_update = λ h s. h ++ s;
  sha256_final = count_hash;
  key_of = λ c. if c.byte 0 == 0xff then some first_key else none;
  spki_hash = λ c key. carried;
}

pub sample_laws : ShaLaws sample_kit
sample_laws = record {
  update_nil = append-nil;
  update-append = append_assoc;
  length-final = λ h. refl;
  final-bytes = λ h. omega arith;
  length-spki_hash = λ c key. refl;
}

abbrev pub issuer_bytes : Str
issuer_bytes = sample_n ++ 1 ∷ []

-- An empty TBSCertificate, the algorithm, and the signature with the exponent 1.
abbrev pub signed_bytes : Str → Str
signed_bytes signature =
    0x30 ∷ 0x81 ∷ 0x93 ∷ 0x30 ∷ 0x00 ∷ 0x30 ∷ 0x0b ∷ 0x06 ∷ 0x09 ∷ 0x2a ∷ 0x86 ∷ 0x48 ∷ 0x86 ∷ 0xf7
    ∷ 0x0d ∷ 0x01 ∷ 0x01 ∷ 0x0b ∷ 0x03 ∷ 0x81 ∷ 0x81 ∷ 0x00 ∷ signature

abbrev pub leaf_bytes : Str
leaf_bytes = signed_bytes (encoded (count_hash (0x30 ∷ 0x00 ∷ [])) 128)
