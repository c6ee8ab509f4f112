-- ===== src/Der/Sample.antt =====
-- Certificates for the tests, spelled byte by byte.
use mega_irc.Common.{ℕ, ◌%◌, ◌^◌, [], ◌∷◌, ◌++◌, Str, arith, codes, length, get_or}
use mega_irc.Der.{Cert}
use mega_irc.Der.Exact.{IsBytes}

-- A certificate that holds these bytes.
abbrev pub cert_of : Str → Cert
cert_of bytes = record { byte = λ i. get_or bytes i 0 % 2 ^ 8; len = length bytes; stale = λ i. 0 }

pub cert_of-IsBytes : (bytes : Str) → IsBytes (cert_of bytes)
cert_of-IsBytes bytes i = omega arith

-- An element with a content below 128 bytes.
abbrev pub tlv : ℕ → Str → Str
tlv tag content = tag ∷ length content ∷ content

-- The serial number, the algorithm and the issuer, the validity, the subject and the key, and the
-- extensions, which hold one SAN.
abbrev pub leaf_bytes : Str → Str → Str → Str
leaf_bytes not_before not_after dns = tlv 0x30 (
    tlv 0x30 (
      tlv 0x02 (5 ∷ [])
      ++ tlv 0x30 []
      ++ tlv 0x30 []
      ++ tlv 0x30 (tlv 0x17 (not_before ++ codes "Z") ++ tlv 0x17 (not_after ++ codes "Z"))
      ++ tlv 0x30 []
      ++ tlv 0x30 []
      ++ tlv 0xa3 (
          tlv 0x30
            (tlv 0x30 (tlv 0x06 (0x55 ∷ 0x1d ∷ 0x11 ∷ []) ++ tlv 0x04 (tlv 0x30 (tlv 0x82 dns)))))))
