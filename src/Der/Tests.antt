-- ===== src/Der/Tests.antt =====
-- src/tls/der.c at concrete bytes.
use mega_irc.Common.{◌+◌, ◌≤◌, some, none, [], ◌∷◌, ◌≡◌, ◌↔◌, refl, arith, Str, codes}
use mega_irc.Der.{Cert, der_elem, der_after, der_tbs, der_tbs_field}
use mega_irc.Der.Exact.{Spells, der_elem_iff}
use mega_irc.Der.Split.{Tiles}
use mega_irc.Der.Sample.{cert_of, cert_of-IsBytes, leaf_bytes}

abbrev leaf : Cert
leaf = cert_of (leaf_bytes (codes "250101000000") (codes "260101000000") (codes "*.c64"))

leaf_size : leaf.len ≡ 69
leaf_size = refl

leaf_serial : der_tbs_field leaf 0 ≡ some (record { tag = 0x02; off = 6; len = 1 })
unfolding der_tbs_field der_tbs der_after der_elem
leaf_serial = refl

-- A length that runs past the range's end.
elem_cut : der_elem leaf 0 68 ≡ none
unfolding der_elem
elem_cut = refl

der_elem_iff_example :
    (der_elem leaf 0 69 ≡ some (record { tag = 0x30; off = 2; len = 67 }))
    ↔ (Spells leaf 0 (record { tag = 0x30; off = 2; len = 67 }) × (2 + 67 ≤ 69))
der_elem_iff_example =
    der_elem_iff leaf 0 69 (record { tag = 0x30; off = 2; len = 67 })
      (cert_of-IsBytes (leaf_bytes (codes "250101000000") (codes "260101000000") (codes "*.c64")))
      (omega arith)

abbrev store : Str
store = 0x30 ∷ 1 ∷ 7 ∷ 0x30 ∷ 0 ∷ []

store-Tiles : Tiles (cert_of store) 0 ((0, 3) ∷ (3, 2) ∷ [])
unfolding der_elem
store-Tiles =
    let last : Tiles (cert_of store) 3 ((3, 2) ∷ []) = (
      refl,
      (record { tag = 0x30; off = 5; len = 0 }, refl, refl, refl),
      omega arith,
      omega arith,
      tt,
    ) in
    (
      refl,
      (record { tag = 0x30; off = 2; len = 1 }, refl, refl, refl),
      omega arith,
      omega arith,
      last,
    )
