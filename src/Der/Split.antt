-- ===== src/Der/Split.antt =====
-- src/tls/der.c: `chain_split` cuts the store where its certificates end.
use mega_irc.Common.{
  ℕ, zero, suc, ◌+◌, ◌-◌, ◌%◌, ◌^◌, ◌≤◌, some, List, [], ◌∷◌, ◌≡◌, sym, subst, inl, inr, refl,
  arith, ltb, ◌==◌, Bool-cases, Option-cases, length,
}
use mega_irc.Der.{Cert, Elem, der_elem, der_after, split_at, split_from, chain_split}
use mega_irc.Der.Exact.{IsBytes, range_max, der_elem_bounds}

-- The pieces follow one another from an offset, and end inside the store.
abbrev pub Tiles : Cert → ℕ → List (ℕ × ℕ) → Type 0
Tiles c at [] = Unit {0}
Tiles c at ((off, len) ∷ ps) =
    (off ≡ at)
    × ((e : Elem) × (der_elem c at c.len ≡ some e) × (e.tag ≡ 0x30) × (e.off + e.len ≡ at + len))
    × (2 ≤ len)
    × (at + len ≤ c.len)
    × Tiles c (at + len) ps

-- The end of the last piece is the end of the store.
abbrev pub EndsAt : ℕ → ℕ → List (ℕ × ℕ) → Type 0
EndsAt total at [] = at ≡ total
EndsAt total at ((off, len) ∷ ps) = EndsAt total (at + len) ps

-- Where a piece ends, at 16 bits.
piece_end :
    (at off len total : ℕ)
    → total ≤ range_max
    → at + 2 ≤ off
    → off + len ≤ total
    → let stop = (off + len) % 2 ^ 16 in
      (at + (stop + 2 ^ 16 - at) % 2 ^ 16 ≡ stop)
      × (2 ≤ (stop + 2 ^ 16 - at) % 2 ^ 16)
      × (at + (stop + 2 ^ 16 - at) % 2 ^ 16 ≤ total)
piece_end at off len total s lo hi =
    let stop : (off + len) % 2 ^ 16 ≡ off + len = omega arith in
    let size : (off + len + 2 ^ 16 - at) % 2 ^ 16 ≡ off + len - at = omega arith in
    rw (stop, size) (omega arith, omega arith, omega arith)

module _ (c : Cert) (bytes : IsBytes c) (small : c.len ≤ range_max) where
  split_from-Tiles : (k at : ℕ) → Tiles c at (split_from c k at) × (length (split_from c k at) ≤ k)
  unfolding split_from split_at der_after
  split_from-Tiles zero at = (tt, omega arith)
  split_from-Tiles (suc k) at = elim (Bool-cases (ltb at c.len)) [
    | inr e ↦ rw e (tt, omega arith)
    | inl e ↦ rw e (elim (Option-cases (der_elem c at c.len)) [
      | inl n ↦ rw n (tt, omega arith)
      | inr (d, q) ↦ rw q (elim (Bool-cases (d.tag == 0x30)) [
        | inr t ↦ rw t (tt, omega arith)
        | inl t ↦ rw t (
            let (lo, hi) = der_elem_bounds c at c.len bytes small q in
            let rest = split_from-Tiles k (der_after d) in
            let (whole, long, inside) = piece_end at d.off d.len c.len small lo hi in
            let step : at + (der_after d + 2 ^ 16 - at) % 2 ^ 16 ≡ der_after d = whole in
            (
              (
                refl,
                (d, q, ground arith, omega arith),
                long,
                inside,
                subst (λ n. Tiles c n (split_from c k (der_after d))) (sym step) rest.0,
              ),
              omega arith,
            ))
      ])
    ])
  ]

  -- In a store of at most 65531 bytes the pieces that `chain_split` finds are certificates' sequences one behind another from the
  -- start of the store, each with its header, all inside the store, and at most `max` of them.
  pub chain_split-Tiles :
      (max : ℕ) → Tiles c 0 (chain_split c max) × (length (chain_split c max) ≤ max)
  unfolding chain_split
  chain_split-Tiles max = split_from-Tiles max 0

  -- A store that is filled by sequences end to end.
  split_from_all :
      (k at : ℕ) (ps : List (ℕ × ℕ))
      → Tiles c at ps
      → length ps ≤ k
      → EndsAt c.len at ps
      → split_from c k at ≡ ps
  unfolding split_from split_at der_after
  split_from_all zero at [] t h e = refl
  split_from_all zero at (p ∷ ps) t h e = absurd (omega arith)
  split_from_all (suc k) at [] t h e = ground arith
  split_from_all (suc k) at ((off, len) ∷ ps) (o, (d, q, tag, stop), l, i, rest) h e =
      let b = der_elem_bounds c at c.len bytes small q in
      let e1 : (d.off + d.len) % 2 ^ 16 ≡ at + len = omega arith in
      let e2 : (at + len + 2 ^ 16 - at) % 2 ^ 16 ≡ len = omega arith in
      let ih = split_from_all k (at + len) ps rest (omega arith) e in ground (arith, q, e1, e2, ih)

  -- A store of at most 65531 bytes that is nothing but certificates' sequences, end to end and no
  -- more than `max` of them, is cut into exactly those.
  pub chain_split_all :
      (max : ℕ) (ps : List (ℕ × ℕ))
      → Tiles c 0 ps
      → length ps ≤ max
      → EndsAt c.len 0 ps
      → chain_split c max ≡ ps
  unfolding chain_split
  chain_split_all max ps t h e = split_from_all max 0 ps t h e
