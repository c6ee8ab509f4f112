-- ===== src/Chain/Roots.antt =====
-- src/tls/chain.c: the anchor that `roots_index` finds.
use mega_irc.Common.{
  ℕ, zero, suc, ◌+◌, ◌<◌, true, false, some, List, [], ◌∷◌, ap, sym, ◌≡◌, ◌≢◌, ◌↔◌, ◌⊎◌, inl, inr,
  refl, arith, Str, some_inj, All, length, get_elem?, ◌==◌, Bool-cases,
}
use mega_irc.Chain.{same_hash, roots_from, roots_index, roots_spki, roots_count}

same_hash_iff :
    (root hash : Str) → length root ≡ length hash → (same_hash root hash ≡ true) ↔ (root ≡ hash)
unfolding same_hash
same_hash_iff [] [] l = (λ q. refl, λ e. refl)
same_hash_iff [] (b ∷ hash) l = absurd (omega (arith, l))
same_hash_iff (x ∷ root) [] l = absurd (omega (arith, l))
same_hash_iff (x ∷ root) (b ∷ hash) l =
    let ih = same_hash_iff root hash (omega (arith, l)) in
    (λ q. ground (arith, ih.0), λ e. ground (arith, ih.1))

-- The index found is that of the hash; past the end, no anchor is the hash.
abbrev IsIndex : ℕ → List Str → Str → ℕ → Type 0
IsIndex i roots hash r =
    ((r ≡ i + length roots) × All (λ root. root ≢ hash) roots)
    ⊎ ((j : ℕ) × (r ≡ i + j) × (j < length roots) × (get_elem? roots j ≡ some hash))

roots_from-IsIndex :
    (i : ℕ) (roots : List Str) (hash : Str)
    → All (λ root. length root ≡ length hash) roots
    → IsIndex i roots hash (roots_from i roots hash)
unfolding roots_from
roots_from-IsIndex i [] hash h = inl (omega arith, tt)
roots_from-IsIndex i (root ∷ roots) hash h =
    let same = same_hash_iff root hash h.0 in
    elim (Bool-cases (same_hash root hash)) [
      | inl e ↦ rw e (inr (0, omega arith, omega arith, ap some (same.0 e)))
      | inr e ↦ rw e (elim (roots_from-IsIndex (i + 1) roots hash h.1) [
        | inl (r, n) ↦ inl (omega arith, (λ p. cc (same.1 p), n))
        | inr (j, r, l, g) ↦ inr (suc j, omega arith, omega arith, g)
      ])
    ]

-- One of the anchors that are carried.
abbrev pub IsAnchor : Str → Type 0
IsAnchor hash = (j : ℕ) × (j < roots_count) × (get_elem? roots_spki j ≡ some hash)

not_at :
    (roots : List Str) (hash : Str) (j : ℕ)
    → All (λ root. root ≢ hash) roots
    → get_elem? roots j ≢ some hash
not_at [] hash j h q = cc
not_at (root ∷ roots) hash zero h q = h.0 (some_inj q)
not_at (root ∷ roots) hash (suc j) h q = not_at roots hash j h.1 q

not_found : {r : ℕ} → r ≡ 2 → (r == roots_count) ≡ true
not_found q = ground arith

found : {r j : ℕ} → r ≡ 0 + j → j < 2 → (r == roots_count) ≡ false
found q h = ground arith

-- A hash of 32 bytes is found exactly if it is an anchor's.
pub roots_index_cases :
    (hash : Str)
    → length hash ≡ 32
    → (((roots_index hash == roots_count) ≡ false) × IsAnchor hash)
      ⊎ (((roots_index hash == roots_count) ≡ true) × ¬ IsAnchor hash)
unfolding roots_index
roots_index_cases hash l = elim (roots_from-IsIndex 0 roots_spki hash (sym l, (sym l, tt))) [
  | inl (r, n) ↦ inr (not_found r, λ (j, _, g). not_at roots_spki hash j n g)
  | inr (j, r, lt, g) ↦ inl (found r lt, (j, lt, g))
]
