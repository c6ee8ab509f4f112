-- ===== src/Bank/Reader.antt =====
-- src/bank/api.c: the reader's pieces make up the bytes of a certificate of the store.
use mega_irc.Common.{
  ℕ, zero, suc, ◌+◌, ◌-◌, ◌%◌, ◌^◌, ◌≤◌, ◌<◌, min, [], ◌∷◌, ◌++◌, ◌≡◌, ◌∙◌, ap, sym, refl, arith,
  Str, inl, inr, Bool-cases, ltb, leb, ◌==◌, if◌then◌else◌, length, get_or, replicate,
}
use mega_irc.Der.{der_read}
use mega_irc.Bank.{far_bytes, read_pieces, ck_cert_read, cert_at}

far_bytes-split :
    (s : Str) (off m n : ℕ) → far_bytes s off m ++ far_bytes s (off + m) n ≡ far_bytes s off (m + n)
unfolding far_bytes
far_bytes-split s off zero n =
    ap (λ (i : ℕ). far_bytes s i n) (omega arith) ∙ ap (λ (i : ℕ). far_bytes s off i) (omega arith)
far_bytes-split s off (suc m) n =
    let e : off + suc m ≡ off + 1 + m = omega arith in
    let l : suc m + n ≡ suc (m + n) = omega arith in
    rw (e, l) (ap (λ (t : Str). get_or s off 0 ∷ t) (far_bytes-split s (off + 1) m n))

get_or_past : (s : Str) (i : ℕ) → length s ≤ i → get_or s i 0 ≡ 0
get_or_past [] zero h = refl
get_or_past [] (suc i) h = refl
get_or_past (b ∷ s) zero h = absurd (omega arith)
get_or_past (b ∷ s) (suc i) h = get_or_past s i (omega arith)

far_bytes_past : (s : Str) (off n : ℕ) → length s ≤ off → far_bytes s off n ≡ replicate n 0
unfolding far_bytes
far_bytes_past s off zero h = refl
far_bytes_past s off (suc n) h =
    rw (get_or_past s off h) (ap (λ (t : Str). 0 ∷ t) (far_bytes_past s (off + 1) n (omega arith)))

read_pieces_lem :
    (s : Str) (f off n : ℕ)
    → n ≤ f
    → off + n < 2 ^ 16
    → length s < 2 ^ 16
    → read_pieces s f off n ≡ far_bytes s off n
unfolding read_pieces
read_pieces_lem s zero off zero h room l = refl
read_pieces_lem s zero off (suc n) h room l = absurd (omega arith)
read_pieces_lem s (suc f) off n h room l = elim (Bool-cases (n == 0)) [
  | inl e ↦ let z : n ≡ 0 = ground arith in rw e (rw z refl)
  | inr e ↦ elim (Bool-cases (leb (length s) off)) [
    | inl p ↦ rw e (rw p (sym (far_bytes_past s off n (ground arith))))
    | inr p ↦
        let k =
          if ltb (length s) (off + min n 64)
          then (length s + 2 ^ 16 - off) % 2 ^ 16
          else min n 64 in
        let pos : 1 ≤ k = ground arith in
        let fits : k ≤ n = ground arith in
        let whole : k + (n - k) ≡ n = omega arith in
        let no_wrap : (off + k) % 2 ^ 16 ≡ off + k = omega arith in
        rw e (
          rw p (
            ap (λ (t : Str). far_bytes s off k ++ t)
              (rw no_wrap (read_pieces_lem s f (off + k) (n - k) (omega arith) (omega arith) l))
            ∙ far_bytes-split s off k (n - k)
            ∙ ap (far_bytes s off) whole))
  ]
]

far_bytes-der_read :
    (s : Str) (stale : ℕ → ℕ) (base len off n : ℕ)
    → off + base + n < 2 ^ 16
    → far_bytes s (off + base) n ≡ der_read (cert_at s stale (base, len)) off n
unfolding far_bytes cert_at
far_bytes-der_read s stale base len off zero h = refl
far_bytes-der_read s stale base len off (suc n) h =
    let here : (off + base) % 2 ^ 16 ≡ off + base = omega arith in
    let next : off + base + 1 ≡ off + 1 + base = omega arith in
    rw (here, next)
      (ap (λ (t : Str). get_or s (off + base) 0 ∷ t)
        (far_bytes-der_read s stale base len (off + 1) n (omega arith)))

-- Whatever the pieces, and whatever part of the range lies past the end of the store, the reader
-- gives the bytes of the certificate that begins at `base`, one by one, with zeros past the end;
-- offsets do not reach 2^16.
pub ck_cert_read_lem :
    (s : Str) (stale : ℕ → ℕ) (base len off n : ℕ)
    → length s < 2 ^ 16
    → off + base + n < 2 ^ 16
    → ck_cert_read s base off n ≡ der_read (cert_at s stale (base, len)) off n
unfolding ck_cert_read
ck_cert_read_lem s stale base len off n l h =
    let e : (off + base) % 2 ^ 16 ≡ off + base = omega arith in
    rw e (
      read_pieces_lem s n (off + base) n (omega arith) h l
      ∙ far_bytes-der_read s stale base len off n h)
