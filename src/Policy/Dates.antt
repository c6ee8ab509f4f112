-- ===== src/Policy/Dates.antt =====
-- src/tls/policy.c: the certificates that are in date, by the bytes of their two times.
use mega_irc.Common.{
  ℕ, zero, suc, ◌≤◌, ◌<◌, true, false, ◌&&◌, not, some, [], ◌∷◌, ◌≡◌, ◌≢◌, ◌↔◌, inl, inr, refl, ap,
  sym, ◌∙◌, arith, Str, ltb, ◌==◌, if◌then◌else◌, Bool-cases, get_or, take, drop, some_inj, subst,
  Option-cases, >>=-eq-some, require-eq-some,
}
use mega_irc.Der.{Cert, Elem, der_elem, der_after, der_tbs_field, der_read}
use mega_irc.Policy.{
  Sign, negative, zero_sign, positive, cmp_first, cmp12, time12, valid_dates, within,
  chain_valid_at, tbs_validity, not_negative, not_positive,
}

-- In the first `n` bytes, with NULs behind a text: the same, and the first difference.
abbrev pub Same : ℕ → Str → Str → Type 0
Same n a b = (j : ℕ) → j < n → get_or a j 0 ≡ get_or b j 0

abbrev pub Before : ℕ → Str → Str → Type 0
Before n a b = (i : ℕ) × (i < n) × Same i a b × (get_or a i 0 < get_or b i 0)

abbrev head : Str → ℕ
head a = get_or a 0 0

get_or-tail : (a : Str) (j : ℕ) → get_or (drop 1 a) j 0 ≡ get_or a (suc j) 0
get_or-tail [] j = refl
get_or-tail (x ∷ a) j = refl

cmp_nil : (n : ℕ) → cmp_first n [] [] ≡ zero_sign
unfolding cmp_first
cmp_nil zero = refl
cmp_nil (suc n) = refl

cmp_step :
    (n : ℕ) (a b : Str)
    → cmp_first (suc n) a b ≡ (
        if head a == head b
        then cmp_first n (drop 1 a) (drop 1 b)
        else if ltb (head a) (head b)
        then negative
        else positive)
unfolding cmp_first
cmp_step n [] [] = sym (cmp_nil n)
cmp_step n [] (y ∷ b) = ground arith
cmp_step n (x ∷ a) [] = ground arith
cmp_step n (x ∷ a) (y ∷ b) = refl

Same-cons : (n : ℕ) (a b : Str) → head a ≡ head b → Same n (drop 1 a) (drop 1 b) → Same (suc n) a b
Same-cons n a b e s zero l = e
Same-cons n a b e s (suc j) l = sym (get_or-tail a j) ∙ s j (omega arith) ∙ get_or-tail b j

Before-cons :
    (n : ℕ) (a b : Str) → head a ≡ head b → Before n (drop 1 a) (drop 1 b) → Before (suc n) a b
Before-cons n a b e (i, l, s, d) =
    (suc i, omega arith, Same-cons i a b e s, omega (arith, d, get_or-tail a i, get_or-tail b i))

-- The three ends of the comparison.
data Compared (n : ℕ) (a b : Str) : Sign → Type 0 where
  less : Before n a b → Compared n a b negative
  equal : Same n a b → Compared n a b zero_sign
  more : Before n b a → Compared n a b positive

Compared-cons :
    {n : ℕ} {s : Sign} (a b : Str)
    → head a ≡ head b
    → Compared n (drop 1 a) (drop 1 b) s
    → Compared (suc n) a b s
Compared-cons {n} a b e (less h) = less (Before-cons n a b e h)
Compared-cons {n} a b e (equal h) = equal (Same-cons n a b e h)
Compared-cons {n} a b e (more h) = more (Before-cons n b a (sym e) h)

cmp_first-Compared : (n : ℕ) (a b : Str) → Compared n a b (cmp_first n a b)
cmp_first-Compared zero a b = unfold cmp_first in equal (λ j l. absurd (omega arith))
cmp_first-Compared (suc n) a b = rw (cmp_step n a b) (elim (Bool-cases (head a == head b)) [
  | inl e ↦ rw e (Compared-cons a b (ground arith) (cmp_first-Compared n (drop 1 a) (drop 1 b)))
  | inr e ↦ rw e (elim (Bool-cases (ltb (head a) (head b))) [
    | inl l ↦ rw l (less (0, omega arith, (λ j h. absurd (omega arith)), ground arith))
    | inr l ↦ rw l (more (0, omega arith, (λ j h. absurd (omega arith)), ground arith))
  ])
])

clash :
    (i k : ℕ) (a b : Str)
    → Same i a b
    → get_or a i 0 < get_or b i 0
    → Same k b a
    → get_or b k 0 < get_or a k 0
    → ⊥
clash i k a b s d t e = elim (Bool-cases (ltb i k)) [
  | inl l ↦ let q = t i (ground arith) in absurd (omega arith)
  | inr l ↦ elim (Bool-cases (i == k)) [
    | inl q ↦
        let w : i ≡ k = ground arith in
        let d' : get_or a k 0 < get_or b k 0 = rw (sym w) d in absurd (omega arith)
    | inr q ↦ let r = s k (ground arith) in absurd (omega arith)
  ]
]

not_before : (n : ℕ) (a b : Str) {s : Sign} → Compared n a b s → (s ≢ negative) ↔ (¬ Before n a b)
not_before n a b (less h) = (λ q. absurd (q refl), λ q. absurd (q h))
not_before n a b (equal h) = (λ q (i, l, s, d). let r = h i l in absurd (omega arith), λ q r. cc)
not_before n a b (more (k, m, t, e)) = (λ q (i, l, s, d). clash i k a b s d t e, λ q r. cc)

not_behind : (n : ℕ) (a b : Str) {s : Sign} → Compared n a b s → (s ≢ positive) ↔ (¬ Before n b a)
not_behind n a b (more h) = (λ q. absurd (q refl), λ q. absurd (q h))
not_behind n a b (equal h) = (λ q (i, l, s, d). let r = h i l in absurd (omega arith), λ q r. cc)
not_behind n a b (less (k, m, t, e)) = (λ q (i, l, s, d). clash k i a b t e s d, λ q r. cc)

-- A time's twelve digits: of a GeneralizedTime those behind the century.
pub data Time (c : Cert) (d : Elem) : Str → Type 0 where
  utc : d.tag ≢ 0x18 → 12 ≤ d.len → d.len ≤ 20 → Time c d (take 12 (der_read c d.off d.len))
  generalized :
      d.tag ≡ 0x18 → 14 ≤ d.len → d.len ≤ 20 → Time c d (take 12 (drop 2 (der_read c d.off d.len)))

-- The validity's SEQUENCE begins with two times.
pub record IsValidity (c : Cert) (nb na : Str) : Type 0 where
  pub field : Elem
  pub first : Elem
  pub second : Elem
  pub found : der_tbs_field c tbs_validity ≡ some field
  pub tagged : field.tag ≡ 0x30
  pub first_elem : der_elem c field.off (der_after field) ≡ some first
  pub first_time : Time c first nb
  pub second_elem : der_elem c (der_after first) (der_after field) ≡ some second
  pub second_time : Time c second na

-- The time is not before the first of the certificate's and not behind the second.
pub record IsValidAt (c : Cert) (now : Str) : Type 0 where
  pub not_before : Str
  pub not_after : Str
  pub validity : IsValidity c not_before not_after
  pub begun : ¬ Before 12 now not_before
  pub lasts : ¬ Before 12 not_after now

time12_iff : (c : Cert) (d : Elem) (s : Str) → (time12 c d ≡ some s) ↔ Time c d s
unfolding time12
time12_iff c d s = (
  λ q.
      let (t, q1) = require-eq-some (not (ltb 20 d.len)) _ q in
      elim (Bool-cases (d.tag == 0x18)) [
        | inl e ↦
            let (l, q2) = require-eq-some (not (ltb d.len 14)) _ (rw e at q1) in
            subst (Time c d) (some_inj q2)
              (generalized (ground arith) (ground arith) (ground arith))
        | inr e ↦
            let (l, q2) = require-eq-some (not (ltb d.len 12)) _ (rw e at q1) in
            subst (Time c d) (some_inj q2) (utc (ground arith) (ground arith) (ground arith))
      ],
  λ t. back t,
)
  where
    back : {r : Str} → Time c d r → time12 c d ≡ some r
    back (utc n l m) =
        let e : (d.tag == 0x18) ≡ false = ground arith in
        let f : ltb 20 d.len ≡ false = ground arith in
        let g : ltb d.len 12 ≡ false = ground arith in rw (f, e) (rw g refl)
    back (generalized n l m) =
        let e : (d.tag == 0x18) ≡ true = ground arith in
        let f : ltb 20 d.len ≡ false = ground arith in
        let g : ltb d.len 14 ≡ false = ground arith in rw (f, e) (rw g refl)

valid_dates_iff : (c : Cert) (nb na : Str) → (valid_dates c ≡ some (nb, na)) ↔ IsValidity c nb na
unfolding valid_dates
valid_dates_iff c nb na = (
  λ q.
      let (v, q0, q1) = >>=-eq-some (der_tbs_field c tbs_validity) _ q in
      let (t, q2) = require-eq-some (v.tag == 0x30) _ q1 in
      let (a, q3, q4) = >>=-eq-some (der_elem c v.off (der_after v)) _ q2 in
      let (x, q5, q6) = >>=-eq-some (time12 c a) _ q4 in
      let (b, q7, q8) = >>=-eq-some (der_elem c (der_after a) (der_after v)) _ q6 in
      let (y, q9, q10) = >>=-eq-some (time12 c b) _ q8 in
      let pair = some_inj q10 in
      record {
        field = v;
        first = a;
        second = b;
        found = q0;
        tagged = ground arith;
        first_elem = q3;
        first_time = (time12_iff c a nb).0 (q5 ∙ ap (λ (z : Str × Str). some (z.0)) pair);
        second_elem = q7;
        second_time = (time12_iff c b na).0 (q9 ∙ ap (λ (z : Str × Str). some (z.1)) pair);
      },
  λ i.
      let t : (i.field.tag == 0x30) ≡ true = rw (i.tagged) refl in
      rw (i.found) (
        rw t (
          rw (i.first_elem) (
            rw ((time12_iff c i.first nb).1 i.first_time)
              (rw (i.second_elem) (rw ((time12_iff c i.second na).1 i.second_time) refl))))),
)

signs_iff :
    (s t : Sign) → ((not_negative s && not_positive t) ≡ true) ↔ ((s ≢ negative) × (t ≢ positive))
signs_iff negative t = (λ q. cc, λ h. absurd (h.0 refl))
signs_iff zero_sign negative = (λ q. (λ e. cc, λ e. cc), λ h. refl)
signs_iff zero_sign zero_sign = (λ q. (λ e. cc, λ e. cc), λ h. refl)
signs_iff zero_sign positive = (λ q. cc, λ h. absurd (h.1 refl))
signs_iff positive negative = (λ q. (λ e. cc, λ e. cc), λ h. refl)
signs_iff positive zero_sign = (λ q. (λ e. cc, λ e. cc), λ h. refl)
signs_iff positive positive = (λ q. cc, λ h. absurd (h.1 refl))

within_iff :
    (now nb na : Str)
    → (within now (some (nb, na)) ≡ true) ↔ ((¬ Before 12 now nb) × (¬ Before 12 na now))
unfolding within cmp12
within_iff now nb na =
    let begun = not_before 12 now nb (cmp_first-Compared 12 now nb) in
    let lasts = not_behind 12 now na (cmp_first-Compared 12 now na) in
    let signs = signs_iff (cmp_first 12 now nb) (cmp_first 12 now na) in
    (λ q. let (a, b) = signs.0 q in (begun.0 a, lasts.0 b), λ h. signs.1 (begun.1 h.0, lasts.1 h.1))

-- `chain_valid_at` decides whether a time lies between the two of the certificate.
pub chain_valid_at-IsValidAt :
    (c : Cert) (now : Str) → (chain_valid_at c now ≡ true) ↔ IsValidAt c now
unfolding chain_valid_at
chain_valid_at-IsValidAt c now = (
  λ q. elim (Option-cases (valid_dates c)) [
    | inl e ↦ cc (rw e at q)
    | inr ((nb, na), e) ↦
        let w = (within_iff now nb na).0 (rw e at q) in
        record {
          not_before = nb;
          not_after = na;
          validity = (valid_dates_iff c nb na).0 e;
          begun = w.0;
          lasts = w.1;
        }
  ],
  λ i.
      rw ((valid_dates_iff c i.not_before i.not_after).1 i.validity)
        ((within_iff now i.not_before i.not_after).1 (i.begun, i.lasts)),
)
