-- ===== src/Ui/Decimal.antt =====
-- src/ui.c: the decimal writer that subtracts powers of ten writes what the dividing one writes.
use mega_irc.Common.{
  ℕ, zero, suc, ◌+◌, ◌-◌, ◌*◌, ◌/◌, ◌%◌, ◌^◌, ◌≤◌, ◌<◌, Bool, true, false, not, ◌||◌, some, ◌⊎◌,
  List, [], ◌∷◌, ◌++◌, ◌≡◌, ◌≢◌, ◌∙◌, inl, inr, refl, sym, ap, arith, Str, leb, ◌==◌, if◌then◌else◌,
  length, Bool-cases,
}
use native.Mathlib.Nat.{
  pow-suc, mod-eq_of_lt, div-eq_of_lt, mod-eq-sub-mod, div-eq-sub-div, div-add-mod', mod-lt,
  zero-add,
}
use native.Mathlib.Decide.{dec_lt}
use mega_irc.Ui.{
  Writer, put_char, ui_cat, take_powers, cat_digits, ui_cat_num, put_digits, ui_put_ulong,
}
use mega_irc.Ui.Cat.{InRoom, filled, put_char-filled, ui_cat-filled, filled-InRoom, filled-filled}

-- The loop of subtractions divides.
take_powers_lem :
    (f pow v d : ℕ)
    → 0 < pow
    → v < suc f * pow
    → d + f < 2 ^ 8
    → take_powers f pow v d ≡ (v % pow, d + v / pow)
unfolding take_powers
take_powers_lem zero pow v d p h k =
    let h' : v < pow = omega arith in rw (mod-eq_of_lt h', div-eq_of_lt h') (ground arith)
take_powers_lem (suc f) pow v d p h k = elim (Bool-cases (leb pow v)) [
  | inl e ↦
      let le : pow ≤ v = ground arith in
      let ih = take_powers_lem f pow (v - pow) ((d + 1) % 2 ^ 8) p (omega arith) (omega arith) in
      rw e (ih ∙ ground (arith, mod-eq-sub-mod le, div-eq-sub-div p le))
  | inr e ↦
      let lt : v < pow = ground arith in rw e (rw (mod-eq_of_lt lt, div-eq_of_lt lt) (ground arith))
]

-- The last `k` digits of a number, with leading zeros.
abbrev digits_at : ℕ → ℕ → Str
digits_at zero v = []
digits_at (suc k) v = digits_at k (v / 10) ++ (b'0' + v % 10) ∷ []

pow_pos : (k : ℕ) → 0 < 10 ^ k
pow_pos zero = omega arith
pow_pos (suc k) = omega (arith, pow-suc 10 k, pow_pos k)

-- The first of them.
digits_at_front :
    (k d r : ℕ)
    → d < 10
    → r < 10 ^ k
    → digits_at (suc k) (d * 10 ^ k + r) ≡ (b'0' + d) ∷ digits_at k r
digits_at_front zero d r h l = ap (λ x. x ∷ []) (let z : 10 ^ 0 ≡ 1 = refl in omega arith)
digits_at_front (suc k) d r h l =
    let high : (d * 10 ^ suc k + r) / 10 ≡ d * 10 ^ k + r / 10 = rw (pow-suc 10 k) (omega arith) in
    let low : (d * 10 ^ suc k + r) % 10 ≡ r % 10 = rw (pow-suc 10 k) (omega arith) in
    let l' : r / 10 < 10 ^ k = omega (arith, pow-suc 10 k) in
    rw (high, low) (ap (λ t. t ++ (b'0' + r % 10) ∷ []) (digits_at_front k d (r / 10) h l'))

-- The powers of ten from the `k`-th down to the first.
abbrev powers : ℕ → List ℕ
powers zero = []
powers (suc k) = 10 ^ suc k ∷ powers k

divide :
    (k v : ℕ)
    → v < 10 ^ suc (suc k)
    → take_powers 9 (10 ^ suc k) v 0 ≡ (v % 10 ^ suc k, v / 10 ^ suc k)
divide k v h =
    take_powers_lem 9 (10 ^ suc k) v 0 (pow_pos (suc k)) (omega (arith, pow-suc 10 (suc k)))
      (omega arith)
    ∙ ap (λ d. (v % 10 ^ suc k, d)) (zero-add (v / 10 ^ suc k))

-- One round of the loop over the powers.
cat_digits-powers :
    (k : ℕ) (w : Writer) (v : ℕ) (started : Bool)
    → v < 10 ^ suc (suc k)
    → let d = v / 10 ^ suc k in
      let shown = not (d == 0) || started in
      cat_digits (powers (suc k)) w v started
      ≡ cat_digits
          (powers k)
          (if shown then put_char w ((b'0' + d) % 2 ^ 8) else w)
          (v % 10 ^ suc k)
          shown
unfolding cat_digits
cat_digits-powers k w v started h =
    ap
      (λ (t : ℕ × ℕ).
        let shown = not (t.1 == 0) || started in
        cat_digits (powers k) (if shown then put_char w ((b'0' + t.1) % 2 ^ 8) else w) t.0 shown)
      (divide k v h)

last_digit :
    (w : Writer) (v : ℕ) (started : Bool)
    → v < 10 ^ 1
    → InRoom w
    → cat_digits (powers 0) w v started ≡ filled w (digits_at 1 v)
unfolding cat_digits
last_digit w v started h r =
    let e : (b'0' + v % 2 ^ 8) % 2 ^ 8 ≡ b'0' + v % 10 = omega arith in
    rw e (put_char-filled w (b'0' + v % 10) r)

div_small : (v pow : ℕ) → 0 < pow → v < 10 * pow → v / pow < 10
div_small v pow p h = grind (arith, div-add-mod' v pow)

digits_split :
    (k v : ℕ)
    → v < 10 ^ suc (suc k)
    → (v / 10 ^ suc k < 10)
      × (v % 10 ^ suc k < 10 ^ suc k)
      × ((b'0' + v / 10 ^ suc k) ∷ digits_at (suc k) (v % 10 ^ suc k) ≡ digits_at (suc (suc k)) v)
digits_split k v h =
    let pow : ℕ = 10 ^ suc k in
    let m : v % pow < pow = mod-lt v (pow_pos (suc k)) in
    let d : v / pow < 10 = div_small v pow (pow_pos (suc k)) (omega (arith, pow-suc 10 (suc k))) in
    (
      d,
      m,
      sym (digits_at_front (suc k) (v / pow) (v % pow) d m)
          ∙ ap (digits_at (suc (suc k))) (div-add-mod' v pow),
    )

-- A digit that is shown, and those behind it.
round_shown :
    (k : ℕ) (w : Writer) (v : ℕ)
    → ((u : Writer) (n : ℕ)
        → n < 10 ^ suc k
        → InRoom u
        → cat_digits (powers k) u n true ≡ filled u (digits_at (suc k) n))
    → v < 10 ^ suc (suc k)
    → InRoom w
    → cat_digits (powers k) (put_char w ((b'0' + v / 10 ^ suc k) % 2 ^ 8)) (v % 10 ^ suc k) true
      ≡ filled w (digits_at (suc (suc k)) v)
round_shown k w v ih h r =
    let (d, m, split) = digits_split k v h in
    let c : ℕ = b'0' + v / 10 ^ suc k in
    let e : c % 2 ^ 8 ≡ c = omega arith in
    ap (λ x. cat_digits (powers k) (put_char w x) (v % 10 ^ suc k) true) e
    ∙ ap (λ u. cat_digits (powers k) u (v % 10 ^ suc k) true) (put_char-filled w c r)
    ∙ ih (filled w (c ∷ [])) (v % 10 ^ suc k) m (filled-InRoom w (c ∷ []) r)
    ∙ filled-filled w (c ∷ []) (digits_at (suc k) (v % 10 ^ suc k))
    ∙ ap (filled w) split

or_true : (b : Bool) → (b || true) ≡ true
or_true true = refl
or_true false = refl

-- Once a digit is out, all that follow are written.
cat_digits_started :
    (k : ℕ) (w : Writer) (v : ℕ)
    → v < 10 ^ suc k
    → InRoom w
    → cat_digits (powers k) w v true ≡ filled w (digits_at (suc k) v)
cat_digits_started zero w v h r = last_digit w v true h r
cat_digits_started (suc k) w v h r =
    cat_digits-powers k w v true h
    ∙ ap
        (λ b.
          cat_digits (powers k) (if b then put_char w ((b'0' + v / 10 ^ suc k) % 2 ^ 8) else w)
            (v % 10 ^ suc k) b)
        (or_true (not (v / 10 ^ suc k == 0)))
    ∙ round_shown k w v (cat_digits_started k) h r

put_digits-digits_at :
    (f k v : ℕ)
    → k < f
    → (k ≡ 0) ⊎ (10 ^ k ≤ v)
    → v < 10 ^ suc k
    → put_digits f v ≡ digits_at (suc k) v
unfolding put_digits
put_digits-digits_at zero k v h l u = absurd (omega arith)
put_digits-digits_at (suc f) zero v h l u =
    let small : v / 10 ≡ 0 = let z : 10 ^ 1 ≡ 10 = refl in omega arith in rw small refl
put_digits-digits_at (suc f) (suc k) v h l u =
    let big : 10 ^ suc k ≤ v = ground arith in
    let some_left : (v / 10 == 0) ≡ false = ground (arith, pow-suc 10 k, pow_pos k) in
    rw some_left (
      ap (λ t. t ++ (b'0' + v % 10) ∷ [])
        (put_digits-digits_at f k (v / 10) (omega arith) (inr (omega (arith, pow-suc 10 k)))
          (omega (arith, pow-suc 10 (suc k)))))

ulong-digits_at :
    (k v : ℕ)
    → k < 11
    → (k ≡ 0) ⊎ (10 ^ k ≤ v)
    → v < 10 ^ suc k
    → ui_put_ulong v ≡ digits_at (suc k) v
unfolding ui_put_ulong
ulong-digits_at k v = put_digits-digits_at 11 k v

no_digit : (v pow : ℕ) → 0 < pow → v / pow ≡ 0 → v < pow
no_digit v pow p e = grind (arith, div-add-mod' v pow, mod-lt v p)

some_digit : (v pow : ℕ) → v / pow ≢ 0 → pow ≤ v
some_digit v pow n = elim (dec_lt v pow) [
  | yes h ↦ absurd (n (div-eq_of_lt h))
  | no h ↦ omega arith
]

cat_digits_fresh :
    (k : ℕ) (w : Writer) (v : ℕ)
    → k < 11
    → v < 10 ^ suc k
    → InRoom w
    → cat_digits (powers k) w v false ≡ filled w (ui_put_ulong v)
cat_digits_fresh zero w v b h r =
    last_digit w v false h r ∙ ap (filled w) (sym (ulong-digits_at zero v b (inl refl) h))
cat_digits_fresh (suc k) w v b h r = elim (Bool-cases (v / 10 ^ suc k == 0)) [
  | inl e ↦
      let lt : v < 10 ^ suc k = no_digit v (10 ^ suc k) (pow_pos (suc k)) (ground arith) in
      cat_digits-powers k w v false h
      ∙ rw e (rw (mod-eq_of_lt lt) (cat_digits_fresh k w v (omega arith) lt r))
  | inr e ↦
      let big : 10 ^ suc k ≤ v = some_digit v (10 ^ suc k) (ground arith) in
      cat_digits-powers k w v false h
      ∙ rw e (
          round_shown k w v (cat_digits_started k) h r
          ∙ ap (filled w) (sym (ulong-digits_at (suc k) v b (inr big) h)))
]

-- Wherever the pointer stands up to the end, a 32-bit number comes out of the subtracting writer as it does out of the
-- dividing one, cut where the buffer ends.
pub ui_cat_num-ui_put_ulong :
    (w : Writer) (v : ℕ)
    → v < 2 ^ 32
    → length w.text ≤ w.room
    → ui_cat_num w v ≡ ui_cat w (some (ui_put_ulong v))
unfolding ui_cat_num
ui_cat_num-ui_put_ulong w v h r =
    cat_digits_fresh 9 w v (omega arith) (let z : 10 ^ 10 ≡ 10000000000 = refl in omega arith) r
    ∙ sym (ui_cat-filled w (some (ui_put_ulong v)) r)
