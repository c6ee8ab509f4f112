-- ===== src/View/Use.antt =====
-- src/m65/view.c: what it means that the keys' order and the slots in use go together.
use mega_irc.Common.{
  some_inj, ℕ, zero, suc, ◌+◌, ◌≤◌, ◌<◌, Bool, true, false, ◌&&◌, ◌||◌, not, some, List, [], ◌∷◌,
  ◌++◌, ◌≡◌, ◌≢◌, inl, inr, refl, sym, ap, subst, ◌∙◌, arith, ltb, leb, ◌==◌, if◌then◌else◌,
  Bool-cases,
}
use mega_irc.Log.{update}
use mega_irc.Log.Ring.{update_same, update_other}
use mega_irc.View.{View, Views, view_max, first_slot, step_down, view_show}

-- How often a slot stands in the order.
abbrev pub count_of : ℕ → List ℕ → ℕ
count_of v [] = 0
count_of v (o ∷ os) = (if o == v then 1 else 0) + count_of v os

-- A slot for a channel that is in use.
unfoldable pub in_use : (ℕ → View) → ℕ → Bool
in_use views v = ltb 0 v && ltb v view_max && (views v).used

-- The first key is the status view's, and behind it every channel's slot in use has exactly one key
-- and no other slot has any.
unfoldable pub KeysOf : Views → Type 0
KeysOf s =
    (rest : List ℕ) × (s.order ≡ 0 ∷ rest)
    × ((v : ℕ) → count_of v rest ≡ (if in_use s.views v then 1 else 0))
    × ((s.views 0).used ≡ true)

-- Besides, the view on the screen is in use.
unfoldable pub KeysMatch : Views → Type 0
KeysMatch s = KeysOf s × ((s.views s.view_active).used ≡ true)

pub count_of-append :
    (v : ℕ) (xs : List ℕ) (w : ℕ)
    → count_of v (xs ++ w ∷ []) ≡ count_of v xs + (if w == v then 1 else 0)
count_of-append v [] w = omega arith
count_of-append v (o ∷ xs) w = omega (arith, count_of-append v xs w)

pub first_slot-some :
    (test : ℕ → Bool) (v n : ℕ) {w : ℕ}
    → first_slot test v n ≡ some w
    → (v ≤ w) × (w < v + n) × (test w ≡ true)
unfolding first_slot
first_slot-some test v zero h = cc
first_slot-some test v (suc n) {w} h = elim (Bool-cases (test v)) [
  | inl e ↦
      let same : v ≡ w = some_inj (rw e at h) in
      (omega arith, omega arith, subst (λ u. test u ≡ true) same e)
  | inr e ↦
      let (lo, hi, t) = first_slot-some test (v + 1) n (rw e at h) in (omega arith, omega arith, t)
]

pub step_down-split :
    (v : ℕ) (os : List ℕ)
    → 1 ≤ count_of v os
    → (xs : List ℕ) × (ys : List ℕ) × (os ≡ xs ++ v ∷ ys) × (step_down v os ≡ xs ++ ys)
unfolding step_down
step_down-split v [] h = absurd (omega arith)
step_down-split v (o ∷ []) h =
    let same : o ≡ v = ground arith in ([], [], ap (λ x. x ∷ []) same, refl)
step_down-split v (o ∷ p ∷ os) h = elim (Bool-cases (o == v)) [
  | inl e ↦ let same : o ≡ v = ground arith in rw e ([], p ∷ os, ap (λ x. x ∷ p ∷ os) same, refl)
  | inr e ↦
      let (xs, ys, a, b) = step_down-split v (p ∷ os) (ground (arith, e, h)) in
      rw e (o ∷ xs, ys, ap (◌∷◌ o) a, ap (◌∷◌ o) b)
]

pub count_of-split :
    (w v : ℕ) (xs ys : List ℕ)
    → count_of w (xs ++ v ∷ ys) ≡ count_of w (xs ++ ys) + (if v == w then 1 else 0)
count_of-split w v [] ys = omega arith
count_of-split w v (x ∷ xs) ys = omega (arith, count_of-split w v xs ys)

pub other_slot :
    (views : ℕ → View) (v w : ℕ) (x : View) → v ≢ w → in_use (update views v x) w ≡ in_use views w
unfolding in_use
other_slot views v w x ne =
    ap (λ y. ltb 0 w && ltb w view_max && y.used) (update_other views v x w ne)

own_use :
    (views : ℕ → View) (v : ℕ) (x : View)
    → 0 < v
    → v < view_max
    → in_use (update views v x) v ≡ x.used
unfolding in_use
own_use views v x lo hi =
    let p : ltb 0 v ≡ true = ground arith in
    let q : ltb v view_max ≡ true = ground arith in rw (update_same views v x, p, q) refl

pub used_at : (views : ℕ → View) (v : ℕ) → 0 < v → v < view_max → in_use views v ≡ (views v).used
unfolding in_use
used_at views v lo hi =
    let p : ltb 0 v ≡ true = ground arith in
    let q : ltb v view_max ≡ true = ground arith in rw (p, q) refl

-- A slot that is taken into use is one more.
pub use_more :
    (views : ℕ → View) (v w : ℕ) (x : View)
    → 0 < v
    → v < view_max
    → (views v).used ≡ false
    → x.used ≡ true
    → (if in_use (update views v x) w then 1 else 0)
      ≡ (if in_use views w then 1 else 0) + (if v == w then 1 else 0)
use_more views v w x lo hi f u = elim (Bool-cases (v == w)) [
  | inr e ↦
      let ne : v ≢ w = λ c. ground (arith, e, c) in rw (e, other_slot views v w x ne) (omega arith)
  | inl e ↦
      let same : v ≡ w = ground (arith, e) in
      let a : in_use (update views v x) w ≡ true =
        subst (λ y. in_use (update views v x) y ≡ true) same (own_use views v x lo hi ∙ u) in
      let b : in_use views w ≡ false =
        subst (λ y. in_use views y ≡ false) same (used_at views v lo hi ∙ f) in
      rw (a, b, e) refl
]

-- A slot that goes out of use is one less.
pub use_less :
    (views : ℕ → View) (v w : ℕ) (x : View)
    → 0 < v
    → v < view_max
    → (views v).used ≡ true
    → x.used ≡ false
    → (if in_use views w then 1 else 0)
      ≡ (if in_use (update views v x) w then 1 else 0) + (if v == w then 1 else 0)
use_less views v w x lo hi f u = elim (Bool-cases (v == w)) [
  | inr e ↦
      let ne : v ≢ w = λ c. ground (arith, e, c) in rw (e, other_slot views v w x ne) (omega arith)
  | inl e ↦
      let same : v ≡ w = ground (arith, e) in
      let a : in_use (update views v x) w ≡ false =
        subst (λ y. in_use (update views v x) y ≡ false) same (own_use views v x lo hi ∙ u) in
      let b : in_use views w ≡ true =
        subst (λ y. in_use views y ≡ true) same (used_at views v lo hi ∙ f) in
      rw (a, b, e) refl
]

-- A used slot stays used when an unused one is written.
pub still_used :
    (views : ℕ → View) (v w : ℕ) (x : View)
    → (views w).used ≡ true
    → (v ≡ w → x.used ≡ true)
    → (update views v x w).used ≡ true
still_used views v w x h k = elim (Bool-cases (v == w)) [
  | inl e ↦ (let same : v ≡ w = ground (arith, e) in rw e (k same))
  | inr e ↦ rw e h
]

pub same_use :
    (us vs : ℕ → View) → ((w : ℕ) → (us w).used ≡ (vs w).used) → (w : ℕ) → in_use us w ≡ in_use vs w
unfolding in_use
same_use us vs h w = ap (λ b. ltb 0 w && ltb w view_max && b) (h w)

pub read_use :
    (views : ℕ → View) (v w : ℕ)
    → (update views v (record (views v) { unread = false }) w).used ≡ (views w).used
read_use views v w = elim (Bool-cases (v == w)) [
  | inl e ↦ (let same : v ≡ w = ground (arith, e) in rw e (ap (λ y. (views y).used) same))
  | inr e ↦ rw e refl
]

-- The views with the status view on the screen.
status_first : Views → Views
status_first s = record s {
  view_active = 0;
  views = update s.views 0 (record (s.views 0) { unread = false });
}

status_first-KeysMatch : (s : Views) → KeysOf s → KeysMatch (status_first s)
unfolding KeysMatch KeysOf status_first
status_first-KeysMatch s (rest, o, c, z) =
    let u = read_use s.views 0 in
    let vs : ℕ → View = update s.views 0 (record (s.views 0) { unread = false }) in
    (
      (
        rest,
        o,
        λ w. c w ∙ ap (λ (b : Bool). if b then 1 else 0) (sym (same_use vs s.views u w)),
        u 0 ∙ z,
      ),
      u 0 ∙ z,
    )

view_show-status_first : (s : Views) → KeysOf s → view_show s 0 ≡ status_first s
unfolding view_show status_first KeysOf
view_show-status_first s k =
    let z : (s.views 0).used ≡ true = k.3 in
    let b : (leb view_max 0 || not (s.views 0).used) ≡ false = ap not z in
    ap (λ (x : Bool). if x then s else status_first s) b

-- Showing the status view keeps the keys, and what is on the screen is in use.
pub shown_first : (s : Views) → KeysOf s → KeysMatch (view_show s 0)
shown_first s k = subst KeysMatch (sym (view_show-status_first s k)) (status_first-KeysMatch s k)
