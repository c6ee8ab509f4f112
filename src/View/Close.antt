-- ===== src/View/Close.antt =====
-- src/m65/view.c: closing a view keeps the keys and the slots in use together, and leaves no gap.
use mega_irc.Common.{
  ℕ, ◌+◌, ◌≤◌, ◌<◌, Bool, true, false, ◌||◌, not, List, [], ◌∷◌, ◌++◌, ◌≡◌, inl, inr, refl, sym, ap,
  ◌∙◌, arith, leb, ◌==◌, if◌then◌else◌, Bool-cases,
}
use mega_irc.Log.{update}
use mega_irc.View.{View, Views, view_max, step_down, close_order, view_close, view_show}
use mega_irc.View.Use.{
  shown_first, count_of, in_use, KeysOf, KeysMatch, step_down-split, count_of-split, used_at,
  use_less, still_used, same_use, read_use,
}

close_order-cons :
    (v : ℕ) (rest : List ℕ) → 1 ≤ count_of v rest → close_order v (0 ∷ rest) ≡ 0 ∷ step_down v rest
unfolding close_order
close_order-cons v [] h = absurd (omega arith)
close_order-cons v (o ∷ os) h = refl

-- What `view_close` makes of the slots and the order, before it shows anything.
closed : Views → ℕ → Views
closed s v = record s {
  views = update s.views v (record (s.views v) { used = false });
  order = close_order v s.order;
}

has_key :
    (s : Views) (v : ℕ)
    → KeysOf s
    → 0 < v
    → v < view_max
    → (s.views v).used ≡ true
    → (rest : List ℕ) × (s.order ≡ 0 ∷ rest) × (1 ≤ count_of v rest)
unfolding KeysOf
has_key s v (rest, o, c, z) lo hi u =
    let b : in_use s.views v ≡ true = used_at s.views v lo hi ∙ u in
    (rest, o, (let n = c v in ground (arith, n, b)))

closed-KeysOf :
    (s : Views) (v : ℕ)
    → KeysOf s
    → 0 < v
    → v < view_max
    → (s.views v).used ≡ true
    → KeysOf (closed s v)
unfolding KeysOf closed
closed-KeysOf s v (rest, o, c, z) lo hi u =
    let b : in_use s.views v ≡ true = used_at s.views v lo hi ∙ u in
    let n : 1 ≤ count_of v rest = (let m = c v in ground (arith, m, b)) in
    let (xs, ys, a, d) = step_down-split v rest n in
    (
      xs ++ ys,
      ap (close_order v) o ∙ close_order-cons v rest n ∙ ap (◌∷◌ 0) d,
      λ w.
          (let e1 : count_of w rest ≡ count_of w (xs ++ ys) + (if v == w then 1 else 0) =
              ap (count_of w) a ∙ count_of-split w v xs ys in
            let e2 = c w in
            let e3 = use_less s.views v w (record (s.views v) { used = false }) lo hi u refl in
            omega (arith, e1, e2, e3)),
      still_used s.views v 0 _ z (λ e. absurd (omega arith)),
    )

-- Closing a view keeps the keys and the slots in use together, whichever slot it is asked for.
pub view_close-KeysMatch : (s : Views) (v : ℕ) → KeysMatch s → KeysMatch (view_close s v)
unfolding view_close KeysMatch closed
view_close-KeysMatch s v k = elim (Bool-cases (v == 0 || leb view_max v || not (s.views v).used)) [
  | inl e ↦ rw e k
  | inr e ↦
      let lo : 0 < v = ground (arith, e) in
      let hi : v < view_max = ground (arith, e) in
      let u : (s.views v).used ≡ true = ground (arith, e) in
      rw e (elim (Bool-cases (s.view_active == v)) [
        | inl f ↦ rw f (shown_first (closed s v) (closed-KeysOf s v k.0 lo hi u))
        | inr f ↦ rw f (
          closed-KeysOf s v k.0 lo hi u,
          still_used s.views v s.view_active _ k.1 (λ e'. absurd (ground (arith, f, e'))),
        )
      ])
]

-- Showing a view keeps them together, whichever slot it is asked for.
pub view_show-KeysMatch : (s : Views) (v : ℕ) → KeysMatch s → KeysMatch (view_show s v)
unfolding view_show KeysMatch KeysOf
view_show-KeysMatch s v ((rest, o, c, z), a) =
    elim (Bool-cases (leb view_max v || not (s.views v).used)) [
      | inl e ↦ rw e ((rest, o, c, z), a)
      | inr e ↦
          let u : (s.views v).used ≡ true = ground (arith, e) in
          let r = read_use s.views v in
          let vs : ℕ → View = update s.views v (record (s.views v) { unread = false }) in
          rw e (
            (
              rest,
              o,
              λ w. c w ∙ ap (λ (b : Bool). if b then 1 else 0) (sym (same_use vs s.views r w)),
              r 0 ∙ z,
            ),
            r v ∙ u,
          )
    ]

show_order : (s : Views) (v : ℕ) → (view_show s v).order ≡ s.order
unfolding view_show
show_order s v = elim (Bool-cases (leb view_max v || not (s.views v).used)) [
  | inl e ↦ rw e refl
  | inr e ↦ rw e refl
]

view_close-order :
    (s : Views) (v : ℕ)
    → 0 < v
    → v < view_max
    → (s.views v).used ≡ true
    → (view_close s v).order ≡ close_order v s.order
unfolding view_close closed
view_close-order s v lo hi u =
    let b : (v == 0 || leb view_max v || not (s.views v).used) ≡ false = ground (arith, u) in
    rw b (elim (Bool-cases (s.view_active == v)) [
      | inl f ↦ rw f (show_order (closed s v) 0)
      | inr f ↦ rw f refl
    ])

-- With the keys and the slots in use together, closing a channel's view takes its key out of the
-- order and leaves the other keys as they are: those behind it step down by one.
pub view_close_order :
    (s : Views) (v : ℕ)
    → KeysMatch s
    → 0 < v
    → v < view_max
    → (s.views v).used ≡ true
    → (xs : List ℕ) × (ys : List ℕ) × (s.order ≡ 0 ∷ (xs ++ v ∷ ys))
      × ((view_close s v).order ≡ 0 ∷ (xs ++ ys))
unfolding KeysMatch
view_close_order s v k lo hi u =
    let (rest, o, n) = has_key s v k.0 lo hi u in
    let (xs, ys, a, d) = step_down-split v rest n in
    (
      xs,
      ys,
      o ∙ ap (◌∷◌ 0) a,
      view_close-order s v lo hi u
          ∙ ap (close_order v) o
          ∙ close_order-cons v rest n
          ∙ ap (◌∷◌ 0) d,
    )
