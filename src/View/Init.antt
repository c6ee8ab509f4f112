-- ===== src/View/Init.antt =====
-- src/m65/view.c: the views at the start.
use native.Mathlib.Decide.{dec_lt}
use mega_irc.Common.{
  ℕ, zero, suc, ◌+◌, ◌≤◌, ◌<◌, Bool, true, false, ◌&&◌, [], ◌∷◌, ◌≡◌, inl, inr, refl, sym, ap,
  subst, ◌∙◌, arith, codes, ltb, if◌then◌else◌, Bool-cases,
}
use mega_irc.Log.{update}
use mega_irc.Log.Ring.{update_same, update_other}
use mega_irc.View.{View, Views, view_max, clear_slots, view_init}
use mega_irc.View.Use.{in_use, KeysOf, KeysMatch, shown_first}

clear_before : (v n : ℕ) (s : Views) (w : ℕ) → w < v → (clear_slots v n s).views w ≡ s.views w
unfolding clear_slots
clear_before v zero s w h = refl
clear_before v (suc n) s w h =
    clear_before (v + 1) n _ w (omega arith)
    ∙ update_other s.views v (record (s.views v) { used = false }) w (λ e. omega arith)

clear_used :
    (v n : ℕ) (s : Views) (w : ℕ) → v ≤ w → w < v + n → ((clear_slots v n s).views w).used ≡ false
unfolding clear_slots
clear_used v zero s w lo hi = absurd (omega arith)
clear_used v (suc n) s w lo hi = elim (dec_lt v w) [
  | yes y ↦ clear_used (v + 1) n _ w (omega arith) (omega arith)
  | no z ↦
      let e : v ≡ w = omega arith in
      ap (λ x. x.used) (clear_before (v + 1) n _ w (omega arith))
      ∙ subst (λ y. (update s.views v (record (s.views v) { used = false }) y).used ≡ false) e
          (ap (λ x. x.used) (update_same s.views v (record (s.views v) { used = false })))
]

none_in_use :
    (views : ℕ → View)
    → ((w : ℕ) → 0 < w → w < view_max → (views w).used ≡ false)
    → (v : ℕ) → in_use views v ≡ false
unfolding in_use
none_in_use views h v = elim (Bool-cases (ltb 0 v && ltb v view_max)) [
  | inr e ↦ rw e refl
  | inl e ↦
      let u : (views v).used ≡ false = h v (ground (arith, e)) (ground (arith, e)) in
      ground (arith, e, u)
]

-- From whatever state, `view_init` leaves the status view alone in use, on the first key and on the
-- screen.
pub view_init-KeysMatch : (s : Views) → KeysMatch (view_init s)
unfolding view_init KeysOf
view_init-KeysMatch s =
    let t : Views = clear_slots 0 view_max s in
    let status : View = record (t.views 0) { used = true; name = codes "status" } in
    let unused : (w : ℕ) → 0 < w → w < view_max → (update t.views 0 status w).used ≡ false =
      λ w lo hi.
        ap (λ (x : View). x.used) (update_other t.views 0 status w (λ e. omega arith))
        ∙ clear_used 0 view_max s w (omega arith) (omega arith) in
    shown_first (record t { order = 0 ∷ []; views = update t.views 0 status })
      (
        [],
        refl,
        λ v.
            ap (λ (b : Bool). if b then 1 else 0)
              (sym (none_in_use (update t.views 0 status) unused v)),
        refl,
      )
