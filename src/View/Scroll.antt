-- ===== src/View/Scroll.antt =====
-- src/m65/view.c: scrolling stops at the oldest row, and the area is always as full as it can be.
use mega_irc.Common.{
  ℕ, ◌+◌, ◌-◌, ◌≤◌, ◌<◌, ◌≡◌, min, arith, inl, inr, Bool-cases, ltb, if◌then◌else◌, ap,
}
use mega_irc.Log.{log_count}
use mega_irc.Log.Ring.{update_same}
use mega_irc.View.{Views, Rows, scrolled, clamped, shown_rows, view_scroll, redraw}

-- How far back the view on the screen is.
abbrev pub back_of : Views → ℕ
back_of s = (s.views s.view_active).back

clamped_bound : (count rows back : ℕ) → clamped count rows back ≤ count - rows
unfolding clamped
clamped_bound count rows back = ground arith

view_scroll-back :
    (s : Views) (rows : ℕ) (by : Rows)
    → back_of (view_scroll s rows by)
      ≡ clamped (log_count s.log s.view_active) rows (scrolled (back_of s) by)
unfolding view_scroll
view_scroll-back s rows by = ap (λ v. v.back) (update_same s.views s.view_active _)

shown_rows_full :
    (rows count back : ℕ)
    → back ≤ count - rows
    → let (top, shown) = shown_rows rows (if ltb back count then count - back else 0) in
      (shown ≡ min rows count) × (top + shown + back ≡ count)
unfolding shown_rows
shown_rows_full rows count back h =
    let a : (if ltb back count then count - back else 0) ≡ count - back = ground arith in
    elim (Bool-cases (ltb rows (count - back))) [
      | inl e ↦
          (let l : rows < count - back = ground (arith, e) in rw (a, e) (omega arith, omega arith))
      | inr e ↦
          let l : count - back ≤ rows = ground (arith, e) in rw (a, e) (omega arith, omega arith)
    ]

-- After any scrolling of the view on the screen, up or down and however far, it is back by no more
-- rows than there are above the area; `redraw` then shows as many rows as there are and fit, and below the last of them there are just as many as it is back.
view_scroll-redraw :
    (s : Views) (rows : ℕ) (by : Rows)
    → let t = view_scroll s rows by in
      let count = log_count s.log s.view_active in
      let (top, shown) = redraw t rows in
      (back_of t ≤ count - rows) × (shown ≡ min rows count) × (top + shown + back_of t ≡ count)
unfolding redraw view_scroll
view_scroll-redraw s rows by =
    let t = view_scroll s rows by in
    let count = log_count s.log s.view_active in
    let b : back_of t ≤ count - rows =
      rw (view_scroll-back s rows by) (clamped_bound count rows (scrolled (back_of s) by)) in
    let r = shown_rows_full rows count (back_of t) b in (b, r.0, r.1)
