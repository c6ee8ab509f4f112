-- ===== src/Input/Counts.antt =====
-- src/ircc.c, draw_counts: the row with the view's name, the clock and the counts.
use mega_irc.Common.{
  zero, suc, ◌+◌, ◌/◌, ◌%◌, Bool, true, ◌∷◌, ◌&&◌, ℕ, ◌-◌, ◌^◌, ◌≤◌, ◌<◌, some, [], ◌++◌, Str,
  codes, ltb, ◌==◌, if◌then◌else◌, length, take, fill, fill-fill, ◌≡◌, ◌∙◌, inl, inr, refl, sym, ap,
  arith, append-nil, append_assoc, length-take, Bool-cases,
}
use mega_irc.Ui.{Writer, ui_cat, ui_cat_num, ui_put_ulong}
use mega_irc.Ui.Cat.{ui_cat-filled}
use mega_irc.Ui.Decimal.{ui_cat_num-ui_put_ulong}
use mega_irc.Irc.{same_text}
use mega_irc.Irc.Command.{same_text_iff}
use mega_irc.View.{Views}
use mega_irc.Input.{Uptime}

-- `LOW_COUNTS_CAP`
abbrev pub counts_cap : ℕ
counts_cap = 112

unfoldable pub colon : ℕ → Str
colon n = if ltb n 10 then codes ":0" else codes ":"

unfoldable pub cat_back : ℕ → Writer → Writer
cat_back back p = if back == 0 then p else ui_cat_num (ui_cat p (some (codes "  back "))) back

unfoldable pub draw_counts : Views → Uptime → ℕ → ℕ → Str
unfolding colon cat_back
draw_counts v u rx_lines tx_lines =
    let view = v.views v.view_active in
    let p = ui_cat (record { text = []; room = counts_cap - 1 }) (some view.name) in
    let p = ui_cat_num (ui_cat p (some (codes "  up "))) u.up_h in
    let p = ui_cat_num (ui_cat p (some (colon u.up_m))) u.up_m in
    let p = ui_cat_num (ui_cat p (some (colon u.up_s))) u.up_s in
    let p = ui_cat_num (ui_cat p (some (codes "  rx "))) rx_lines in
    let p = ui_cat_num (ui_cat p (some (codes "  tx "))) tx_lines in (cat_back view.back p).text

-- What the row says, without the room it has.
abbrev pub back_text : ℕ → Str
back_text back = if back == 0 then [] else codes "  back " ++ ui_put_ulong back

-- A writer that has taken as much of a text as it has room for.
abbrev cut_at : ℕ → Str → Writer
cut_at n x = record { text = take n x; room = n }

take-fill : (n : ℕ) (x : Str) → fill n [] x ≡ take n x
take-fill n x = let z : n - 0 ≡ n = omega arith in ap (λ k. take k x) z

fill-take : (n : ℕ) (x y : Str) → fill n (take n x) y ≡ take n (x ++ y)
fill-take n x y =
    ap (λ t. fill n t y) (sym (take-fill n x)) ∙ fill-fill n [] x y ∙ take-fill n (x ++ y)

inside : (n : ℕ) (x : Str) → length (take n x) ≤ n
inside n x = omega (arith, length-take n x)

cat-cut_at : (n : ℕ) (x s : Str) → ui_cat (cut_at n x) (some s) ≡ cut_at n (x ++ s)
cat-cut_at n x s =
    ui_cat-filled (cut_at n x) (some s) (inside n x)
    ∙ ap (λ t. record { text = t; room = n }) (fill-take n x s)

-- A text and a number behind it.
pair-cut_at :
    (n : ℕ) (w : Writer) (x s : Str) (v : ℕ)
    → v < 2 ^ 32
    → w ≡ cut_at n x
    → ui_cat_num (ui_cat w (some s)) v ≡ cut_at n (x ++ (s ++ ui_put_ulong v))
pair-cut_at n w x s v h e =
    ap (λ w. ui_cat_num (ui_cat w (some s)) v) e
    ∙ ap (λ w. ui_cat_num w v) (cat-cut_at n x s)
    ∙ ui_cat_num-ui_put_ulong (cut_at n (x ++ s)) v h (inside n (x ++ s))
    ∙ cat-cut_at n (x ++ s) (ui_put_ulong v)
    ∙ ap (cut_at n) (append_assoc x s (ui_put_ulong v))

pair_as :
    {n : ℕ} {w : Writer} (x : Str) {s s' : Str}
    → s ≡ s'
    → w ≡ cut_at n (x ++ s)
    → w ≡ cut_at n (x ++ s')
pair_as {n} x p e = e ∙ ap (λ s. cut_at n (x ++ s)) p

back-cut_at :
    (n : ℕ) (x : Str) (back : ℕ)
    → back < 2 ^ 32
    → cat_back back (cut_at n x) ≡ cut_at n (x ++ back_text back)
unfolding cat_back
back-cut_at n x back h = elim (Bool-cases (back == 0)) [
  | inl e ↦ rw e (ap (cut_at n) (sym (append-nil x)))
  | inr e ↦ rw e (pair-cut_at n (cut_at n x) x (codes "  back ") back h refl)
]

-- A colon and two digits.
abbrev pub two_digits : ℕ → Str
two_digits n = b':' ∷ (b'0' + n / 10) ∷ (b'0' + n % 10) ∷ []

clock_part : ℕ → Str
clock_part n = colon n ++ ui_put_ulong n

-- The code's part of the clock is the same two digits, for the numbers below `n`.
agree_below : ℕ → Bool
agree_below zero = true
agree_below (suc n) = same_text (clock_part n) (two_digits n) && agree_below n

sixty_agree : agree_below 60 ≡ true
unfolding agree_below clock_part colon ui_put_ulong same_text
sixty_agree = refl

agree_lem : (m n : ℕ) → n < m → agree_below m ≡ true → clock_part n ≡ two_digits n
unfolding agree_below
agree_lem zero n h e = absurd (omega arith)
agree_lem (suc m) n h e = elim (Bool-cases (n == m)) [
  | inl q ↦
      let same : n ≡ m = ground arith in
      rw same ((same_text_iff (clock_part m) (two_digits m)).0 (ground arith))
  | inr q ↦ agree_lem m n (ground arith) (ground arith)
]

colon_lem : (n : ℕ) → n < 60 → colon n ++ ui_put_ulong n ≡ two_digits n
unfolding clock_part
colon_lem n h = agree_lem 60 n h sixty_agree

-- With minutes and seconds below 60, the counts of 32 bits and a view's offset of 16, the row is the
-- beginning of the text that fits into 111 bytes: the view's name, the clock as hours and twice two
-- digits, the counts of lines and, where the view is scrolled back, how far.
pub draw_counts_lem :
    (v : Views) (u : Uptime) (rx_lines tx_lines : ℕ)
    → u.up_h < 2 ^ 8
    → u.up_m < 60
    → u.up_s < 60
    → rx_lines < 2 ^ 32
    → tx_lines < 2 ^ 32
    → (v.views v.view_active).back < 2 ^ 16
    → draw_counts v u rx_lines tx_lines
      ≡ take 111 (
          ((((((v.views v.view_active).name ++ (codes "  up " ++ ui_put_ulong u.up_h))
                  ++ two_digits u.up_m)
                ++ two_digits u.up_s)
              ++ (codes "  rx " ++ ui_put_ulong rx_lines))
            ++ (codes "  tx " ++ ui_put_ulong tx_lines))
          ++ back_text (v.views v.view_active).back)
unfolding draw_counts
draw_counts_lem v u rx tx h m s r t b =
    let view = v.views v.view_active in
    let name = cat-cut_at 111 [] view.name in
    let hours = pair-cut_at 111 _ _ (codes "  up ") u.up_h (omega arith) name in
    let minutes =
      pair_as _ (colon_lem u.up_m m)
        (pair-cut_at 111 _ _ (colon u.up_m) u.up_m (omega arith) hours) in
    let seconds =
      pair_as _ (colon_lem u.up_s s)
        (pair-cut_at 111 _ _ (colon u.up_s) u.up_s (omega arith) minutes) in
    let received = pair-cut_at 111 _ _ (codes "  rx ") rx r seconds in
    let sent = pair-cut_at 111 _ _ (codes "  tx ") tx t received in
    ap (λ w. w.text) (ap (cat_back view.back) sent ∙ back-cut_at 111 _ view.back (omega arith))
