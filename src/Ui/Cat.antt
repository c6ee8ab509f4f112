-- ===== src/Ui/Cat.antt =====
-- src/ui.c: `ui_cat` fills its buffer up to the end pointer and no further.
use mega_irc.Common.{
  ℕ, ◌≤◌, Option, none, some, [], ◌∷◌, ◌++◌, ◌≡◌, ◌∙◌, inl, inr, refl, sym, ap, arith, Str, ltb,
  length, length-append, Bool-cases, fill, fill-nil, fill_room, fill_full, length-fill, fill-fill,
}
use mega_irc.Ui.{Writer, put_char, cat_text, ui_cat}

-- The pointer has not passed the end.
abbrev pub InRoom : Writer → Type 0
InRoom w = length w.text ≤ w.room

abbrev pub or_empty : Option Str → Str
or_empty none = []
or_empty (some s) = s

-- The writer with as much of a text behind its own as there is room for.
abbrev pub filled : Writer → Str → Writer
filled w s = record w { text = fill w.room w.text s }

cat_text-filled : (w : Writer) (s : Str) → InRoom w → cat_text w s ≡ filled w s
unfolding cat_text
cat_text-filled w [] h = ap (λ t. record w { text = t }) (sym (fill-nil w.room w.text))
cat_text-filled w (c ∷ s) h = elim (Bool-cases (ltb (length w.text) w.room)) [
  | inl e ↦ rw e (
      cat_text-filled (record w { text = w.text ++ c ∷ [] }) s
        (ground (arith, length-append w.text (c ∷ [])))
      ∙ ap (λ t. record w { text = t }) (fill_room w.room w.text c s (ground arith)))
  | inr e ↦
      rw e (ap (λ t. record w { text = t }) (sym (fill_full w.room w.text (c ∷ s) (ground arith))))
]

-- With the pointer not past the end, what `ui_cat` appends is the longest beginning of the text that
-- fits; a null text appends nothing.
pub ui_cat-filled : (w : Writer) (s : Option Str) → InRoom w → ui_cat w s ≡ filled w (or_empty s)
unfolding ui_cat
ui_cat-filled w none h = ap (λ t. record w { text = t }) (sym (fill-nil w.room w.text))
ui_cat-filled w (some s) h = cat_text-filled w s h

pub put_char-filled : (w : Writer) (c : ℕ) → InRoom w → put_char w c ≡ filled w (c ∷ [])
put_char-filled w c h = same w c ∙ cat_text-filled w (c ∷ []) h
  where
    same : (w : Writer) (c : ℕ) → put_char w c ≡ cat_text w (c ∷ [])
    same w c = unfold put_char cat_text in refl

pub filled-InRoom : (w : Writer) (s : Str) → InRoom w → InRoom (filled w s)
filled-InRoom w s h = length-fill w.room w.text s h

-- Filling twice is filling once with both texts.
pub filled-filled : (w : Writer) (s t : Str) → filled (filled w s) t ≡ filled w (s ++ t)
filled-filled w s t = ap (λ x. record w { text = x }) (fill-fill w.room w.text s t)

-- Two texts behind one another.
pub ui_cat-ui_cat :
    (w : Writer) (s t : Option Str)
    → InRoom w
    → ui_cat (ui_cat w s) t ≡ filled w (or_empty s ++ or_empty t)
ui_cat-ui_cat w s t h =
    ap (λ x. ui_cat x t) (ui_cat-filled w s h)
    ∙ ui_cat-filled (filled w (or_empty s)) t (filled-InRoom w (or_empty s) h)
    ∙ filled-filled w (or_empty s) (or_empty t)
