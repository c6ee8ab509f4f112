-- ===== src/Ui/Row.antt =====
-- src/ui.c: a padded row is 79 bytes, whatever its pieces.
use mega_irc.Common.{
  ℕ, zero, suc, ◌-◌, Option, [], ◌∷◌, ◌++◌, ◌≡◌, ◌∙◌, refl, sym, ap, arith, Str, length,
  length-append, length-replicate, length-take, take, replicate, append_assoc, append-nil,
}
use mega_irc.Ui.{row_cap, pad_row, build_row}
use mega_irc.Ui.Cat.{or_empty, ui_cat-ui_cat}

pad_row-replicate : (k : ℕ) (row : Str) → pad_row k row ≡ row ++ replicate k b' '
unfolding pad_row
pad_row-replicate zero row = sym (append-nil row)
pad_row-replicate (suc k) row =
    pad_row-replicate k (row ++ b' ' ∷ []) ∙ append_assoc row (b' ' ∷ []) (replicate k b' ')

row_text :
    (a b : Option Str)
    → (row : Str) → row ≡ take row_cap (or_empty a ++ or_empty b)
    → build_row a b ≡ row ++ replicate (row_cap - length row) b' '
unfolding build_row
row_text a b row e =
    ap (λ w. pad_row (row_cap - length w.text) w.text)
      (ui_cat-ui_cat (record { text = []; room = row_cap }) a b (omega arith))
    ∙ ap (λ r. pad_row (row_cap - length r) r) (sym e)
    ∙ pad_row-replicate (row_cap - length row) row

-- A row is its two pieces, cut at 79 columns and padded there with spaces: it is 79 bytes long, so
-- that it never wraps onto the next row.
build_row_lem :
    (a b : Option Str)
    → let row = take row_cap (or_empty a ++ or_empty b) in
      (build_row a b ≡ row ++ replicate (row_cap - length row) b' ')
      × (length (build_row a b) ≡ row_cap)
build_row_lem a b =
    let row : Str = take row_cap (or_empty a ++ or_empty b) in
    let pad : Str = replicate (row_cap - length row) b' ' in
    (
      row_text a b row refl,
      ap length (row_text a b row refl)
          ∙ omega (
            arith,
            length-append row pad,
            length-replicate {A = ℕ} (row_cap - length row) b' ',
            length-take row_cap (or_empty a ++ or_empty b),
          ),
    )
