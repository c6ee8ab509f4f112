-- ===== src/Log/Tests.antt =====
-- src/m65/log.c at a concrete log.
use mega_irc.Common.{some, [], ◌∷◌, ◌≡◌, refl, arith, codes}
use mega_irc.Log.{Log, Row, blank, shown, slot, update, log_row, log_draw, nick_colour}
use mega_irc.Log.Ring.{Keeps, KeepsView, window, kept, pending, log_row-Keeps, log_draw-Keeps}

abbrev no_row : Row
no_row = record { codes = []; nick_at = 0; nick_len = 0; nick_col = 0 }

abbrev fresh : Log
fresh = record {
  total = λ v. 0;
  have = λ v. 0;
  attic = λ a. no_row;
  log_nick_at = 1;
  log_nick_len = 3;
  log_nick_col = 6;
}

fresh-Keeps : Keeps fresh (λ v. 0) (λ v i. no_row)
unfolding Keeps KeepsView kept
fresh-Keeps v = (refl, refl, λ j p q. absurd (omega arith))

-- The colour that is the background's is stepped past.
colour_stepped : nick_colour 14 6 ≡ 15
unfolding nick_colour
colour_stepped = refl

drawn_row :
    log_draw (log_row fresh 2 (codes "hi")) 6 2 0 2
    ≡ shown (record { codes = codes "hi"; nick_at = 1; nick_len = 3; nick_col = 6 }) (some 14)
      ∷ blank
      ∷ []
unfolding log_draw log_row nick_colour slot
drawn_row = refl

log_row-Keeps_example :
    Keeps
      (log_row fresh 2 (codes "hi"))
      (update (λ v. 0) 2 1)
      (update (λ v i. no_row) 2 (update (λ i. no_row) 0 (pending fresh (codes "hi"))))
log_row-Keeps_example = log_row-Keeps fresh (λ v. 0) (λ v i. no_row) 2 (codes "hi") fresh-Keeps

log_draw-Keeps_example : log_draw fresh 6 2 0 24 ≡ window (λ i. no_row) 6 0 0 24
log_draw-Keeps_example =
    log_draw-Keeps fresh (λ v. 0) (λ v i. no_row) 6 2 0 24 fresh-Keeps (omega arith)
