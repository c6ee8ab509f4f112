-- ===== src/View/Tests.antt =====
-- src/m65/view.c at concrete views.
use mega_irc.Common.{
  ℕ, true, false, some, List, [], ◌∷◌, ◌++◌, ◌≡◌, refl, arith, Str, codes, All, lower,
}
use mega_irc.Log.{Log, Row, log_count}
use mega_irc.View.{
  Views, back_by, same_ci, view_show, view_init, view_open, view_close, view_find, view_at,
  view_scroll, redraw, line_rows,
}
use mega_irc.View.Use.{KeysMatch}
use mega_irc.View.Init.{view_init-KeysMatch}
use mega_irc.View.Order.{view_open-KeysMatch}
use mega_irc.View.Close.{view_close-KeysMatch, view_close_order}
use mega_irc.View.Wrap.{IsRow, rows_text, screen_text, blanks, line_rows_lem}

abbrev no_row : Row
no_row = record { codes = []; nick_at = 0; nick_len = 0; nick_col = 0 }

abbrev no_log : Log
no_log = record {
  total = λ v. 0;
  have = λ v. 0;
  attic = λ a. no_row;
  log_nick_at = 0;
  log_nick_len = 0;
  log_nick_col = 0;
}

-- Before anything runs, and with the channels #a, #b and #c open.
abbrev at_power : Views
at_power = record {
  views = λ v. record { name = []; back = 0; used = true; unread = true };
  view_active = 5;
  order = [];
  log = no_log;
}

abbrev started : Views
started = view_init at_power

abbrev three : Views
three = (view_open (view_open (view_open started (codes "#a")).0 (codes "#b")).0 (codes "#c")).0

three_order : three.order ≡ 0 ∷ 1 ∷ 2 ∷ 3 ∷ []
unfolding view_init view_open view_show
three_order = refl

three_less_b : (view_close three 2).order ≡ 0 ∷ 1 ∷ 3 ∷ []
unfolding view_init view_open view_close view_show
three_less_b = refl

-- The slot of a view that was closed is the next to be opened, but its key is the last.
reopened :
    view_open (view_close three 2) (codes "#d")
    ≡ ((view_open (view_close three 2) (codes "#d")).0, 2)
unfolding view_init view_open view_close view_show
reopened = refl

find_folded : view_find three (some (codes "#B")) ≡ 2
unfolding view_init view_open view_show view_find same_ci lower
find_folded = refl

key_four : view_at three 3 ≡ 3
unfolding view_init view_open view_show view_at
key_four = refl

started-KeysMatch : KeysMatch started
started-KeysMatch = view_init-KeysMatch at_power

three-KeysMatch : KeysMatch three
three-KeysMatch =
    view_open-KeysMatch (view_open (view_open started (codes "#a")).0 (codes "#b")).0 (codes "#c") (
      view_open-KeysMatch (view_open started (codes "#a")).0 (codes "#b")
        (view_open-KeysMatch started (codes "#a") started-KeysMatch))

view_close-KeysMatch_example : KeysMatch (view_close three 2)
view_close-KeysMatch_example = view_close-KeysMatch three 2 three-KeysMatch

two_used : (three.views 2).used ≡ true
unfolding view_init view_open view_show
two_used = refl

view_close_order_example :
    (xs : List ℕ) × (ys : List ℕ) × (three.order ≡ 0 ∷ (xs ++ 2 ∷ ys))
    × ((view_close three 2).order ≡ 0 ∷ (xs ++ ys))
view_close_order_example =
    view_close_order three 2 three-KeysMatch (omega arith) (omega arith) two_used

-- A view with a hundred rows, of which twenty are on the screen.
abbrev long : Views
long = record {
  views = λ v. record { name = []; back = 75; used = true; unread = false };
  view_active = 0;
  order = 0 ∷ [];
  log = record no_log { have = λ v. 100; total = λ v. 100 };
}

scrolled_to_top : redraw (view_scroll long 20 (back_by 19)) 20 ≡ (0, 20)
unfolding redraw view_scroll log_count
scrolled_to_top = refl

line_rows_lem_example :
    (rows : List Str) × (k : ℕ) × (line_rows (codes "<sam> hello") ≡ some rows)
    × (rows_text rows ≡ screen_text (codes "<sam> hello") ++ blanks k)
    × All IsRow rows
line_rows_lem_example = line_rows_lem (codes "<sam> hello")
