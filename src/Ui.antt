-- ===== src/Ui.antt =====
-- src/ui.c: the bounded writers, the decimal writers and the padded row. The keyboard and the
-- screen (`ui_key`, `ui_wait_key` and what puts a row on the screen) are not here.
pub mod Cat
pub mod Decimal
pub mod Row
pub mod Prompt
mod Tests
use mega_irc.Common.{
  ℕ, zero, suc, ◌+◌, ◌-◌, ◌/◌, ◌%◌, ◌^◌, Bool, true, false, ◌||◌, Option, none, some, List, [], ◌∷◌,
  ◌++◌, Str, ltb, leb, ◌==◌, not, if◌then◌else◌, length,
}

abbrev pub key_stop : ℕ
key_stop = 0x03

abbrev pub key_return : ℕ
key_return = 0x0d

abbrev pub key_del : ℕ
key_del = 0x14

-- A buffer that is being written: `text` stands between its start and the pointer `p`, and `room`
-- is the distance from its start to `end`.
pub record Writer : Type 0 where
  pub text : Str
  pub room : ℕ

-- `if (p < end) *p++ = c`
pub put_char : Writer → ℕ → Writer
put_char w c = if ltb (length w.text) w.room then record w { text = w.text ++ c ∷ [] } else w

-- `while (*s && p < end) *p++ = *s++`
pub cat_text : Writer → Str → Writer
cat_text w [] = w
cat_text w (c ∷ s) =
    if ltb (length w.text) w.room then cat_text (record w { text = w.text ++ c ∷ [] }) s else w

unfoldable pub ui_cat : Writer → Option Str → Writer
unfolding cat_text
ui_cat w none = w
ui_cat w (some s) = cat_text w s

-- `while (v >= pow) { v -= pow; d++; }` on fuel; what is left of `v`, and `d`.
pub take_powers : ℕ → ℕ → ℕ → ℕ → ℕ × ℕ
take_powers zero pow v d = (v, d)
take_powers (suc f) pow v d =
    let rest = take_powers f pow (v - pow) ((d + 1) % 2 ^ 8) in if leb pow v then rest else (v, d)

abbrev pub pow10 : List ℕ
pow10 = 1000000000 ∷ 100000000 ∷ 10000000 ∷ 1000000 ∷ 100000 ∷ 10000 ∷ 1000 ∷ 100 ∷ 10 ∷ []

-- The loop over the powers. At most nine rounds are taken for one of them.
pub cat_digits : List ℕ → Writer → ℕ → Bool → Writer
cat_digits [] w v started = put_char w ((b'0' + v % 2 ^ 8) % 2 ^ 8)
cat_digits (pow ∷ pows) w v started =
    let (v', d) = take_powers 9 pow v 0 in
    let shown = not (d == 0) || started in
    cat_digits pows (if shown then put_char w ((b'0' + d) % 2 ^ 8) else w) v' shown

unfoldable pub ui_cat_num : Writer → ℕ → Writer
unfolding cat_digits take_powers put_char
ui_cat_num w v = cat_digits pow10 w v false

-- `do { t[n++] = '0' + v % 10; v /= 10; } while (v)`, then `while (n) *p++ = t[--n]`: the digit
-- stored last is written first. `t` has room for eleven digits; the loop stops there on fuel.
pub put_digits : ℕ → ℕ → Str
put_digits zero v = []
put_digits (suc f) v =
    let rest = put_digits f (v / 10) in (if v / 10 == 0 then [] else rest) ++ (b'0' + v % 10) ∷ []

unfoldable pub ui_put_ulong : ℕ → Str
unfolding put_digits
ui_put_ulong v = put_digits 11 v

-- `while (n < 79) row_buf[n++] = ' '`
pub pad_row : ℕ → Str → Str
pad_row zero row = row
pad_row (suc k) row = pad_row k (row ++ b' ' ∷ [])

abbrev pub row_cap : ℕ
row_cap = 79

-- `a` and `b` into `row_buf`, padded with spaces to 79 columns.
unfoldable pub build_row : Option Str → Option Str → Str
unfolding pad_row ui_cat
build_row a b =
    let row = (ui_cat (ui_cat (record { text = []; room = row_cap }) a) b).text in
    pad_row (row_cap - length row) row
