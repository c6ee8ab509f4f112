-- ===== src/Input/Cursor.antt =====
-- src/ircc.c, draw_input: the row of the typed line, and the cursor in it.
use Prim.Native.Nat.{bit_or}
use mega_irc.Common.{
  ℕ, zero, suc, ◌+◌, ◌-◌, ◌%◌, ◌^◌, ◌≤◌, ◌<◌, false, Option, none, some, [], ◌∷◌, ◌++◌, Str, ltb,
  ◌==◌, if◌then◌else◌, length, take, drop, get_or, ◌≡◌, inl, inr, refl, ap, ◌∙◌, arith, Bool-cases,
  lt→ltb, ltb→lt,
}
use mega_irc.Irc.{take_until}
use mega_irc.Irc.Words.{Avoids, take_until-append}
use mega_irc.Screen.{m65_ascii_to_screencode}

-- `from`: the text that is shown begins so far behind the start that the cursor is in the row.
unfoldable pub from_of : ℕ → ℕ
from_of pos = if ltb 76 pos then pos - 76 else 0

unfoldable pub input_row : Str → ℕ → Str
unfolding from_of
input_row input pos = b'>' ∷ b' ' ∷ take 77 (take_until 0 (drop (from_of pos) input))

unfoldable pub cursor_col : ℕ → ℕ
unfolding from_of
cursor_col pos = (2 + pos - from_of pos) % 2 ^ 8

unfoldable pub cursor_code : Str → ℕ → ℕ
cursor_code input pos =
    let c = get_or input pos 0 in if c == 0 then 0x20 else m65_ascii_to_screencode c

-- The row, and the cell that is written behind it: its column and its code.
unfoldable pub draw_input : Str → ℕ → Str × Option (ℕ × ℕ)
unfolding input_row cursor_col cursor_code
draw_input input pos = (
  input_row input pos,
  if ltb (cursor_col pos) 80
      then some (cursor_col pos, bit_or (cursor_code input pos) 0x80)
      else none,
)

from_le : (pos : ℕ) → from_of pos ≤ pos
unfolding from_of
from_le pos = ground arith

near : (pos : ℕ) → pos - from_of pos ≤ 76
unfolding from_of
near pos = elim (Bool-cases (ltb 76 pos)) [
  | inl e ↦ let far = ltb→lt 76 pos e in rw e (omega arith)
  | inr e ↦ ground arith
]

drop-append_le : (n : ℕ) (xs ys : Str) → n ≤ length xs → drop n (xs ++ ys) ≡ drop n xs ++ ys
drop-append_le zero xs ys h = refl
drop-append_le (suc n) [] ys h = absurd (omega arith)
drop-append_le (suc n) (x ∷ xs) ys h = drop-append_le n xs ys (omega arith)

drop-Avoids : (n : ℕ) (xs : Str) → Avoids 0 xs → Avoids 0 (drop n xs)
drop-Avoids zero xs h = h
drop-Avoids (suc n) [] h = tt
drop-Avoids (suc n) (x ∷ xs) h = drop-Avoids n xs h.1

get_or-take : (i n : ℕ) (xs : Str) (d : ℕ) → i < n → get_or (take n xs) i d ≡ get_or xs i d
get_or-take i zero xs d h = absurd (omega arith)
get_or-take i (suc n) [] d h = refl
get_or-take zero (suc n) (x ∷ xs) d h = refl
get_or-take (suc i) (suc n) (x ∷ xs) d h = get_or-take i n xs d (omega arith)

get_or-drop : (n i : ℕ) (xs : Str) (d : ℕ) → get_or (drop n xs) i d ≡ get_or xs (n + i) d
get_or-drop zero i xs d = let z : 0 + i ≡ i = omega arith in rw z refl
get_or-drop (suc n) i [] d = refl
get_or-drop (suc n) i (x ∷ xs) d =
    let z : suc n + i ≡ suc (n + i) = omega arith in rw z (get_or-drop n i xs d)

-- What stands under the cursor: a character of the text, or a blank behind its end.
under_cursor :
    (text rest : Str) (pos : ℕ)
    → Avoids 0 text
    → pos ≤ length text
    → cursor_code (text ++ 0 ∷ rest) pos ≡ m65_ascii_to_screencode (get_or text pos b' ')
unfolding cursor_code m65_ascii_to_screencode
under_cursor [] rest zero a h = refl
under_cursor [] rest (suc pos) a h = absurd (omega arith)
under_cursor (c ∷ text) rest zero a h = let n : (c == 0) ≡ false = ground (arith, a.0) in rw n refl
under_cursor (c ∷ text) rest (suc pos) a h = under_cursor text rest pos a.1 (omega arith)

shown_at :
    (text rest : Str) (pos : ℕ)
    → Avoids 0 text
    → pos ≤ length text
    → get_or (input_row (text ++ 0 ∷ rest) pos) (2 + pos - from_of pos) b' ' ≡ get_or text pos b' '
unfolding input_row
shown_at text rest pos a h =
    let from = from_of pos in
    let i = pos - from in
    let before = from_le pos in
    let at : 2 + pos - from ≡ suc (suc i) = omega arith in
    let cut : take_until 0 (drop from (text ++ 0 ∷ rest)) ≡ drop from text =
      rw (drop-append_le from text (0 ∷ rest) (omega arith))
        (take_until-append 0 (drop from text) (0 ∷ rest) (drop-Avoids from text a) refl) in
    let whole : from + i ≡ pos = omega arith in
    rw at (
      rw cut (
        get_or-take i 77 (drop from text) b' ' (omega (arith, near pos))
        ∙ get_or-drop from i text b' '
        ∙ ap (λ k. get_or text k b' ') whole))

-- The cursor is always in the row, and the cell that is written is the one where the row shows the
-- character at the cursor, or a blank behind the text, with that character's code in reverse.
pub draw_input-Shows :
    (text rest : Str) (pos : ℕ)
    → Avoids 0 text
    → pos ≤ length text
    → (col : ℕ) × (col < 80)
      × (get_or (draw_input (text ++ 0 ∷ rest) pos).0 col b' ' ≡ get_or text pos b' ')
      × ((draw_input (text ++ 0 ∷ rest) pos).1
          ≡ some (col, bit_or (m65_ascii_to_screencode (get_or text pos b' ')) 0x80))
unfolding draw_input cursor_col
draw_input-Shows text rest pos a h =
    let col = 2 + pos - from_of pos in
    let small : col < 80 = omega (arith, near pos, from_le pos) in
    let same : col % 2 ^ 8 ≡ col = omega arith in
    (
      col,
      small,
      shown_at text rest pos a h,
      rw (same, lt→ltb col 80 small, under_cursor text rest pos a h) refl,
    )
