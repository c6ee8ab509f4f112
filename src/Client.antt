-- ===== src/Client.antt =====
-- src/ircc.c: the pieces of text that the client composes, for the screen and for the wire.
-- Each writes a fixed buffer through the bounded writers of src/ui.c. What is done with the buffer
-- afterwards (`view_line`, `conn_send`) is not here.
pub mod Compose
pub mod Fold
mod Tests
use Prim.Native.Nat.{bit_and}
use mega_irc.Common.{
  ℕ, ◌-◌, Bool, false, ◌||◌, Option, none, some, List, [], ◌∷◌, ◌++◌, Str, codes, ltb, ◌==◌,
  if◌then◌else◌, length,
}
use mega_irc.Ui.{Writer, ui_cat}

-- `shown` holds 256 bytes with the NUL, `tmp` 513.
abbrev pub shown_room : ℕ
shown_room = 255

abbrev pub line_max : ℕ
line_max = 512

abbrev pub from_start : ℕ → Writer
from_start n = record { text = []; room = n }

-- Two or three pieces into `shown`.
unfoldable pub compose : Option Str → Option Str → Option Str → Writer
compose a b c = ui_cat (ui_cat (ui_cat (from_start shown_room) a) b) c

-- The text that `send3` hands to `send_all`: the pieces up to two bytes short of the line's end, and
-- then the CRLF up to that end.
unfoldable pub send3_text : Option Str → Option Str → Option Str → Str
send3_text a b c =
    let w = ui_cat (ui_cat (ui_cat (from_start (line_max - 2)) a) b) c in
    (ui_cat (record w { room = line_max }) (some (codes "\r\n"))).text

-- UTF-8 reduced to one byte a character.
pub fold : Writer → Str → Writer
fold w [] = w
fold w (c ∷ s) =
    let room = ltb (length w.text) w.room in
    let kept = fold (record w { text = w.text ++ c ∷ [] }) s in
    let passed = fold w s in
    let marked = fold (record w { text = w.text ++ b'?' ∷ [] }) s in
    if room
    then (if ltb c 0x80 then kept else if bit_and c 0xc0 == 0x80 then passed else marked)
    else w

unfoldable pub is_channel : Option Str → Bool
is_channel none = false
is_channel (some []) = false
is_channel (some (c ∷ s)) = c == b'#' || c == b'&'
