-- ===== src/Client/Tests.antt =====
-- src/ircc.c: what is composed, at concrete texts.
use mega_irc.Common.{false, some, none, List, [], ◌∷◌, ◌≡◌, refl, codes}
use mega_irc.Ui.{ui_cat}
use mega_irc.Client.{send3_text, is_channel}
use mega_irc.Client.Fold.{Character, ascii, multi}

send3_pong :
    send3_text (some (codes "PONG :")) (some (codes "irc.test")) none ≡ codes "PONG :irc.test\r\n"
unfolding send3_text ui_cat
send3_pong = refl

is_channel_nick : is_channel (some (codes "sam")) ≡ false
unfolding is_channel
is_channel_nick = refl

-- "né": the accented letter takes two bytes.
abbrev accented : List Character
accented = ascii b'n' ∷ multi 0xc3 (0xa9 ∷ []) ∷ []
