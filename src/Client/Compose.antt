-- ===== src/Client/Compose.antt =====
-- src/ircc.c: what `compose` and `send3` write, however long their pieces are.
use mega_irc.Common.{
  ℕ, ◌-◌, ◌≤◌, Option, some, ◌++◌, ◌≡◌, ◌∙◌, ap, arith, Str, codes, length, length-append,
  length-take, take, fill_whole,
}
use mega_irc.Ui.{ui_cat}
use mega_irc.Ui.Cat.{or_empty, filled, ui_cat-filled, filled-InRoom, ui_cat-ui_cat, filled-filled}
use mega_irc.Client.{shown_room, line_max, from_start, compose, send3_text}

three_pieces :
    (n : ℕ) (a b c : Option Str)
    → ui_cat (ui_cat (ui_cat (from_start n) a) b) c
      ≡ filled (from_start n) (or_empty a ++ or_empty b ++ or_empty c)
three_pieces n a b c =
    let w = from_start n in
    ap (λ x. ui_cat x c) (ui_cat-ui_cat w a b (omega arith))
    ∙ ui_cat-filled (filled w (or_empty a ++ or_empty b)) c
        (filled-InRoom w (or_empty a ++ or_empty b) (omega arith))
    ∙ filled-filled w (or_empty a ++ or_empty b) (or_empty c)

-- `compose` writes its pieces one behind another, cut at the 255 bytes that `shown` has before its
-- NUL.
compose-take :
    (a b c : Option Str)
    → (compose a b c).text ≡ take shown_room (or_empty a ++ or_empty b ++ or_empty c)
unfolding compose
compose-take a b c = ap (λ w. w.text) (three_pieces shown_room a b c)

crlf_behind :
    (x : Str)
    → (ui_cat (record { text = take (line_max - 2) x; room = line_max }) (some (codes "\r\n"))).text
      ≡ take (line_max - 2) x ++ codes "\r\n"
crlf_behind x =
    let l : length (take (line_max - 2) x) ≤ line_max - 2 =
      omega (arith, length-take (line_max - 2) x) in
    ap (λ w. w.text)
      (ui_cat-filled (record { text = take (line_max - 2) x; room = line_max })
        (some (codes "\r\n")) (omega arith))
    ∙ fill_whole line_max (take (line_max - 2) x) (codes "\r\n") (omega arith)

send3_text-take :
    (a b c : Option Str)
    → send3_text a b c
      ≡ take (line_max - 2) (or_empty a ++ or_empty b ++ or_empty c) ++ codes "\r\n"
unfolding send3_text
send3_text-take a b c =
    ap (λ w. (ui_cat (record w { room = line_max }) (some (codes "\r\n"))).text)
      (three_pieces (line_max - 2) a b c)
    ∙ crlf_behind (or_empty a ++ or_empty b ++ or_empty c)

-- What `send3` sends is its pieces cut at 510 bytes, always ends in CRLF, and is no longer than the
-- protocol's 512 bytes.
pub send3_text_lem :
    (a b c : Option Str)
    → (send3_text a b c
        ≡ take (line_max - 2) (or_empty a ++ or_empty b ++ or_empty c) ++ codes "\r\n")
      × (length (send3_text a b c) ≤ line_max)
send3_text_lem a b c =
    let x = or_empty a ++ or_empty b ++ or_empty c in
    let e = send3_text-take a b c in
    (
      e,
      rw e (
          omega (
            arith,
            length-append (take (line_max - 2) x) (codes "\r\n"),
            length-take (line_max - 2) x,
          )),
    )
