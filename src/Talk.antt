-- ===== src/Talk.antt =====
-- src/m65/cmd.c: what is said to the client: private messages, notices, CTCP, the ignore list's test,
-- and the numerics that the command module answers for.
pub mod Sound
use mega_irc.Common.{
  ℕ, zero, suc, ◌+◌, ◌-◌, Bool, true, false, not, ◌&&◌, ◌||◌, Option, none, some, List, [], ◌∷◌,
  ◌++◌, Str, codes, leb, ◌==◌, if◌then◌else◌, get_elem?, drop, is_some,
}
use mega_irc.Ui.{Writer, ui_cat}
use mega_irc.Client.{shown_room, line_max, from_start, compose, fold, is_channel}
use mega_irc.Irc.{Msg, CtcpResult, irc_is, irc_ctcp}
use mega_irc.View.{Views, view_none, same_ci, view_find}
use mega_irc.Session.Monad.{Session, M, ◌>>=◌, ◌>>◌, pure, gets, modify, when}
use mega_irc.Session.{
  put_line, say, say_text, send_all, ui_status, view_of, open_view, lit, or_empty,
}

-- Entry by entry; an empty one is free.
unfoldable pub on_list : List Str → Str → Bool
on_list [] who = false
on_list ([] ∷ names) who = on_list names who
on_list ((c ∷ name) ∷ names) who =
    if same_ci (some (c ∷ name)) (some who) then true else on_list names who

unfoldable pub ignored : Str → M Bool
unfolding on_list
ignored who = gets λ s. on_list s.ignoring who

-- `if (a && *a)`: a part that is given, behind what separates it.
cat_given : Str → Writer → Option Str → Writer
cat_given before w none = w
cat_given before w (some []) = w
cat_given before w (some (c ∷ s)) = ui_cat (ui_cat w (some before)) (some (c ∷ s))

sendv_text : Option Str → Option Str → Option Str → Option Str → Str
unfolding cat_given
sendv_text cmd a b text =
    let w =
      cat_given (codes " :")
        (cat_given (codes " ") (cat_given (codes " ") (ui_cat (from_start (line_max - 2)) cmd) a) b)
        text in
    (ui_cat (record w { room = line_max }) (some (codes "\r\n"))).text

unfoldable pub sendv : Option Str → Option Str → Option Str → Option Str → M (Unit {0})
unfolding sendv_text
sendv cmd a b text = send_all (sendv_text cmd a b text) >>= λ _. pure tt

abbrev delimiter : Str
delimiter = 1 ∷ []

-- The wrapped part of a CTCP reply.
ctcp_text : Str → Str → Str
ctcp_text tag [] = (ui_cat (compose (some delimiter) (some tag) (lit [])) (some delimiter)).text
ctcp_text tag (c ∷ text) =
    (ui_cat (ui_cat (compose (some delimiter) (some tag) (lit (codes " "))) (some (c ∷ text)))
      (some delimiter)).text

unfoldable pub ctcp_reply : Str → Str → Str → M (Unit {0})
unfolding ctcp_text
ctcp_reply who tag text = sendv (lit (codes "NOTICE")) (some who) none (some (ctcp_text tag text))

-- Two pieces and a nick, and a text folded behind them.
unfoldable pub put_folded : ℕ → Option Str → Option Str → Option Str → Str → M (Unit {0})
put_folded v a b c text = put_line v (fold (compose a b c) text).text

unfoldable pub dcc_offer : ℕ → Str → Str → M (Unit {0})
dcc_offer v who text = do
  put_folded v (lit (codes "-- ")) (some who) (lit (codes " offers DCC: ")) text
  say v (lit (codes "-- (this client cannot take a DCC transfer)")) none none

abbrev pub version_text : Str
version_text = codes "MEGA65 IRC client 0.2.2"

-- A request or a reply that was recognised, by its tag.
unfoldable pub on_ctcp : ℕ → Bool → Str → Str → Str → M (Unit {0})
on_ctcp v notice who tag text =
    if same_ci (some tag) (lit (codes "ACTION"))
    then say_text v (lit (codes "* ")) (some who) (lit (codes " ")) (some text)
    else if notice
    then put_folded v (lit (codes "-- ")) (some who) (lit (codes " CTCP reply: ")) text
    else if same_ci (some tag) (lit (codes "VERSION"))
    then ctcp_reply who (codes "VERSION") version_text
    else if same_ci (some tag) (lit (codes "PING"))
    then ctcp_reply who (codes "PING") text
    else if same_ci (some tag) (lit (codes "DCC"))
    then dcc_offer v who text
    else pure tt

-- A plain text, and the notice that it is in another view.
unfoldable pub on_text : ℕ → Bool → Bool → ℕ → Str → Option Str → M (Unit {0})
on_text v notice query qv who text = do
  if notice
      then say_text v (lit (codes "-")) (some who) (lit (codes "- ")) text
      else say_text v (lit (if query && qv == view_none then codes "(private) <" else codes "<"))
          (some who) (lit (codes "> ")) text
  active ← gets λ s. s.views.view_active
  when (not (qv == view_none) && not (qv == active))
      (ui_status (lit (codes "message from ")) (some who))

-- Which view a private message has: the person's, opened by their first message.
unfoldable pub query_view : Bool → Bool → Bool → Str → M ℕ
query_view query notice host who = do
  found ← gets λ s. (if query then view_find s.views (some who) else view_none)
  if query && found == view_none && not notice && host then open_view who else pure found

abbrev pub param : Msg → ℕ → Option Str
param m i = get_elem? m.params i

unfoldable pub said : Msg → Str → M (Unit {0})
said m who = do
  let notice = irc_is m (codes "NOTICE")
  let query = not (is_channel (param m 0))
  qv ← query_view query notice (is_some m.host) who
  other ← gets λ s. view_of s.views (param m 0)
  let v = (if qv == view_none then other else qv)
  let c = irc_ctcp m 12
  if c.found
      then on_ctcp v notice who (or_empty c.tag) (or_empty c.msg.trailing)
      else on_text v notice query qv who c.msg.trailing

unfoldable pub cmd_said : Msg → Str → M (Unit {0})
cmd_said m who = do mute ← ignored who; if is_some m.host && mute then pure tt else said m who

-- Each parameter, and a space behind it.
cat_words : Writer → List Str → Writer
cat_words w [] = w
cat_words w (p ∷ ps) = cat_words (ui_cat (ui_cat w (some p)) (lit (codes " "))) ps

is_whois : ℕ → Bool
is_whois n =
    n == 301
    || n == 307
    || leb 311 n && leb n 319 && not (n == 315) && not (n == 316)
    || n == 330
    || n == 338
    || n == 671

-- The parameters behind the first, and the trailing folded.
unfoldable pub whois_text : Msg → Str
unfolding cat_words
whois_text m =
    (fold (cat_words (ui_cat (from_start shown_room) (lit (codes "-- "))) (drop 1 m.params))
      (or_empty m.trailing)).text

unfoldable pub cmd_routed : Msg → Str → Str → M Bool
unfolding is_whois
cmd_routed m who text = do
  active ← gets λ s. s.views.view_active
  topic ← gets λ s. view_of s.views (param m 1)
  if irc_is m (codes "INVITE")
      then put_line active
          (ui_cat (compose (lit (codes "-- ")) (some who) (lit (codes " invites you to ")))
            (some text)).text
        >> pure true
      else if m.numeric == 331
      then say topic (lit (codes "-- no topic is set")) none none >> pure true
      else if m.numeric == 305 || m.numeric == 306
      then say active
          (lit (if m.numeric == 306 then codes "-- you are away" else codes "-- you are back")) none
          none
        >> pure true
      else if m.numeric == 318
      then pure true
      else if is_whois m.numeric
      then put_line active (whois_text m) >> pure true
      else pure false
