-- ===== src/Server.antt =====
-- src/ircc.c: `handle_line`, one line from the server, parsed and routed to its view.
pub mod Sound
pub mod Ping
pub mod Nick
pub mod Wire
mod Tests
use Prim.Native.Nat.{bit_or}
use mega_irc.Common.{
  ℕ, zero, suc, ◌+◌, ◌-◌, ◌%◌, ◌^◌, Bool, true, false, not, ◌&&◌, ◌||◌, Option, none, some, List,
  [], ◌∷◌, ◌++◌, Str, codes, ltb, leb, ◌==◌, if◌then◌else◌, length, take, drop, is_some,
}
use mega_irc.Ui.{Writer, ui_cat}
use mega_irc.Client.{shown_room, from_start, fold}
use mega_irc.Irc.{Msg, irc_parse, irc_is}
use mega_irc.View.{view_none, same_ci}
use mega_irc.Sasl.{b64, sasl_raw}
use mega_irc.Session.Monad.{Session, M, ◌>>=◌, ◌>>◌, pure, gets, modify, when}
use mega_irc.Session.{
  put_line, say, say_text, send, ui_status, view_of, view_for, show_view, close_view, lit, or_empty,
}
use mega_irc.Talk.{param, cmd_said, cmd_routed}

-- `a ? a : b`
abbrev or_else : Option Str → Str → Str
or_else none b = b
or_else (some a) b = a

abbrev or_first : Option Str → Option Str → Option Str
or_first none b = b
or_first (some a) b = some a

-- `tx_lines--`, in 32 bits.
unfoldable pub uncount : M (Unit {0})
uncount = modify λ s. record s { tx_lines = (s.tx_lines + (2 ^ 32 - 1)) % 2 ^ 32 }

unfoldable pub cap_end : M (Unit {0})
cap_end = send (lit (codes "CAP END")) none none

pub has_sasl : Str → Bool
has_sasl (a ∷ b ∷ c ∷ d ∷ s) =
    if a == b's' && b == b'a' && c == b's' && d == b'l' then true else has_sasl (b ∷ c ∷ d ∷ s)
has_sasl _ = false

-- The first byte of a word, its NUL if it is empty.
pub first_byte : Option Str → ℕ
first_byte none = 0
first_byte (some []) = 0
first_byte (some (c ∷ s)) = c

unfoldable pub on_cap : Msg → Str → M (Unit {0})
on_cap m text =
    let sub = (if ltb 1 (length m.params) then bit_or (first_byte (param m 1)) 0x20 else 0) in
    if sub == b'l'
    then (if has_sasl text then send (lit (codes "CAP REQ :sasl")) none none else cap_end)
    else if sub == b'a'
    then send (lit (codes "AUTHENTICATE PLAIN")) none none
    else cap_end

unfoldable pub authenticate : M (Unit {0})
authenticate = do
  nick ← gets λ s. s.nick
  nspass ← gets λ s. s.nspass
  send (lit (codes "AUTHENTICATE "))
      (some (b64 (sasl_raw nick nspass) (length (sasl_raw nick nspass)))) none

unfoldable pub sasl_done : M (Unit {0})
sasl_done = do
  modify λ s. record s { sasl_ok = true }
  nick ← gets λ s. s.nick
  say 0 (lit (codes "-- SASL: logged in as ")) (some nick) none
  cap_end

unfoldable pub sasl_failed : Str → M (Unit {0})
sasl_failed text = do
  say 0 (lit (codes "-- SASL failed: ")) (some text) (lit (codes "; NickServ instead"))
  cap_end

-- Is there a text at all?
unfoldable pub is_given : Str → Bool
is_given [] = false
is_given (c ∷ s) = true

unfoldable pub identify : Str → M (Unit {0})
identify nspass = send (lit (codes "PRIVMSG NickServ :IDENTIFY ")) (some nspass) none

unfoldable pub on_welcome : M (Unit {0})
on_welcome = do
  modify λ s. record s { registered = true }
  nick ← gets λ s. s.nick
  say 0 (lit (codes "-- registered as ")) (some nick) none
  channel ← gets λ s. s.channel
  ui_status
      (lit (
        if is_given channel
        then codes "registered"
        else codes "registered: /join #channel to talk"))
      none
  nspass ← gets λ s. s.nspass
  sasl_ok ← gets λ s. s.sasl_ok
  when (is_given nspass && not sasl_ok)
      (identify nspass >> say 0 (lit (codes "-- identifying to NickServ")) none none)

-- `nick[n - 1]++`: a byte that wraps ends the text there.
pub bump_last : Str → Str
bump_last [] = []
bump_last (c ∷ []) = if c == 255 then [] else (c + 1) ∷ []
bump_last (c ∷ d ∷ s) = c ∷ bump_last (d ∷ s)

-- Nick in use: a digit on the end, or the last character stepped.
pub next_nick : Str → Str
unfolding bump_last
next_nick nick = if ltb (length nick) 15 then nick ++ b'2' ∷ [] else bump_last nick

unfoldable pub on_nick_in_use : M (Unit {0})
unfolding next_nick
on_nick_in_use = do
  modify λ s. record s { nick = next_nick s.nick }
  nick ← gets λ s. s.nick
  send (lit (codes "NICK ")) (some nick) none

-- The channel that this client has joined: its view is shown, if there is one.
unfoldable pub on_own_join : Str → M (Unit {0})
on_own_join chan = do
  v ← view_for chan
  when (not (v == view_none)) (show_view v >> ui_status (lit (codes "joined ")) (some chan))
  say v (lit (codes "-- you have joined ")) (some chan) none

unfoldable pub on_join : Msg → Str → Str → M (Unit {0})
on_join m who text = do
  let chan = or_else (param m 0) text
  nick ← gets λ s. s.nick
  other ← gets λ s. view_of s.views (some chan)
  if same_ci (some who) (some nick)
      then on_own_join chan
      else say other (lit (codes "-- ")) (some who) (lit (codes " has joined"))

unfoldable pub on_part : Msg → Str → Bool → M (Unit {0})
on_part m who kick = do
  let victim = (if kick then param m 1 else some who)
  v ← gets λ s. view_of s.views (param m 0)
  say_text v (lit (codes "-- ")) victim
      (lit (if kick then codes " was kicked: " else codes " has left: ")) m.trailing
  nick ← gets λ s. s.nick
  when (same_ci victim (some nick)) (close_view v)

unfoldable pub on_nick : Msg → Str → Str → M (Unit {0})
on_nick m who text = do
  let to = or_else (param m 0) text
  nick ← gets λ s. s.nick
  when (same_ci (some who) (some nick)) (modify λ s. record s { nick = take 16 to })
  say 0 (some who) (lit (codes " is now known as ")) (some to)

-- A space before each parameter.
cat_spaced : Writer → List Str → Writer
cat_spaced w [] = w
cat_spaced w (p ∷ ps) = cat_spaced (ui_cat (ui_cat w (lit (codes " "))) (some p)) ps

cat_trailing : Writer → Option Str → Writer
cat_trailing w none = w
cat_trailing w (some t) = fold (ui_cat w (lit (codes " "))) t

-- Everything else: the command or numeric, the parameters, the text.
unfoldable pub plain_text : Msg → Str
unfolding cat_spaced cat_trailing
plain_text m =
    (cat_trailing
      (cat_spaced (ui_cat (from_start shown_room) m.cmd)
        (drop (if m.numeric == 0 then 0 else 1) m.params))
      m.trailing).text

unfoldable pub on_other : Msg → Str → Str → M (Unit {0})
on_other m who text = do
  routed ← cmd_routed m who text
  when (not routed) (put_line 0 (plain_text m))

-- What the rest of the numerics and of the commands say in a view.
unfoldable pub on_rest : Msg → Str → Str → M (Unit {0})
on_rest m who text = do
  first ← gets λ s. view_of s.views (param m 0)
  second ← gets λ s. view_of s.views (param m 1)
  third ← gets λ s. view_of s.views (param m 2)
  if irc_is m (codes "TOPIC") || m.numeric == 332
      then say (if m.numeric == 0 then first else second) (lit (codes "-- topic: ")) (some text)
          none
      else if m.numeric == 353
      then say third (lit (codes "-- here: ")) (some text) none
      else if m.numeric == 366
      then pure tt
      else if irc_is m (codes "MODE")
      then say first (lit (codes "-- mode ")) (param m 1) (some text)
      else on_other m who text

-- The commands of people, behind the two numerics that do not end the function.
unfoldable pub on_people : Msg → Str → Str → M (Unit {0})
on_people m who text =
    if irc_is m (codes "PRIVMSG") || irc_is m (codes "NOTICE")
    then cmd_said m who
    else if irc_is m (codes "JOIN")
    then on_join m who text
    else if irc_is m (codes "PART") || irc_is m (codes "KICK")
    then on_part m who (irc_is m (codes "KICK"))
    else if irc_is m (codes "QUIT")
    then say 0 (lit (codes "-- ")) (some who) (lit (codes " has quit"))
    else if irc_is m (codes "NICK")
    then on_nick m who text
    else on_rest m who text

unfoldable pub handle_msg : Msg → M (Unit {0})
handle_msg m =
    let who = or_empty m.prefix in
    let text = or_empty m.trailing in
    if irc_is m (codes "PING")
    then (send (lit (codes "PONG :")) (or_first m.trailing (param m 0)) none >> uncount)
    else if irc_is m (codes "CAP")
    then on_cap m text
    else if irc_is m (codes "AUTHENTICATE")
    then authenticate
    else if m.numeric == 903
    then sasl_done
    else if leb 904 m.numeric && leb m.numeric 907
    then sasl_failed text
    else (when (m.numeric == 1) on_welcome
        >> when (m.numeric == 433) on_nick_in_use
        >> on_people m who text)

-- A line without a command is dropped.
unfoldable pub on_parsed : Option (Bool × Msg) → M (Unit {0})
on_parsed none = λ s. none
on_parsed (some (false, m)) = pure tt
on_parsed (some (true, m)) = handle_msg m

unfoldable pub handle_line : Str → M (Unit {0})
unfolding on_parsed
handle_line line = on_parsed (irc_parse (some line))
