-- ===== src/Typed.antt =====
-- src/m65/cmd.c and src/ircc.c: what is typed: the slash commands, messages, joining.
pub mod Sound
pub mod Words
mod Tests
use mega_irc.Common.{
  ℕ, zero, suc, ◌+◌, ◌-◌, ◌/◌, ◌%◌, Bool, true, false, not, ◌&&◌, ◌||◌, Option, none, some, List,
  [], ◌∷◌, ◌++◌, Str, codes, ltb, ◌==◌, if◌then◌else◌, length, take, get_or,
}
use mega_irc.Ui.{Writer, ui_cat}
use mega_irc.Client.{line_max, from_start, is_channel}
use mega_irc.Irc.{take_until, drop_until, step_over, skip_spaces}
use mega_irc.Log.{log_clear}
use mega_irc.View.{Views, view_none, view_max, same_ci, view_find}
use mega_irc.Session.Monad.{Session, M, ◌>>=◌, ◌>>◌, pure, gets, modify, when}
use mega_irc.Session.{say, say_text, send_all, send, view_for, show_view, close_view, lit}
use mega_irc.Talk.{sendv}
use mega_irc.Ignore.{say_here, usage, ignore_cmd}
use mega_irc.Server.{is_given, identify}

-- The text of a message or an action, cut like `send3`'s.
unfoldable pub privmsg_text : Str → Str → Bool → Str
privmsg_text target text action =
    let w =
      ui_cat (ui_cat (ui_cat (from_start (line_max - 2)) (lit (codes "PRIVMSG "))) (some target))
        (lit (if action then codes " :" ++ 1 ∷ codes "ACTION " else codes " :")) in
    let x = ui_cat w (some text) in
    let y = (if action then ui_cat x (some (1 ∷ [])) else x) in
    (ui_cat (record y { room = line_max }) (lit (codes "\r\n"))).text

unfoldable pub privmsg : Str → Str → Bool → M (Unit {0})
privmsg target text action = do
  v ← gets λ s. view_find s.views (some target)
  went ← send_all (privmsg_text target text action)
  active ← gets λ s. s.views.view_active
  nick ← gets λ s. s.nick
  if action
      then say_text (if v == view_none then active else v) (lit (codes "* ")) (some nick)
          (lit (codes " ")) (some text)
      else if not (v == view_none)
      then say_text v (lit (codes "<")) (some nick) (lit (codes "> ")) (some text)
      else say_text active (lit (codes "-> ")) (some target) (lit (codes ": ")) (some text)

-- A channel's name may lack its #.
unfoldable pub hashed : ℕ → Str → Str
hashed most chan =
    if is_channel (some chan) then chan else if ltb (length chan) most then b'#' ∷ chan else chan

unfoldable pub join_channel : Str → M (Unit {0})
join_channel chan = do
  v ← view_for chan
  if v == view_none
      then say_here (lit (codes "-- no free view: /part one first")) none none
      else show_view v >> send (lit (codes "JOIN ")) (some chan) none

unfoldable pub join : Str → M (Unit {0})
join [] = say_here (lit (codes "-- /join #channel")) none none
join (c ∷ chan) = join_channel (hashed 32 (c ∷ chan))

-- One channel of a list: at most 31 bytes without the spaces, and what is left of the list.
pub one_channel : ℕ → Str → Str × Str
one_channel n [] = ([], [])
one_channel n (c ∷ list) =
    if c == b',' || not (ltb n 31)
    then ([], c ∷ list)
    else if c == b' '
    then one_channel n list
    else (let (one, rest) = one_channel (n + 1) list in (c ∷ one, rest))

-- Each channel of a comma-separated list, in order; the fuel is the rounds.
pub join_list : ℕ → Str → M (Unit {0})
unfolding one_channel
join_list zero list = λ s. none
join_list (suc f) [] = pure tt
join_list (suc f) (c ∷ list) =
    let (one, rest) = one_channel 0 (c ∷ list) in
    when (is_given one) (join one) >>= λ _. join_list f (step_over (drop_until b',' rest))

unfoldable pub join_all : Str → M (Unit {0})
unfolding join_list
join_all list = join_list (suc (length list)) list

-- The word at the start, and what is behind it and its spaces.
unfoldable pub first_word : Str → Str × Str
first_word arg = (take_until b' ' arg, skip_spaces (step_over (drop_until b' ' arg)))

unfoldable pub named : Views → ℕ → Str
named w v = (w.views v).name

-- The channel of a command, and the argument behind it; without a channel there is a note.
unfoldable pub chan_arg : Str → M (Option Str × Str)
chan_arg arg = do
  here ← gets λ s. named s.views s.views.view_active
  let (word, rest) = first_word arg
  let here_or_word : Str = (if is_channel (some arg) then word else here)
  let behind : Str = (if is_channel (some arg) then rest else arg)
  if is_channel (some here_or_word)
      then pure (some here_or_word, behind)
      else usage (codes "not in a channel here") >> pure (none, behind)

unfoldable pub view_is_channel : Views → ℕ → Bool
view_is_channel w v = not (v == 0) && ltb v view_max && (w.views v).used
