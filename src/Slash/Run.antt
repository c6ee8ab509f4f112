-- ===== src/Slash/Run.antt =====
-- src/m65/cmd.c: `cmd_line`: what each slash command does; and src/ircc.c: `typed_line`.
use mega_irc.Common.{
  ℕ, Bool, true, false, not, ◌&&◌, ◌||◌, Option, none, some, [], ◌∷◌, Str, codes, ◌==◌,
  if◌then◌else◌, take, get_or,
}
use mega_irc.Client.{is_channel}
use mega_irc.Log.{log_clear}
use mega_irc.View.{view_none, view_find}
use mega_irc.Session.Monad.{M, ◌>>=◌, ◌>>◌, pure, gets, modify, when}
use mega_irc.Session.{say_text, send, view_for, show_view, close_view, lit}
use mega_irc.Talk.{sendv}
use mega_irc.Ignore.{say_here, usage, ignore_cmd}
use mega_irc.Server.{is_given, identify}
use mega_irc.Typed.{privmsg, join, first_word, named, view_is_channel}
use mega_irc.Slash.{
  cmd_lookup, cmd_flags, cmd_verb, has, f_rest, f_swap, f_send, Gathered, stop, need, parts, gather,
}

abbrev verb : ℕ → Option Str
verb id = get_or cmd_verb id none

abbrev pub text_of : Option Str → Str
text_of none = []
text_of (some t) = t

-- Each returns whether the command had what it needs.
unfoldable pub run_part : Option Str → M Bool
run_part chan = do
  v ← gets λ s. view_find s.views chan
  sendv (verb 2) chan none none
  when (not (v == view_none)) (close_view v)
  pure true

unfoldable pub run_quit : Str → M Bool
run_quit arg = do
  sendv (verb 3) none none (some (if is_given arg then arg else codes "the MEGA65 says goodbye"))
  modify λ s. record s { quitting = true }
  pure true

unfoldable pub run_me : Str → M Bool
run_me arg = do
  w ← gets λ s. s.views
  if view_is_channel w w.view_active
      then privmsg (named w w.view_active) arg true
      else usage (codes "/me needs a channel or a person")
  pure true

unfoldable pub run_identify : Str → M Bool
run_identify arg = do
  when (is_given arg) (modify λ s. record s { nspass = take 32 arg })
  nspass ← gets λ s. s.nspass
  when (is_given nspass) (identify nspass >> usage (codes "identifying to NickServ"))
  pure (is_given nspass)

unfoldable pub run_raw : Str → M Bool
run_raw arg = do
  when (is_given arg) (send (some arg) none none >> say_here (lit (codes "-> ")) (some arg) none)
  pure true

-- A person's view, and what is typed behind the name goes to them.
unfoldable pub open_query : Str → Str → M (Unit {0})
open_query name rest = do
  v ← view_for name
  if v == view_none
      then usage (codes "no free view: /close or /part one first")
      else (show_view v
          >> (gets (λ s. named s.views v) >>= λ person.
              when (is_given rest) (privmsg person rest false)))

unfoldable pub run_query : Str → M Bool
run_query arg =
    if not (is_given arg) || is_channel (some arg)
    then pure false
    else (let (name, rest) = first_word arg in open_query name rest >> pure true)

unfoldable pub run_close : M Bool
run_close = do
  w ← gets λ s. s.views
  if view_is_channel w w.view_active && not (is_channel (some (named w w.view_active)))
      then close_view w.view_active
      else usage (codes "/close ends a private view; /part leaves a channel")
  pure true

unfoldable pub run_notice : Option Str → Str → M Bool
run_notice word arg = do
  active ← gets λ s. s.views.view_active
  say_text active (lit (codes "-> -")) word (lit (codes "- ")) (some arg)
  pure true

unfoldable pub run_op : Option Str → Str → Option Str → M Bool
run_op chan mode word = sendv (verb 19) chan (some mode) word >> pure true

unfoldable pub run_clear : M Bool
run_clear = do
  modify
      λ s. record s { views = record (s.views) { log = log_clear s.views.log s.views.view_active } }
  active ← gets λ s. s.views.view_active
  show_view active
  pure true

unfoldable pub run_help : M Bool
run_help = do
  usage (codes "/join /part /query /close /msg /me /notice /nick /away /back /whois /names")
  usage (codes "/topic /invite /kick /mode /op /deop /ignore /clear /identify /raw /quit")
  pure true

-- The switch: no case is the default, for the commands that are only sent.
unfoldable pub run : ℕ → Option Str → Option Str → Str → M Bool
run id chan word arg =
    if id == 1
    then join arg >> pure true
    else if id == 2
    then run_part chan
    else if id == 3
    then run_quit arg
    else if id == 5
    then privmsg (text_of word) arg false >> pure true
    else if id == 6
    then run_me arg
    else if id == 7
    then run_identify arg
    else if id == 8
    then run_raw arg
    else if id == 9
    then run_query arg
    else if id == 10
    then run_close
    else if id == 16
    then run_notice word arg
    else if id == 19
    then run_op chan (codes "+o") word
    else if id == 20
    then run_op chan (codes "-o") word
    else if id == 22
    then ignore_cmd arg >> pure true
    else if id == 23
    then run_clear
    else if id == 24
    then run_help
    else pure true

-- What is sent for the commands whose line is sent as gathered; /away alone has a text of its own.
unfoldable pub sent_as_gathered : ℕ → ℕ → Option Str → Option Str → Option Str → Str → M (Unit {0})
sent_as_gathered id f chan word text arg =
    let said : Option Str =
      (if id == 14 && not (is_given arg) then some (codes "away") else text) in
    when (has f f_send) (
      if has f f_swap
      then sendv (verb id) word chan said
      else sendv (verb id) chan (if has f f_rest then some arg else word) said)

unfoldable pub needs_more : Str → M (Unit {0})
needs_more s =
    say_here (lit (codes "-- /")) (some s) (lit (codes " needs more; /help lists the commands"))

unfoldable pub run_gathered : Str → ℕ → ℕ → Gathered → M (Unit {0})
run_gathered s id f stop = pure tt
run_gathered s id f need = needs_more s
run_gathered s id f (parts chan word text arg) = do
  done ← run id chan word arg
  if done then sent_as_gathered id f chan word text arg else needs_more s

unfoldable pub cmd_line : Str → M (Unit {0})
cmd_line line =
    let (s, arg) = first_word line in
    let id = cmd_lookup s in
    let f = get_or cmd_flags id 0 in
    if id == 0
    then say_here (lit (codes "-- unknown command: /")) (some s) (lit (codes "; /help lists them"))
    else (gather f arg >>= λ g. run_gathered s id f g)

-- A typed line that is no command goes to the channel or the person of the view.
unfoldable pub talk : Str → M (Unit {0})
talk input = do
  w ← gets λ s. s.views
  if view_is_channel w w.view_active
      then privmsg (named w w.view_active) input false
      else say_here (lit (codes "-- no channel here: /join one")) none none

unfoldable pub typed_line : Str → M (Unit {0})
typed_line [] = talk []
typed_line (c ∷ input) = if c == b'/' then cmd_line input else talk (c ∷ input)
