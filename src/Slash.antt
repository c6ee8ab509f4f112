-- ===== src/Slash.antt =====
-- src/m65/cmd.c: the slash commands: the table of words, the shape of each command's line, and what
-- each does.
pub mod Run
pub mod Lookup
pub mod Errors
pub mod Sound
mod Tests
use mega_irc.Common.{
  ℕ, zero, suc, ◌+◌, ◌/◌, ◌%◌, Bool, true, false, not, ◌&&◌, ◌||◌, Option, none, some, List, [],
  ◌∷◌, Str, codes, ◌==◌, if◌then◌else◌, take, get_or,
}
use mega_irc.Client.{is_channel}
use mega_irc.Log.{log_clear}
use mega_irc.View.{Views, view_none, same_ci, view_find, view_show}
use mega_irc.Session.Monad.{Session, M, ◌>>=◌, ◌>>◌, pure, gets, modify, when}
use mega_irc.Session.{say_text, send, view_for, show_view, close_view, lit}
use mega_irc.Talk.{sendv}
use mega_irc.Ignore.{say_here, usage, ignore_cmd}
use mega_irc.Server.{is_given, identify}
use mega_irc.Typed.{privmsg, join, first_word, named, chan_arg, view_is_channel}

-- `cmd_words` and `cmd_ids`; the numbers are those of the enumeration.
abbrev pub cmd_words : List Str
cmd_words =
    codes "join"
    ∷ codes "j"
    ∷ codes "part"
    ∷ codes "p"
    ∷ codes "quit"
    ∷ codes "q"
    ∷ codes "nick"
    ∷ codes "msg"
    ∷ codes "m"
    ∷ codes "me"
    ∷ codes "identify"
    ∷ codes "id"
    ∷ codes "raw"
    ∷ codes "quote"
    ∷ codes "query"
    ∷ codes "close"
    ∷ codes "whois"
    ∷ codes "w"
    ∷ codes "names"
    ∷ codes "topic"
    ∷ codes "t"
    ∷ codes "away"
    ∷ codes "back"
    ∷ codes "notice"
    ∷ codes "n"
    ∷ codes "kick"
    ∷ codes "k"
    ∷ codes "mode"
    ∷ codes "op"
    ∷ codes "deop"
    ∷ codes "invite"
    ∷ codes "i"
    ∷ codes "ignore"
    ∷ codes "clear"
    ∷ codes "help"
    ∷ codes "?"
    ∷ []

abbrev pub cmd_ids : List ℕ
cmd_ids =
    1 ∷ 1 ∷ 2 ∷ 2 ∷ 3 ∷ 3 ∷ 4 ∷ 5 ∷ 5 ∷ 6 ∷ 7 ∷ 7 ∷ 8 ∷ 8 ∷ 9 ∷ 10 ∷ 11 ∷ 11 ∷ 12 ∷ 13 ∷ 13 ∷ 14
    ∷ 15 ∷ 16 ∷ 16 ∷ 17 ∷ 17 ∷ 18 ∷ 19 ∷ 20 ∷ 21 ∷ 21 ∷ 22 ∷ 23 ∷ 24 ∷ 24 ∷ []

-- Both tables are walked together.
pub lookup_in : List Str → List ℕ → Str → ℕ
lookup_in [] ids s = 0
lookup_in (w ∷ words) [] s = 0
lookup_in (w ∷ words) (i ∷ ids) s = if same_ci (some w) (some s) then i else lookup_in words ids s

unfoldable pub cmd_lookup : Str → ℕ
unfolding lookup_in
cmd_lookup s = lookup_in cmd_words cmd_ids s

-- The flags are bits.
abbrev pub f_chan : ℕ
f_chan = 1

abbrev pub f_word : ℕ
f_word = 2

abbrev pub f_text : ℕ
f_text = 4

abbrev pub f_need : ℕ
f_need = 8

abbrev pub f_rest : ℕ
f_rest = 16

abbrev pub f_swap : ℕ
f_swap = 32

abbrev pub f_send : ℕ
f_send = 64

abbrev pub cmd_flags : List ℕ
cmd_flags =
    0 ∷ 0 ∷ 1 ∷ 4 ∷ 66 ∷ 14 ∷ 12 ∷ 0 ∷ 0 ∷ 0 ∷ 0 ∷ 66 ∷ 65 ∷ 69 ∷ 68 ∷ 64 ∷ 78 ∷ 71 ∷ 81 ∷ 3 ∷ 3
    ∷ 99 ∷ 0 ∷ 0 ∷ 0 ∷ []

unfoldable pub has : ℕ → ℕ → Bool
has f flag = f / flag % 2 == 1

abbrev pub cmd_verb : List (Option Str)
cmd_verb =
    none
    ∷ none
    ∷ some (codes "PART")
    ∷ some (codes "QUIT")
    ∷ some (codes "NICK")
    ∷ none
    ∷ none
    ∷ none
    ∷ none
    ∷ none
    ∷ none
    ∷ some (codes "WHOIS")
    ∷ some (codes "NAMES")
    ∷ some (codes "TOPIC")
    ∷ some (codes "AWAY")
    ∷ some (codes "AWAY")
    ∷ some (codes "NOTICE")
    ∷ some (codes "KICK")
    ∷ some (codes "MODE")
    ∷ some (codes "MODE")
    ∷ some (codes "MODE")
    ∷ some (codes "INVITE")
    ∷ none
    ∷ none
    ∷ none
    ∷ []

-- `!p`
abbrev pub missing : Option Str → Bool
missing none = true
missing (some s) = false

-- What was gathered of a command's line: `return`, `goto need`, or its channel, word, text and the
-- rest.
pub data Gathered : Type 0 where
  stop : Gathered
  need : Gathered
  parts : Option Str → Option Str → Option Str → Str → Gathered

-- The rest, once the channel and the word are there.
pub gather_text : ℕ → Option Str → Option Str → Str → Gathered
gather_text f chan word arg =
    if has f f_need && not (is_given arg)
    then need
    else parts chan word (if has f f_text then some arg else none) arg

-- A channel behind the word (INVITE).
unfoldable pub gather_swap : ℕ → Option Str → Option Str → Str → M Gathered
unfolding gather_text
gather_swap f chan word arg = do
  (late, rest) ← (if has f f_swap then chan_arg arg else pure (chan, arg))
  pure (if has f f_swap && missing late then stop else gather_text f late word rest)

unfoldable pub gather_word : ℕ → Option Str → Str → M Gathered
gather_word f chan arg =
    let (word, rest) = first_word arg in
    if has f f_word
    then (if is_given word then gather_swap f chan (some word) rest else pure need)
    else gather_swap f chan none arg

unfoldable pub gather : ℕ → Str → M Gathered
gather f arg = do
  let first = has f f_chan && not (has f f_swap)
  (chan, rest) ← (if first then chan_arg arg else pure (none, arg))
  if first && missing chan then pure stop else gather_word f chan rest
