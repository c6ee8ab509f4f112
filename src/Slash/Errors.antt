-- ===== src/Slash/Errors.antt =====
-- src/m65/cmd.c: commands that are not known, or that lack something.
use mega_irc.Common.{[], All, false, some, ◌≡◌, Str, codes, ◌==◌, if◌then◌else◌, get_or}
use mega_irc.View.{Views, same_ci}
use mega_irc.Session.Monad.{Session, M, ◌>>=◌}
use mega_irc.Session.Keeps.{Keeps}
use mega_irc.Session.{lit}
use mega_irc.Ignore.{say_here, usage}
use mega_irc.Typed.{first_word, named}
use mega_irc.Slash.{cmd_lookup, cmd_words, cmd_flags, gather}
use mega_irc.Slash.Run.{run_gathered}

-- Nothing but the views has changed.
abbrev pub OnlyViews : Session → Session → Type 0
OnlyViews s t = (w : Views) × (t ≡ record s { views = w })

module _ (s : Session) where
  abbrev Only : M (Unit {0}) → Type 0
  Only m = (w : Views) × (m s ≡ some (tt, record s { views = w }))

  abbrev unknown : Str → M (Unit {0})
  unknown word =
      say_here (lit (codes "-- unknown command: /")) (some word) (lit (codes "; /help lists them"))

  -- A command with nothing behind it, by what it does then.
  abbrev run_bare : Str → M (Unit {0})
  run_bare w =
      let id = cmd_lookup w in
      let f = get_or cmd_flags id 0 in
      if id == 0 then unknown w else (gather f [] >>= λ g. run_gathered w id f g)

-- The commands that need something behind them: a nick, a text or a command of the server's.
pub data Needing : Str → Type 0 where
  need_nick : Needing (codes "nick")
  need_msg : Needing (codes "msg")
  need_m : Needing (codes "m")
  need_me : Needing (codes "me")
  need_query : Needing (codes "query")
  need_whois : Needing (codes "whois")
  need_w : Needing (codes "w")
  need_notice : Needing (codes "notice")
  need_n : Needing (codes "n")
  need_kick : Needing (codes "kick")
  need_k : Needing (codes "k")
  need_op : Needing (codes "op")
  need_deop : Needing (codes "deop")
  need_invite : Needing (codes "invite")
  need_i : Needing (codes "i")

-- What stands in front of the first space is no word of the table, or it is a command that needs
-- more and there is nothing behind it.
pub data Lacks (line : Str) : Type 0 where
  no_command :
      All (λ (word : Str). same_ci (some word) (some (first_word line).0) ≡ false) cmd_words
      → Lacks line
  bare : (word : Str) → Needing word → first_word line ≡ (word, []) → Lacks line

module _ (s : Session) where
  -- A channel command with nothing behind it, in a channel's view and in another.
  here : Str
  here = named s.views s.views.view_active

  no_channel : M (Unit {0})
  no_channel = usage (codes "not in a channel here")
