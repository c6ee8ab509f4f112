-- ===== src/Slash/Tests.antt =====
-- src/m65/cmd.c: the slash commands at concrete lines.
use mega_irc.Common.{some, ◌≡◌, refl, arith, codes, lower}
use mega_irc.Session.Monad.{Session}
use mega_irc.Session.Sound.{IsSound}
use mega_irc.Session.Sample.{first_session, first_session-IsSound}
use mega_irc.View.{same_ci}
use mega_irc.Slash.{cmd_lookup}
use mega_irc.Slash.Run.{typed_line}
use mega_irc.Slash.Sound.{typed_line_lem}

lookup_topic : cmd_lookup (codes "ToPiC") ≡ 13
unfolding cmd_lookup same_ci lower
lookup_topic = refl

lookup_nothing : cmd_lookup (codes "joi") ≡ 0
unfolding cmd_lookup same_ci lower
lookup_nothing = refl

typed_line_lem_example :
    (t : Session) × (typed_line (codes "/join c64") first_session ≡ some (tt, t)) × IsSound t
typed_line_lem_example =
    typed_line_lem (codes "/join c64") first_session (omega arith) first_session-IsSound
