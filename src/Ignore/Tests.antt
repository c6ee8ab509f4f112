-- ===== src/Ignore/Tests.antt =====
-- src/m65/cmd.c: the ignore list at concrete names.
use mega_irc.Common.{false, some, List, [], ◌∷◌, ◌≡◌, refl, arith, Str, codes, length, lower}
use mega_irc.View.{same_ci}
use mega_irc.Session.Monad.{Session}
use mega_irc.Session.Sample.{first_session}
use mega_irc.Talk.{on_list}
use mega_irc.Ignore.{at_slot, at_end, find_slot, ignore_cmd}
use mega_irc.Ignore.Names.{IsAdded, ignore_cmd-adds}

abbrev two_names : List Str
two_names = [] ∷ codes "Troll" ∷ [] ∷ codes "spam" ∷ []

troll_met : find_slot 0 two_names (codes "trolL") 8 ≡ at_slot 1
unfolding find_slot same_ci lower
troll_met = refl

nobody_met : find_slot 0 two_names (codes "tro") 8 ≡ at_end 0 0
unfolding find_slot same_ci lower
nobody_met = refl

-- A nick of more than 16 bytes is stored cut, and is not found again.
long_name_lost : on_list (codes "averyveryverylon" ∷ []) (codes "averyveryverylongnick") ≡ false
unfolding on_list same_ci lower
long_name_lost = refl

ignore_cmd-adds_example :
    (t : Session) × (ignore_cmd (codes "spammer") first_session ≡ some (tt, t))
    × (t.sent ≡ first_session.sent)
    × (length t.ignoring ≡ length first_session.ignoring)
    × IsAdded first_session.ignoring (codes "spammer") t.ignoring
ignore_cmd-adds_example =
    ignore_cmd-adds b's' (codes "pammer") first_session (λ e. omega arith) (omega arith)
