-- ===== src/Talk/Sound.antt =====
-- src/m65/cmd.c: what is said to the client, and the invariant of the session.
use mega_irc.Common.{ℕ, ◌<◌, Bool, Option, Str, length}
use mega_irc.Irc.{Msg}
use mega_irc.Session.Keeps.{Keeps}
use mega_irc.Session.Sound.{IsSound, Keeps-put_line, session_rules}
use mega_irc.Talk.{
  ignored, sendv, ctcp_reply, put_folded, dcc_offer, on_ctcp, on_text, query_view, said, cmd_said,
  cmd_routed,
}

pub Keeps-sendv : (cmd a b text : Option Str) → Keeps IsSound (sendv cmd a b text)
unfolding sendv
Keeps-sendv cmd a b text = search session_rules depth 12

Keeps-ctcp_reply : (who tag text : Str) → Keeps IsSound (ctcp_reply who tag text)
unfolding ctcp_reply
Keeps-ctcp_reply who tag text = Keeps-sendv _ _ _ _

Keeps-put_folded :
    (v : ℕ) (a b c : Option Str) (text : Str) → Keeps IsSound (put_folded v a b c text)
unfolding put_folded
Keeps-put_folded v a b c text = Keeps-put_line v _

Keeps-dcc_offer : (v : ℕ) (who text : Str) → Keeps IsSound (dcc_offer v who text)
unfolding dcc_offer
Keeps-dcc_offer v who text = search (session_rules, Keeps-put_folded)

Keeps-on_ctcp :
    (v : ℕ) (notice : Bool) (who tag text : Str)
    → length who < 256
    → Keeps IsSound (on_ctcp v notice who tag text)
unfolding on_ctcp
Keeps-on_ctcp v notice who tag text short =
    search (session_rules, Keeps-put_folded, Keeps-ctcp_reply, Keeps-dcc_offer) depth 12

Keeps-on_text :
    (v : ℕ) (notice query : Bool) (qv : ℕ) (who : Str) (text : Option Str)
    → length who < 256
    → Keeps IsSound (on_text v notice query qv who text)
unfolding on_text
Keeps-on_text v notice query qv who text short = search session_rules depth 12

Keeps-query_view :
    (query notice host : Bool) (who : Str) → Keeps IsSound (query_view query notice host who)
unfolding query_view
Keeps-query_view query notice host who = search session_rules

Keeps-said : (m : Msg) (who : Str) → length who < 256 → Keeps IsSound (said m who)
unfolding said
Keeps-said m who short = search (session_rules, Keeps-query_view, Keeps-on_ctcp, Keeps-on_text)

pub Keeps-cmd_said : (m : Msg) (who : Str) → length who < 256 → Keeps IsSound (cmd_said m who)
unfolding cmd_said ignored
Keeps-cmd_said m who short = search (session_rules, Keeps-said) depth 12

pub Keeps-cmd_routed : (m : Msg) (who text : Str) → Keeps IsSound (cmd_routed m who text)
unfolding cmd_routed
Keeps-cmd_routed m who text = search session_rules depth 12
