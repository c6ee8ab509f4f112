-- ===== src/Typed/Sound.antt =====
-- src/ircc.c and src/m65/cmd.c: messages and joining, and the invariant of the session.
use mega_irc.Common.{
  ℕ, zero, suc, ◌+◌, ◌≤◌, ◌<◌, Bool, [], ◌∷◌, inl, inr, arith, Str, ◌==◌, length, Bool-cases,
}
use mega_irc.Irc.{drop_until, step_over}
use mega_irc.Irc.Words.{length-step_over, length-drop_until}
use mega_irc.Irc.Written.{length-step}
use mega_irc.Session.Keeps.{Keeps, Keeps-pure, Keeps-bind, Keeps-bind-gets}
use mega_irc.Session.Sound.{IsSound, Keeps-send_all, session_rules}
use mega_irc.Ignore.Sound.{Keeps-say_here}
use mega_irc.Typed.{privmsg, join_channel, join, one_channel, join_list, join_all}

pub Keeps-privmsg :
    (target text : Str) (action : Bool)
    → length target < 256
    → Keeps IsSound (privmsg target text action)
unfolding privmsg
Keeps-privmsg target text action short = Keeps-bind-gets _ _ λ s h.
    Keeps-bind _ _ (Keeps-send_all _) λ went. Keeps-bind-gets _ _ λ t k. Keeps-bind-gets _ _ λ u l.
      (let own : length u.nick < 256 = (let m = l.nick_fits in omega (arith, m)) in
        search session_rules depth 12)

Keeps-join_channel : (chan : Str) → Keeps IsSound (join_channel chan)
unfolding join_channel
Keeps-join_channel chan = search (session_rules, Keeps-say_here) depth 12

pub Keeps-join : (chan : Str) → Keeps IsSound (join chan)
unfolding join
Keeps-join [] = Keeps-say_here _ _ _
Keeps-join (c ∷ chan) = Keeps-join_channel _

length-one_channel : (n : ℕ) (list : Str) → length (one_channel n list).1 ≤ length list
unfolding one_channel
length-one_channel n [] = omega arith
length-one_channel n (c ∷ list) =
    ground (arith, length-one_channel n list, length-one_channel (n + 1) list)

behind_comma : (r : Str) → length (step_over (drop_until b',' r)) ≤ length r
behind_comma r = omega (arith, length-step (drop_until b',' r), length-drop_until b',' r)

-- Each round takes at least one byte off the list.
less_list :
    (c : ℕ) (list : Str)
    → length (step_over (drop_until b',' (one_channel 0 (c ∷ list)).1)) < length (c ∷ list)
unfolding one_channel
less_list c list = elim (Bool-cases (c == b',')) [
  | inl e ↦ rw e (omega (arith, length-step_over b',' c list))
  | inr e ↦ elim (Bool-cases (c == b' ')) [
    | inl d ↦
        rw (e, d) (omega (arith, behind_comma (one_channel 0 list).1, length-one_channel 0 list))
    | inr d ↦
        rw (e, d) (omega (arith, behind_comma (one_channel 1 list).1, length-one_channel 1 list))
  ]
]

Keeps-join_list : (f : ℕ) (list : Str) → length list < f → Keeps IsSound (join_list f list)
unfolding join_list
Keeps-join_list zero list h = absurd (omega arith)
Keeps-join_list (suc f) [] h = Keeps-pure tt
Keeps-join_list (suc f) (c ∷ list) h =
    let rest = (one_channel 0 (c ∷ list)).1 in
    Keeps-bind _ _ (search (session_rules, Keeps-join))
      λ u. Keeps-join_list f (step_over (drop_until b',' rest)) (omega (arith, less_list c list))

Keeps-join_all : (list : Str) → Keeps IsSound (join_all list)
unfolding join_all
Keeps-join_all list = Keeps-join_list (suc (length list)) list (omega arith)
