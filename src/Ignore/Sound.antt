-- ===== src/Ignore/Sound.antt =====
-- src/m65/cmd.c: the ignore command, and the invariant of the session.
use mega_irc.Common.{ℕ, ◌+◌, Bool, true, false, Option, List, [], ◌∷◌, refl, Str}
use mega_irc.Session.Keeps.{Keeps, Keeps-pure, Keeps-bind}
use mega_irc.Session.Sound.{IsSound, Keeps-aside, session_rules}
use mega_irc.Ignore.{
  say_here, usage, set_slot, Walk, at_slot, at_end, tell_names, ignore_list, on_walk, ignore_name,
  ignore_cmd,
}

pub Keeps-say_here : (a b c : Option Str) → Keeps IsSound (say_here a b c)
unfolding say_here
Keeps-say_here a b c = search session_rules

pub Keeps-usage : (text : Str) → Keeps IsSound (usage text)
unfolding usage
Keeps-usage text = Keeps-say_here _ _ _

Keeps-set_slot : (i : ℕ) (name : Str) → Keeps IsSound (set_slot i name)
unfolding set_slot
Keeps-set_slot i name = Keeps-aside _ λ s. (refl, refl, refl)

Keeps-tell_names : (names : List Str) → Keeps IsSound (tell_names names)
unfolding tell_names
Keeps-tell_names [] = Keeps-pure 0
Keeps-tell_names ([] ∷ names) = Keeps-tell_names names
Keeps-tell_names ((c ∷ name) ∷ names) =
    Keeps-bind _ _ (Keeps-say_here _ _ _)
      λ u. Keeps-bind _ _ (Keeps-tell_names names) λ n. Keeps-pure (n + 1)

Keeps-ignore_list : Keeps IsSound ignore_list
unfolding ignore_list
Keeps-ignore_list = search (session_rules, Keeps-tell_names, Keeps-usage)

Keeps-on_walk : (remove : Bool) (arg : Str) (w : Walk) → Keeps IsSound (on_walk remove arg w)
unfolding on_walk
Keeps-on_walk true arg (at_slot i) = search (session_rules, Keeps-set_slot, Keeps-say_here)
Keeps-on_walk false arg (at_slot i) = Keeps-say_here _ _ _
Keeps-on_walk true arg (at_end n free) = Keeps-say_here _ _ _
Keeps-on_walk false arg (at_end n free) =
    search (session_rules, Keeps-set_slot, Keeps-say_here, Keeps-usage)

Keeps-ignore_name : (remove : Bool) (arg : Str) → Keeps IsSound (ignore_name remove arg)
unfolding ignore_name
Keeps-ignore_name remove [] = Keeps-ignore_list
Keeps-ignore_name remove (c ∷ arg) = search (session_rules, Keeps-on_walk)

pub Keeps-ignore_cmd : (arg : Str) → Keeps IsSound (ignore_cmd arg)
unfolding ignore_cmd
Keeps-ignore_cmd [] = Keeps-ignore_name false []
Keeps-ignore_cmd (c ∷ arg) = search (session_rules, Keeps-ignore_name)
