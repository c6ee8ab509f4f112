-- ===== src/Typed/Words.antt =====
-- src/m65/cmd.c: the lengths of the words of a typed line.
use mega_irc.Common.{
  ◌≤◌, Bool, true, false, Option, some, ap, arith, Str, if◌then◌else◌, length, length-append,
}
use mega_irc.Client.{is_channel}
use mega_irc.Irc.{take_until, drop_until, step_over}
use mega_irc.Irc.Words.{length-drop_until, length-skip_spaces, take_until-append-drop_until}
use mega_irc.Irc.Written.{length-step}
use mega_irc.Session.Keeps.{Gives, Keeps-gets, Gives-if, Gives-pure, Gives-bind, Gives-Keeps}
use mega_irc.Session.Sound.{IsSound}
use mega_irc.Ignore.Sound.{Keeps-usage}
use mega_irc.Typed.{first_word, chan_arg}

pub length-first_word :
    (arg : Str)
    → (length (first_word arg).0 ≤ length arg) × (length (first_word arg).1 ≤ length arg)
unfolding first_word
length-first_word arg =
    let whole = length-append (take_until b' ' arg) (drop_until b' ' arg) in
    let left = length-skip_spaces (step_over (drop_until b' ' arg)) in
    (
      omega (arith, ap length (take_until-append-drop_until b' ' arg), whole),
      omega (arith, left, length-step (drop_until b' ' arg), length-drop_until b' ' arg),
    )

-- The argument behind a channel is no longer than the argument.
abbrev pub Behind : Str → Option Str × Str → Type 0
Behind arg p = length p.1 ≤ length arg

behind : (b : Bool) (arg : Str) → length (if b then (first_word arg).1 else arg) ≤ length arg
behind true arg = (length-first_word arg).1
behind false arg = omega arith

pub Gives-chan_arg : (arg : Str) → Gives IsSound (Behind arg) (chan_arg arg)
unfolding chan_arg
Gives-chan_arg arg =
    Gives-bind {Q = λ h. Unit {0}} _ _ _ (Gives-Keeps _ _ (λ h. tt) (Keeps-gets _)) λ here u.
      Gives-if _ (is_channel _) _ _ (Gives-pure (Behind arg) _ (behind (is_channel (some arg)) arg))
        (Gives-bind {Q = λ h. Unit {0}} _ _ _ (Gives-Keeps _ _ (λ h. tt) (Keeps-usage _))
          λ v w. Gives-pure (Behind arg) _ (behind (is_channel (some arg)) arg))
