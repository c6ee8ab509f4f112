-- ===== src/Slash/Sound.antt =====
-- src/m65/cmd.c and src/ircc.c: `typed_line` and the invariant of the session.
use mega_irc.Common.{
  ℕ, ◌<◌, Bool, true, false, not, ◌&&◌, Option, none, some, [], ◌∷◌, ◌≡◌, refl, arith, Str, ◌==◌,
  if◌then◌else◌, length, length-take, take, get_or,
}
use mega_irc.Typed.Words.{length-first_word, Behind, Gives-chan_arg}
use mega_irc.Log.{log_clear}
use mega_irc.View.Shape.{KeysMatch-SameShape}
use mega_irc.Session.Monad.{Session, ◌>>=◌, gets, modify, when}
use mega_irc.Session.Keeps.{
  Keeps, Gives, Keeps-pure, Keeps-bind, Keeps-bind-gets, Keeps-bind-Gives, Keeps-modify, Gives-pure,
  Gives-bind, Keeps-when, Keeps-if, Gives-if,
}
use mega_irc.Session.Sound.{IsSound, Short, Keeps-aside, Keeps-view_for, session_rules}
use mega_irc.Talk.Sound.{Keeps-sendv}
use mega_irc.Ignore.Sound.{Keeps-say_here, Keeps-usage, Keeps-ignore_cmd}
use mega_irc.Server.{is_given}
use mega_irc.Server.Sound.{Keeps-identify}
use mega_irc.Typed.{privmsg, first_word, named}
use mega_irc.Typed.Sound.{Keeps-privmsg, Keeps-join}
use mega_irc.Slash.{
  cmd_lookup, cmd_flags, has, f_chan, f_word, f_need, f_swap, missing, Gathered, stop, need, parts,
  gather_text, gather_swap, gather_word, gather,
}
use mega_irc.Slash.Run.{
  text_of, run_part, run_quit, run_me, run_identify, run_raw, open_query, run_query, run_close,
  run_notice, run_op, run_clear, run_help, run, sent_as_gathered, needs_more, run_gathered,
  cmd_line, talk, typed_line,
}

Keeps-run_part : (chan : Option Str) → Keeps IsSound (run_part chan)
unfolding run_part
Keeps-run_part chan = search (session_rules, Keeps-sendv) depth 12

leaving : Keeps IsSound (modify λ s. record s { quitting = true })
leaving = Keeps-aside _ λ s. (refl, refl, refl)

Keeps-run_quit : (arg : Str) → Keeps IsSound (run_quit arg)
unfolding run_quit
Keeps-run_quit arg = search (session_rules, Keeps-sendv, leaving) depth 12

Keeps-run_me : (arg : Str) → Keeps IsSound (run_me arg)
unfolding run_me named
Keeps-run_me arg = Keeps-bind-gets _ _ λ s h.
    (let short : length (named s.views s.views.view_active) < 256 =
        (let m = h.names s.views.view_active in omega (arith, m)) in
      search (session_rules, Keeps-privmsg, Keeps-usage) depth 12)

password_taken : (arg : Str) → Keeps IsSound (modify λ s. record s { nspass = take 32 arg })
password_taken arg = Keeps-modify _ λ s h. record {
  keys = h.keys;
  names = h.names;
  nick_fits = h.nick_fits;
  nspass_fits = omega (arith, length-take 32 arg);
}

Keeps-run_identify : (arg : Str) → Keeps IsSound (run_identify arg)
unfolding run_identify
Keeps-run_identify arg =
    search (session_rules, Keeps-identify, Keeps-usage, password_taken) depth 12

Keeps-run_raw : (arg : Str) → Keeps IsSound (run_raw arg)
unfolding run_raw
Keeps-run_raw arg = search (session_rules, Keeps-say_here) depth 12

greeted :
    (v : ℕ) (rest : Str)
    → Keeps IsSound
        (gets (λ s. named s.views v) >>= λ person. when (is_given rest) (privmsg person rest false))
unfolding named
greeted v rest = Keeps-bind-gets _ _ λ s h.
    (let m = h.names v in
      Keeps-when _ _ (Keeps-privmsg (named s.views v) rest false (omega (arith, m))))

Keeps-open_query : (name rest : Str) → Keeps IsSound (open_query name rest)
unfolding open_query
Keeps-open_query name rest =
    Keeps-bind _ _ (Keeps-view_for name) λ v.
      (let k = λ (u : Unit {0}). greeted v rest in search (session_rules, Keeps-usage) depth 12)

Keeps-run_query : (arg : Str) → Keeps IsSound (run_query arg)
unfolding run_query
Keeps-run_query arg = search (session_rules, Keeps-open_query) depth 12

Keeps-run_close : Keeps IsSound run_close
unfolding run_close
Keeps-run_close = search (session_rules, Keeps-usage) depth 12

Keeps-run_notice :
    (word : Option Str) (arg : Str) → Short word → Keeps IsSound (run_notice word arg)
unfolding run_notice
Keeps-run_notice word arg short = search session_rules depth 12

Keeps-run_op :
    (chan : Option Str) (mode : Str) (word : Option Str) → Keeps IsSound (run_op chan mode word)
unfolding run_op
Keeps-run_op chan mode word = search (session_rules, Keeps-sendv)

log_cleared : Keeps IsSound (
    modify λ s. record s {
      views = record (s.views) { log = log_clear s.views.log s.views.view_active };
    })
log_cleared = Keeps-modify _ λ s h. record {
  keys =
      KeysMatch-SameShape s.views _
        (record { order = refl; active = refl; used = λ v. refl; name = λ v. refl }) h.keys;
  names = h.names;
  nick_fits = h.nick_fits;
  nspass_fits = h.nspass_fits;
}

Keeps-run_clear : Keeps IsSound run_clear
unfolding run_clear
Keeps-run_clear = search (session_rules, log_cleared) depth 12

Keeps-run_help : Keeps IsSound run_help
unfolding run_help
Keeps-run_help = search (session_rules, Keeps-usage) depth 12

Keeps-sent_as_gathered :
    (id f : ℕ) (chan word text : Option Str) (arg : Str)
    → Keeps IsSound (sent_as_gathered id f chan word text arg)
unfolding sent_as_gathered
Keeps-sent_as_gathered id f chan word text arg = search (session_rules, Keeps-sendv) depth 12

Keeps-needs_more : (s : Str) → Keeps IsSound (needs_more s)
unfolding needs_more
Keeps-needs_more s = Keeps-say_here _ _ _

text_of-Short : (word : Option Str) → Short word → length (text_of word) < 256
text_of-Short none h = omega arith
text_of-Short (some w) h = h

Keeps-run :
    (id : ℕ) (chan word : Option Str) (arg : Str)
    → Short word
    → Keeps IsSound (run id chan word arg)
unfolding run
Keeps-run id chan word arg short =
    let fits = text_of-Short word short in
    search
      (
        session_rules, Keeps-join, Keeps-run_part, Keeps-run_quit, Keeps-privmsg, Keeps-run_me,
        Keeps-run_identify, Keeps-run_raw, Keeps-run_query, Keeps-run_close, Keeps-run_notice,
        Keeps-run_op, Keeps-ignore_cmd, Keeps-run_clear, Keeps-run_help,
      )
      depth 24

abbrev WordFits : Gathered → Type 0
WordFits stop = Unit {0}
WordFits need = Unit {0}
WordFits (parts chan word text arg) = Short word

Keeps-run_gathered :
    (s : Str) (id f : ℕ) (g : Gathered) → WordFits g → Keeps IsSound (run_gathered s id f g)
unfolding run_gathered
Keeps-run_gathered s id f stop h = Keeps-pure tt
Keeps-run_gathered s id f need h = Keeps-needs_more s
Keeps-run_gathered s id f (parts chan word text arg) h =
    search (session_rules, Keeps-run, Keeps-sent_as_gathered, Keeps-needs_more)

on_if : {A : Type 0} (Q : A → Type 0) (b : Bool) (x y : A) → Q x → Q y → Q (if b then x else y)
on_if Q true x y h k = h
on_if Q false x y h k = k

gather_text-WordFits :
    (f : ℕ) (chan word : Option Str) (arg : Str)
    → Short word
    → WordFits (gather_text f chan word arg)
unfolding gather_text
gather_text-WordFits f chan word arg h =
    on_if WordFits (has f f_need && not (is_given arg)) _ _ tt h

Gives-gather_swap :
    (f : ℕ) (chan word : Option Str) (arg : Str)
    → Short word
    → Gives IsSound WordFits (gather_swap f chan word arg)
unfolding gather_swap
Gives-gather_swap f chan word arg h =
    Gives-bind {Q = Behind arg} _ _ _
      (Gives-if _ (has f f_swap) _ _ (Gives-chan_arg arg) (Gives-pure _ (chan, arg) (omega arith)))
      λ p _. Gives-pure _ _ (
        on_if WordFits (has f f_swap && missing p.0) _ _ tt (gather_text-WordFits f p.0 word p.1 h))

Gives-gather_word :
    (f : ℕ) (chan : Option Str) (arg : Str)
    → length arg < 256
    → Gives IsSound WordFits (gather_word f chan arg)
unfolding gather_word
Gives-gather_word f chan arg h =
    Gives-if _ (has f f_word) _ _
      (Gives-if _ (is_given (first_word arg).0) _ _
        (Gives-gather_swap f chan (some (first_word arg).0) (first_word arg).1
          (omega (arith, (length-first_word arg).0)))
        (Gives-pure _ need tt))
      (Gives-gather_swap f chan none arg tt)

Gives-gather : (f : ℕ) (arg : Str) → length arg < 256 → Gives IsSound WordFits (gather f arg)
unfolding gather
Gives-gather f arg h =
    let first = has f f_chan && not (has f f_swap) in
    Gives-bind {Q = Behind arg} _ _ _
      (Gives-if _ first _ _ (Gives-chan_arg arg) (Gives-pure _ (none, arg) (omega arith)))
      λ p b.
        Gives-if _ (first && missing p.0) _ _ (Gives-pure _ stop tt)
          (Gives-gather_word f p.0 p.1 (omega (arith, b)))

Keeps-cmd_line : (line : Str) → length line < 256 → Keeps IsSound (cmd_line line)
unfolding cmd_line
Keeps-cmd_line line h =
    let (s, arg) = first_word line in
    let id = cmd_lookup s in
    let f = get_or cmd_flags id 0 in
    let short : length arg < 256 = omega (arith, (length-first_word line).1) in
    Keeps-if (id == 0) _ _ (Keeps-say_here _ _ _) (
      Keeps-bind-Gives (gather f arg) _ (Gives-gather f arg short)
        λ g fits. Keeps-run_gathered s id f g fits)

Keeps-talk : (input : Str) → Keeps IsSound (talk input)
unfolding talk named
Keeps-talk input = Keeps-bind-gets _ _ λ s h.
    (let short : length (s.views.views s.views.view_active).name < 256 =
        (let m = h.names s.views.view_active in omega (arith, m)) in
      search (session_rules, Keeps-privmsg, Keeps-say_here) depth 12)

Keeps-typed_line : (input : Str) → length input < 256 → Keeps IsSound (typed_line input)
unfolding typed_line
Keeps-typed_line [] h = Keeps-talk []
Keeps-typed_line (c ∷ input) h =
    Keeps-if (c == b'/') _ _ (Keeps-cmd_line input (omega arith)) (Keeps-talk (c ∷ input))

-- From a sound session `typed_line` comes back on every line of less than 256 bytes, whichever of
-- the commands it is, known or not, complete or not, and what it leaves is sound again.
pub typed_line_lem :
    (input : Str) (s : Session)
    → length input < 256
    → IsSound s
    → (t : Session) × (typed_line input s ≡ some (tt, t)) × IsSound t
typed_line_lem input s short h =
    let (_, t, r, z) = (Keeps-typed_line input short).at s h in (t, r, z)
