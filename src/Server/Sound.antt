-- ===== src/Server/Sound.antt =====
-- src/ircc.c: `handle_line` and the invariant of the session.
use mega_irc.Common.{
  ℕ, ◌≤◌, ◌<◌, Bool, true, false, some, [], ◌∷◌, ◌≡◌, inl, inr, refl, ap, ◌∙◌, arith, Str, codes,
  ltb, ◌==◌, if◌then◌else◌, length, length-append, length-take, take, Bool-cases,
}
use mega_irc.Irc.{Msg, irc_parse}
use mega_irc.Irc.Sound.{irc_parse_sound}
use mega_irc.Session.Monad.{Session, modify}
use mega_irc.Session.Keeps.{Keeps, Keeps-pure, Keeps-modify}
use mega_irc.Session.{say_text, lit, or_empty}
use mega_irc.Session.Sound.{IsSound, Short, Keeps-aside, Keeps-say_text, session_rules}
use mega_irc.Talk.{param}
use mega_irc.Talk.Sound.{Keeps-cmd_said, Keeps-cmd_routed}
use mega_irc.Server.{
  uncount, cap_end, on_cap, authenticate, sasl_done, sasl_failed, identify, on_welcome, bump_last,
  next_nick, on_nick_in_use, on_own_join, on_join, on_part, on_nick, on_other, on_rest, on_people,
  handle_msg, on_parsed, handle_line,
}

Keeps-uncount : Keeps IsSound uncount
unfolding uncount
Keeps-uncount = Keeps-aside _ λ s. (refl, refl, refl)

Keeps-cap_end : Keeps IsSound cap_end
unfolding cap_end
Keeps-cap_end = search session_rules

Keeps-on_cap : (m : Msg) (text : Str) → Keeps IsSound (on_cap m text)
unfolding on_cap
Keeps-on_cap m text = search (session_rules, Keeps-cap_end)

Keeps-authenticate : Keeps IsSound authenticate
unfolding authenticate
Keeps-authenticate = search session_rules

sasl_is_done : Keeps IsSound (modify λ s. record s { sasl_ok = true })
sasl_is_done = Keeps-aside _ λ s. (refl, refl, refl)

Keeps-sasl_done : Keeps IsSound sasl_done
unfolding sasl_done
Keeps-sasl_done = search (session_rules, Keeps-cap_end, sasl_is_done) depth 12

Keeps-sasl_failed : (text : Str) → Keeps IsSound (sasl_failed text)
unfolding sasl_failed
Keeps-sasl_failed text = search (session_rules, Keeps-cap_end)

pub Keeps-identify : (nspass : Str) → Keeps IsSound (identify nspass)
unfolding identify
Keeps-identify nspass = search session_rules

is_registered : Keeps IsSound (modify λ s. record s { registered = true })
is_registered = Keeps-aside _ λ s. (refl, refl, refl)

Keeps-on_welcome : Keeps IsSound on_welcome
unfolding on_welcome
Keeps-on_welcome = search (session_rules, Keeps-identify, is_registered) depth 20

length-bump_last : (nick : Str) → length (bump_last nick) ≤ length nick
unfolding bump_last
length-bump_last [] = omega arith
length-bump_last (c ∷ []) = elim (Bool-cases (c == 255)) [
  | inl e ↦ rw e (omega arith)
  | inr e ↦ rw e (omega arith)
]
length-bump_last (c ∷ d ∷ s) = omega (arith, length-bump_last (d ∷ s))

length-next_nick : (nick : Str) → length nick ≤ 16 → length (next_nick nick) ≤ 16
unfolding next_nick
length-next_nick nick h = elim (Bool-cases (ltb (length nick) 15)) [
  | inl e ↦
      let l : length nick < 15 = ground (arith, e) in
      rw e (omega (arith, length-append nick (b'2' ∷ [])))
  | inr e ↦ rw e (omega (arith, length-bump_last nick))
]

nick_stepped : Keeps IsSound (modify λ s. record s { nick = next_nick s.nick })
nick_stepped = Keeps-modify _ λ s h. record {
  keys = h.keys;
  names = h.names;
  nick_fits = length-next_nick s.nick h.nick_fits;
  nspass_fits = h.nspass_fits;
}

Keeps-on_nick_in_use : Keeps IsSound on_nick_in_use
unfolding on_nick_in_use
Keeps-on_nick_in_use = search (session_rules, nick_stepped)

Keeps-on_own_join : (chan : Str) → Keeps IsSound (on_own_join chan)
unfolding on_own_join
Keeps-on_own_join chan = search session_rules depth 12

Keeps-on_join : (m : Msg) (who text : Str) → Keeps IsSound (on_join m who text)
unfolding on_join
Keeps-on_join m who text = search (session_rules, Keeps-on_own_join) depth 12

kicked_or_left :
    (v : ℕ) (kick : Bool) (m : Msg) (who : Str)
    → length who < 256
    → Short (param m 1)
    → Keeps IsSound (
        say_text v
          (lit (codes "-- "))
          (if kick then param m 1 else some who)
          (lit (if kick then codes " was kicked: " else codes " has left: "))
          m.trailing)
kicked_or_left v false m who h k = Keeps-say_text _ _ _ _ _ h
kicked_or_left v true m who h k = Keeps-say_text _ _ _ _ _ k

Keeps-on_part :
    (m : Msg) (who : Str) (kick : Bool)
    → length who < 256
    → Short (param m 1)
    → Keeps IsSound (on_part m who kick)
unfolding on_part
Keeps-on_part m who kick h k = search (session_rules, kicked_or_left) depth 12

nick_taken : (to : Str) → Keeps IsSound (modify λ s. record s { nick = take 16 to })
nick_taken to = Keeps-modify _ λ s h. record {
  keys = h.keys;
  names = h.names;
  nick_fits = omega (arith, length-take 16 to);
  nspass_fits = h.nspass_fits;
}

Keeps-on_nick : (m : Msg) (who text : Str) → Keeps IsSound (on_nick m who text)
unfolding on_nick
Keeps-on_nick m who text = search (session_rules, nick_taken) depth 12

Keeps-on_other : (m : Msg) (who text : Str) → Keeps IsSound (on_other m who text)
unfolding on_other
Keeps-on_other m who text = search (session_rules, Keeps-cmd_routed)

Keeps-on_rest : (m : Msg) (who text : Str) → Keeps IsSound (on_rest m who text)
unfolding on_rest
Keeps-on_rest m who text = search (session_rules, Keeps-on_other) depth 20

Keeps-on_people :
    (m : Msg) (who text : Str)
    → length who < 256
    → Short (param m 1)
    → Keeps IsSound (on_people m who text)
unfolding on_people
Keeps-on_people m who text h k =
    search
      (session_rules, Keeps-cmd_said, Keeps-on_join, Keeps-on_part, Keeps-on_nick, Keeps-on_rest)
      depth 20

-- What reaches the loop over a nick is the prefix, or a kick's second parameter.
abbrev pub ShortWho : Msg → Type 0
ShortWho m = (length (or_empty m.prefix) < 256) × Short (param m 1)

pub Keeps-handle_msg : (m : Msg) → ShortWho m → Keeps IsSound (handle_msg m)
unfolding handle_msg
Keeps-handle_msg m (h, k) =
    search
      (
        session_rules, Keeps-uncount, Keeps-on_cap, Keeps-authenticate, Keeps-sasl_done,
        Keeps-sasl_failed, Keeps-on_welcome, Keeps-on_nick_in_use, Keeps-on_people,
      )
      depth 20

Keeps-on_parsed :
    (found : Bool) (m : Msg)
    → (found ≡ true → ShortWho m)
    → Keeps IsSound (on_parsed (some (found, m)))
unfolding on_parsed
Keeps-on_parsed false m h = Keeps-pure tt
Keeps-on_parsed true m h = Keeps-handle_msg m (h refl)

-- From a session whose keys and views go together and whose names fit their buffers, `handle_line`
-- comes back on every line, whatever the command, the parameters and the text are, provided that the
-- prefix and the second parameter, if the line is accepted, are shorter than 256 bytes. The session
-- that it leaves is sound again.
pub handle_line_lem :
    (line : Str) (s : Session)
    → ((m : Msg) → irc_parse (some line) ≡ some (true, m) → ShortWho m)
    → IsSound s
    → (t : Session) × (handle_line line s ≡ some (tt, t)) × IsSound t
unfolding handle_line
handle_line_lem line s short h =
    let (found, m, e, _) = irc_parse_sound line in
    let k : found ≡ true → ShortWho m = λ q. short m (e ∙ ap (λ b. some (b, m)) q) in
    let (_, t, r, z) = (Keeps-on_parsed found m k).at s h in (t, rw e r, z)
