-- ===== src/Server/Ping.antt =====
-- src/ircc.c: `handle_line` on a PING, and on a prefix of 256 bytes or more.
use mega_irc.Common.{
  ℕ, ◌+◌, ◌-◌, ◌%◌, ◌^◌, ◌≤◌, ◌<◌, Bool, true, false, none, some, List, [], ◌∷◌, ◌++◌, ◌≡◌, ◌∙◌,
  ◌⊎◌, inl, inr, refl, ap, arith, Str, codes, if◌then◌else◌, length, take, zero, suc, append-nil,
  length-append,
}
use mega_irc.Client.{line_max, send3_text}
use mega_irc.Client.Compose.{send3_text_lem}
use mega_irc.Irc.{Msg, irc_is}
use mega_irc.Irc.Command.{irc_is_iff}
use mega_irc.Irc.Written.{numeric_of-long, Line, IsWritable, write_line, msg_of}
use mega_irc.Irc.RoundTrip.{irc_parse-write_line}
use mega_irc.Session.Monad.{>>=-none, Session, ◌>>=◌, pure, modify, when, gets}
use mega_irc.Session.{send_all, send3, send, say_text, view_of, lit}
use mega_irc.Session.Sound.{say_text-spins}
use mega_irc.Talk.{param}
use mega_irc.Server.{or_first, uncount, handle_msg, on_parsed, handle_line, on_people, on_part}

handle_line-write_line :
    (l : Line) (s : Session) → IsWritable l → handle_line (write_line l) s ≡ handle_msg (msg_of l) s
unfolding handle_line on_parsed
handle_line-write_line l s v = rw (irc_parse-write_line l v) refl

-- What a PING asks to have back: its text, or its first parameter.
abbrev pub IsToken : Line → Str → Type 0
IsToken l t = (l.trailing ≡ some t) ⊎ ((ws : List Str) × (l.middle ≡ t ∷ ws) × (l.trailing ≡ none))

token_of :
    (l : Line) (t : Str) → IsToken l t → or_first (msg_of l).trailing (param (msg_of l) 0) ≡ some t
token_of l t (inl e) = rw e refl
token_of l t (inr (ws, e, n)) = rw (n, e) refl

abbrev pub pong : Str → Line
pong t = record {
  tags = none;
  nick = none;
  host = none;
  command = codes "PONG";
  middle = [];
  trailing = some t;
}

-- The count after `tx_lines++`, if the line went, and `tx_lines--`.
abbrev pub after_ping : Bool → ℕ → ℕ
after_ping true n = n
after_ping false n = (n + (2 ^ 32 - 1)) % 2 ^ 32

counted :
    (went : Bool) (n : ℕ)
    → n < 2 ^ 32
    → ((if went then (n + 1) % 2 ^ 32 else n) + (2 ^ 32 - 1)) % 2 ^ 32 ≡ after_ping went n
counted true n h = omega arith
counted false n h = refl

take_all : (n : ℕ) (xs : Str) → length xs ≤ n → take n xs ≡ xs
take_all zero [] h = refl
take_all zero (x ∷ xs) h = absurd (omega arith)
take_all (suc n) [] h = refl
take_all (suc n) (x ∷ xs) h = ap (◌∷◌ x) (take_all n xs (omega arith))

pong_text :
    (t : Str)
    → length t ≤ 504
    → send3_text (lit (codes "PONG :")) (some t) none ≡ write_line (pong t) ++ codes "\r\n"
pong_text t h =
    (send3_text_lem (lit (codes "PONG :")) (some t) none).0
    ∙ ap (λ k. k ++ codes "\r\n")
        (take_all (line_max - 2) (codes "PONG :" ++ t ++ []) (omega (arith, length-append t []))
          ∙ ap (λ k. codes "PONG :" ++ k) (append-nil t))

-- A PING is answered by the one line that is the PONG with its text, or else with its first
-- parameter, if that is at most 504 bytes long. Nothing else of the session changes, except that
-- where the connection refuses the line the count of lines sent goes down by one, and wraps at 0.
pub handle_line-ping :
    (l : Line) (t : Str) (s : Session)
    → IsWritable l
    → l.command ≡ codes "PING"
    → IsToken l t
    → length t ≤ 504
    → s.tx_lines < 2 ^ 32
    → handle_line (write_line l) s
      ≡ some (
        tt,
        record s {
          sent = s.sent ++ (write_line (pong t) ++ codes "\r\n") ∷ [];
          tx_lines = after_ping (s.accepts (length s.sent)) s.tx_lines;
        },
      )
unfolding handle_msg send send3 send_all uncount modify ◌>>=◌ pure
handle_line-ping l t s v c tok short small =
    let p : irc_is (msg_of l) (codes "PING") ≡ true =
      (irc_is_iff (msg_of l) (codes "PING")).1 (ap some c) in
    let q = pong_text t short in
    let n = counted (s.accepts (length s.sent)) s.tx_lines small in
    handle_line-write_line l s v ∙ rw (p, handle_msg) (rw (token_of l t tok, q, n) refl)

on_part-spins :
    (m : Msg) (who : Str) (s : Session) → 256 ≤ length who → on_part m who false s ≡ none
unfolding on_part gets ◌>>=◌
on_part-spins m who s h =
    let v = view_of s.views (param m 0) in
    let left =
      say_text-spins v (lit (codes "-- ")) (lit (codes " has left: ")) m.trailing who s h in
    >>=-none (say_text v (lit (codes "-- ")) (some who) (lit (codes " has left: ")) m.trailing) _ s
      left

-- A PART whose nick is 256 bytes long or longer never comes back, in whatever state it is met: the
-- loop over the nick counts in one byte.
pub handle_line-spins :
    (l : Line) (nick : Str) (s : Session)
    → IsWritable l
    → l.command ≡ codes "PART"
    → l.nick ≡ some nick
    → 256 ≤ length nick
    → handle_line (write_line l) s ≡ none
unfolding handle_msg on_people on_part when pure ◌>>=◌ gets irc_is
handle_line-spins l nick s v c e h =
    handle_line-write_line l s v
    ∙ rw (c, e) (rw (numeric_of-long b'P' b'A' b'R' b'T' []) (on_part-spins (msg_of l) nick s h))
