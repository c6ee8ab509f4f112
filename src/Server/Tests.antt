-- ===== src/Server/Tests.antt =====
-- src/ircc.c: lines from the server at a session that has just begun.
use mega_irc.Common.{
  ℕ, zero, suc, subst, Bool, true, false, Option, none, some, [], ◌∷◌, ◌≡◌, ◌≢◌, inl, refl, arith,
  Str, codes, ap, replicate, All, map,
}
use mega_irc.Irc.Words.{Avoids}
use mega_irc.Irc.{Msg, blank_msg, irc_parse}
use mega_irc.Irc.Written.{Line, IsWritable, write_line, msg_of}
use mega_irc.Session.Monad.{Session}
use mega_irc.Session.Sound.{IsSound}
use mega_irc.Session.Sample.{first_session, first_session-IsSound}
use mega_irc.Server.{has_sasl, next_nick, handle_line}
use mega_irc.Server.Sound.{ShortWho, handle_line_lem}
use mega_irc.Server.Ping.{handle_line-ping, handle_line-spins}
use mega_irc.Stream.Lines.{wire}
use mega_irc.Server.Wire.{receive, handle_msgs, IsSent, receive-messages}
use mega_irc.Server.Nick.{refusals, refusals_differ}

-- The word is found inside another word.
has_sasl_at_end : has_sasl (codes "multi-prefix sasl") ≡ true
unfolding has_sasl
has_sasl_at_end = refl

has_sasl_cut : has_sasl (codes "sas") ≡ false
unfolding has_sasl
has_sasl_cut = refl

next_nick_short : next_nick (codes "mega") ≡ codes "mega2"
unfolding next_nick
next_nick_short = refl

-- Behind a nine comes a colon, which no nick may hold.
next_nick_nine : next_nick (codes "megamegamegame9") ≡ codes "megamegamegame:"
unfolding next_nick
next_nick_nine = refl

abbrev own_join : Str
own_join = codes ":mega!u@h JOIN #c64"

own_join-short : (m : Msg) → irc_parse (some own_join) ≡ some (true, m) → ShortWho m
unfolding irc_parse
own_join-short m e = subst ShortWho (ap parsed e) (omega arith, tt)
  where
    parsed : Option (Bool × Msg) → Msg
    parsed none = blank_msg
    parsed (some (found, m)) = m

handle_line_lem_example :
    (t : Session) × (handle_line own_join first_session ≡ some (tt, t)) × IsSound t
handle_line_lem_example =
    handle_line_lem own_join first_session own_join-short first_session-IsSound

abbrev ping : Line
ping = record {
  tags = none;
  nick = none;
  host = none;
  command = codes "PING";
  middle = [];
  trailing = some (codes "irc.test");
}

ping-IsWritable : IsWritable ping
ping-IsWritable = record {
  tags_word = tt;
  nick_word = tt;
  nick_plain = tt;
  host_word = tt;
  host_behind = refl;
  command_word = ground arith;
  command_at = ground arith;
  middle_params = tt;
}

handle_line-ping_example :
    handle_line (codes "PING :irc.test") first_session
    ≡ some (tt, record first_session { sent = codes "PONG :irc.test\r\n" ∷ []; tx_lines = 0 })
handle_line-ping_example =
    handle_line-ping ping (codes "irc.test") first_session ping-IsWritable refl (inl refl)
      (omega arith) (omega arith)

replicate-Avoids : (n c d : ℕ) → c ≢ d → Avoids d (replicate n c)
replicate-Avoids zero c d h = tt
replicate-Avoids (suc n) c d h = (h, replicate-Avoids n c d h)

abbrev long_nick : Str
long_nick = replicate 256 b'a'

abbrev long_part : Line
long_part = record {
  tags = none;
  nick = some long_nick;
  host = none;
  command = codes "PART";
  middle = codes "#c64" ∷ [];
  trailing = none;
}

long_part-IsWritable : IsWritable long_part
long_part-IsWritable = record {
  tags_word = tt;
  nick_word = replicate-Avoids 256 b'a' b' ' (λ e. omega arith);
  nick_plain = replicate-Avoids 256 b'a' b'!' (λ e. omega arith);
  host_word = tt;
  host_behind = tt;
  command_word = ground arith;
  command_at = ground arith;
  middle_params = ground arith;
}

handle_line-spins_example : handle_line (write_line long_part) first_session ≡ none
handle_line-spins_example =
    handle_line-spins long_part long_nick first_session long_part-IsWritable refl refl (omega arith)

refusals_differ_example :
    (a : Session) × (b : Session) × (refusals 3 first_session ≡ some (tt, a))
    × (refusals 40 first_session ≡ some (tt, b))
    × (a.nick ≢ b.nick)
refusals_differ_example =
    refusals_differ 3 40 first_session (omega arith) (omega arith) (omega arith)

-- A PING and a JOIN of another, off the wire.
abbrev joined : Line
joined = record {
  tags = none;
  nick = some (codes "sam");
  host = some (codes "u@h");
  command = codes "JOIN";
  middle = codes "#c64" ∷ [];
  trailing = none;
}

joined-IsWritable : IsWritable joined
joined-IsWritable = record {
  tags_word = tt;
  nick_word = ground arith;
  nick_plain = ground arith;
  host_word = ground arith;
  host_behind = tt;
  command_word = ground arith;
  command_at = ground arith;
  middle_params = ground arith;
}

two_lines-IsSent : All IsSent (ping ∷ joined ∷ [])
two_lines-IsSent = (
  (ping-IsWritable, (omega arith, ground arith, ground arith), (omega arith, tt)),
  ((joined-IsWritable, (omega arith, ground arith, ground arith), (omega arith, tt)), tt),
)

receive-messages_example :
    (t : Session) × (receive 7 (wire (map write_line (ping ∷ joined ∷ []))) first_session
      ≡ some (tt, t))
    × (handle_msgs (map msg_of (ping ∷ joined ∷ [])) first_session ≡ some (tt, t))
    × IsSound t
receive-messages_example =
    receive-messages (ping ∷ joined ∷ []) 7 first_session two_lines-IsSent (omega arith)
      first_session-IsSound
