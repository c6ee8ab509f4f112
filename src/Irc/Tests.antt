-- ===== src/Irc/Tests.antt =====
-- src/irc.c at concrete lines: tests by evaluation, and the theorems at inputs that they apply to.
use mega_irc.Common.{Bool, true, false, some, [], ◌∷◌, ◌≡◌, refl, arith, Str, codes, take}
use mega_irc.Irc.{Msg, blank_msg, irc_parse, irc_ctcp}
use mega_irc.Irc.Sound.{Outcome, irc_parse_sound}
use mega_irc.Irc.Written.{Line, IsWritable, write_line, msg_of}
use mega_irc.Irc.RoundTrip.{irc_parse-write_line}
use mega_irc.Irc.Ctcp.{irc_ctcp-write_ctcp}

abbrev names_reply : Line
names_reply = record {
  tags = some (codes "a=b");
  nick = some (codes "irc.test");
  host = some (codes "x@y");
  command = codes "353";
  middle = codes "me" ∷ codes "=" ∷ codes "#c64" ∷ [];
  trailing = some (codes ":a b");
}

abbrev names_text : Str
names_text = codes "@a=b :irc.test!x@y 353 me = #c64 ::a b"

names_reply_text : write_line names_reply ≡ names_text
names_reply_text = refl

parse-names_text :
    irc_parse (some names_text) ≡ some (true, record (msg_of names_reply) { numeric = 353 })
unfolding irc_parse
parse-names_text = refl

-- A line that begins with a space is accepted with the empty command.
parse_space :
    irc_parse (some (codes " PING"))
    ≡ some (true, record blank_msg { cmd = some []; params = codes "PING" ∷ [] })
unfolding irc_parse
parse_space = refl

parse_prefix_only :
    irc_parse (some (codes ":nick!host"))
    ≡ some (false, record blank_msg { prefix = some (codes "nick"); host = some (codes "host") })
unfolding irc_parse
parse_prefix_only = refl

names_reply-IsWritable : IsWritable names_reply
names_reply-IsWritable = record {
  tags_word = ground arith;
  nick_word = ground arith;
  nick_plain = ground arith;
  host_word = ground arith;
  host_behind = tt;
  command_word = ground arith;
  command_at = ground arith;
  middle_params = ground arith;
}

irc_parse-write_line_example :
    irc_parse (some (write_line names_reply)) ≡ some (true, msg_of names_reply)
irc_parse-write_line_example = irc_parse-write_line names_reply names_reply-IsWritable

irc_parse_sound_example :
    (found : Bool) × (m : Msg) × (irc_parse (some names_text) ≡ some (found, m))
    × Outcome names_text found m
irc_parse_sound_example = irc_parse_sound names_text

abbrev action : Msg
action = record blank_msg { trailing = some (1 ∷ codes "ACTION waves\u{1}") }

irc_ctcp-write_ctcp_example : irc_ctcp action 5 ≡ record {
  found = true;
  msg = record action { trailing = some (codes "waves") };
  tag = some (take 4 (codes "ACTION"));
}
irc_ctcp-write_ctcp_example =
    irc_ctcp-write_ctcp action 5 (codes "ACTION") (some (codes "waves")) (omega arith) (omega arith)
      (ground arith) (ground arith) (ground arith) refl
