-- ===== src/Server/Wire.antt =====
-- src/ircc.c: from the bytes of the connection to the messages that the session handles: `on_bytes`
-- hands each line that it completes to `handle_line`, which neither reads nor writes the assembly.
use mega_irc.Common.{ℕ, ◌<◌, ◌^◌, some, List, [], ◌∷◌, ◌≡◌, refl, ap, ◌∙◌, Str, map, All}
use mega_irc.Irc.{Msg}
use mega_irc.Irc.Written.{Line, IsWritable, write_line, msg_of}
use mega_irc.Irc.RoundTrip.{irc_parse-write_line}
use mega_irc.Stream.{on_bytes}
use mega_irc.Stream.Lines.{IsWireText, wire, between_lines, on_bytes-wire}
use mega_irc.Session.Monad.{Session, M, ◌>>=◌, pure}
use mega_irc.Session.Keeps.{Keeps, Keeps-pure, Keeps-bind}
use mega_irc.Session.Sound.{IsSound}
use mega_irc.Server.{handle_msg, on_parsed, handle_line}
use mega_irc.Server.Sound.{ShortWho, Keeps-handle_msg}

-- The lines that a run of `on_bytes` completes, handled in their order.
handle_lines : List Str → M (Unit {0})
handle_lines [] = pure tt
handle_lines (l ∷ ls) = handle_line l >>= λ u. handle_lines ls

pub receive : ℕ → List ℕ → M (Unit {0})
unfolding handle_lines
receive n bytes = handle_lines (on_bytes (between_lines n) bytes).1

abbrev pub handle_msgs : List Msg → M (Unit {0})
handle_msgs [] = pure tt
handle_msgs (m ∷ ms) = handle_msg m >>= λ u. handle_msgs ms

-- A line that can be sent, and whose names the client can measure.
abbrev pub IsSent : Line → Type 0
IsSent l = IsWritable l × IsWireText (write_line l) × ShortWho (msg_of l)

lines_sent : (ls : List Line) → All IsSent ls → All IsWireText (map write_line ls)
lines_sent [] h = tt
lines_sent (l ∷ ls) (h, hs) = (h.1, lines_sent ls hs)

handle_line-msg : (l : Line) → IsWritable l → handle_line (write_line l) ≡ handle_msg (msg_of l)
unfolding handle_line on_parsed
handle_line-msg l v = ap on_parsed (irc_parse-write_line l v)

handle_lines-msgs :
    (ls : List Line)
    → All IsSent ls
    → handle_lines (map write_line ls) ≡ handle_msgs (map msg_of ls)
unfolding handle_lines
handle_lines-msgs [] h = refl
handle_lines-msgs (l ∷ ls) (h, hs) = rw (handle_line-msg l h.0, handle_lines-msgs ls hs) refl

Keeps-handle_msgs : (ls : List Line) → All IsSent ls → Keeps IsSound (handle_msgs (map msg_of ls))
Keeps-handle_msgs [] h = Keeps-pure tt
Keeps-handle_msgs (l ∷ ls) (h, hs) =
    Keeps-bind _ _ (Keeps-handle_msg (msg_of l) h.2) λ u. Keeps-handle_msgs ls hs

-- The bytes of any number of lines in the protocol's grammar, each with its CRLF, are handled as the
-- messages that the lines stand for, one after another, and from a sound session that comes back
-- with a sound session. Each line is shorter than 512 bytes without newlines and NULs, and its
-- prefix and second parameter are shorter than 256 bytes.
pub receive-messages :
    (ls : List Line) (n : ℕ) (s : Session)
    → All IsSent ls
    → n < 2 ^ 32
    → IsSound s
    → (t : Session) × (receive n (wire (map write_line ls)) s ≡ some (tt, t))
      × (handle_msgs (map msg_of ls) s ≡ some (tt, t))
      × IsSound t
unfolding receive
receive-messages ls n s h small sound =
    let (_, t, e, z) = (Keeps-handle_msgs ls h).at s sound in
    let lines : (on_bytes (between_lines n) (wire (map write_line ls))).1 ≡ map write_line ls =
      ap (λ r. r.1) (on_bytes-wire (map write_line ls) n (lines_sent ls h) small) in
    let same : handle_lines (on_bytes (between_lines n) (wire (map write_line ls))).1 s
        ≡ handle_msgs (map msg_of ls) s =
      ap (λ x. handle_lines x s) lines ∙ ap (λ m. m s) (handle_lines-msgs ls h) in
    (t, same ∙ e, e, z)
