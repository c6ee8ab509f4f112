-- ===== src/Stream.antt =====
-- src/ircc.c: `on_bytes`, the line assembled from the stream of the connection.
-- The buffer is the list of its first `line_len` bytes. A completed line goes to `handle_line` as a
-- C string, which ends at the first NUL that came off the wire; those strings are what `on_bytes`
-- returns here, in their order. (`idle_frames` and `pinged_idle`, which it also clears, belong to the
-- session loop.)
pub mod Lines
mod Tests
use mega_irc.Common.{ℕ, ◌+◌, ◌%◌, ◌^◌, List, [], ◌∷◌, ◌++◌, Str, ltb, ◌==◌, if◌then◌else◌, length}
use mega_irc.Irc.{take_until}
use mega_irc.Client.{line_max}

pub record Stream : Type 0 where
  pub line : Str
  pub rx_lines : ℕ

-- `if (line_len && line[line_len - 1] == '\r') line_len--`
pub strip_cr : Str → Str
strip_cr [] = []
strip_cr (c ∷ []) = if c == b'\r' then [] else c ∷ []
strip_cr (c ∷ d ∷ l) = c ∷ strip_cr (d ∷ l)

-- One byte: the state behind it, and the lines that it completes.
pub on_byte : Stream → ℕ → Stream × List Str
unfolding strip_cr
on_byte s c =
    if c == b'\n'
    then (
      record { line = []; rx_lines = (s.rx_lines + 1) % 2 ^ 32 },
      take_until 0 (strip_cr s.line) ∷ [],
    )
    else if ltb (length s.line) line_max
    then (record s { line = s.line ++ c ∷ [] }, [])
    else (s, [])

unfoldable pub on_bytes : Stream → List ℕ → Stream × List Str
unfolding on_byte
on_bytes s [] = (s, [])
on_bytes s (c ∷ p) =
    let (t, first) = on_byte s c in let (u, later) = on_bytes t p in (u, first ++ later)
