-- ===== src/Marks/Entries.antt =====
-- src/m65/marks.c: a file that is made of entries.
use mega_irc.Common.{
  ◌*◌, ◌<◌, true, false, some, List, [], ◌∷◌, ◌++◌, ◌≡◌, refl, sym, ap, ◌∙◌, arith, Str, leb,
  length, length-append, All,
}
use mega_irc.Irc.Words.{Avoids}
use mega_irc.Marks.{
  Mark, Marks, marks_magic, fields, newline, skip_lines, entry_at, read_mark, marks_get,
}
use mega_irc.Marks.Lines.{
  write_lines, IsLine, AllLines, behind, next_at_lem, skip_lines_lem, read_field_lem,
  write_lines-append,
}

abbrev pub lines_of : List Mark → List Str
lines_of [] = []
lines_of (e ∷ es) = e.host ∷ e.port ∷ e.tls ∷ e.nick ∷ e.chans ∷ lines_of es

-- The file: the magic line, and five lines for each entry.
abbrev pub write_marks : List Mark → Str
write_marks es = write_lines (marks_magic ∷ lines_of es)

-- No field holds a newline, and each fits its buffer.
pub record IsEntry (e : Mark) : Type 0 where
  pub host_line : Avoids newline e.host
  pub host_fits : length e.host < 64
  pub port_line : Avoids newline e.port
  pub port_fits : length e.port < 6
  pub tls_line : Avoids newline e.tls
  pub tls_fits : length e.tls < 2
  pub nick_line : Avoids newline e.nick
  pub nick_fits : length e.nick < 17
  pub chans_line : Avoids newline e.chans
  pub chans_fits : length e.chans < 64

lines_of-append : (xs ys : List Mark) → lines_of (xs ++ ys) ≡ lines_of xs ++ lines_of ys
lines_of-append [] ys = refl
lines_of-append (e ∷ xs) ys =
    ap (λ ls. e.host ∷ e.port ∷ e.tls ∷ e.nick ∷ e.chans ∷ ls) (lines_of-append xs ys)

length-lines_of : (xs : List Mark) → length (lines_of xs) ≡ length xs * fields
length-lines_of [] = refl
length-lines_of (e ∷ xs) = omega (arith, length-lines_of xs)

lines_of-AllLines : (xs : List Mark) → All IsEntry xs → AllLines (lines_of xs)
lines_of-AllLines [] h = tt
lines_of-AllLines (e ∷ xs) (h, hs) =
    let a = h.host_fits in
    let b = h.port_fits in
    let c = h.tls_fits in
    let d = h.nick_fits in
    let f = h.chans_fits in
    (
      (h.host_line, omega (arith, a, b, c, d, f)),
      (
        (h.port_line, omega (arith, a, b, c, d, f)),
        (
          (h.tls_line, omega (arith, a, b, c, d, f)),
          (
            (h.nick_line, omega (arith, a, b, c, d, f)),
            ((h.chans_line, omega (arith, a, b, c, d, f)), lines_of-AllLines xs hs),
          ),
        ),
      ),
    )

-- The five fields behind a text, and what is left behind them.
abbrev pub entry_text : Mark → Str → Str
entry_text e rest =
    e.host
    ++ newline
      ∷ (e.port ++ newline ∷ (e.tls ++ newline ∷ (e.nick ++ newline ∷ (e.chans ++ newline ∷ rest))))

read_mark_lem :
    (before rest : Str) (e old : Mark)
    → IsEntry e
    → read_mark (before ++ entry_text e rest) (some (length before)) old ≡ e
unfolding read_mark
read_mark_lem before rest e old h =
    let text = before ++ entry_text e rest in
    let a = h.host_fits in
    let b = h.port_fits in
    let c = h.tls_fits in
    let d = h.nick_fits in
    let f = h.chans_fits in
    let r4 = e.chans ++ newline ∷ rest in
    let r3 = e.nick ++ newline ∷ r4 in
    let r2 = e.tls ++ newline ∷ r3 in
    let r1 = e.port ++ newline ∷ r2 in
    let b1 = before ++ (e.host ++ newline ∷ []) in
    let b2 = b1 ++ (e.port ++ newline ∷ []) in
    let b3 = b2 ++ (e.tls ++ newline ∷ []) in
    let b4 = b3 ++ (e.nick ++ newline ∷ []) in
    let t1 : text ≡ b1 ++ r1 = sym (behind before e.host r1) in
    let t2 : text ≡ b2 ++ r2 = t1 ∙ sym (behind b1 e.port r2) in
    let t3 : text ≡ b3 ++ r3 = t2 ∙ sym (behind b2 e.tls r3) in
    let t4 : text ≡ b4 ++ r4 = t3 ∙ sym (behind b3 e.nick r4) in
    rw
      (
        read_field_lem text before e.host r1 old.host 64 refl (h.host_line, omega (arith, a)) a,
        read_field_lem text b1 e.port r2 old.port 6 t1 (h.port_line, omega (arith, b)) b,
        read_field_lem text b2 e.tls r3 old.tls 2 t2 (h.tls_line, omega (arith, c)) c,
        read_field_lem text b3 e.nick r4 old.nick 17 t3 (h.nick_line, omega (arith, d)) d,
        read_field_lem text b4 e.chans rest old.chans 64 t4 (h.chans_line, omega (arith, f)) f,
      )
      refl

-- What stands before an entry.
abbrev pub start_of : List Mark → Str
start_of xs = marks_magic ++ newline ∷ write_lines (lines_of xs)

pub split_marks :
    (xs : List Mark) (e : Mark) (ys : List Mark)
    → write_marks (xs ++ e ∷ ys) ≡ start_of xs ++ entry_text e (write_lines (lines_of ys))
split_marks xs e ys =
    ap (λ ls. marks_magic ++ newline ∷ write_lines ls) (lines_of-append xs (e ∷ ys))
    ∙ ap (λ t. marks_magic ++ newline ∷ t) (write_lines-append (lines_of xs) (lines_of (e ∷ ys)))

magic-IsLine : IsLine marks_magic
magic-IsLine = ground arith

entry_at_lem :
    (xs : List Mark) (rest : Str)
    → All IsEntry xs
    → entry_at (start_of xs ++ rest) (length xs) ≡ some (length (start_of xs))
unfolding entry_at
entry_at_lem xs rest h =
    let w = write_lines (lines_of xs) ++ rest in
    rw (next_at_lem [] marks_magic w magic-IsLine) (
      ap (λ k. skip_lines k (start_of xs ++ rest) (some 5)) (sym (length-lines_of xs))
      ∙ skip_lines_lem (marks_magic ++ newline ∷ []) (lines_of xs) rest (lines_of-AllLines xs h))

-- In a file that is written of entries, each with its fields within their buffers and without
-- newlines, every entry is read back as it was written, whatever the buffers held before.
pub marks_get-write_marks :
    (xs : List Mark) (e : Mark) (ys : List Mark) (old : Mark) (m : Marks)
    → m.text ≡ write_marks (xs ++ e ∷ ys)
    → m.marks_count ≡ length (xs ++ e ∷ ys)
    → All IsEntry xs
    → IsEntry e
    → marks_get m (length xs) old ≡ (true, e)
unfolding marks_get
marks_get-write_marks xs e ys old m t n hs h =
    let rest = entry_text e (write_lines (lines_of ys)) in
    let there : leb m.marks_count (length xs) ≡ false =
      ground (arith, n, length-append xs (e ∷ ys)) in
    let text : m.text ≡ start_of xs ++ rest = t ∙ split_marks xs e ys in
    let at : entry_at m.text (length xs) ≡ some (length (start_of xs)) =
      ap (λ x. entry_at x (length xs)) text ∙ entry_at_lem xs rest hs in
    rw (there, at)
      (ap (λ k. (true, k))
        (ap (λ x. read_mark x (some (length (start_of xs))) old) text
          ∙ read_mark_lem (start_of xs) (write_lines (lines_of ys)) e old h))
