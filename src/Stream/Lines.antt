-- ===== src/Stream/Lines.antt =====
-- src/ircc.c: the lines that come out of the stream, however it is cut into pieces.
use mega_irc.Common.{
  ℕ, suc, ◌+◌, ◌%◌, ◌^◌, ◌≤◌, ◌<◌, true, false, List, [], ◌∷◌, ◌++◌, ◌≡◌, ◌≢◌, ◌∙◌, inl, inr, refl,
  sym, ap, arith, ltb, Str, All, All-append, length, length-append, fill, fill-nil, fill_room,
  fill_full, fill_whole, append_assoc, Bool-cases,
}
use mega_irc.Irc.{take_until}
use mega_irc.Irc.Words.{Avoids, take_until_all}
use mega_irc.Client.{line_max}
use mega_irc.Stream.{Stream, strip_cr, on_byte, on_bytes}

-- Bytes that come in two pieces do what they do in one.
on_bytes-append :
    (p q : List ℕ) (s : Stream)
    → let (t, first) = on_bytes s p in
      let (u, later) = on_bytes t q in on_bytes s (p ++ q) ≡ (u, first ++ later)
unfolding on_bytes
on_bytes-append [] q s = refl
on_bytes-append (c ∷ p) q s = ground (
  arith,
  on_bytes-append p q (on_byte s c).0,
  append_assoc (on_byte s c).1 (on_bytes (on_byte s c).0 p).1
      (on_bytes (on_bytes (on_byte s c).0 p).0 q).1,
)

byte_kept :
    (s : Stream) (c : ℕ)
    → c ≢ b'\n'
    → ltb (length s.line) line_max ≡ true
    → on_byte s c ≡ (record s { line = s.line ++ c ∷ [] }, [])
unfolding on_byte
byte_kept s c n e = ground arith

byte_dropped :
    (s : Stream) (c : ℕ) → c ≢ b'\n' → ltb (length s.line) line_max ≡ false → on_byte s c ≡ (s, [])
unfolding on_byte
byte_dropped s c n e = ground arith

-- The bytes before a newline fill the line, as far as there is room.
on_bytes-fill :
    (l : Str) (s : Stream)
    → Avoids b'\n' l
    → length s.line ≤ line_max
    → on_bytes s l ≡ (record s { line = fill line_max s.line l }, [])
unfolding on_bytes
on_bytes-fill [] s a h = ap (λ t. (record s { line = t }, [])) (sym (fill-nil line_max s.line))
on_bytes-fill (c ∷ l) s a h = elim (Bool-cases (ltb (length s.line) line_max)) [
  | inl e ↦ rw (byte_kept s c a.0 e) (
      on_bytes-fill l (record s { line = s.line ++ c ∷ [] }) a.1
        (ground (arith, length-append s.line (c ∷ [])))
      ∙ ap (λ t. (record s { line = t }, [])) (fill_room line_max s.line c l (ground arith)))
  | inr e ↦ rw (byte_dropped s c a.0 e) (
      on_bytes-fill l s a.1 h
      ∙ ap (λ t. (record s { line = t }, []))
          (fill_full line_max s.line l (ground arith)
            ∙ sym (fill_full line_max s.line (c ∷ l) (ground arith))))
]

-- A newline completes the line: it is handled as far as it fitted, without a carriage return at its
-- end, and the next one begins empty.
on_bytes_line :
    (l rest : Str) (s : Stream)
    → Avoids b'\n' l
    → length s.line ≤ line_max
    → let (u, later) = on_bytes (record { line = []; rx_lines = (s.rx_lines + 1) % 2 ^ 32 }) rest in
      on_bytes s (l ++ (b'\n' ∷ rest))
      ≡ (u, take_until 0 (strip_cr (fill line_max s.line l)) ∷ later)
on_bytes_line l rest s a h =
    on_bytes-append l (b'\n' ∷ rest) s
    ∙ ap
        (λ (t : Stream × List Str).
          ((on_bytes t.0 (b'\n' ∷ rest)).0, t.1 ++ (on_bytes t.0 (b'\n' ∷ rest)).1))
        (on_bytes-fill l s a h)
    ∙ unfold on_bytes on_byte in refl

strip_cr-append : (t : Str) → strip_cr (t ++ b'\r' ∷ []) ≡ t
unfolding strip_cr
strip_cr-append [] = refl
strip_cr-append (c ∷ []) = refl
strip_cr-append (c ∷ d ∷ t) = ap (◌∷◌ c) (strip_cr-append (d ∷ t))

-- A text that can be sent as a line: it fits, and holds neither a newline nor a NUL.
abbrev pub IsWireText : Str → Type 0
IsWireText t = (length t < line_max) × Avoids b'\n' t × Avoids 0 t

-- Texts on the wire, each behind its own CRLF.
abbrev pub wire : List Str → List ℕ
wire [] = []
wire (t ∷ ts) = (t ++ b'\r' ∷ []) ++ (b'\n' ∷ wire ts)

abbrev pub between_lines : ℕ → Stream
between_lines n = record { line = []; rx_lines = n }

wire-Avoids : (t : Str) → Avoids b'\n' t → Avoids b'\n' (t ++ b'\r' ∷ [])
wire-Avoids t a = All-append (λ c. c ≢ b'\n') t (b'\r' ∷ []) a ((λ q. omega arith), tt)

received :
    (t : Str) → IsWireText t → take_until 0 (strip_cr (fill line_max [] (t ++ b'\r' ∷ []))) ≡ t
received t h =
    ap (λ x. take_until 0 (strip_cr x))
      (fill_whole line_max [] (t ++ b'\r' ∷ []) (omega (arith, length-append t (b'\r' ∷ []))))
    ∙ ap (take_until 0) (strip_cr-append t)
    ∙ take_until_all 0 t h.2

-- Between lines, texts of fewer than 512 bytes without newlines and NULs that come each with a CRLF
-- are handled, every one of them whole and in their order, and are counted in 32 bits.
pub on_bytes-wire :
    (ts : List Str) (n : ℕ)
    → All IsWireText ts
    → n < 2 ^ 32
    → on_bytes (between_lines n) (wire ts) ≡ (between_lines ((n + length ts) % 2 ^ 32), ts)
on_bytes-wire [] n a h =
    let e : (n + 0) % 2 ^ 32 ≡ n = omega arith in rw e (unfold on_bytes in refl)
on_bytes-wire (t ∷ ts) n a h =
    let next = (n + 1) % 2 ^ 32 in
    let count : (next + length ts) % 2 ^ 32 ≡ (n + suc (length ts)) % 2 ^ 32 = omega arith in
    on_bytes_line (t ++ b'\r' ∷ []) (wire ts) (between_lines n) (wire-Avoids t a.0.1) (omega arith)
    ∙ rw (on_bytes-wire ts next a.1 (omega arith), count, received t a.0) refl
