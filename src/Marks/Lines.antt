-- ===== src/Marks/Lines.antt =====
-- src/m65/marks.c: `read_line` on a text that is made of lines.
use mega_irc.Common.{
  ℕ, zero, suc, ◌+◌, ◌-◌, ◌≤◌, ◌<◌, true, false, none, some, List, [], ◌∷◌, ◌++◌, ◌≡◌, refl, sym,
  ap, ◌∙◌, arith, Str, leb, ◌==◌, length, length-append, take, drop, append_assoc, append-nil,
}
use mega_irc.Irc.{take_until}
use mega_irc.Irc.Words.{Avoids}
use mega_irc.Marks.{newline, line_cap, read_line, next_at, skip_lines, read_field}

-- Each line, and a newline behind it.
abbrev pub write_lines : List Str → Str
write_lines [] = []
write_lines (l ∷ ls) = l ++ newline ∷ write_lines ls

-- A line that fits what is read at once.
abbrev pub IsLine : Str → Type 0
IsLine l = Avoids newline l × (length l < line_cap)

abbrev pub AllLines : List Str → Type 0
AllLines [] = Unit {0}
AllLines (l ∷ ls) = IsLine l × AllLines ls

drop_behind : (a b : Str) → drop (length a) (a ++ b) ≡ b
drop_behind [] b = refl
drop_behind (x ∷ a) b = drop_behind a b

-- The line is cut at its newline, within what is read at once.
cut_line :
    (n : ℕ) (l rest : Str)
    → Avoids newline l
    → length l < n
    → take_until newline (take n (l ++ newline ∷ rest)) ≡ l
unfolding take_until
cut_line zero l rest v h = absurd (omega arith)
cut_line (suc n) [] rest v h = refl
cut_line (suc n) (c ∷ l) rest v h =
    let e : (c == newline) ≡ false = ground (arith, v) in
    rw e (ap (◌∷◌ c) (cut_line n l rest v.1 (omega arith)))

-- The line behind any text is read up to the room there is, and the next begins behind it.
read_line_lem :
    (before l rest : Str) (cap : ℕ)
    → IsLine l
    → read_line (before ++ (l ++ newline ∷ rest)) (length before) cap
      ≡ some (take (cap - 1) l, length before + length l + 1)
unfolding read_line
read_line_lem before l rest cap (v, h) =
    let text = l ++ newline ∷ rest in
    let inside : leb (length (before ++ text)) (length before) ≡ false =
      ground (arith, length-append before text, length-append l (newline ∷ rest)) in
    rw (inside, drop_behind before text, cut_line line_cap l rest v h) refl

-- At the end there is none.
read_line_end : (text : Str) (cap : ℕ) → read_line text (length text) cap ≡ none
unfolding read_line
read_line_end text cap = let e : leb (length text) (length text) ≡ true = ground arith in rw e refl

pub behind :
    (before l rest : Str)
    → (before ++ (l ++ newline ∷ [])) ++ rest ≡ before ++ (l ++ newline ∷ rest)
behind before l rest =
    append_assoc before (l ++ newline ∷ []) rest
    ∙ ap (λ t. before ++ t) (append_assoc l (newline ∷ []) rest)

pub next_at_lem :
    (before l rest : Str)
    → IsLine l
    → next_at (before ++ (l ++ newline ∷ rest)) (length before)
      ≡ some (length (before ++ (l ++ newline ∷ [])))
unfolding next_at
next_at_lem before l rest h =
    let n : length before + length l + 1 ≡ length (before ++ (l ++ newline ∷ [])) =
      omega (arith, length-append before (l ++ newline ∷ []), length-append l (newline ∷ [])) in
    rw (read_line_lem before l rest 2 h, next_at) (ap some n)

-- The first lines behind a text, skipped one by one.
pub skip_lines_lem :
    (before : Str) (skipped : List Str) (rest : Str)
    → AllLines skipped
    → skip_lines (length skipped) (before ++ (write_lines skipped ++ rest)) (some (length before))
      ≡ some (length (before ++ write_lines skipped))
unfolding skip_lines
skip_lines_lem before [] rest h = ap (λ t. some (length t)) (sym (append-nil before))
skip_lines_lem before (l ∷ ls) rest h =
    let w = write_lines ls in
    let b = before ++ (l ++ newline ∷ []) in
    rw (append_assoc l (newline ∷ w) rest, next_at_lem before l (w ++ rest) h.0, skip_lines)
      (ap (λ t. skip_lines (length ls) t (some (length b))) (sym (behind before l (w ++ rest)))
        ∙ skip_lines_lem b ls rest h.1
        ∙ ap (λ t. some (length t)) (behind before l w))

pub take_whole : (n : ℕ) (l : Str) → length l ≤ n → take n l ≡ l
take_whole zero [] h = refl
take_whole zero (c ∷ l) h = absurd (omega arith)
take_whole (suc n) [] h = refl
take_whole (suc n) (c ∷ l) h = ap (◌∷◌ c) (take_whole n l (omega arith))

-- A field that fits its buffer is read whole.
pub read_field_lem :
    (text before l rest old : Str) (cap : ℕ)
    → text ≡ before ++ (l ++ newline ∷ rest)
    → IsLine l
    → length l < cap
    → read_field text cap (old, some (length before))
      ≡ (l, some (length (before ++ (l ++ newline ∷ []))))
unfolding read_field
read_field_lem text before l rest old cap e h fits =
    let n : length before + length l + 1 ≡ length (before ++ (l ++ newline ∷ [])) =
      omega (arith, length-append before (l ++ newline ∷ []), length-append l (newline ∷ [])) in
    let whole : take (cap - 1) l ≡ l = take_whole (cap - 1) l (omega arith) in
    rw (e, read_line_lem before l rest cap h, read_field) (rw (whole, n) refl)

pub write_lines-append :
    (xs ys : List Str) → write_lines (xs ++ ys) ≡ write_lines xs ++ write_lines ys
write_lines-append [] ys = refl
write_lines-append (l ∷ xs) ys =
    ap (λ t. l ++ newline ∷ t) (write_lines-append xs ys)
    ∙ sym (append_assoc l (newline ∷ write_lines xs) (write_lines ys))
