-- ===== src/Marks.antt =====
-- src/m65/marks.c: the bookmarks, a text of lines in far memory that is read field by field.
-- The text is the list of its bytes, `text_len` their number; 0xffff is `none`. What the disk makes
-- of a call (src/platform/m65_cbmdos.c) is an argument: the text loaded, and which calls succeed.
pub mod Lines
pub mod Entries
pub mod Add
pub mod Total
mod Tests
use mega_irc.Common.{
  ℕ, zero, suc, ◌+◌, ◌-◌, ◌*◌, ◌/◌, ◌%◌, ◌^◌, Bool, true, false, Option, none, some, List, [], ◌∷◌,
  ◌++◌, Str, codes, ltb, leb, ◌==◌, if◌then◌else◌, length, take, drop, min, ◌>>=◌, require,
}
use mega_irc.Irc.{take_until, same_text}

abbrev pub marks_magic : Str
marks_magic = codes "IRC1"

abbrev pub marks_cap : ℕ
marks_cap = 2048

abbrev pub marks_max : ℕ
marks_max = 8

abbrev pub fields : ℕ
fields = 5

abbrev pub line_cap : ℕ
line_cap = 96

abbrev pub newline : ℕ
newline = 10

-- The five buffers of an entry.
pub record Mark : Type 0 where
  pub host : Str
  pub port : Str
  pub tls : Str
  pub nick : Str
  pub chans : Str

pub record Marks : Type 0 where
  pub text : Str
  pub marks_count : ℕ

-- The line that is read, and the offset past its newline.
unfoldable pub read_line : Str → ℕ → ℕ → Option (Str × ℕ)
read_line text at cap =
    if leb (length text) at
    then none
    else (let l = take_until newline (take line_cap (drop at text)) in
        some (take (cap - 1) l, at + length l + 1))

-- The offset that a line read into two bytes leaves.
pub next_at : Str → ℕ → Option ℕ
next_at text at = elim (read_line text at 2) [ none ↦ none | some r ↦ some r.1 ]

pub skip_lines : ℕ → Str → Option ℕ → Option ℕ
unfolding next_at
skip_lines zero text at = at
skip_lines (suc k) text none = none
skip_lines (suc k) text (some at) = skip_lines k text (next_at text at)

unfoldable pub entry_at : Str → ℕ → Option ℕ
unfolding skip_lines next_at
entry_at text i = skip_lines (i * fields) text (next_at text 0)

-- How many lines there are, in a byte; the fuel is the rounds.
pub count_lines : ℕ → Str → ℕ → Option ℕ
unfolding next_at
count_lines zero text at = none
count_lines (suc f) text at = elim (next_at text at) [
  | none ↦ some 0
  | some at' ↦ elim (count_lines f text at') [ none ↦ none | some n ↦ some ((n + 1) % 2 ^ 8) ]
]

unfoldable pub count_entries : Str → Option ℕ
unfolding count_lines
count_entries text = elim (count_lines (suc (length text)) text 0) [
  | none ↦ none
  | some lines ↦ some (if lines == 0 then 0 else min marks_max ((lines - 1) / fields))
]

-- `marks_load`: the text that the disk loaded is kept if its first line is the magic one.
pub is_ours : Str → Bool
is_ours text = elim (read_line text 0 line_cap) [
  | none ↦ false
  | some r ↦ same_text r.0 marks_magic
]

unfoldable pub marks_load : Str → Option Marks
unfolding is_ours
marks_load text =
    if is_ours text
    then (count_entries text >>= λ n. some (record { text = text; marks_count = n }))
    else some (record { text = []; marks_count = 0 })

-- A field into its buffer; past the end the buffer is left as it was.
pub read_field : Str → ℕ → Str × Option ℕ → Str × Option ℕ
read_field text cap (old, none) = (old, none)
read_field text cap (old, some at) = elim (read_line text at cap) [
  | none ↦ (old, none)
  | some (l, next) ↦ (l, some next)
]

pub read_mark : Str → Option ℕ → Mark → Mark
unfolding read_field
read_mark text at old =
    let h = read_field text 64 (old.host, at) in
    let p = read_field text 6 (old.port, h.1) in
    let t = read_field text 2 (old.tls, p.1) in
    let n = read_field text 17 (old.nick, t.1) in
    let c = read_field text 64 (old.chans, n.1) in
    record { host = h.0; port = p.0; tls = t.0; nick = n.0; chans = c.0 }

-- Does entry i exist, and what the five buffers then hold.
unfoldable pub marks_get : Marks → ℕ → Mark → Bool × Mark
unfolding read_mark
marks_get m i old = if leb m.marks_count i then (false, old) else elim (entry_at m.text i) [
  | none ↦ (false, old)
  | some at ↦ (true, read_mark m.text (some at) old)
]

-- Which calls of the disk succeed while the file is written: creating, each byte, closing.
pub record Disk : Type 0 where
  pub creates : Bool
  pub takes : ℕ → Bool
  pub closes : Bool

put_bytes : Disk → ℕ → Str → Bool
put_bytes d i [] = d.closes
put_bytes d i (c ∷ text) = let rest = put_bytes d (i + 1) text in if d.takes i then rest else false

unfoldable pub write_file : Disk → Str → Bool
unfolding put_bytes
write_file d text = if d.creates then put_bytes d 0 text else false

pub put_field : Str → Str → Option Str
put_field s text =
    if ltb marks_cap (length text + length s + 1) then none else some (text ++ (s ++ newline ∷ []))

pub put_mark : Mark → Str → Option Str
unfolding put_field
put_mark e [] = do
  t ← put_field marks_magic []
  a ← put_field e.host t
  b ← put_field e.port a
  c ← put_field e.tls b
  d ← put_field e.nick c
  put_field e.chans d
put_mark e (x ∷ text) = do
  a ← put_field e.host (x ∷ text)
  b ← put_field e.port a
  c ← put_field e.tls b
  d ← put_field e.nick c
  put_field e.chans d

-- Whether the entry was added, and what is kept then: a text that was not written is taken back.
unfoldable pub marks_add : Disk → Marks → Mark → Option (Bool × Marks)
unfolding put_mark
marks_add d m e =
    if leb marks_max m.marks_count then some (false, m) else elim (put_mark e m.text) [
      | none ↦ some (false, m)
      | some t ↦
          if write_file d t
          then some (true, record { text = t; marks_count = (m.marks_count + 1) % 2 ^ 8 })
          else (count_entries m.text >>= λ n.
              some (false, record { text = m.text; marks_count = n }))
    ]

or_end : Str → Option ℕ → ℕ
or_end text none = length text
or_end text (some at) = at

unfoldable pub marks_remove : Disk → Marks → ℕ → Bool × Marks
unfolding or_end
marks_remove d m i = if leb m.marks_count i then (false, m) else elim (entry_at m.text i) [
  | none ↦ (false, m)
  | some from ↦
      (let to = or_end m.text (entry_at m.text ((i + 1) % 2 ^ 8)) in
        let left = take from m.text ++ drop to m.text in
        (write_file d left, record { text = left; marks_count = m.marks_count - 1 }))
]
