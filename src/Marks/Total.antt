-- ===== src/Marks/Total.antt =====
-- src/m65/marks.c: the count of the lines, and the loading of a file.
use mega_irc.Common.{
  ℕ, zero, suc, ◌+◌, ◌<◌, true, false, none, some, [], ◌≡◌, inl, inr, refl, arith, Str, leb, length,
  take, drop, Bool-cases, ◌%◌, ◌^◌, ◌-◌, ◌/◌, ◌==◌, if◌then◌else◌, min,
}
use mega_irc.Irc.{take_until}
use mega_irc.Marks.{
  Marks, marks_max, fields, newline, line_cap, read_line, next_at, count_lines, count_entries,
  is_ours, marks_load,
}

-- At the end there is no line; before it the next one begins further on.
next_at_end : (text : Str) (at : ℕ) → leb (length text) at ≡ true → next_at text at ≡ none
unfolding next_at read_line
next_at_end text at e = rw (e, next_at) refl

next_at_on :
    (text : Str) (at : ℕ)
    → leb (length text) at ≡ false
    → (n : ℕ) × (next_at text at ≡ some (at + n + 1))
unfolding next_at read_line
next_at_on text at e =
    (length (take_until newline (take line_cap (drop at text))), rw (e, next_at) refl)

count_lines_total :
    (f : ℕ) (text : Str) (at : ℕ)
    → length text < at + f
    → 0 < f
    → (n : ℕ) × (count_lines f text at ≡ some n)
unfolding count_lines
count_lines_total zero text at h p = absurd (omega arith)
count_lines_total (suc zero) text at h p =
    let e : leb (length text) at ≡ true = ground (arith, h) in
    (0, rw (next_at_end text at e, count_lines) refl)
count_lines_total (suc (suc f)) text at h p = elim (Bool-cases (leb (length text) at)) [
  | inl e ↦ (0, rw (next_at_end text at e, count_lines) refl)
  | inr e ↦
      let (n, q) = next_at_on text at e in
      let (k, r) = count_lines_total (suc f) text (at + n + 1) (omega arith) (omega arith) in
      ((k + 1) % 2 ^ 8, rw (q, count_lines) (rw (r, count_lines) refl))
]

count_entries_total : (text : Str) → (n : ℕ) × (count_entries text ≡ some n)
unfolding count_entries
count_entries_total text =
    let (k, e) = count_lines_total (suc (length text)) text 0 (omega arith) (omega arith) in
    (if k == 0 then 0 else min marks_max ((k - 1) / fields), rw (e, count_entries) refl)

-- Whatever the disk loaded, `marks_load` comes back.
marks_load_total : (text : Str) → (m : Marks) × (marks_load text ≡ some m)
unfolding marks_load
marks_load_total text =
    let (n, e) = count_entries_total text in
    elim (Bool-cases (is_ours text)) [
      | inl o ↦ (record { text = text; marks_count = n }, rw (o, e) refl)
      | inr o ↦ (record { text = []; marks_count = 0 }, rw o refl)
    ]
