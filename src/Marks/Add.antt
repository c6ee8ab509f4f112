-- ===== src/Marks/Add.antt =====
-- src/m65/marks.c: an entry that is added.
use mega_irc.Common.{
  ◌+◌, ◌%◌, ◌^◌, ◌≤◌, ◌<◌, true, false, Option, some, List, [], ◌∷◌, ◌++◌, ◌≡◌, ◌⊎◌, inl, inr, refl,
  sym, ap, subst, ◌∙◌, arith, Str, ltb, leb, length, length-append, All, ◌>>=◌,
}
use mega_irc.Marks.{
  Mark, Marks, Disk, marks_cap, marks_max, newline, put_field, put_mark, write_file, marks_add,
  marks_get,
}
use mega_irc.Marks.Lines.{behind}
use mega_irc.Marks.Entries.{
  write_marks, IsEntry, entry_text, start_of, split_marks, marks_get-write_marks,
}

put_field_lem :
    (s t rest : Str)
    → length (t ++ (s ++ newline ∷ rest)) ≤ marks_cap
    → put_field s t ≡ some (t ++ (s ++ newline ∷ []))
unfolding put_field
put_field_lem s t rest h =
    let e : ltb marks_cap (length t + length s + 1) ≡ false =
      ground (arith, h, length-append t (s ++ newline ∷ rest), length-append s (newline ∷ rest)) in
    rw e refl

-- The five fields behind a text that is not empty.
abbrev five : Mark → Str → Option Str
five e t = do
  a ← put_field e.host t
  b ← put_field e.port a
  c ← put_field e.tls b
  d ← put_field e.nick c
  put_field e.chans d

five_lem :
    (e : Mark) (t : Str)
    → length (t ++ entry_text e []) ≤ marks_cap
    → five e t ≡ some (t ++ entry_text e [])
five_lem e t h =
    let r4 = e.chans ++ newline ∷ [] in
    let r3 = e.nick ++ newline ∷ r4 in
    let r2 = e.tls ++ newline ∷ r3 in
    let r1 = e.port ++ newline ∷ r2 in
    let b1 = t ++ (e.host ++ newline ∷ []) in
    let b2 = b1 ++ (e.port ++ newline ∷ []) in
    let b3 = b2 ++ (e.tls ++ newline ∷ []) in
    let b4 = b3 ++ (e.nick ++ newline ∷ []) in
    let t1 : t ++ entry_text e [] ≡ b1 ++ r1 = sym (behind t e.host r1) in
    let t2 : t ++ entry_text e [] ≡ b2 ++ r2 = t1 ∙ sym (behind b1 e.port r2) in
    let t3 : t ++ entry_text e [] ≡ b3 ++ r3 = t2 ∙ sym (behind b2 e.tls r3) in
    let t4 : t ++ entry_text e [] ≡ b4 ++ r4 = t3 ∙ sym (behind b3 e.nick r4) in
    let fits = λ (u : Str) (p : t ++ entry_text e [] ≡ u). subst (λ x. length x ≤ marks_cap) p h in
    rw
      (
        put_field_lem e.host t r1 h,
        put_field_lem e.port b1 r2 (fits _ t1),
        put_field_lem e.tls b2 r3 (fits _ t2),
        put_field_lem e.nick b3 r4 (fits _ t3),
        put_field_lem e.chans b4 [] (fits _ t4),
      )
      (ap some (sym t4))

put_mark_lem :
    (e : Mark) (es : List Mark) (text : Str)
    → (text ≡ write_marks es) ⊎ ((text ≡ []) × (es ≡ []))
    → length (write_marks (es ++ e ∷ [])) ≤ marks_cap
    → put_mark e text ≡ some (write_marks (es ++ e ∷ []))
unfolding put_mark put_field
put_mark_lem e es text (inl q) h =
    let s = split_marks es e [] in
    ap (put_mark e) q
    ∙ five_lem e (start_of es) (subst (λ x. length x ≤ marks_cap) s h)
    ∙ ap some (sym s)
put_mark_lem e es text (inr (q, n)) h =
    let s : write_marks (es ++ e ∷ []) ≡ start_of [] ++ entry_text e [] =
      ap (λ xs. write_marks (xs ++ e ∷ [])) n ∙ split_marks [] e [] in
    ap (put_mark e) q
    ∙ five_lem e (start_of []) (subst (λ x. length x ≤ marks_cap) s h)
    ∙ ap some (sym s)

-- An entry whose fields fit their buffers is added behind the entries of a file, or to no file at
-- all, where there are fewer than eight, the text has room and the disk takes it. What is kept is
-- then the file of all the entries, and the new one is read back from it, whatever the buffers held.
pub marks_add-marks_get :
    (d : Disk) (m : Marks) (es : List Mark) (e old : Mark)
    → (m.text ≡ write_marks es) ⊎ ((m.text ≡ []) × (es ≡ []))
    → m.marks_count ≡ length es
    → length es < marks_max
    → All IsEntry es
    → IsEntry e
    → length (write_marks (es ++ e ∷ [])) ≤ marks_cap
    → write_file d (write_marks (es ++ e ∷ [])) ≡ true
    → (t : Marks) × (marks_add d m e ≡ some (true, t))
      × (t.text ≡ write_marks (es ++ e ∷ []))
      × (t.marks_count ≡ length (es ++ e ∷ []))
      × (marks_get t (length es) old ≡ (true, e))
unfolding marks_add
marks_add-marks_get d m es e old k n few hs h room written =
    let free : leb marks_max m.marks_count ≡ false = ground (arith, n, few) in
    let t : Marks = record {
      text = write_marks (es ++ e ∷ []);
      marks_count = (m.marks_count + 1) % 2 ^ 8;
    } in
    let c : (m.marks_count + 1) % 2 ^ 8 ≡ length (es ++ e ∷ []) =
      omega (arith, n, few, length-append es (e ∷ [])) in
    (
      t,
      rw (free, put_mark_lem e es m.text k room) (rw written refl),
      refl,
      c,
      marks_get-write_marks es e [] old t refl c hs h,
    )
