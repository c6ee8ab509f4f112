-- ===== src/Input/Edit.antt =====
-- src/ircc.c: the keys that edit the line, against the text on both sides of the cursor.
use mega_irc.Common.{
  ℕ, suc, ◌+◌, ◌-◌, ◌%◌, ◌^◌, ◌<◌, Bool, true, false, ◌&&◌, List, [], ◌∷◌, ◌++◌, ◌≡◌, inl, inr,
  refl, sym, ap, subst, ◌∙◌, arith, Str, ltb, leb, ◌==◌, if◌then◌else◌, length, set, Bool-cases,
}
use mega_irc.Input.{
  Input, Key, key_up, key_down, key_left, key_right, key_del, typed, shift_down, shift_up, delete,
  insert, press,
}
use mega_irc.Input.Buffer.{
  rev_onto, set-rev_onto, shift_down-rev_onto, shift_down_lem, shift_up-rev_onto, shift_up_lem,
}

-- The bytes before the cursor, the nearest first, and those from the cursor on.
abbrev pub Sides : Type 0
Sides = Str × Str

abbrev pub edit : Key → Sides → Sides
edit key_up p = p
edit key_down p = p
edit key_left ([], a) = ([], a)
edit key_left (x ∷ b, a) = (b, x ∷ a)
edit key_right (b, []) = (b, [])
edit key_right (b, x ∷ a) = (x ∷ b, a)
edit key_del ([], a) = ([], a)
edit key_del (x ∷ b, a) = (b, a)
edit (typed k) (b, a) =
    if leb 0x20 k && ltb k 0x7f && ltb (length b + length a) 200 then (k ∷ b, a) else (b, a)

abbrev pub is_edit : Key → Bool
is_edit key_up = false
is_edit key_down = false
is_edit key_left = true
is_edit key_right = true
is_edit key_del = true
is_edit (typed k) = true

-- A line in its buffer, with what lies behind its NUL.
abbrev pub laid_out : Str → Str → Str → (ℕ → List ℕ) → ℕ → ℕ → Input
laid_out b a junk slots count back = record {
  input = rev_onto b (a ++ 0 ∷ junk);
  input_len = length b + length a;
  input_pos = length b;
  slots = slots;
  hist_count = count;
  hist_at = back;
}

-- The buffer of 201 bytes holds the two sides, a NUL and whatever else, and the length and the
-- cursor are those of the sides.
abbrev pub Shows : Input → Sides → Type 0
Shows s (b, a) =
    (junk : Str) × (s ≡ laid_out b a junk s.slots s.hist_count s.hist_at)
    × (length b + length a + length junk ≡ 200)

module _ (slots : ℕ → List ℕ) (count back : ℕ) where
  delete-laid_out :
      (b a junk : Str) (x : ℕ)
      → delete (laid_out (x ∷ b) a junk slots count back) ≡ laid_out b a (0 ∷ junk) slots count back
  unfolding delete
  delete-laid_out b a junk x =
      let one : suc (length b) - 1 ≡ length b = omega arith in
      let rounds : suc (length b) + length a - length b ≡ suc (length a) = omega arith in
      let less : suc (length b) + length a - 1 ≡ length b + length a = omega arith in
      let at : length b ≡ length b + 0 = omega arith in
      let moved : shift_down (suc (length a)) (length b) (rev_onto b (x ∷ (a ++ 0 ∷ junk)))
          ≡ rev_onto b (a ++ 0 ∷ 0 ∷ junk) =
        ap (λ i. shift_down (suc (length a)) i (rev_onto b (x ∷ (a ++ 0 ∷ junk)))) at
        ∙ shift_down-rev_onto (suc (length a)) 0 b (x ∷ (a ++ 0 ∷ junk))
        ∙ ap (rev_onto b) (shift_down_lem a x junk) in
      let some_left : (suc (length b) == 0) ≡ false = ground arith in
      rw (some_left, one, rounds, less, moved) refl

  delete-at_start :
      (a junk : Str)
      → delete (laid_out [] a junk slots count back) ≡ laid_out [] a junk slots count back
  unfolding delete
  delete-at_start a junk = refl

  set-append : (a : Str) (y : ℕ) (j : Str) (v : ℕ) → set (a ++ y ∷ j) (length a) v ≡ a ++ v ∷ j
  set-append [] y j v = refl
  set-append (x ∷ a) y j v = ap (◌∷◌ x) (set-append a y j v)

  insert-laid_out :
      (k : ℕ) (b a : Str) (y : ℕ) (j : Str)
      → length b + length a < 200
      → insert k (laid_out b a (y ∷ j) slots count back) ≡ laid_out (k ∷ b) a j slots count back
  unfolding insert
  insert-laid_out k b a y j room =
      let rounds : length b + length a - length b ≡ length a = omega arith in
      let at : length b ≡ length b + 0 = omega arith in
      let pos : (length b + 1) % 2 ^ 8 ≡ suc (length b) = omega arith in
      let len : (length b + length a + 1) % 2 ^ 8 ≡ suc (length b) + length a = omega arith in
      let (h, up) = shift_up_lem a 0 (y ∷ j) in
      let moved : shift_up (length a) (length b + length a) (rev_onto b (a ++ 0 ∷ y ∷ j))
          ≡ rev_onto b (h ∷ (a ++ y ∷ j)) =
        shift_up-rev_onto (length a) (length a) b (a ++ 0 ∷ y ∷ j) (omega arith)
        ∙ ap (rev_onto b) up in
      let put : set (rev_onto b (h ∷ (a ++ y ∷ j))) (length b) k ≡ rev_onto (k ∷ b) (a ++ y ∷ j) =
        ap (λ i. set (rev_onto b (h ∷ (a ++ y ∷ j))) i k) at
        ∙ set-rev_onto b (h ∷ (a ++ y ∷ j)) 0 k in
      let ended : set (rev_onto (k ∷ b) (a ++ y ∷ j)) (suc (length b) + length a) 0
          ≡ rev_onto (k ∷ b) (a ++ 0 ∷ j) =
        set-rev_onto (k ∷ b) (a ++ y ∷ j) (length a) 0
        ∙ ap (rev_onto (k ∷ b)) (set-append a y j 0) in
      rw (rounds, pos, len, moved, put, ended) refl

  typed-laid_out :
      (k : ℕ) (b a junk : Str)
      → length b + length a + length junk ≡ 200
      → Shows (press (typed k) (laid_out b a junk slots count back)) (edit (typed k) (b, a))
  unfolding press
  typed-laid_out k b a [] h =
      let full : (leb 0x20 k && ltb k 0x7f && ltb (length b + length a) 200) ≡ false =
        ground (arith, h) in
      rw full ([], refl, h)
  typed-laid_out k b a (y ∷ j) h =
      elim (Bool-cases (leb 0x20 k && ltb k 0x7f && ltb (length b + length a) 200)) [
        | inl e ↦ rw e (rw (insert-laid_out k b a y j (omega arith)) (j, refl, omega arith))
        | inr e ↦ rw e (y ∷ j, refl, h)
      ]

  press-laid_out :
      (k : Key) (b a junk : Str)
      → is_edit k ≡ true
      → length b + length a + length junk ≡ 200
      → Shows (press k (laid_out b a junk slots count back)) (edit k (b, a))
  unfolding press
  press-laid_out key_up b a junk e h = cc
  press-laid_out key_down b a junk e h = cc
  press-laid_out key_left [] a junk e h = (junk, refl, h)
  press-laid_out key_left (x ∷ b) a junk e h =
      let some_left : (suc (length b) == 0) ≡ false = ground arith in
      let one : suc (length b) - 1 ≡ length b = omega arith in
      let len : suc (length b) + length a ≡ length b + suc (length a) = omega arith in
      rw (some_left, one, len) (junk, refl, omega arith)
  press-laid_out key_right b [] junk e h =
      let at_end : ltb (length b) (length b + 0) ≡ false = ground arith in rw at_end (junk, refl, h)
  press-laid_out key_right b (x ∷ a) junk e h =
      let inside : ltb (length b) (length b + suc (length a)) ≡ true = ground arith in
      let one : length b + 1 ≡ suc (length b) = omega arith in
      let len : length b + suc (length a) ≡ suc (length b) + length a = omega arith in
      rw inside (rw (one, len) (junk, refl, omega arith))
  press-laid_out key_del [] a junk e h = rw (delete-at_start a junk) (junk, refl, h)
  press-laid_out key_del (x ∷ b) a junk e h =
      rw (delete-laid_out b a junk x) (0 ∷ junk, refl, omega arith)
  press-laid_out (typed k) b a junk e h = typed-laid_out k b a junk h

-- Every key that edits the line does to the buffer what it does to the two sides of the cursor: the
-- cursor moves over a byte, the byte before it goes, or a printable byte is put there, as long as the
-- line is shorter than 200 bytes.
press_lem :
    (k : Key) (s : Input) (p : Sides) → is_edit k ≡ true → Shows s p → Shows (press k s) (edit k p)
press_lem k s (b, a) e (junk, q, h) =
    subst (λ t. Shows (press k t) (edit k (b, a))) (sym q)
      (press-laid_out s.slots s.hist_count s.hist_at k b a junk e h)

-- A number of keys, one after another.
abbrev pub press_all : List Key → Input → Input
press_all [] s = s
press_all (k ∷ ks) s = press_all ks (press k s)

abbrev pub edit_all : List Key → Sides → Sides
edit_all [] p = p
edit_all (k ∷ ks) p = edit_all ks (edit k p)

abbrev pub AllEdit : List Key → Type 0
AllEdit [] = Unit {0}
AllEdit (k ∷ ks) = (is_edit k ≡ true) × AllEdit ks

-- Any number of the keys that edit the line, from a line that stands in its buffer: in the end the
-- buffer shows what the same keys make of the text on both sides of the cursor, and the length and
-- the cursor agree with it. The line never grows beyond 200 bytes.
pub press_all-edit_all :
    (ks : List Key) (s : Input) (p : Sides)
    → AllEdit ks
    → Shows s p
    → Shows (press_all ks s) (edit_all ks p)
press_all-edit_all [] s p e h = h
press_all-edit_all (k ∷ ks) s p e h =
    press_all-edit_all ks (press k s) (edit k p) e.1 (press_lem k s p e.0 h)
