-- ===== src/Input/History.antt =====
-- src/ircc.c: the lines before the one that is typed: eight slots, and a count that is a byte.
use mega_irc.Common.{
  ℕ, zero, suc, ◌+◌, ◌-◌, ◌%◌, ◌^◌, ◌≤◌, ◌<◌, true, false, some, List, [], ◌∷◌, ◌++◌, ◌≡◌, ◌≢◌,
  refl, sym, ap, subst, ◌∙◌, arith, Str, ltb, ◌==◌, if◌then◌else◌, length, get_elem?, set, some_inj,
}
use mega_irc.Irc.{take_until}
use mega_irc.Irc.Words.{Avoids, take_until-append}
use mega_irc.Log.{update}
use mega_irc.Log.Ring.{update_same, update_other}
use mega_irc.Input.{
  Input, input_cap, hist_max, hist_add, cleared, hist_recall, key_up, press, enter,
}
use mega_irc.Input.Buffer.{rev_onto, length-rev_onto}
use mega_irc.Input.Edit.{Shows}

-- A buffer that holds a text: its bytes, none of them NUL, the NUL, and whatever is behind it.
abbrev pub Holds : List ℕ → Str → Type 0
Holds buffer t =
    (junk : Str) × (buffer ≡ t ++ 0 ∷ junk) × (length t + length junk ≡ 200) × Avoids 0 t

-- The slot of a line, by how many were entered after it.
abbrev pub slot_of : ℕ → ℕ → ℕ
slot_of count b = (count + 2 ^ 8 - suc b) % 2 ^ 8 % hist_max

-- The lines entered, the latest first: the count is theirs, in a byte, and the latest eight are in
-- the slots where they are looked for.
pub record Remembers (s : Input) (lines : List Str) : Type 0 where
  pub counted : s.hist_count ≡ length lines % 2 ^ 8
  pub recent :
      (b : ℕ) (t : Str)
      → b < hist_max
      → get_elem? lines b ≡ some t
      → Holds (s.slots (slot_of s.hist_count b)) t

rev_onto-append : (b a rest : Str) → rev_onto b (a ++ rest) ≡ rev_onto b a ++ rest
rev_onto-append [] a rest = refl
rev_onto-append (x ∷ b) a rest = rev_onto-append b (x ∷ a) rest

-- A line that is shown, with the cursor anywhere, is what its buffer holds.
Shows-Holds :
    (s : Input) (b a : Str)
    → Shows s (b, a)
    → Avoids 0 (rev_onto b a)
    → Holds s.input (rev_onto b a)
Shows-Holds s b a (junk, e, n) v = (
  junk,
  ap (λ (t : Input). t.input) e ∙ rev_onto-append b a (0 ∷ junk),
  omega (arith, length-rev_onto b a),
  v,
)

same_slot : (c : ℕ) → c < 2 ^ 8 → slot_of ((c + 1) % 2 ^ 8) 0 ≡ c % hist_max
same_slot c h = omega arith

older_slot :
    (c b : ℕ) → c < 2 ^ 8 → suc b < hist_max → slot_of ((c + 1) % 2 ^ 8) (suc b) ≡ slot_of c b
older_slot c b h k = omega arith

other_slot : (c b : ℕ) → c < 2 ^ 8 → suc b < hist_max → c % hist_max ≢ slot_of c b
other_slot c b h k e = omega arith

found :
    (s : Input) (lines : List Str) (t : Str)
    → Remembers s lines
    → Holds s.input t
    → (b : ℕ) (u : Str) → b < hist_max
    → get_elem? (t ∷ lines) b ≡ some u
    → Holds
        (update s.slots (s.hist_count % hist_max) s.input (slot_of ((s.hist_count + 1) % 2 ^ 8) b))
        u
found s lines t h k zero u l g =
    let small : s.hist_count < 2 ^ 8 = (let c = h.counted in omega (arith, c)) in
    let e : update s.slots (s.hist_count % hist_max) s.input
          (slot_of ((s.hist_count + 1) % 2 ^ 8) 0)
        ≡ s.input =
      ap (update s.slots (s.hist_count % hist_max) s.input) (same_slot s.hist_count small)
      ∙ update_same s.slots (s.hist_count % hist_max) s.input in
    subst (λ x. Holds x u) (sym e) (subst (Holds s.input) (some_inj g) k)
found s lines t h k (suc b) u l g =
    let small : s.hist_count < 2 ^ 8 = (let c = h.counted in omega (arith, c)) in
    let e : update s.slots (s.hist_count % hist_max) s.input
          (slot_of ((s.hist_count + 1) % 2 ^ 8) (suc b))
        ≡ s.slots (slot_of s.hist_count b) =
      ap (update s.slots (s.hist_count % hist_max) s.input) (older_slot s.hist_count b small l)
      ∙ update_other s.slots (s.hist_count % hist_max) s.input (slot_of s.hist_count b)
          (other_slot s.hist_count b small l) in
    subst (λ x. Holds x u) (sym e) (h.recent b u (omega arith) g)

-- The text of the line, as it reads up to its NUL.
abbrev pub text_of : Input → Str
text_of s = take_until 0 s.input

cut_front : (xs : Str) → take_until 0 (set xs 0 0) ≡ []
unfolding take_until
cut_front [] = refl
cut_front (x ∷ xs) = refl

-- RETURN on a line that is not empty makes it the latest line: the eight latest lines, this one
-- among them, are in the slots where they are looked for, the search begins anew, and the line that
-- is typed is empty. The line is shown with the cursor anywhere and has no NUL in it.
pub enter-Remembers :
    (s : Input) (lines : List Str) (b a : Str)
    → Remembers s lines
    → Shows s (b, a)
    → Avoids 0 (rev_onto b a)
    → 0 < length b + length a
    → Remembers (enter s) (rev_onto b a ∷ lines)
      × ((enter s).hist_at ≡ 0)
      × ((enter s).input_len ≡ 0)
      × ((enter s).input_pos ≡ 0)
      × (text_of (enter s) ≡ [])
unfolding enter cleared hist_add
enter-Remembers s lines b a h k v n =
    let len : s.input_len ≡ length b + length a = ap (λ (t : Input). t.input_len) k.1 in
    let e : (s.input_len == 0) ≡ false = ground (arith, len) in
    rw e (
      record {
        counted = (let c = h.counted in omega (arith, c));
        recent = found s lines (rev_onto b a) h (Shows-Holds s b a k v);
      },
      refl,
      refl,
      refl,
      cut_front s.input,
    )

-- A NUL that is written behind the text leaves the text.
set_behind :
    (t junk : Str) (n : ℕ) → length t ≤ n → (r : Str) × (set (t ++ 0 ∷ junk) n 0 ≡ t ++ 0 ∷ r)
set_behind [] junk zero h = (junk, refl)
set_behind [] junk (suc n) h = (set junk n 0, refl)
set_behind (x ∷ t) junk zero h = absurd (omega arith)
set_behind (x ∷ t) junk (suc n) h =
    let (r, e) = set_behind t junk n (omega arith) in (r, ap (◌∷◌ x) e)

-- The cursor stands behind the text.
abbrev pub Reads : Input → Str → Type 0
Reads s t = (text_of s ≡ t) × (s.input_len ≡ length t) × (s.input_pos ≡ length t)

recalled :
    (s : Input) (b : ℕ) (t : Str)
    → Holds (s.slots (slot_of s.hist_count b)) t
    → Reads (hist_recall (suc b) s) t
unfolding hist_recall
recalled s b t (junk, e, n, v) =
    let (r, q) = set_behind t junk (input_cap - 1) (omega arith) in
    let cut : take_until 0 (set (s.slots (slot_of s.hist_count b)) (input_cap - 1) 0) ≡ t =
      ap (λ x. take_until 0 (set x (input_cap - 1) 0)) e
      ∙ ap (take_until 0) q
      ∙ take_until-append 0 t (0 ∷ r) v refl in
    let len : length t % 2 ^ 8 ≡ length t = omega arith in (cut, rw cut len, rw cut len)

recall-hist_at : (s : Input) (b : ℕ) → (hist_recall (suc b) s).hist_at ≡ s.hist_at
unfolding hist_recall
recall-hist_at s b = refl

get_elem?-bound :
    (lines : List Str) (i : ℕ) (t : Str) → get_elem? lines i ≡ some t → i < length lines
get_elem?-bound [] i t g = cc
get_elem?-bound (l ∷ lines) zero t g = omega arith
get_elem?-bound (l ∷ lines) (suc i) t g = omega (arith, get_elem?-bound lines i t g)

-- The key for the line before shows, of fewer than 256 lines entered, the one that follows the line
-- shown last, up to the eighth, with the cursor behind it.
pub key_up-Remembers :
    (s : Input) (lines : List Str) (t : Str)
    → Remembers s lines
    → length lines < 2 ^ 8
    → s.hist_at < hist_max
    → get_elem? lines s.hist_at ≡ some t
    → Reads (press key_up s) t × ((press key_up s).hist_at ≡ s.hist_at + 1)
unfolding press
key_up-Remembers s lines t h few at g =
    let count : s.hist_count ≡ length lines = (let c = h.counted in omega (arith, c)) in
    let there = get_elem?-bound lines s.hist_at t g in
    let more : ltb s.hist_at (if ltb s.hist_count hist_max then s.hist_count else hist_max) ≡ true =
      ground (arith, count, there) in
    let z : s.hist_at + 1 ≡ suc s.hist_at = omega arith in
    rw (more, z)
      (
        recalled (record s { hist_at = suc s.hist_at }) s.hist_at t (h.recent s.hist_at t at g),
        recall-hist_at (record s { hist_at = suc s.hist_at }) s.hist_at,
      )
