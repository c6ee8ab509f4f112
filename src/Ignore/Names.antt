-- ===== src/Ignore/Names.antt =====
-- src/m65/cmd.c: the ignore list as a set of names, ASCII case folded.
use mega_irc.Common.{
  ℕ, zero, suc, ◌+◌, ◌-◌, ◌≤◌, ◌<◌, Bool, true, false, not, ◌&&◌, ◌||◌, Option, none, some, List,
  [], ◌∷◌, ◌≡◌, ◌≢◌, ◌⊎◌, ◌∙◌, inl, inr, refl, sym, ap, arith, Str, codes, ◌==◌, length, length-set,
  get_elem?, set, take, Bool-cases, suc,
}
use mega_irc.Client.{compose}
use mega_irc.View.{Views, same_ci}
use mega_irc.View.Shape.{view_line_lem}
use mega_irc.Session.Monad.{Session, M, ◌>>=◌, gets, modify}
use mega_irc.Session.{put_line, say, lit}
use mega_irc.Talk.{on_list}
use mega_irc.Ignore.{
  ignore_max, ignore_slot, say_here, usage, set_slot, Walk, at_slot, at_end, find_slot, on_walk,
  ignore_name, ignore_cmd,
}

-- No slot is free.
abbrev pub is_full : List Str → Bool
is_full [] = true
is_full ([] ∷ names) = false
is_full ((c ∷ name) ∷ names) = is_full names

-- A name that is written to a free slot is one more on the list.
on_list-set :
    (names : List Str) (k c : ℕ) (w who : Str)
    → get_elem? names k ≡ some []
    → on_list (set names k (c ∷ w)) who ≡ (on_list names who || same_ci (some (c ∷ w)) (some who))
unfolding on_list
on_list-set [] k c w who h = cc
on_list-set ([] ∷ names) zero c w who h = ground arith
on_list-set ((d ∷ x) ∷ names) zero c w who h = cc
on_list-set ([] ∷ names) (suc k) c w who h = on_list-set names k c w who h
on_list-set ((d ∷ x) ∷ names) (suc k) c w who h = ground (arith, on_list-set names k c w who h)

-- The walk meets the name exactly if it is on the list.
abbrev met : Walk → Bool
met (at_slot i) = true
met (at_end n free) = false

find_slot-on_list :
    (i : ℕ) (names : List Str) (c : ℕ) (arg : Str) (free : ℕ)
    → met (find_slot i names (c ∷ arg) free) ≡ on_list names (c ∷ arg)
unfolding find_slot on_list
find_slot-on_list i [] c arg free = refl
find_slot-on_list i ([] ∷ names) c arg free = find_slot-on_list (i + 1) names c arg _
find_slot-on_list i ((d ∷ x) ∷ names) c arg free =
    elim (Bool-cases (same_ci (some (d ∷ x)) (some (c ∷ arg)))) [
      | inl e ↦ rw e refl
      | inr e ↦ rw e (find_slot-on_list (i + 1) names c arg free)
    ]

-- A free slot that was met is kept.
find_slot-kept :
    (i : ℕ) (names : List Str) (arg : Str) (free : ℕ) {n f : ℕ}
    → free ≢ ignore_max
    → find_slot i names arg free ≡ at_end n f
    → f ≡ free
unfolding find_slot
find_slot-kept i [] arg free h e = cc
find_slot-kept i ([] ∷ names) arg free h e =
    let b : (free == ignore_max) ≡ false = ground (arith, h) in
    find_slot-kept (i + 1) names arg free h (rw b at e)
find_slot-kept i ((d ∷ x) ∷ names) arg free h e =
    elim (Bool-cases (same_ci (some (d ∷ x)) (some arg))) [
      | inl b ↦ (let q = rw b at e in cc)
      | inr b ↦ find_slot-kept (i + 1) names arg free h (rw b at e)
    ]

-- Where the walk ends behind the list, no slot is free, or the one it gives is.
find_slot-free :
    (i : ℕ) (names : List Str) (arg : Str) {n f : ℕ}
    → i + length names ≤ ignore_max
    → find_slot i names arg ignore_max ≡ at_end n f
    → ((f ≡ ignore_max) × (is_full names ≡ true))
      ⊎ ((i ≤ f) × (f < ignore_max) × (is_full names ≡ false) × (get_elem? names (f - i) ≡ some []))
unfolding find_slot
find_slot-free i [] arg h e = inl (cc, refl)
find_slot-free i ([] ∷ names) arg {n} {f} h e =
    let q : f ≡ i = find_slot-kept (i + 1) names arg i (λ c. omega arith) e in
    let z : f - i ≡ 0 = omega arith in inr (omega arith, omega arith, refl, rw z refl)
find_slot-free i ((d ∷ x) ∷ names) arg {n} {f} h e =
    elim (Bool-cases (same_ci (some (d ∷ x)) (some arg))) [
      | inl b ↦ (let q = rw b at e in cc)
      | inr b ↦ elim (find_slot-free (i + 1) names arg (omega arith) (rw b at e)) [
        | inl (k, u) ↦ inl (k, u)
        | inr (lo, hi, u, g) ↦
            let z : f - i ≡ suc (f - (i + 1)) = omega arith in inr (omega arith, hi, u, rw z g)
      ]
    ]

say_here_lem :
    (a b c : Option Str) (s : Session)
    → (w : Views) × (say_here a b c s ≡ some (tt, record s { views = w }))
unfolding say_here say put_line gets ◌>>=◌
say_here_lem a b c s =
    let (w, e, _) = view_line_lem s.views s.views.view_active (compose a b c).text in
    (w, rw (e, put_line) refl)

-- What adding a name makes of the list: one more name, its first 16 bytes, unless it is there
-- already or no slot is free.
abbrev pub IsAdded : List Str → Str → List Str → Type 0
IsAdded names arg after =
    (who : Str)
    → on_list after who ≡ (
        on_list names who
        || not (on_list names arg)
          && not (is_full names)
          && same_ci (some (take (ignore_slot - 1) arg)) (some who))

abbrev Adds : M (Unit {0}) → Str → Session → Type 0
Adds m arg s =
    (t : Session) × (m s ≡ some (tt, t))
    × (t.sent ≡ s.sent)
    × (length t.ignoring ≡ length s.ignoring)
    × IsAdded s.ignoring arg t.ignoring

walked :
    (c : ℕ) (arg : Str) (s : Session) (w : Walk)
    → length s.ignoring ≤ ignore_max
    → find_slot 0 s.ignoring (c ∷ arg) ignore_max ≡ w
    → Adds (on_walk false (c ∷ arg) w) (c ∷ arg) s
unfolding on_walk usage set_slot modify ◌>>=◌
walked c arg s (at_slot i) h e =
    let seen : on_list s.ignoring (c ∷ arg) ≡ true =
      sym (find_slot-on_list 0 s.ignoring c arg ignore_max) ∙ ap met e in
    let (v, q) = say_here_lem (lit (codes "-- already ignoring ")) (some (c ∷ arg)) none s in
    (record s { views = v }, q, refl, refl, λ who. ground (arith, seen))
walked c arg s (at_end n f) h e = elim (find_slot-free 0 s.ignoring (c ∷ arg) (omega arith) e) [
  | inl (k, u) ↦
      let b : (f == ignore_max) ≡ true = rw k refl in
      let (v, q) =
        say_here_lem (lit (codes "-- ")) (some (codes "the ignore list is full")) none s in
      rw b (record s { views = v }, q, refl, refl, λ who. ground (arith, u))
  | inr (lo, hi, u, g) ↦
      let b : (f == ignore_max) ≡ false = ground (arith, hi) in
      let z : f - 0 ≡ f = omega arith in
      let name = c ∷ take 15 arg in
      let t : Session = record s { ignoring = set s.ignoring f name } in
      let (v, q) = say_here_lem (lit (codes "-- ignoring ")) (some (c ∷ arg)) none t in
      let new : on_list s.ignoring (c ∷ arg) ≡ false =
        sym (find_slot-on_list 0 s.ignoring c arg ignore_max) ∙ ap met e in
      rw b (
        record t { views = v },
        q,
        refl,
        length-set s.ignoring f name,
        λ who. on_list-set s.ignoring f c (take 15 arg) who (rw z at g) ∙ rw (new, u) refl,
      )
]

-- `/ignore` with a name that does not begin with a minus comes back and sends nothing. Afterwards a
-- nick is on the list if it was before, or if it is the first 16 bytes of the name but for the case
-- of its letters, the name was not on the list, and there was a free slot.
pub ignore_cmd-adds :
    (c : ℕ) (arg : Str) (s : Session)
    → c ≢ b'-'
    → length s.ignoring ≤ ignore_max
    → (t : Session) × (ignore_cmd (c ∷ arg) s ≡ some (tt, t))
      × (t.sent ≡ s.sent)
      × (length t.ignoring ≡ length s.ignoring)
      × IsAdded s.ignoring (c ∷ arg) t.ignoring
unfolding ignore_cmd ignore_name gets ◌>>=◌
ignore_cmd-adds c arg s minus h =
    let b : (c == b'-') ≡ false = ground (arith, minus) in
    rw b (walked c arg s (find_slot 0 s.ignoring (c ∷ arg) ignore_max) h refl)
