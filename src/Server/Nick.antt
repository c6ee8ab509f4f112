-- ===== src/Server/Nick.antt =====
-- src/ircc.c: the nicks that are tried while the server answers that each is in use.
use mega_irc.Common.{
  ℕ, zero, suc, ◌+◌, ◌*◌, ◌≤◌, ◌<◌, some, [], ◌∷◌, ◌++◌, ◌≡◌, ◌≢◌, ◌∙◌, inl, inr, refl, sym, ap,
  arith, Str, ltb, ◌==◌, if◌then◌else◌, length, length-append, Bool-cases,
}
use native.Mathlib.Decide.{dec_lt}
use mega_irc.Session.Monad.{>>=-some, Session, M, ◌>>=◌, pure, modify, gets}
use mega_irc.Session.{send_all, send3, send}
use mega_irc.Server.{bump_last, next_nick, on_nick_in_use}

abbrev pub last_byte : Str → ℕ
last_byte [] = 0
last_byte (c ∷ []) = c
last_byte (c ∷ d ∷ s) = last_byte (d ∷ s)

-- Longer nicks come later, and of one length those with the greater last byte.
abbrev rank : Str → ℕ
rank s = length s * 256 + last_byte s

last_byte-append : (s : Str) (c : ℕ) → last_byte (s ++ c ∷ []) ≡ c
last_byte-append [] c = refl
last_byte-append (d ∷ []) c = refl
last_byte-append (d ∷ e ∷ s) c = last_byte-append (e ∷ s) c

bump_last_lem :
    (c : ℕ) (s : Str)
    → last_byte (c ∷ s) < 255
    → (length (bump_last (c ∷ s)) ≡ length (c ∷ s))
      × (last_byte (bump_last (c ∷ s)) ≡ last_byte (c ∷ s) + 1)
unfolding bump_last
bump_last_lem c [] h = elim (Bool-cases (c == 255)) [
  | inl e ↦ (let q : c ≡ 255 = ground (arith, e) in absurd (omega arith))
  | inr e ↦ rw e (refl, refl)
]
bump_last_lem c (d ∷ s) h =
    let (l, b) = bump_last_lem d s h in
    (ap suc l, last_byte-cons c (bump_last (d ∷ s)) (omega (arith, l)) ∙ b)
  where
    last_byte-cons : (c : ℕ) (s : Str) → 1 ≤ length s → last_byte (c ∷ s) ≡ last_byte s
    last_byte-cons c [] h = absurd (omega arith)
    last_byte-cons c (d ∷ s) h = refl

-- The next nick ranks higher, and its last byte is at most one more, or the digit 2.
next_nick_lem :
    (nick : Str)
    → last_byte nick < 255
    → (rank nick < rank (next_nick nick))
      × (last_byte (next_nick nick) ≤ (if ltb (length nick) 15 then b'2' else last_byte nick + 1))
unfolding next_nick
next_nick_lem nick h = elim (Bool-cases (ltb (length nick) 15)) [
  | inl e ↦ rw e (
    omega (arith, length-append nick (b'2' ∷ []), last_byte-append nick b'2'),
    omega (arith, last_byte-append nick b'2'),
  )
  | inr e ↦ rw e (bumped nick h (ground (arith, e)))
]
  where
    bumped :
        (nick : Str)
        → last_byte nick < 255
        → 15 ≤ length nick
        → (rank nick < rank (bump_last nick)) × (last_byte (bump_last nick) ≤ last_byte nick + 1)
    bumped [] h l = absurd (omega arith)
    bumped (c ∷ s) h l = let (a, b) = bump_last_lem c s h in (omega (arith, a, b), omega (arith, b))

-- The nick after a number of refusals.
abbrev pub tries : ℕ → Str → Str
tries zero nick = nick
tries (suc n) nick = next_nick (tries n nick)

last_byte-tries :
    (n : ℕ) (nick : Str) → last_byte nick < 127 → n ≤ 128 → last_byte (tries n nick) < 127 + n
last_byte-tries zero nick h l = omega arith
last_byte-tries (suc n) nick h l =
    let ih = last_byte-tries n nick h (omega arith) in
    let (_, b) = next_nick_lem (tries n nick) (omega arith) in ground (arith, b, ih)

rank-tries :
    (i j : ℕ) (nick : Str)
    → last_byte nick < 127
    → i < j
    → j ≤ 128
    → rank (tries i nick) < rank (tries j nick)
rank-tries i zero nick h l m = absurd (omega arith)
rank-tries i (suc j) nick h l m =
    let step : rank (tries j nick) < rank (tries (suc j) nick) =
      (next_nick_lem (tries j nick) (omega (arith, last_byte-tries j nick h))).0 in
    elim (dec_lt i j) [
      | yes p ↦ omega (arith, rank-tries i j nick h p (omega arith), step)
      | no p ↦ (let q : i ≡ j = omega arith in rw q step)
    ]

-- The server answers 433 a number of times in a row.
pub refusals : ℕ → M (Unit {0})
refusals zero = pure tt
refusals (suc n) = refusals n >>= λ _. on_nick_in_use

on_nick_in_use_lem :
    (s : Session) → (t : Session) × (on_nick_in_use s ≡ some (tt, t)) × (t.nick ≡ next_nick s.nick)
unfolding on_nick_in_use send send3 send_all modify gets pure ◌>>=◌
on_nick_in_use_lem s = (_, refl, refl)

refusals_lem :
    (n : ℕ) (s : Session)
    → (t : Session) × (refusals n s ≡ some (tt, t)) × (t.nick ≡ tries n s.nick)
unfolding refusals pure
refusals_lem zero s = (s, refl, refl)
refusals_lem (suc n) s =
    let (t, e, q) = refusals_lem n s in
    let (u, f, r) = on_nick_in_use_lem t in (u, >>=-some (refusals n) _ s e ∙ f, r ∙ ap next_nick q)

-- Up to 128 times in a row a refused nick is followed by one that was not tried before: after
-- different numbers of refusals the nicks differ, whatever the connection does with the lines. The
-- nick that the session begins with ends in an ASCII character other than DEL, or is empty.
pub refusals_differ :
    (i j : ℕ) (s : Session)
    → last_byte s.nick < 127
    → i < j
    → j ≤ 128
    → (a : Session) × (b : Session) × (refusals i s ≡ some (tt, a))
      × (refusals j s ≡ some (tt, b))
      × (a.nick ≢ b.nick)
refusals_differ i j s h l m =
    let (a, ea, qa) = refusals_lem i s in
    let (b, eb, qb) = refusals_lem j s in
    let r = rank-tries i j s.nick h l m in
    (
      a,
      b,
      ea,
      eb,
      λ q.
          (let k : rank (tries i s.nick) ≡ rank (tries j s.nick) = ap rank (sym qa ∙ q ∙ qb) in
            absurd (omega (arith, k, r))),
    )
