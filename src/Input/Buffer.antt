-- ===== src/Input/Buffer.antt =====
-- src/ircc.c: what the two loops that move the bytes of the line do.
use mega_irc.Common.{
  ℕ, zero, suc, ◌+◌, ◌-◌, ◌≤◌, [], ◌∷◌, ◌++◌, ◌≡◌, refl, ap, ◌∙◌, arith, Str, length, get_or, set,
}
use mega_irc.Input.{shift_down, shift_up}

-- The bytes before the cursor, the nearest first, in front of the others.
abbrev pub rev_onto : Str → Str → Str
rev_onto [] ys = ys
rev_onto (x ∷ xs) ys = rev_onto xs (x ∷ ys)

pub length-rev_onto : (b ys : Str) → length (rev_onto b ys) ≡ length b + length ys
length-rev_onto [] ys = omega arith
length-rev_onto (x ∷ b) ys = omega (arith, length-rev_onto b (x ∷ ys))

-- An index that is counted from behind the bytes before the cursor.
pub set-rev_onto :
    (b ys : Str) (i v : ℕ) → set (rev_onto b ys) (length b + i) v ≡ rev_onto b (set ys i v)
set-rev_onto [] ys i v = let z : 0 + i ≡ i = omega arith in rw z refl
set-rev_onto (x ∷ b) ys i v =
    let z : suc (length b) + i ≡ length b + suc i = omega arith in
    rw z (set-rev_onto b (x ∷ ys) (suc i) v)

get_or-rev_onto : (b ys : Str) (i : ℕ) → get_or (rev_onto b ys) (length b + i) 0 ≡ get_or ys i 0
get_or-rev_onto [] ys i = let z : 0 + i ≡ i = omega arith in rw z refl
get_or-rev_onto (x ∷ b) ys i =
    let z : suc (length b) + i ≡ length b + suc i = omega arith in
    rw z (get_or-rev_onto b (x ∷ ys) (suc i))

pub shift_down-rev_onto :
    (n i : ℕ) (b ys : Str)
    → shift_down n (length b + i) (rev_onto b ys) ≡ rev_onto b (shift_down n i ys)
unfolding shift_down
shift_down-rev_onto zero i b ys = refl
shift_down-rev_onto (suc n) i b ys =
    let z : (length b + i) + 1 ≡ length b + (i + 1) = omega arith in
    rw (z, get_or-rev_onto b ys (i + 1), set-rev_onto b ys i (get_or ys (i + 1) 0))
      (shift_down-rev_onto n (i + 1) b (set ys i (get_or ys (i + 1) 0)))

shift_down-cons : (n i x : ℕ) (ys : Str) → shift_down n (suc i) (x ∷ ys) ≡ x ∷ shift_down n i ys
unfolding shift_down
shift_down-cons zero i x ys = refl
shift_down-cons (suc n) i x ys =
    let z : suc i + 1 ≡ suc (i + 1) = omega arith in
    rw z (shift_down-cons n (i + 1) x (set ys i (get_or ys (i + 1) 0)))

-- The byte at the start is dropped, and a second NUL stays behind the first.
pub shift_down_lem :
    (t : Str) (x : ℕ) (rest : Str)
    → shift_down (suc (length t)) 0 (x ∷ (t ++ 0 ∷ rest)) ≡ t ++ 0 ∷ 0 ∷ rest
unfolding shift_down
shift_down_lem [] x rest = refl
shift_down_lem (y ∷ t) x rest =
    shift_down-cons (suc (length t)) 0 y (y ∷ (t ++ 0 ∷ rest))
    ∙ ap (◌∷◌ y) (shift_down_lem t y rest)

pub shift_up-rev_onto :
    (n j : ℕ) (b ys : Str)
    → n ≤ j
    → shift_up n (length b + j) (rev_onto b ys) ≡ rev_onto b (shift_up n j ys)
unfolding shift_up
shift_up-rev_onto zero j b ys h = refl
shift_up-rev_onto (suc n) j b ys h =
    let z : (length b + j) - 1 ≡ length b + (j - 1) = omega arith in
    rw (z, get_or-rev_onto b ys (j - 1), set-rev_onto b ys j (get_or ys (j - 1) 0))
      (shift_up-rev_onto n (j - 1) b (set ys j (get_or ys (j - 1) 0)) (omega arith))

shift_up-cons : (n j z : ℕ) (ys : Str) → n ≤ j → shift_up n (suc j) (z ∷ ys) ≡ z ∷ shift_up n j ys
unfolding shift_up
shift_up-cons zero j z ys h = refl
shift_up-cons (suc n) zero z ys h = absurd (omega arith)
shift_up-cons (suc n) (suc j) z ys h =
    let e : suc (suc j) - 1 ≡ suc j = omega arith in
    let d : suc j - 1 ≡ j = omega arith in
    rw (e, d) (shift_up-cons n j z (set ys (suc j) (get_or ys j 0)) (omega arith))

-- The last round alone.
shift_up-last :
    (n i : ℕ) (ys : Str)
    → n ≤ i
    → shift_up (suc n) i ys ≡ set (shift_up n i ys) (i - n) (get_or (shift_up n i ys) (i - n - 1) 0)
unfolding shift_up
shift_up-last zero i ys h = let z : i - 0 ≡ i = omega arith in rw z refl
shift_up-last (suc n) i ys h =
    let z : i - suc n ≡ i - 1 - n = omega arith in
    rw z (shift_up-last n (i - 1) (set ys i (get_or ys (i - 1) 0)) (omega arith))

-- The bytes move up by one, over the one behind them; the first stays also where it was.
pub shift_up_lem :
    (t : Str) (x : ℕ) (rest : Str)
    → (h : ℕ) × (shift_up (length t) (length t) (t ++ x ∷ rest) ≡ h ∷ (t ++ rest))
shift_up_lem [] x rest = (x, unfold shift_up in refl)
shift_up_lem (z ∷ t) x rest =
    let n = length t in
    let (h, e) = shift_up_lem t x rest in
    let one : suc n - n ≡ 1 = omega arith in
    let ys = z ∷ (t ++ x ∷ rest) in
    (
      z,
      shift_up-last n (suc n) ys (omega arith)
          ∙ rw (one, shift_up-cons n n z (t ++ x ∷ rest) (omega arith), e) refl,
    )
