-- ===== src/Irc/Words.antt =====
-- What the pointer walks of src/irc.c pass over: words that end at a separator or at the NUL.
use mega_irc.Common.{
  ℕ, ◌≤◌, [], ◌∷◌, ◌++◌, ◌≡◌, ◌≢◌, inl, inr, refl, arith, Str, All, ◌==◌, length, Bool-cases,
}
use mega_irc.Irc.{take_until, drop_until, step_over, skip_spaces}

-- No byte of the text is `stop`.
abbrev pub Avoids : ℕ → Str → Type 0
Avoids stop w = All (λ c. c ≢ stop) w

-- The text is at its end or at a separator.
abbrev pub AtBreak : ℕ → Str → Type 0
AtBreak stop [] = Unit {0}
AtBreak stop (c ∷ p) = c ≡ stop

-- A word: not empty, and no byte of it is a space.
abbrev pub IsWord : Str → Type 0
IsWord w = (w ≢ []) × Avoids b' ' w

take_until-break : (stop : ℕ) (p : Str) → AtBreak stop p → take_until stop p ≡ []
unfolding take_until
take_until-break stop [] h = refl
take_until-break stop (c ∷ p) h = ground arith

drop_until-break : (stop : ℕ) (p : Str) → AtBreak stop p → drop_until stop p ≡ p
unfolding drop_until
drop_until-break stop [] h = refl
drop_until-break stop (c ∷ p) h = ground arith

pub take_until-append :
    (stop : ℕ) (w p : Str) → Avoids stop w → AtBreak stop p → take_until stop (w ++ p) ≡ w
unfolding take_until
take_until-append stop [] p a h = take_until-break stop p h
take_until-append stop (c ∷ w) p a h = ground (arith, a.0, take_until-append stop w p a.1 h)

pub drop_until-append :
    (stop : ℕ) (w p : Str) → Avoids stop w → AtBreak stop p → drop_until stop (w ++ p) ≡ p
unfolding drop_until
drop_until-append stop [] p a h = drop_until-break stop p h
drop_until-append stop (c ∷ w) p a h = ground (arith, a.0, drop_until-append stop w p a.1 h)

pub take_until_all : (stop : ℕ) (w : Str) → Avoids stop w → take_until stop w ≡ w
unfolding take_until
take_until_all stop [] a = refl
take_until_all stop (c ∷ w) a = ground (arith, a.0, take_until_all stop w a.1)

drop_until_all : (stop : ℕ) (w : Str) → Avoids stop w → drop_until stop w ≡ []
unfolding drop_until
drop_until_all stop [] a = refl
drop_until_all stop (c ∷ w) a = ground (arith, a.0, drop_until_all stop w a.1)

pub take_until-Avoids : (stop : ℕ) (p : Str) → Avoids stop (take_until stop p)
unfolding take_until
take_until-Avoids stop [] = tt
take_until-Avoids stop (c ∷ p) = elim (Bool-cases (c == stop)) [
  | inl e ↦ rw e tt
  | inr e ↦ rw e (λ q. ground arith, take_until-Avoids stop p)
]

pub take_until-append-drop_until : (stop : ℕ) (p : Str) → take_until stop p ++ drop_until stop p ≡ p
unfolding take_until drop_until
take_until-append-drop_until stop [] = refl
take_until-append-drop_until stop (c ∷ p) = ground (arith, take_until-append-drop_until stop p)

pub length-drop_until : (stop : ℕ) (p : Str) → length (drop_until stop p) ≤ length p
unfolding drop_until
length-drop_until stop [] = omega arith
length-drop_until stop (c ∷ p) = ground (arith, length-drop_until stop p)

-- A walk over a word and its separator makes progress.
pub length-step_over :
    (stop c : ℕ) (p : Str) → length (step_over (drop_until stop (c ∷ p))) ≤ length p
unfolding step_over drop_until
length-step_over stop c [] = ground arith
length-step_over stop c (d ∷ p) = ground (arith, length-step_over stop d p)

pub length-skip_spaces : (p : Str) → length (skip_spaces p) ≤ length p
unfolding skip_spaces
length-skip_spaces [] = omega arith
length-skip_spaces (c ∷ p) = ground (arith, length-skip_spaces p)

-- Behind the spaces stands no space.
abbrev pub NotAt : ℕ → Str → Type 0
NotAt stop [] = Unit {0}
NotAt stop (c ∷ p) = c ≢ stop

pub skip_spaces-NotAt : (p : Str) → NotAt b' ' (skip_spaces p)
unfolding skip_spaces
skip_spaces-NotAt [] = tt
skip_spaces-NotAt (c ∷ p) = elim (Bool-cases (c == b' ')) [
  | inl e ↦ rw e (skip_spaces-NotAt p)
  | inr e ↦ rw e (λ q. ground arith)
]

pub skip_spaces_none : (p : Str) → NotAt b' ' p → skip_spaces p ≡ p
unfolding skip_spaces
skip_spaces_none [] h = refl
skip_spaces_none (c ∷ p) h = ground arith

-- A walk from a byte that is no space reads a word.
pub take_until-IsWord : (c : ℕ) (p : Str) → c ≢ b' ' → IsWord (take_until b' ' (c ∷ p))
take_until-IsWord c p h = (unfold take_until in ground arith, take_until-Avoids b' ' (c ∷ p))
