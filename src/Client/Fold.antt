-- ===== src/Client/Fold.antt =====
-- src/ircc.c: `fold`, UTF-8 reduced to one byte a character.
use Prim.Native.Nat.{bit_and}
use native.Mathlib.Decide.{dec_lt}
use mega_irc.Common.{
  subst, ◌+◌, ℕ, zero, suc, ◌≤◌, ◌<◌, Bool, true, false, ◌&&◌, List, [], ◌∷◌, ◌++◌, map, ◌^◌, ◌≡◌,
  ◌∙◌, inl, inr, refl, sym, ap, arith, Str, All, ltb, leb, ◌==◌, if◌then◌else◌, length,
  length-append, fill, fill-nil, fill_room, fill_full, Bool-cases,
}
use mega_irc.Ui.{Writer}
use mega_irc.Ui.Cat.{InRoom, filled}
use mega_irc.Client.{fold}

-- What `fold` makes of a text when there is room for all of it.
abbrev pub glyphs : Str → Str
glyphs [] = []
glyphs (c ∷ s) =
    if ltb c 0x80
    then c ∷ glyphs s
    else if bit_and c 0xc0 == 0x80
    then glyphs s
    else b'?' ∷ glyphs s

fold_step :
    (w : Writer) (c : ℕ) (s t : Str)
    → ltb (length w.text) w.room ≡ true
    → fold (record w { text = w.text ++ c ∷ [] }) s
      ≡ filled (record w { text = w.text ++ c ∷ [] }) t
    → fold (record w { text = w.text ++ c ∷ [] }) s ≡ filled w (c ∷ t)
fold_step w c s t e ih =
    ih ∙ ap (λ x. record w { text = x }) (fill_room w.room w.text c t (ground arith))

-- `fold` writes the glyphs of the text, as far as there is room.
fold-filled : (w : Writer) (s : Str) → InRoom w → fold w s ≡ filled w (glyphs s)
unfolding fold
fold-filled w [] h = ap (λ t. record w { text = t }) (sym (fill-nil w.room w.text))
fold-filled w (c ∷ s) h = elim (Bool-cases (ltb (length w.text) w.room)) [
  | inr e ↦ rw e (
      ap (λ t. record w { text = t })
        (sym (fill_full w.room w.text (glyphs (c ∷ s)) (ground arith))))
  | inl e ↦ rw e (elim (Bool-cases (ltb c 0x80)) [
    | inl a ↦ rw a (
        fold_step w c s (glyphs s) e (
          fold-filled (record w { text = w.text ++ c ∷ [] }) s
            (ground (arith, length-append w.text (c ∷ [])))))
    | inr a ↦ rw a (elim (Bool-cases (bit_and c 0xc0 == 0x80)) [
      | inl b ↦ rw b (fold-filled w s h)
      | inr b ↦ rw b (
          fold_step w b'?' s (glyphs s) e (
            fold-filled (record w { text = w.text ++ b'?' ∷ [] }) s
              (ground (arith, length-append w.text (b'?' ∷ [])))))
    ])
  ])
]

-- A test of `k` bytes from `at` on.
passes : (ℕ → Bool) → ℕ → ℕ → Bool
passes test at zero = true
passes test at (suc k) = if test at then passes test (at + 1) k else false

passes-at :
    (test : ℕ → Bool) (x at k : ℕ) → at ≤ x → x < at + k → passes test at k ≡ true → test x ≡ true
unfolding passes
passes-at test x at zero lo hi h = absurd (omega arith)
passes-at test x at (suc k) lo hi h = elim (Bool-cases (test at)) [
  | inr e ↦ absurd (cc (e, h))
  | inl e ↦ elim (dec_lt at x) [
    | yes l ↦ passes-at test x (at + 1) k (omega arith) (omega arith) (ground (arith, e, h))
    | no n ↦ (let same : at ≡ x = omega arith in subst (λ y. test y ≡ true) same e)
  ]
]

-- The mask test picks out the bytes from 0x80 to 0xbf.
abbrev mask_agrees : ℕ → Bool
mask_agrees c = elim (bit_and c 0xc0 == 0x80) [
  | true ↦ leb 0x80 c && ltb c 0xc0
  | false ↦ elim (leb 0x80 c && ltb c 0xc0) [ true ↦ false | false ↦ true ]
]

mask_table : passes mask_agrees 0 256 ≡ true
unfolding passes
mask_table = refl

continuation_mask : (c : ℕ) → c < 2 ^ 8 → (bit_and c 0xc0 == 0x80) ≡ (leb 0x80 c && ltb c 0xc0)
continuation_mask c h =
    same (bit_and c 0xc0 == 0x80) (leb 0x80 c && ltb c 0xc0)
      (passes-at mask_agrees c 0 256 (omega arith) (omega arith) mask_table)
  where
    same :
        (a b : Bool)
        → (elim a [ true ↦ b | false ↦ elim b [ true ↦ false | false ↦ true ] ]) ≡ true
        → a ≡ b
    same true b e = sym e
    same false true e = e
    same false false e = refl

-- A continuation byte of UTF-8, and a byte that begins a character of several.
abbrev pub IsContinuation : ℕ → Type 0
IsContinuation c = (0x80 ≤ c) × (c < 0xc0)

abbrev pub IsLead : ℕ → Type 0
IsLead c = (0xc0 ≤ c) × (c < 2 ^ 8)

glyphs_skip : (cs rest : Str) → All IsContinuation cs → glyphs (cs ++ rest) ≡ glyphs rest
glyphs_skip [] rest h = refl
glyphs_skip (c ∷ cs) rest h =
    ground (arith, glyphs_skip cs rest h.1, continuation_mask c (omega arith), h.0)

glyphs_lead : (c : ℕ) (s : Str) → IsLead c → glyphs (c ∷ s) ≡ b'?' ∷ glyphs s
glyphs_lead c s h = ground (arith, continuation_mask c (omega arith), h)

-- A character of several bytes takes one column, whichever it is and whatever stands around it.
glyphs_character :
    (c : ℕ) (cs rest : Str)
    → IsLead c
    → All IsContinuation cs
    → glyphs (c ∷ (cs ++ rest)) ≡ b'?' ∷ glyphs rest
glyphs_character c cs rest l h =
    glyphs_lead c (cs ++ rest) l ∙ ap (◌∷◌ b'?') (glyphs_skip cs rest h)

-- A character, as UTF-8 has it.
pub data Character : Type 0 where
  ascii : ℕ → Character
  multi : ℕ → Str → Character

abbrev pub IsCharacter : Character → Type 0
IsCharacter (ascii c) = c < 0x80
IsCharacter (multi c cs) = IsLead c × All IsContinuation cs

abbrev pub encoded : List Character → Str
encoded [] = []
encoded (ascii c ∷ cs) = c ∷ encoded cs
encoded (multi c tail ∷ cs) = c ∷ (tail ++ encoded cs)

abbrev pub column : Character → ℕ
column (ascii c) = c
column (multi c tail) = b'?'

glyphs-encoded : (cs : List Character) → All IsCharacter cs → glyphs (encoded cs) ≡ map column cs
glyphs-encoded [] h = refl
glyphs-encoded (ascii c ∷ cs) h = ground (arith, glyphs-encoded cs h.1, h.0)
glyphs-encoded (multi c tail ∷ cs) h =
    glyphs_character c tail (encoded cs) h.0.0 h.0.1 ∙ ap (◌∷◌ b'?') (glyphs-encoded cs h.1)

-- Of a text in UTF-8 `fold` writes one byte for each character, the ASCII ones as they are and a
-- question mark for any other, until the buffer is full.
fold-encoded :
    (w : Writer) (cs : List Character)
    → All IsCharacter cs
    → length w.text ≤ w.room
    → fold w (encoded cs) ≡ record w { text = fill w.room w.text (map column cs) }
fold-encoded w cs h r = fold-filled w (encoded cs) r ∙ ap (filled w) (glyphs-encoded cs h)
