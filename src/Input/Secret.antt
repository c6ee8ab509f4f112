-- ===== src/Input/Secret.antt =====
-- src/ircc.c, read_secret: a password is typed at a prompt, and asterisks are shown for it.
use mega_irc.Common.{
  ℕ, ◌-◌, Bool, false, ◌&&◌, Option, List, [], ◌∷◌, ◌++◌, Str, ltb, ◌==◌, if◌then◌else◌, length,
  replicate, map, ◌≡◌, ◌≢◌, inl, inr, refl, arith, length-append, length-take, Bool-cases,
}
use mega_irc.Ui.{key_stop, key_return, key_del}
use mega_irc.Ui.Prompt.{
  is_printable, rub_out, prompt_row, ask, IsTyped, Ended, ask-Ended, take-IsTyped, keep_typed,
  keep_typed-IsTyped,
}

unfoldable pub secret_press : ℕ → ℕ → Str → Str
unfolding rub_out
secret_press cap k out =
    if k == key_del
    then rub_out out
    else if is_printable k && ltb (length out) cap
    then out ++ k ∷ []
    else out

unfoldable pub secret_row : Str → Str → Str
unfolding prompt_row
secret_row prompt out = prompt_row prompt (replicate (length out) b'*')

unfoldable pub read_secret : Str → ℕ → List ℕ → List Str × Option (Bool × Str)
unfolding ask secret_press secret_row
read_secret prompt cap keys = ask (secret_row prompt) (λ out. out) (secret_press cap) [] keys

-- The keys of someone who types asterisks instead.
pub mask : ℕ → ℕ
mask k = if is_printable k then b'*' else k

-- The keys that the loop tests for are not printable, so a mask is one of them where the key is.
mask-eq : (k c : ℕ) → is_printable c ≡ false → c ≢ b'*' → (mask k == c) ≡ (k == c)
unfolding mask
mask-eq k c h n = elim (Bool-cases (is_printable k)) [
  | inl p ↦ rw p (ground arith)
  | inr p ↦ rw p refl
]

length-rub_out : (s : Str) → length (rub_out s) ≡ length s - 1
unfolding rub_out
length-rub_out s = omega (arith, length-take (length s - 1) s)

-- A masked key makes the text as long as the key does.
length-secret_press :
    (cap k : ℕ) (s s' : Str)
    → length s' ≡ length s
    → length (secret_press cap (mask k) s') ≡ length (secret_press cap k s)
unfolding secret_press mask
length-secret_press cap k s s' h = elim (Bool-cases (is_printable k)) [
  | inl p ↦
      let typed : (k == key_del) ≡ false = ground arith in
      elim (Bool-cases (ltb (length s) cap)) [
        | inl e ↦ rw p (
            rw typed (
              rw h
                (rw e (omega (arith, h, length-append s (k ∷ []), length-append s' (b'*' ∷ []))))))
        | inr e ↦ rw p (rw typed (rw h (rw e h)))
      ]
  | inr p ↦ elim (Bool-cases (k == key_del)) [
    | inl d ↦ rw p (rw d (omega (arith, h, length-rub_out s, length-rub_out s')))
    | inr d ↦ rw p (rw d (rw p h))
  ]
]

masked_rows :
    (prompt : Str) (cap : ℕ) (keys : List ℕ) (s s' : Str)
    → length s' ≡ length s
    → (ask (secret_row prompt) (λ out. out) (secret_press cap) s' (map mask keys)).0
      ≡ (ask (secret_row prompt) (λ out. out) (secret_press cap) s keys).0
unfolding ask secret_row
masked_rows prompt cap [] s s' h = rw h refl
masked_rows prompt cap (k ∷ ks) s s' h =
    let rest =
      masked_rows prompt cap ks (secret_press cap k s) (secret_press cap (mask k) s')
        (length-secret_press cap k s s' h) in
    let is_return = mask-eq k key_return refl (omega arith) in
    let is_stop = mask-eq k key_stop refl (omega arith) in
    elim (Bool-cases (k == key_return)) [
      | inl r ↦ rw is_return (rw r (rw h refl))
      | inr r ↦ elim (Bool-cases (k == key_stop)) [
        | inl e ↦ rw is_return (rw r (rw is_stop (rw e (rw h refl))))
        | inr e ↦ rw is_return (rw r (rw is_stop (rw e (rw h (rw rest refl)))))
      ]
    ]

secret_press-IsTyped : (cap k : ℕ) (s : Str) → IsTyped cap s → IsTyped cap (secret_press cap k s)
unfolding secret_press rub_out keep_typed
secret_press-IsTyped cap k s h = elim (Bool-cases (k == key_del)) [
  | inl d ↦ rw d (take-IsTyped cap (length s - 1) s h)
  | inr d ↦ elim (Bool-cases (is_printable k)) [
    | inl p ↦ rw d (rw p (keep_typed-IsTyped cap k s p h))
    | inr p ↦ rw d (rw p h)
  ]
]

-- What `read_secret` draws does not depend on the characters that are typed: with an asterisk for
-- each, the same rows are drawn. Where it ends, on RETURN or on RUN/STOP, what was typed is
-- printable and has at most `cap` characters.
pub read_secret-IsHidden :
    (prompt : Str) (cap : ℕ) (keys : List ℕ)
    → ((read_secret prompt cap (map mask keys)).0 ≡ (read_secret prompt cap keys).0)
      × Ended (IsTyped cap) (read_secret prompt cap keys).1
unfolding read_secret IsTyped
read_secret-IsHidden prompt cap keys = (
  masked_rows prompt cap keys [] [] refl,
  ask-Ended (IsTyped cap) (secret_row prompt) (λ out. out) (secret_press cap)
      (secret_press-IsTyped cap) [] keys (omega arith, tt),
)
