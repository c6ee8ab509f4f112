-- ===== src/Ui/Prompt.antt =====
-- src/ui.c, ui_read_line: a line that is typed at a prompt. The keys are a list, and what is drawn
-- is the list of the rows, one before each key; the result is `none` while the code waits for a key.
use mega_irc.Common.{
  ℕ, zero, suc, ◌-◌, ◌≤◌, Bool, true, false, ◌&&◌, Option, none, some, List, [], ◌∷◌, ◌++◌, Str,
  ltb, leb, ◌==◌, if◌then◌else◌, length, take, ◌≡◌, inl, inr, arith, All, All-append, length-append,
  length-take, Bool-cases, ltb→lt,
}
use mega_irc.Ui.{key_stop, key_return, key_del}

abbrev pub is_printable : ℕ → Bool
is_printable key = leb 0x20 key && ltb key 0x7f

unfoldable pub rub_out : Str → Str
rub_out out = take (length out - 1) out

unfoldable pub keep_typed : ℕ → ℕ → Str → Str
keep_typed cap key out = if ltb (length out) cap then out ++ key ∷ [] else out

unfoldable pub prompt_row : Str → Str → Str
prompt_row prompt shown = take 78 (prompt ++ shown) ++ b'_' ∷ []

-- The loop that `ui_read_line` and `read_secret` share: a row is drawn, a key comes.
unfoldable pub ask :
    {T : Type 0} → (T → Str) → (T → Str) → (ℕ → T → T) → T → List ℕ → List Str × Option (Bool × Str)
ask row text press t [] = (row t ∷ [], none)
ask row text press t (k ∷ ks) =
    let (rows, end) = ask row text press (press k t) ks in
    if k == key_return
    then (row t ∷ [], some (true, text t))
    else if k == key_stop
    then (row t ∷ [], some (false, text t))
    else (row t ∷ rows, end)

-- `out` and `fresh`
pub record Line : Type 0 where
  pub out : Str
  pub fresh : Bool

unfoldable pub line_press : ℕ → ℕ → Line → Line
unfolding rub_out keep_typed
line_press maxlen k t =
    if k == key_del
    then record { out = rub_out t.out; fresh = false }
    else if is_printable k
    then record { out = keep_typed maxlen k (if t.fresh then [] else t.out); fresh = false }
    else t

unfoldable pub ui_read_line : Str → Str → ℕ → List ℕ → List Str × Option (Bool × Str)
unfolding ask line_press prompt_row
ui_read_line prompt default maxlen keys =
    ask (λ t. prompt_row prompt t.out) (λ t. t.out) (line_press maxlen)
      (record { out = take maxlen default; fresh = true }) keys

-- Printable characters, as many as there is room for.
unfoldable pub IsTyped : ℕ → Str → Type 0
IsTyped cap s = (length s ≤ cap) × All (λ c. is_printable c ≡ true) s

-- What holds of the text, if the prompt has ended.
pub data Ended (P : Str → Type 0) : Option (Bool × Str) → Type 0 where
  waiting : Ended P none
  ended : {b : Bool} {s : Str} → P s → Ended P (some (b, s))

pub ask-Ended :
    {T : Type 0} (P : Str → Type 0) (row text : T → Str) (press : ℕ → T → T)
    → ((k : ℕ) (t : T) → P (text t) → P (text (press k t)))
    → (t : T) (keys : List ℕ) → P (text t)
    → Ended P (ask row text press t keys).1
unfolding ask
ask-Ended P row text press step t [] h = waiting
ask-Ended P row text press step t (k ∷ ks) h = elim (Bool-cases (k == key_return)) [
  | inl r ↦ rw r (ended h)
  | inr r ↦ elim (Bool-cases (k == key_stop)) [
    | inl s ↦ rw r (rw s (ended h))
    | inr s ↦ rw r (rw s (ask-Ended P row text press step (press k t) ks (step k t h)))
  ]
]

take-All : (P : ℕ → Type 0) (n : ℕ) (s : Str) → All P s → All P (take n s)
take-All P zero s h = tt
take-All P (suc n) [] h = tt
take-All P (suc n) (c ∷ s) h = (h.0, take-All P n s h.1)

pub take-IsTyped : (cap n : ℕ) (s : Str) → IsTyped cap s → IsTyped cap (take n s)
unfolding IsTyped
take-IsTyped cap n s h = (omega (arith, length-take n s, h.0), take-All _ n s h.1)

pub keep_typed-IsTyped :
    (cap k : ℕ) (s : Str) → is_printable k ≡ true → IsTyped cap s → IsTyped cap (keep_typed cap k s)
unfolding IsTyped keep_typed
keep_typed-IsTyped cap k s p h = elim (Bool-cases (ltb (length s) cap)) [
  | inl e ↦
      let room = ltb→lt (length s) cap e in
      rw e (omega (arith, length-append s (k ∷ [])), All-append _ s (k ∷ []) h.1 (p, tt))
  | inr e ↦ rw e h
]

line_press-IsTyped :
    (cap k : ℕ) (t : Line) → IsTyped cap t.out → IsTyped cap (line_press cap k t).out
unfolding line_press rub_out IsTyped
line_press-IsTyped cap k t h = elim (Bool-cases (k == key_del)) [
  | inl d ↦ rw d (take-IsTyped cap (length t.out - 1) t.out h)
  | inr d ↦ elim (Bool-cases (is_printable k)) [
    | inr p ↦ rw d (rw p h)
    | inl p ↦ elim (Bool-cases t.fresh) [
      | inl f ↦ rw d (rw p (rw f (keep_typed-IsTyped cap k [] p (omega arith, tt))))
      | inr f ↦ rw d (rw p (rw f (keep_typed-IsTyped cap k t.out p h)))
    ]
  ]
]

-- A prompt whose default is printable ends, on RETURN or on RUN/STOP, with printable characters of
-- which there are at most `maxlen`, whatever the keys and however long the default.
ui_read_line-IsTyped :
    (prompt default : Str) (maxlen : ℕ) (keys : List ℕ)
    → All (λ c. is_printable c ≡ true) default
    → Ended (IsTyped maxlen) (ui_read_line prompt default maxlen keys).1
unfolding ui_read_line IsTyped
ui_read_line-IsTyped prompt default maxlen keys h =
    ask-Ended (IsTyped maxlen) _ (λ t. t.out) (line_press maxlen) (line_press-IsTyped maxlen) _ keys
      (omega (arith, length-take maxlen default), take-All _ maxlen default h)
