-- ===== src/Irc/Sound.antt =====
-- src/irc.c: what `irc_parse` leaves in the message, whatever line it is given.
use mega_irc.Common.{
  ℕ, zero, suc, ◌≤◌, Bool, true, false, Option, none, some, [], ◌∷◌, ◌≡◌, ◌≢◌, ◌∙◌, inl, inr, refl,
  arith, Str, All, All-append, ◌==◌, length, length-append, Bool-cases,
}
use mega_irc.Irc.{
  Msg, blank_msg, irc_params_max, numeric_of, Scan, reject, go_on, after_tags, read_tags,
  read_prefix, read_cmd, keep_param, param_at, params_loop, with_params, next_stage, irc_parse,
  take_until, drop_until, step_over, skip_spaces,
}
use mega_irc.Irc.Words.{
  IsWord, Avoids, NotAt, skip_spaces-NotAt, take_until-Avoids, take_until-IsWord,
}
use mega_irc.Irc.Total.{params_loop_total}

-- A middle parameter: a word that does not begin with a colon.
abbrev pub IsParam : Str → Type 0
IsParam w = IsWord w × NotAt b':' w

-- What holds of the parameters kept so far.
abbrev pub Kept : Msg → Type 0
Kept m = All IsParam m.params × (length m.params ≤ irc_params_max)

-- The command is the word from which the number was read. It is empty only if the line begins with
-- a space.
abbrev pub CmdOf : Str → Msg → Type 0
CmdOf line m =
    (w : Str) × (m.cmd ≡ some w)
    × Avoids b' ' w
    × (NotAt b' ' line → w ≢ [])
    × (m.numeric ≡ numeric_of w)

-- A message that `irc_parse` accepts.
pub record IsParsed (line : Str) (m : Msg) : Type 0 where
  pub command : CmdOf line m
  pub kept : Kept m

-- A message that it refuses: no command, parameter or trailing was stored.
pub record IsRefused (m : Msg) : Type 0 where
  pub no_cmd : m.cmd ≡ none
  pub no_params : m.params ≡ []
  pub no_trailing : m.trailing ≡ none

abbrev pub Outcome : Str → Bool → Msg → Type 0
Outcome line true m = IsParsed line m
Outcome line false m = IsRefused m

-- The command and the number are set before the loop, which leaves them.
abbrev SameCmd : Msg → Msg → Type 0
SameCmd m m' = (m'.cmd ≡ m.cmd) × (m'.numeric ≡ m.numeric)

keep_param-Kept : (m : Msg) (w : Str) → Kept m → IsParam w → Kept (keep_param m w)
unfolding keep_param
keep_param-Kept m w k h =
    ground
      (arith, All-append IsParam m.params (w ∷ []) k.0 (h, tt), length-append m.params (w ∷ []))

keep_param-SameCmd : (m : Msg) (w : Str) → SameCmd m (keep_param m w)
unfolding keep_param
keep_param-SameCmd m w = ground arith

take_until-IsParam : (c : ℕ) (p : Str) → c ≢ b' ' → c ≢ b':' → IsParam (take_until b' ' (c ∷ p))
take_until-IsParam c p h k = (take_until-IsWord c p h, unfold take_until in ground arith)

abbrev LoopInv : (Msg → Str → Option Msg) → Type 0
LoopInv again = (m m' : Msg) (p : Str) → Kept m → again m p ≡ some m' → Kept m' × SameCmd m m'

param_at-inv :
    (again : Msg → Str → Option Msg)
    → LoopInv again
    → (m m' : Msg) (p : Str) → NotAt b' ' p
    → Kept m
    → param_at again m p ≡ some m'
    → Kept m' × SameCmd m m'
unfolding param_at
param_at-inv again ih m m' [] n k e = ground arith
param_at-inv again ih m m' (c ∷ p) n k e = elim (Bool-cases (c == b':')) [
  | inl h ↦ ground arith
  | inr h ↦
      let w = take_until b' ' (c ∷ p) in
      let r =
        ih (keep_param m w) m' (step_over (drop_until b' ' (c ∷ p)))
          (keep_param-Kept m w k (take_until-IsParam c p n (λ q. ground arith))) (rw h at e) in
      (r.0, ground (arith, keep_param-SameCmd m w))
]

params_loop-inv : (f : ℕ) → LoopInv (params_loop f)
unfolding params_loop
params_loop-inv zero m m' p k e = cc
params_loop-inv (suc f) m m' [] k e = ground arith
params_loop-inv (suc f) m m' (c ∷ p) k e =
    param_at-inv (params_loop f) (params_loop-inv f) m m' (skip_spaces (c ∷ p))
      (skip_spaces-NotAt (c ∷ p)) k e

-- What the stages before the parameters leave: a refused message, or one with no parameter yet.
abbrev Started : Str → Scan → Type 0
Started line (reject m) = IsRefused m
Started line (go_on m p) = IsRefused m × (NotAt b' ' line → NotAt b' ' p)

abbrev Commanded : Str → Scan → Type 0
Commanded line (reject m) = IsRefused m
Commanded line (go_on m p) = CmdOf line m × (m.params ≡ [])

after_tags-Started : (line : Str) (m : Msg) (p : Str) → IsRefused m → Started line (after_tags m p)
unfolding after_tags
after_tags-Started line m [] r = r
after_tags-Started line m (c ∷ p) r = (r, λ _. skip_spaces-NotAt p)

read_tags-Started : (line : Str) (m : Msg) → IsRefused m → Started line (read_tags m line)
unfolding read_tags
read_tags-Started [] m r = (r, λ h. h)
read_tags-Started (c ∷ p) m r = elim (Bool-cases (c == b'@')) [
  | inl e ↦ rw e (
      after_tags-Started (c ∷ p) _ (drop_until b' ' p)
        (record { no_cmd = r.no_cmd; no_params = r.no_params; no_trailing = r.no_trailing }))
  | inr e ↦ rw e (r, λ h. h)
]

read_prefix-Started :
    (line : Str) (m : Msg) (p : Str) → Started line (go_on m p) → Started line (read_prefix m p)
unfolding read_prefix
read_prefix-Started line m [] s = s
read_prefix-Started line m (c ∷ p) s = elim (Bool-cases (c == b':')) [
  | inl e ↦ rw e (
    record { no_cmd = s.0.no_cmd; no_params = s.0.no_params; no_trailing = s.0.no_trailing },
    λ _. skip_spaces-NotAt _,
  )
  | inr e ↦ rw e s
]

read_cmd-Commanded :
    (line : Str) (m : Msg) (p : Str) → Started line (go_on m p) → Commanded line (read_cmd m p)
unfolding read_cmd
read_cmd-Commanded line m [] s = s.0
read_cmd-Commanded line m (c ∷ p) s = (
  (
    take_until b' ' (c ∷ p),
    refl,
    take_until-Avoids b' ' (c ∷ p),
    λ h. (take_until-IsWord c p (s.1 h)).0,
    refl,
  ),
  s.0.no_params,
)

next_stage-inv :
    (P Q : Scan → Type 0) (f : Msg → Str → Scan) (s : Scan)
    → ((m : Msg) → P (reject m) → Q (reject m))
    → ((m : Msg) (p : Str) → P (go_on m p) → Q (f m p))
    → P s
    → Q (next_stage f s)
unfolding next_stage
next_stage-inv P Q f (reject m) r g h = r m h
next_stage-inv P Q f (go_on m p) r g h = g m p h

pub with_params-go_on :
    (m m' : Msg) (p : Str)
    → params_loop (suc (length p)) m p ≡ some m'
    → with_params (go_on m p) ≡ some (true, m')
unfolding with_params
with_params-go_on m m' p e = rw (e, with_params) refl

with_params-Outcome :
    (line : Str) (s : Scan)
    → Commanded line s
    → (found : Bool) × (m : Msg) × (with_params s ≡ some (found, m)) × Outcome line found m
unfolding with_params
with_params-Outcome line (reject m) r = (false, m, refl, r)
with_params-Outcome line (go_on m p) (cmd, none_yet) =
    let (m', e) = params_loop_total (suc (length p)) m p (omega arith) in
    let kept : Kept m = rw none_yet (tt, omega arith) in
    let inv = params_loop-inv (suc (length p)) m m' p kept e in
    (
      true,
      m',
      with_params-go_on m m' p e,
      record { command = (cmd.0, inv.1.0 ∙ cmd.1, cmd.2, cmd.3, inv.1.1 ∙ cmd.4); kept = inv.0 },
    )

-- `irc_parse` ends on every line. Where it returns 1 the command is set and holds no space, it is
-- not empty unless the line begins with a space, the number is that of the command, and at most
-- eight parameters are kept, each of them a word that does not begin with a colon. Where it returns
-- 0 neither a command nor a parameter nor a trailing is stored.
pub irc_parse_sound :
    (line : Str)
    → (found : Bool) × (m : Msg) × (irc_parse (some line) ≡ some (found, m)) × Outcome line found m
unfolding irc_parse
irc_parse_sound line = with_params-Outcome line _ (
    next_stage-inv (Started line) (Commanded line) read_cmd _ (λ m h. h) (read_cmd-Commanded line)
      (next_stage-inv (Started line) (Started line) read_prefix _ (λ m h. h)
        (read_prefix-Started line)
        (read_tags-Started line blank_msg
          (record { no_cmd = refl; no_params = refl; no_trailing = refl }))))
