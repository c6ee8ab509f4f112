-- ===== src/Irc/Total.antt =====
-- src/irc.c: the parameter loop ends within the fuel that `irc_parse` gives it.
use mega_irc.Common.{
  ℕ, zero, suc, ◌≤◌, ◌<◌, Option, some, [], ◌∷◌, ◌≡◌, inl, inr, refl, arith, Str, ◌==◌, length,
  Bool-cases,
}
use mega_irc.Irc.{
  Msg, keep_param, param_at, params_loop, take_until, drop_until, step_over, skip_spaces,
}
use mega_irc.Irc.Words.{length-step_over, length-skip_spaces}

abbrev Ends : ℕ → (Msg → Str → Option Msg) → Type 0
Ends k again = (m : Msg) (p : Str) → length p < k → (m' : Msg) × (again m p ≡ some m')

param_at_total :
    (k : ℕ) (again : Msg → Str → Option Msg)
    → Ends k again
    → (m : Msg) (p : Str) → length p ≤ k
    → (m' : Msg) × (param_at again m p ≡ some m')
unfolding param_at
param_at_total k again ih m [] h = (m, refl)
param_at_total k again ih m (c ∷ p) h = elim (Bool-cases (c == b':')) [
  | inl e ↦ (record m { trailing = some p }, rw e refl)
  | inr e ↦ rw e (
      ih (keep_param m (take_until b' ' (c ∷ p))) (step_over (drop_until b' ' (c ∷ p)))
        (omega (arith, length-step_over b' ' c p)))
]

pub params_loop_total : (f : ℕ) → Ends f (params_loop f)
unfolding params_loop
params_loop_total zero m p h = absurd (omega arith)
params_loop_total (suc f) m [] h = (m, refl)
params_loop_total (suc f) m (c ∷ p) h =
    param_at_total f (params_loop f) (params_loop_total f) m (skip_spaces (c ∷ p))
      (omega (arith, length-skip_spaces (c ∷ p)))
