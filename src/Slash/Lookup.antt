-- ===== src/Slash/Lookup.antt =====
-- src/m65/cmd.c: the tables of the commands.
use mega_irc.Common.{
  ℕ, ◌<◌, Bool, true, false, not, ◌&&◌, ◌||◌, none, some, List, [], ◌∷◌, ◌≡◌, ◌⊎◌, inl, inr, refl,
  arith, Str, ltb, length, get_or, is_some, Bool-cases,
}
use mega_irc.View.{same_ci}
use mega_irc.Slash.{cmd_words, cmd_ids, lookup_in, cmd_lookup, cmd_flags, cmd_verb, has, f_send}

all : (ℕ → Bool) → List ℕ → Bool
all test [] = true
all test (i ∷ ids) = test i && all test ids

-- What is found is one of the numbers, or 0.
lookup_in-all :
    (test : ℕ → Bool) (words : List Str) (ids : List ℕ) (s : Str)
    → test 0 ≡ true
    → all test ids ≡ true
    → test (lookup_in words ids s) ≡ true
unfolding all lookup_in
lookup_in-all test [] ids s z h = z
lookup_in-all test (w ∷ words) [] s z h = z
lookup_in-all test (w ∷ words) (i ∷ ids) s z h = elim (Bool-cases (same_ci (some w) (some s))) [
  | inl e ↦ rw e (ground (arith, h))
  | inr e ↦ rw e (lookup_in-all test words ids s z (ground (arith, h)))
]

-- A number below 25 that has a verb if its line is sent as gathered.
abbrev fits : ℕ → Bool
fits i = ltb i 25 && (not (has (get_or cmd_flags i 0) f_send) || is_some (get_or cmd_verb i none))

all_fit : all fits cmd_ids ≡ true
unfolding all has
all_fit = refl

none_fits : fits 0 ≡ true
unfolding has
none_fits = refl

lookup_fits : (s : Str) → fits (cmd_lookup s) ≡ true
unfolding cmd_lookup
lookup_fits s = lookup_in-all fits cmd_words cmd_ids s none_fits all_fit

-- Whatever word is looked up, the number found is inside both tables, and each command whose line
-- is sent as it was gathered has a verb to send.
cmd_lookup_lem :
    (s : Str)
    → (cmd_lookup s < length cmd_flags)
      × (cmd_lookup s < length cmd_verb)
      × ((has (get_or cmd_flags (cmd_lookup s) 0) f_send ≡ false)
          ⊎ (is_some (get_or cmd_verb (cmd_lookup s) none) ≡ true))
cmd_lookup_lem s =
    let h = lookup_fits s in
    (
      ground (arith, h),
      ground (arith, h),
      elim (Bool-cases (has (get_or cmd_flags (cmd_lookup s) 0) f_send)) [
        | inl e ↦ inr (ground (arith, h, e))
        | inr e ↦ inl e
      ],
    )
