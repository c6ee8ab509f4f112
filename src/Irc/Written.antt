-- ===== src/Irc/Written.antt =====
-- src/irc.c: lines in the protocol's grammar, and how the loop reads their parameters.
use mega_irc.Common.{
  ℕ, zero, suc, ◌≤◌, ◌<◌, Option, none, some, List, [], ◌∷◌, ◌++◌, ◌≡◌, ◌∙◌, inl, inr, refl, sym,
  ap, arith, fill, fill-nil, fill_room, fill_full, Str, All, if◌then◌else◌, length, length-append,
  Bool-cases, ltb, take,
}
use mega_irc.Irc.{
  Msg, irc_params_max, numeric_of, keep_param, param_at, params_loop, take_until, drop_until,
  step_over, skip_spaces,
}
use mega_irc.Irc.Words.{
  Avoids, AtBreak, NotAt, take_until-append, drop_until-append, skip_spaces_none,
}
use mega_irc.Irc.Sound.{IsParam}

-- A word of four bytes or more is no number.
pub numeric_of-long : (a b c d : ℕ) (w : Str) → numeric_of (a ∷ b ∷ c ∷ d ∷ w) ≡ 0
unfolding numeric_of
numeric_of-long a b c d w = refl

-- The parts of a line before it is written out.
pub record Line : Type 0 where
  pub tags : Option Str
  pub nick : Option Str
  pub host : Option Str
  pub command : Str
  pub middle : List Str
  pub trailing : Option Str

-- A space, then the words each behind a space, then the trailing behind " :".
abbrev pub write_trailing : Option Str → Str
write_trailing none = []
write_trailing (some t) = b' ' ∷ b':' ∷ t

abbrev pub write_params : List Str → Option Str → Str
write_params [] t = write_trailing t
write_params (w ∷ ws) t = b' ' ∷ (w ++ write_params ws t)

abbrev pub write_tags : Option Str → Str → Str
write_tags none rest = rest
write_tags (some t) rest = b'@' ∷ (t ++ (b' ' ∷ rest))

abbrev pub write_host : Option Str → Str
write_host none = []
write_host (some h) = b'!' ∷ h

abbrev pub write_prefix : Option Str → Option Str → Str → Str
write_prefix none h rest = rest
write_prefix (some n) h rest = b':' ∷ ((n ++ write_host h) ++ (b' ' ∷ rest))

abbrev pub write_line : Line → Str
write_line l =
    write_tags l.tags (write_prefix l.nick l.host (l.command ++ write_params l.middle l.trailing))

abbrev pub AvoidsOpt : ℕ → Option Str → Type 0
AvoidsOpt c none = Unit {0}
AvoidsOpt c (some w) = Avoids c w

-- A host is written only behind a nick.
abbrev pub HostNeedsNick : Option Str → Option Str → Type 0
HostNeedsNick none h = h ≡ none
HostNeedsNick (some n) h = Unit {0}

-- What the protocol's grammar asks of the parts.
pub record IsWritable (l : Line) : Type 0 where
  pub tags_word : AvoidsOpt b' ' l.tags
  pub nick_word : AvoidsOpt b' ' l.nick
  pub nick_plain : AvoidsOpt b'!' l.nick
  pub host_word : AvoidsOpt b' ' l.host
  pub host_behind : HostNeedsNick l.nick l.host
  pub command_word : IsParam l.command
  pub command_at : NotAt b'@' l.command
  pub middle_params : All IsParam l.middle

-- The message that the line stands for: of the parameters, the first eight.
abbrev pub msg_of : Line → Msg
msg_of l = record {
  tags = l.tags;
  prefix = l.nick;
  host = l.host;
  cmd = some l.command;
  params = take irc_params_max l.middle;
  trailing = l.trailing;
  numeric = numeric_of l.command;
}

pub write_params-AtBreak : (ws : List Str) (t : Option Str) → AtBreak b' ' (write_params ws t)
write_params-AtBreak [] none = tt
write_params-AtBreak [] (some t) = refl
write_params-AtBreak (w ∷ ws) t = refl

-- The parameters that are kept, one at a time.
pub keep_all : List Str → List Str → List Str
keep_all kept [] = kept
keep_all kept (w ∷ ws) =
    keep_all (if ltb (length kept) irc_params_max then kept ++ w ∷ [] else kept) ws

pub keep_all-fill :
    (ws kept : List Str)
    → length kept ≤ irc_params_max
    → keep_all kept ws ≡ fill irc_params_max kept ws
unfolding keep_all
keep_all-fill [] kept h = sym (fill-nil irc_params_max kept)
keep_all-fill (w ∷ ws) kept h = elim (Bool-cases (ltb (length kept) irc_params_max)) [
  | inl e ↦ rw e (
      keep_all-fill ws (kept ++ w ∷ []) (ground (arith, length-append kept (w ∷ [])))
      ∙ fill_room irc_params_max kept w ws (ground arith))
  | inr e ↦ rw e (
      keep_all-fill ws kept h
      ∙ fill_full irc_params_max kept ws (ground arith)
      ∙ sym (fill_full irc_params_max kept (w ∷ ws) (ground arith)))
]

-- A word is read up to the space behind it.
pub read_word :
    (c : ℕ) (w p : Str)
    → Avoids b' ' (c ∷ w)
    → AtBreak b' ' p
    → (take_until b' ' ((c ∷ w) ++ p) ≡ c ∷ w) × (drop_until b' ' ((c ∷ w) ++ p) ≡ p)
read_word c w p a h = (take_until-append b' ' (c ∷ w) p a h, drop_until-append b' ' (c ∷ w) p a h)

param_at-word :
    (again : Msg → Str → Option Msg) (m : Msg) (w p : Str)
    → IsParam w
    → AtBreak b' ' p
    → param_at again m (skip_spaces (w ++ p)) ≡ again (keep_param m w) (step_over p)
unfolding param_at
param_at-word again m [] p h b = absurd (h.0.0 refl)
param_at-word again m (c ∷ w) p h b =
    rw (skip_spaces_none ((c ∷ w) ++ p) h.0.1.0)
      (let (t, d) = read_word c w p h.0.1 b in ground arith)

keep_param-keep_all :
    (m : Msg) (w : Str) (ws : List Str) (t : Option Str)
    → let m' = keep_param m w in
      record m' { params = keep_all m'.params ws; trailing = t }
      ≡ record m { params = keep_all m.params (w ∷ ws); trailing = t }
unfolding keep_param keep_all
keep_param-keep_all m w ws t = elim (Bool-cases (ltb (length m.params) irc_params_max)) [
  | inl e ↦ rw e refl
  | inr e ↦ rw e refl
]

keep_param-trailing : (m : Msg) (w : Str) → (keep_param m w).trailing ≡ m.trailing
unfolding keep_param
keep_param-trailing m w = ground arith

pub length-step : (p : Str) → length (step_over p) ≤ length p
unfolding step_over
length-step [] = omega arith
length-step (c ∷ p) = omega arith

length-write_params :
    (c : ℕ) (w : Str) (ws : List Str) (t : Option Str)
    → length (step_over (write_params ws t)) < length ((c ∷ w) ++ write_params ws t)
length-write_params c w ws t =
    omega (arith, length-step (write_params ws t), length-append w (write_params ws t))

-- The loop reads the written parameters and the trailing.
pub params_loop-write :
    (ws : List Str) (t : Option Str) (f : ℕ) (m : Msg)
    → All IsParam ws
    → m.trailing ≡ none
    → length (step_over (write_params ws t)) < f
    → params_loop f m (step_over (write_params ws t))
      ≡ some (record m { params = keep_all m.params ws; trailing = t })
unfolding params_loop keep_all step_over
params_loop-write ws t zero m a e h = absurd (omega arith)
params_loop-write [] none (suc f) m a e h = ground arith
params_loop-write [] (some t) (suc f) m a e h = unfold skip_spaces param_at in refl
params_loop-write ([] ∷ ws) t (suc f) m a e h = absurd (a.0.0.0 refl)
params_loop-write ((c ∷ w) ∷ ws) t (suc f) m a e h =
    param_at-word (params_loop f) m (c ∷ w) (write_params ws t) a.0 (write_params-AtBreak ws t)
    ∙ params_loop-write ws t f (keep_param m (c ∷ w)) a.1 (keep_param-trailing m (c ∷ w) ∙ e)
        (omega (arith, length-write_params c w ws t))
    ∙ ap some (keep_param-keep_all m (c ∷ w) ws t)
