-- ===== src/Irc.antt =====
-- src/irc.c: the IRC line protocol.
-- `irc_parse` splits a line in place: it overwrites separators by NULs and keeps pointers to the
-- pieces. Each piece ends at such a NUL or at the line's own, and the pieces do not overlap, so a
-- pointer field stands here for the string that it reads as when the function returns.
pub mod Words
pub mod Total
pub mod Sound
pub mod Written
pub mod RoundTrip
pub mod Command
pub mod Ctcp
mod Tests
use mega_irc.Common.{
  ℕ, zero, suc, ◌+◌, ◌-◌, ◌*◌, ◌%◌, ◌^◌, Bool, true, false, not, ◌&&◌, ◌||◌, Option, none, some,
  List, [], ◌∷◌, ◌++◌, Str, ltb, leb, ◌==◌, if◌then◌else◌, length,
}

abbrev pub irc_params_max : ℕ
irc_params_max = 8

-- `irc_msg`. `params` holds the first `nparams` entries of the array; the others are null.
pub record Msg : Type 0 where
  pub tags : Option Str
  pub prefix : Option Str
  pub host : Option Str
  pub cmd : Option Str
  pub params : List Str
  pub trailing : Option Str
  pub numeric : ℕ

abbrev pub blank_msg : Msg
blank_msg = record {
  tags = none;
  prefix = none;
  host = none;
  cmd = none;
  params = [];
  trailing = none;
  numeric = 0;
}

-- `while (*p && *p != stop) p++`: what is passed over, and where `p` then stands.
unfoldable pub take_until : ℕ → Str → Str
take_until stop [] = []
take_until stop (c ∷ p) = if c == stop then [] else c ∷ take_until stop p

unfoldable pub drop_until : ℕ → Str → Str
drop_until stop [] = []
drop_until stop (c ∷ p) = if c == stop then c ∷ p else drop_until stop p

-- `if (*p) *p++ = 0`
unfoldable pub step_over : Str → Str
step_over [] = []
step_over (c ∷ p) = p

-- `while (*p == ' ') p++`
unfoldable pub skip_spaces : Str → Str
skip_spaces [] = []
skip_spaces (c ∷ p) = if c == b' ' then skip_spaces p else c ∷ p

abbrev digit : ℕ → Bool
digit c = leb b'0' c && leb c b'9'

-- Three digits and nothing else is a numeric reply.
pub numeric_of : Str → ℕ
numeric_of (a ∷ b ∷ c ∷ []) =
    if digit a && digit b && digit c
    then ((a - b'0') * 100 + (b - b'0') * 10 + (c - b'0')) % 2 ^ 16
    else 0
numeric_of _ = 0

-- How a stage of the scan ends: `return 0`, or on with what is left of the line.
pub data Scan : Type 0 where
  reject : Msg → Scan
  go_on : Msg → Str → Scan

-- What follows the tags; without a space behind them there is nothing.
pub after_tags : Msg → Str → Scan
after_tags m [] = reject m
after_tags m (c ∷ p) = go_on m (skip_spaces p)

-- IRCv3 message tags are stepped over.
pub read_tags : Msg → Str → Scan
unfolding after_tags
read_tags m [] = go_on m []
read_tags m (c ∷ p) =
    if c == b'@'
    then after_tags (record m { tags = some (take_until b' ' p) }) (drop_until b' ' p)
    else go_on m (c ∷ p)

-- The prefix is cut at its first '!'; what follows that is the host.
pub host_of : Str → Option Str
host_of [] = none
host_of (c ∷ h) = some h

pub read_prefix : Msg → Str → Scan
unfolding host_of
read_prefix m [] = go_on m []
read_prefix m (c ∷ p) =
    if c == b':'
    then (let word = take_until b' ' p in
        go_on
          (record m { prefix = some (take_until b'!' word); host = host_of (drop_until b'!' word) })
          (skip_spaces (step_over (drop_until b' ' p))))
    else go_on m (c ∷ p)

pub read_cmd : Msg → Str → Scan
read_cmd m [] = reject m
read_cmd m (c ∷ p) =
    let word = take_until b' ' (c ∷ p) in
    go_on (record m { cmd = some word; numeric = numeric_of word })
      (step_over (drop_until b' ' (c ∷ p)))

-- Past `irc_params_max` a parameter is walked but not kept.
pub keep_param : Msg → Str → Msg
keep_param m w =
    if ltb (length m.params) irc_params_max then record m { params = m.params ++ w ∷ [] } else m

-- One round of the parameter loop behind its spaces; `again` is the next round.
pub param_at : (Msg → Str → Option Msg) → Msg → Str → Option Msg
param_at again m [] = some m
param_at again m (c ∷ p) =
    if c == b':'
    then some (record m { trailing = some p })
    else again (keep_param m (take_until b' ' (c ∷ p))) (step_over (drop_until b' ' (c ∷ p)))

-- The parameter loop on fuel; `none` means that the fuel ran out.
pub params_loop : ℕ → Msg → Str → Option Msg
unfolding param_at
params_loop zero m p = none
params_loop (suc f) m [] = some m
params_loop (suc f) m (c ∷ p) = param_at (params_loop f) m (skip_spaces (c ∷ p))

-- The stages in their order. A `false` stands for `return 0`; the message is what `*m` then holds.
pub with_params : Scan → Option (Bool × Msg)
unfolding params_loop
with_params (reject m) = some (false, m)
with_params (go_on m p) = elim (params_loop (suc (length p)) m p) [
  | none ↦ none
  | some m' ↦ some (true, m')
]

pub next_stage : (Msg → Str → Scan) → Scan → Scan
next_stage f (reject m) = reject m
next_stage f (go_on m p) = f m p

unfoldable pub irc_parse : Option Str → Option (Bool × Msg)
unfolding read_tags read_prefix read_cmd with_params next_stage take_until drop_until skip_spaces
    step_over numeric_of keep_param
irc_parse none = some (false, blank_msg)
irc_parse (some p) =
    with_params (next_stage read_cmd (next_stage read_prefix (read_tags blank_msg p)))

-- `while (*a && *name && *a == *name)`, then both at their end.
unfoldable pub same_text : Str → Str → Bool
same_text [] [] = true
same_text (x ∷ a) (y ∷ b) = if x == y then same_text a b else false
same_text _ _ = false

-- Is the command exactly `name`?
unfoldable pub irc_is : Msg → Str → Bool
unfolding same_text
irc_is m name = elim m.cmd [ none ↦ false | some a ↦ same_text a name ]

-- The loop over a CTCP tag: what is written to the buffer of `tagcap` bytes, and where `p` then stands.
pub ctcp_tag : ℕ → Str → Str → Str × Str
ctcp_tag tagcap tag [] = (tag, [])
ctcp_tag tagcap tag (c ∷ p) =
    if c == 1 || c == b' '
    then (tag, c ∷ p)
    else ctcp_tag tagcap (if ltb ((length tag + 1) % 2 ^ 8) tagcap then tag ++ c ∷ [] else tag) p

-- `if (*p == ' ') p++`
pub step_space : Str → Str
step_space [] = []
step_space (c ∷ p) = if c == b' ' then p else c ∷ p

-- What `irc_ctcp` leaves: its result, the message, and the tag buffer if it was written.
pub record CtcpResult : Type 0 where
  pub found : Bool
  pub msg : Msg
  pub tag : Option Str

pub ctcp_finish : Msg → Str × Str → CtcpResult
ctcp_finish m ([], p) = record { found = false; msg = m; tag = some [] }
ctcp_finish m (c ∷ t, p) = record {
  found = true;
  msg = record m { trailing = some (take_until 1 (step_space p)) };
  tag = some (c ∷ t);
}

pub ctcp_body : ℕ → Msg → Str → CtcpResult
unfolding ctcp_finish
ctcp_body tagcap m [] = record { found = false; msg = m; tag = none }
ctcp_body tagcap m (c ∷ p) =
    if not (c == 1) || tagcap == 0
    then record { found = false; msg = m; tag = none }
    else ctcp_finish m (ctcp_tag tagcap [] p)

pub ctcp_on : ℕ → Msg → Option Str → CtcpResult
unfolding ctcp_body
ctcp_on tagcap m none = record { found = false; msg = m; tag = none }
ctcp_on tagcap m (some t) = ctcp_body tagcap m t

unfoldable pub irc_ctcp : Msg → ℕ → CtcpResult
unfolding ctcp_on ctcp_tag step_space take_until
irc_ctcp m tagcap = ctcp_on tagcap m m.trailing
