-- ===== src/Policy.antt =====
-- src/tls/policy.c: is the leaf for the host that was dialled, and is every certificate in date.
-- Characters are unsigned, as on the target.
pub mod Time
pub mod Names
pub mod Walk
pub mod Extensions
pub mod Hosts
pub mod Dates
pub mod Verdict
mod Tests
use mega_irc.Common.{
  ℕ, zero, suc, ◌+◌, ◌-◌, ◌%◌, ◌^◌, Bool, true, false, ◌&&◌, ◌||◌, not, Option, none, some, ◌>>=◌,
  ◌>>◌, require, is_some, List, [], ◌∷◌, Str, ltb, leb, ◌==◌, if◌then◌else◌, lower, length, take,
  drop,
}
use mega_irc.Irc.{drop_until}
use mega_irc.Der.{Cert, Elem, der_read, der_elem, der_after, der_tbs_field, der_oid_is}

-- The verdicts of `CHAIN_*` that the policy gives, and the signatures' besides.
pub data ChainStatus : Type 0 where
  ok malformed bad_sig no_anchor bad_name expired unsupported : ChainStatus

abbrev pub tbs_validity : ℕ
tbs_validity = 3

abbrev pub tbs_exts : ℕ
tbs_exts = 6

-- A UTCTime or GeneralizedTime reduced to twelve digits; the century of the latter is dropped.
unfoldable pub time12 : Cert → Elem → Option Str
time12 c d = do
  require (not (ltb 20 d.len))
  let skip = if d.tag == 0x18 then 2 else 0
  require (not (ltb d.len (skip + 12)))
  some (take 12 (drop skip (der_read c d.off d.len)))

-- The three results of `cmp12`.
pub data Sign : Type 0 where
  negative zero_sign positive : Sign

-- The loop over the bytes; past its end a text reads as zeros.
pub cmp_first : ℕ → Str → Str → Sign
cmp_first zero a b = zero_sign
cmp_first (suc n) [] [] = zero_sign
cmp_first (suc n) [] (y ∷ b) = if y == 0 then cmp_first n [] b else negative
cmp_first (suc n) (x ∷ a) [] = if x == 0 then cmp_first n a [] else positive
cmp_first (suc n) (x ∷ a) (y ∷ b) =
    if x == y then cmp_first n a b else if ltb x y then negative else positive

unfoldable pub cmp12 : Str → Str → Sign
unfolding cmp_first
cmp12 a b = cmp_first 12 a b

-- The two ends of the certificate's validity.
unfoldable pub valid_dates : Cert → Option (Str × Str)
valid_dates c = do
  v ← der_tbs_field c tbs_validity
  require (v.tag == 0x30)
  t ← der_elem c v.off (der_after v)
  nb ← time12 c t
  u ← der_elem c (der_after t) (der_after v)
  na ← time12 c u
  some (nb, na)

-- `cmp12(now, nb) >= 0 && cmp12(now, na) <= 0`
abbrev pub not_negative : Sign → Bool
not_negative negative = false
not_negative zero_sign = true
not_negative positive = true

abbrev pub not_positive : Sign → Bool
not_positive negative = true
not_positive zero_sign = true
not_positive positive = false

pub within : Str → Option (Str × Str) → Bool
within now none = false
within now (some (nb, na)) = not_negative (cmp12 now nb) && not_positive (cmp12 now na)

unfoldable pub chain_valid_at : Cert → Str → Bool
unfolding within
chain_valid_at c now = within now (valid_dates c)

-- The loop over the name's bytes; both texts end together.
pub match_bytes : Str → Str → Bool
match_bytes [] [] = true
match_bytes [] (h ∷ host) = false
match_bytes (a ∷ dns) [] = false
match_bytes (a ∷ dns) (b ∷ host) = if lower a == lower b then match_bytes dns host else false

-- Behind the label that the wildcard eats, both are lined up on the dot.
pub match_dot : Str → Str → Bool
unfolding match_bytes
match_dot dns [] = false
match_dot dns (c ∷ host) = match_bytes (b'.' ∷ dns) (c ∷ host)

-- One dNSName against the host, with "*." matching a single label.
unfoldable pub dns_matches : Str → Str → Bool
unfolding match_dot drop_until lower
dns_matches (a ∷ b ∷ dns) host =
    if a == b'*' && b == b'.'
    then match_dot dns (drop_until b'.' host)
    else match_bytes (a ∷ b ∷ dns) host
dns_matches dns host = match_bytes dns host

abbrev pub dns_cap : ℕ
dns_cap = 128

abbrev pub oid_san : Str
oid_san = 0x55 ∷ 0x1d ∷ 0x11 ∷ []

-- Is this GeneralName a dNSName that fits the buffer and covers the host?
pub is_hit : Cert → Str → Elem → Bool
is_hit c host o =
    o.tag == 0x82 && ltb 0 o.len && leb o.len dns_cap && dns_matches (der_read c o.off o.len) host

-- A walk that fails is `return 0`.
pub or_refuse : (Elem → Option Bool) → Option Elem → Option Bool
or_refuse f none = some false
or_refuse f (some o) = f o

-- The loop over the names, on fuel; `none` means that the fuel ran out.
pub name_round : Cert → Str → (ℕ → Option Bool) → Elem → Option Bool
name_round c host next o = elim (is_hit c host o) [ true ↦ some true | false ↦ next (der_after o) ]

pub names_loop : Cert → Str → ℕ → ℕ → ℕ → Option Bool
unfolding name_round or_refuse is_hit
names_loop c host pend zero p = none
names_loop c host pend (suc f) p =
    if ltb p pend
    then or_refuse (name_round c host (names_loop c host pend f)) (der_elem c p pend)
    else some false

-- The names of a SAN extension, behind its OID `o`: perhaps a critical BOOLEAN, then the OCTET
-- STRING with the SEQUENCE OF GeneralName.
pub san_names : Cert → ℕ → Elem → Option Elem
san_names c xend o = do
  v ← der_elem c (der_after o) xend
  w ← (if v.tag == 0x01 then der_elem c (der_after v) xend else some v)
  require (w.tag == 0x04)
  x ← der_elem c w.off (der_after w)
  require (x.tag == 0x30)
  some x

-- One extension and its OID.
pub ext_oid : Cert → ℕ → ℕ → Option (Elem × Elem)
ext_oid c p pend = do
  x ← der_elem c p pend
  require (x.tag == 0x30)
  o ← der_elem c x.off (der_after x)
  some (x, o)

pub ext_round : Cert → Str → (ℕ → Option Bool) → Option (Elem × Elem) → Option Bool
ext_round c host next none = some false
ext_round c host next (some (x, o)) = elim (der_oid_is c o oid_san 3) [
  | false ↦ next (der_after x)
  | true ↦
      or_refuse (λ s. names_loop c host (der_after s) (suc (der_after s)) s.off)
        (san_names c (der_after x) o)
]

-- The loop over the extensions, on fuel.
pub exts_loop : Cert → Str → ℕ → ℕ → ℕ → Option Bool
unfolding ext_round ext_oid san_names names_loop
exts_loop c host pend zero p = none
exts_loop c host pend (suc f) p =
    if ltb p pend then ext_round c host (exts_loop c host pend f) (ext_oid c p pend) else some false

-- The sequence of the extensions.
pub extensions : Cert → Option Elem
extensions c = do
  e ← der_tbs_field c tbs_exts
  require (e.tag == 0xa3)
  x ← der_elem c e.off (der_after e)
  require (x.tag == 0x30)
  some x

unfoldable pub chain_host_matches : Cert → Str → Option Bool
unfolding exts_loop extensions or_refuse
chain_host_matches c host =
    or_refuse (λ x. exts_loop c host (der_after x) (suc (der_after x)) x.off) (extensions c)

-- Every certificate's dates.
pub all_valid : List Cert → Str → ChainStatus
all_valid [] now = ok
all_valid (c ∷ cs) now = if chain_valid_at c now then all_valid cs now else expired

check_dates : List Cert → Option Str → ChainStatus
unfolding all_valid
check_dates certs none = ok
check_dates certs (some now) = all_valid certs now

-- The leaf's name and every certificate's dates; either check is left out where its argument is
-- null.
unfoldable pub chain_policy : List Cert → Option Str → Option Str → Option ChainStatus
unfolding check_dates
chain_policy [] host now = some malformed
chain_policy (c ∷ cs) none now = some (check_dates (c ∷ cs) now)
chain_policy (c ∷ cs) (some host) now = do
  named ← chain_host_matches c host
  some (if named then check_dates (c ∷ cs) now else bad_name)
