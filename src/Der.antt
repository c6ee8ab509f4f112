-- ===== src/Der.antt =====
-- src/tls/der.c: the walk over one certificate.
-- The certificate is read through a callback, `byte` here; `len` is its length, and `stale` is what
-- the header's buffer holds where the callback was not asked to write.
pub mod Exact
pub mod Split
pub mod Bounds
pub mod Oid
pub mod Sample
mod Tests
use mega_irc.Common.{
  ℕ, zero, suc, ◌+◌, ◌-◌, ◌*◌, ◌%◌, ◌^◌, Bool, true, false, ◌&&◌, ◌||◌, not, Option, none, some,
  ◌>>=◌, ◌>>◌, require, List, [], ◌∷◌, Str, ltb, leb, ◌==◌, if◌then◌else◌, length,
}

pub record Cert : Type 0 where
  pub byte : ℕ → ℕ
  pub len : ℕ
  pub stale : ℕ → ℕ

-- `der`: an element's tag, and where its content stands.
pub record Elem : Type 0 where
  pub tag : ℕ
  pub off : ℕ
  pub len : ℕ

-- `der_read`
abbrev pub der_read : Cert → ℕ → ℕ → Str
der_read c off zero = []
der_read c off (suc n) = c.byte off ∷ der_read c (off + 1) n

-- The four bytes of `h`: as many as the range holds are read. (Where `int` has 16 bits `at + 4` wraps
-- from 65532 on.)
pub header : Cert → ℕ → ℕ → ℕ → ℕ
header c at end i =
    let n = if leb (at + 4) end then 4 else end - at in
    if ltb i n then c.byte (at + i) else c.stale i

pub fits : ℕ → ℕ → ℕ → ℕ → Option Elem
fits end tag at n =
    if ltb end at || ltb (end - at) n then none else some (record { tag = tag; off = at; len = n })

-- What the header says, once it is read; offsets and lengths are 16 bits wide.
pub spelled : ℕ → ℕ → (ℕ → ℕ) → Option Elem
unfolding fits
spelled at end h =
    if ltb (h 1) 0x80
    then fits end (h 0) ((at + 2) % 2 ^ 16) (h 1)
    else if h 1 == 0x81
    then fits end (h 0) ((at + 3) % 2 ^ 16) (h 2)
    else if h 1 == 0x82
    then fits end (h 0) ((at + 4) % 2 ^ 16) ((h 2 * 256 + h 3) % 2 ^ 16)
    else none

unfoldable pub der_elem : Cert → ℕ → ℕ → Option Elem
unfolding spelled header
der_elem c at end = if ltb end 2 || ltb (end - 2) at then none else spelled at end (header c at end)

unfoldable pub der_after : Elem → ℕ
der_after d = (d.off + d.len) % 2 ^ 16

-- The certificate's sequence and the one inside it, the TBSCertificate.
unfoldable pub der_tbs : Cert → Option (Elem × Elem)
der_tbs c = do
  e ← der_elem c 0 c.len
  require (e.tag == 0x30)
  t ← der_elem c e.off (der_after e)
  require (t.tag == 0x30)
  some (e, t)

-- The loop over the fields; the count is of the fields still to be passed.
pub tbs_walk : Cert → ℕ → ℕ → ℕ → Option Elem
tbs_walk c end zero off = do require (ltb off end); der_elem c off end
tbs_walk c end (suc k) off = do
  require (ltb off end)
  f ← der_elem c off end
  tbs_walk c end k (der_after f)

unfoldable pub der_tbs_field : Cert → ℕ → Option Elem
unfolding tbs_walk
der_tbs_field c want = do
  (e, t) ← der_tbs c
  f ← der_elem c t.off (der_after t)
  tbs_walk c (der_after t) want (if f.tag == 0xa0 then der_after f else t.off)

-- The pieces of the store, each an offset and a length. The count is of the pieces still allowed.
pub split_at : (ℕ → List (ℕ × ℕ)) → ℕ → Option Elem → List (ℕ × ℕ)
split_at next at none = []
split_at next at (some d) =
    if d.tag == 0x30 then (at, (der_after d + 2 ^ 16 - at) % 2 ^ 16) ∷ next (der_after d) else []

pub split_from : Cert → ℕ → ℕ → List (ℕ × ℕ)
unfolding split_at
split_from c zero at = []
split_from c (suc k) at =
    if ltb at c.len then split_at (split_from c k) at (der_elem c at c.len) else []

unfoldable pub chain_split : Cert → ℕ → List (ℕ × ℕ)
unfolding split_from
chain_split c max = split_from c max 0

-- Do the bytes begin with the wanted ones?
begins : Str → Str → Bool
begins [] buf = true
begins (x ∷ want) [] = false
begins (x ∷ want) (y ∷ buf) = if y == x then begins want buf else false

-- An OID of `len` bytes that begins with `want`.
unfoldable pub der_oid_is : Cert → Elem → Str → ℕ → Bool
unfolding begins
der_oid_is c o want len =
    if not (o.tag == 0x06) || not (o.len == len) then false else begins want (der_read c o.off len)
