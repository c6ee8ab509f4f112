-- ===== src/Bank.antt =====
-- src/bank/api.c, src/bank/chain_api.c: the store of the server's certificates in far memory, and
-- the whole chain check over it. The DMA copies bytes; the call block in which the client hands
-- over its arguments is not here, they are plain arguments.
pub mod Store
pub mod Reader
pub mod Check
mod Tests
use mega_irc.Common.{
  ℕ, zero, suc, ◌+◌, ◌-◌, ◌%◌, ◌^◌, min, Bool, true, false, Option, none, some, ◌>>=◌, List, [],
  ◌∷◌, ◌++◌, map, Str, ltb, leb, ◌==◌, if◌then◌else◌, length, get_or, take, replicate,
}
use mega_irc.Der.{Cert, chain_split}
use mega_irc.Policy.{
  ChainStatus, ok, malformed, bad_sig, no_anchor, bad_name, expired, unsupported, chain_policy,
}
use mega_irc.Chain.{Kit, chain_verify}

abbrev pub cert_cap : ℕ
cert_cap = 0x1700

-- The store: its bytes, as many as `cert_len` says.
unfoldable pub ck_api_cert_reset : Str
ck_api_cert_reset = []

-- The certificates' bytes behind those that are there, up to the cap.
unfoldable pub ck_api_cert_append : Str → Str → Str
ck_api_cert_append store p =
    let n =
      if ltb cert_cap (length store + length p)
      then (cert_cap + 2 ^ 16 - length store) % 2 ^ 16
      else length p in
    if n == 0 then store else store ++ take n p

-- The bytes of far memory.
pub far_bytes : Str → ℕ → ℕ → Str
far_bytes store off zero = []
far_bytes store off (suc n) = get_or store off 0 ∷ far_bytes store (off + 1) n

-- The loop over pieces of 64 bytes, on fuel; past the store's end the rest is zeros.
pub read_pieces : Str → ℕ → ℕ → ℕ → Str
unfolding far_bytes
read_pieces store zero off n = []
read_pieces store (suc f) off n =
    let m = min n 64 in
    let k = if ltb (length store) (off + m) then (length store + 2 ^ 16 - off) % 2 ^ 16 else m in
    let rest = far_bytes store off k ++ read_pieces store f ((off + k) % 2 ^ 16) (n - k) in
    if n == 0 then [] else if leb (length store) off then replicate n 0 else rest

-- `n` bytes at `off` of the certificate that begins at `base`. A round reads a byte at least.
unfoldable pub ck_cert_read : Str → ℕ → ℕ → ℕ → Str
unfolding read_pieces
ck_cert_read store base off n = read_pieces store n ((off + base) % 2 ^ 16) n

-- A certificate of the store, as the walkers see it through the reader. `stale` is what their buffer
-- holds where nothing is read.
unfoldable pub cert_at : Str → (ℕ → ℕ) → ℕ × ℕ → Cert
cert_at store stale (base, len) = record {
  byte = λ i. get_or store ((i + base) % 2 ^ 16) 0;
  len = len;
  stale = stale;
}

abbrev pub chain_max : ℕ
chain_max = 5

-- Every certificate of the store, at most five.
unfoldable pub store_refs : Str → (ℕ → ℕ) → List Cert
unfolding cert_at
store_refs store stale =
    map (cert_at store stale) (chain_split (cert_at store stale (0, length store)) chain_max)

module _ (k : Kit) where
  -- The arithmetic comes last, and only if the policy has passed the chain.
  pub on_policy : List Cert → ChainStatus → Option ChainStatus
  on_policy refs ok = chain_verify k refs
  on_policy refs malformed = some malformed
  on_policy refs bad_sig = some bad_sig
  on_policy refs no_anchor = some no_anchor
  on_policy refs bad_name = some bad_name
  on_policy refs expired = some expired
  on_policy refs unsupported = some unsupported

  -- The verdict, and how many certificates the store holds.
  unfoldable pub ck_chain_run : Str → (ℕ → ℕ) → Option Str → Option Str → Option (ChainStatus × ℕ)
  unfolding store_refs on_policy
  ck_chain_run store stale host now = do
    let refs = store_refs store stale
    r ← chain_policy refs host now
    s ← on_policy refs r
    some (s, length refs)

  -- The strings are copied into buffers of 64 and 13 bytes, the last of them a NUL.
  pub cut : ℕ → Option Str → Option Str
  cut n none = none
  cut n (some s) = some (take n s)

  unfoldable pub ck_api_chain : Str → (ℕ → ℕ) → Option Str → Option Str → Option (ChainStatus × ℕ)
  unfolding ck_chain_run cut
  ck_api_chain store stale host now = ck_chain_run store stale (cut 63 host) (cut 12 now)
