-- ===== src/Conn/Net.antt =====
-- src/netutil.c, as src/m65/conn.c sees it: the network, the frame counter and the keyboard.
-- The library behind it is not in the repository and netutil.c is a copy from another project: the
-- network is the sequence of what its polls find, without an end. What a poll does not have read or
-- sent may stand in the next one again.
use mega_irc.Common.{
  ℕ, suc, ◌+◌, ◌-◌, ◌≤◌, ◌<◌, ◌≡◌, arith, min, ◌==◌, inl, inr, Bool-cases, Bool, true, false,
  Option, none, some, [], ◌++◌, Str, length, take, drop,
}

-- What one poll finds: bytes from the server, how many bytes can be sent before the next poll, the
-- frames that have passed, a key or 0, and whether the link is up.
pub record Tick : Type 0 where
  pub arrived : Str
  pub room : ℕ
  pub frames : ℕ
  pub key : ℕ
  pub up : Bool

pub data Socket : Type 0 where
  idle connected closing aborted : Socket

-- `later` is what the polls to come find, and `left` is for how many of them a loop is followed: it is
-- the fuel of every loop. `sent` is every byte that was taken, in order. `refusal` is what a dial that fails is told.
pub record World : Type 0 where
  pub now : Tick
  pub later : ℕ → Tick
  pub left : ℕ
  pub net_frames : ℕ
  pub sent : Str
  pub socket : Socket
  pub refusal : Option Str

abbrev pub net_poll : World → World
net_poll w = record w {
  now = w.later 0;
  later = λ i. w.later (suc i);
  left = w.left - 1;
  net_frames = w.net_frames + (w.later 0).frames;
}

-- The bytes that are read, at most `cap`, and what they leave.
unfoldable pub net_recv : ℕ → World → Str × World
net_recv cap w =
    (take cap w.now.arrived, record w { now = record (w.now) { arrived = drop cap w.now.arrived } })

-- How many bytes are taken, and the network behind them.
unfoldable pub net_send : Str → World → ℕ × World
net_send p w =
    let n = min (length p) w.now.room in
    (n, record w { now = record (w.now) { room = w.now.room - n }; sent = w.sent ++ take n p })

abbrev pub net_alive : World → Bool
net_alive w = w.now.up

-- The key that is waiting is read once.
unfoldable pub ui_key : World → ℕ × World
ui_key w = (w.now.key, record w { now = record (w.now) { key = 0 } })

-- What the dial is told, if it fails, and the socket behind it.
abbrev pub dialled : Option Str → Socket
dialled none = connected
dialled (some err) = aborted

unfoldable pub net_connect : World → Option Str × World
net_connect w = (w.refusal, record w { socket = dialled w.refusal })

abbrev pub net_abort : World → World
net_abort w = record w { socket = aborted }

abbrev pub net_close : World → World
net_close w = record w { socket = closing }

-- Within the polls that are followed the link goes down for good, and nothing arrives any more.
abbrev pub Ends : World → Type 0
Ends w = (i : ℕ) → w.left ≤ i → ((w.later i).up ≡ false) × ((w.later i).arrived ≡ [])

pub Ends-poll : (w : World) → Ends w → Ends (net_poll w)
Ends-poll w e i l = e (suc i) (omega arith)

pub Ends-over : (w : World) → Ends w → w.left ≡ 0 → (w.later 0).up ≡ false
Ends-over w e l = (e 0 (omega arith)).0

pub Ends-nothing : (w : World) → Ends w → w.left ≡ 0 → (w.later 0).arrived ≡ []
Ends-nothing w e l = (e 0 (omega arith)).1

-- Where the link is up behind a poll, it was not the last of them.
pub Ends-up : (w : World) → Ends w → (w.later 0).up ≡ true → w.left - 1 < w.left
Ends-up w e q = elim (Bool-cases (w.left == 0)) [
  | inl z ↦ let d = Ends-over w e (ground arith) in cc (q, d)
  | inr n ↦ ground arith
]
