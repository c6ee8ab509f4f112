-- ===== src/Conn.antt =====
-- src/m65/conn.c: one connection to the server, plain or over TLS.
-- The TLS engine (tls/tls.c and its kit) is a copy from another project: what conn.c calls of it are
-- the fields of `Engine`. The buffers `in` and `out` and `fail_text` are values; stirring the random
-- pool is left out.
pub mod Net
pub mod Run
pub mod Push
pub mod Plain
pub mod Pump
pub mod Ways
pub mod Opened
pub mod Waits
mod Tests
use mega_irc.Common.{
  ℕ, zero, suc, ◌+◌, ◌-◌, ◌%◌, ◌^◌, Bool, true, false, ◌&&◌, ◌||◌, not, Option, none, some, ◌>>=◌,
  List, [], ◌∷◌, ◌++◌, Str, codes, ltb, leb, ◌==◌, if◌then◌else◌, length, take, drop,
}
use mega_irc.Ui.{Writer, key_stop, ui_cat, ui_cat_num}
use mega_irc.Policy.{ChainStatus, ok, malformed, bad_sig, no_anchor, bad_name, expired, unsupported}
use mega_irc.Conn.Net.{
  World, net_poll, net_recv, net_send, net_alive, ui_key, net_connect, net_abort, net_close,
}

-- `TLS_*`
pub data TlsState : Type 0 where
  tls_idle wait_sh wait_hs tls_connected tls_closed tls_failed verifying : TlsState

abbrev pub is_failed : TlsState → Bool
is_failed tls_failed = true
is_failed _ = false

pub record Engine : Type 1 where
  pub T : Type 0
  pub tls_start : Str → Option T
  pub tls_in : Str → T → T
  pub tls_data : Str → T → List Str
  pub tls_out : T → Str
  pub tls_out_consumed : ℕ → T → T
  pub tls_state : T → TlsState
  pub tls_error : T → ℕ
  pub tls_error_text : T → Str
  pub tls_error_line : T → ℕ
  pub tls_rec_index : T → ℕ
  pub tk_verify_reason : T → ℕ
  pub tls_verify : T → T
  pub tls_write : Str → T → Option T
  pub tls_close : T → T
  pub tk_chain : T → Str → Option Str → ChainStatus × ℕ
  pub tk_frames : T → ℕ

abbrev pub tls_e_alert : ℕ
tls_e_alert = 3

abbrev pub tls_e_tag : ℕ
tls_e_tag = 6

abbrev pub tls_e_signature : ℕ
tls_e_signature = 9

abbrev pub first_byte_frames : ℕ
first_byte_frames = 1500

abbrev pub in_cap : ℕ
in_cap = 256

-- The engine and the network, and what conn.h shows of them. `conn_chain` is `none` for 255, where
-- the chain was never reached. `status` is the text for the status row, and `delivered` is what was
-- handed to `conn_on_data`.
pub record Conn (E : Engine) : Type 0 where
  pub tls_on : Bool
  pub t : E.T
  pub world : World
  pub fail_why : Option Str
  pub conn_chain : Option ChainStatus
  pub conn_secs : ℕ
  pub conn_certs : ℕ
  pub conn_retry : Bool
  pub conn_cancelled : Bool
  pub status : Str
  pub delivered : List Str

unfoldable pub chain_word : ChainStatus → Str
chain_word malformed = codes "a certificate could not be read"
chain_word bad_sig = codes "a certificate's signature is WRONG"
chain_word no_anchor = codes "no carried root signs this chain"
chain_word bad_name = codes "the certificate is not for this host"
chain_word expired = codes "a certificate is out of date (or the clock is)"
chain_word unsupported = codes "an ECDSA chain, which this client cannot check"
chain_word ok = codes "the chain could not be checked"

-- `while (frames >= 50) { frames -= 50; conn_secs++; }`, on fuel.
pub count_secs : ℕ → ℕ → ℕ → ℕ
count_secs zero frames secs = secs
count_secs (suc f) frames secs =
    let rest = count_secs f (frames - 50) ((secs + 1) % 2 ^ 16) in
    if leb 50 frames then rest else secs

module _ (E : Engine) where
  open E use {
    T, tls_start, tls_in, tls_data, tls_out, tls_out_consumed, tls_state, tls_error, tls_error_text,
    tls_error_line, tls_rec_index, tk_verify_reason, tls_verify, tls_write, tls_close, tk_chain,
    tk_frames,
  }

  pub tls_fail : T → Str
  tls_fail t =
      let p = ui_cat (record { text = []; room = 56 }) (some (tls_error_text t)) in
      let p =
        ui_cat_num (ui_cat (record p { room = 79 }) (some (codes " (tls.c:"))) (tls_error_line t) in
      let p = ui_cat p (some (codes ")")) in
      let p =
        if tls_error t == tls_e_signature
        then ui_cat_num (ui_cat p (some (codes " why "))) (tk_verify_reason t)
        else p in
      let p =
        if tls_error t == tls_e_tag
        then ui_cat_num (ui_cat p (some (codes " rec "))) (tls_rec_index t)
        else p in
      p.text

  -- One round of the loop of `push_out`, for an output that is not empty: some bytes went, or the
  -- network is polled.
  pub push_some : Conn E → Option (Conn E)
  push_some s =
      let (n, w) = net_send (tls_out s.t) s.world in
      let w' = net_poll w in
      if n == 0
      then (if net_alive w' then some (record s { world = w' }) else none)
      else some (record s { t = tls_out_consumed n s.t; world = w })

  -- The network as a round that ends the loop leaves it.
  pub gone : Conn E → Conn E
  gone s = record s { world = net_poll (net_send (tls_out s.t) s.world).1 }

  -- What the engine has queued; false if the connection is gone. On fuel, as every loop here.
  pub push_rounds : ℕ → Conn E → Option (Bool × Conn E)
  unfolding push_some gone
  push_rounds zero s = none
  push_rounds (suc f) s =
      if length (tls_out s.t) == 0
      then some (true, s)
      else elim (push_some s) [ none ↦ some (false, gone s) | some s' ↦ push_rounds f s' ]

  -- A round sends a byte, or takes a poll.
  unfoldable pub push_out : Conn E → Option (Bool × Conn E)
  unfolding push_rounds
  push_out s = push_rounds (suc (length (tls_out s.t) + s.world.left)) s

  -- The first half of a round of `pump`: the network is polled, and what came is the engine's.
  pub take_in : Conn E → ℕ × Conn E
  take_in s =
      let (bytes, w) = net_recv in_cap (net_poll s.world) in
      if length bytes == 0 then (0, record s { world = w }) else (
        length bytes,
        record s {
          world = record w { net_frames = 0 };
          t = tls_in bytes s.t;
          delivered = s.delivered ++ tls_data bytes s.t;
        },
      )

  -- How a round ends: with an answer, or with another round.
  pub data Round : Type 0 where
    answer : Bool → Conn E → Round
    again : Conn E → Round

  pub failed_with : Str → Conn E → Round
  failed_with why s = answer false (record s { fail_why = some why })

  -- The tests of a round, behind `push_out`.
  pub judge : (T → Bool) → ℕ → ℕ → Conn E → Round
  unfolding failed_with tls_fail
  judge done bound n s =
      let (k, w) = ui_key s.world in
      let s' = record s { world = w } in
      if is_failed (tls_state s.t)
      then failed_with (tls_fail s.t) s
      else if done s.t
      then answer true s
      else if n == 0 && not (net_alive s.world)
      then answer true s
      else if ltb bound s.world.net_frames
      then failed_with (codes "no answer from the server") s
      else if k == key_stop
      then failed_with (codes "cancelled") (record s' { conn_cancelled = true })
      else again s'

  pub on_round : (Conn E → Option (Bool × Conn E)) → Round → Option (Bool × Conn E)
  on_round next (answer b s) = some (b, s)
  on_round next (again s) = next s

  pub on_pushed :
      (Conn E → Option (Bool × Conn E))
      → (T → Bool)
      → ℕ
      → ℕ
      → Bool
      → Conn E
      → Option (Bool × Conn E)
  unfolding judge on_round
  on_pushed next done bound n false s =
      some (false, record s { fail_why = some (codes "the connection was lost") })
  on_pushed next done bound n true s = on_round next (judge done bound n s)

  pub pump_rounds : ℕ → (T → Bool) → ℕ → Conn E → Option (Bool × Conn E)
  unfolding take_in on_pushed
  pump_rounds zero done bound s = none
  pump_rounds (suc f) done bound s = do
    let (n, s1) = take_in s
    (pushed, s2) ← push_out s1
    on_pushed (pump_rounds f done bound) done bound n pushed s2

  unfoldable pub pump : (T → Bool) → ℕ → Conn E → Option (Bool × Conn E)
  unfolding pump_rounds
  pump done bound s =
      pump_rounds (suc (suc s.world.left)) done bound
        (record s { world = record (s.world) { net_frames = 0 } })

  unfoldable pub handshake_done : T → Bool
  handshake_done t = elim (tls_state t) [ wait_sh ↦ false | wait_hs ↦ false | other ↦ true ]
