-- ===== src/Conn/Run.antt =====
-- src/m65/conn.c: opening, pumping, sending, closing.
use mega_irc.Common.{
  ℕ, zero, suc, ◌+◌, ◌%◌, ◌^◌, Bool, true, false, ◌&&◌, ◌||◌, not, Option, none, some, ◌>>=◌, [],
  ◌∷◌, ◌++◌, Str, codes, ◌==◌, if◌then◌else◌, length, drop,
}
use mega_irc.Policy.{ChainStatus, ok, unsupported}
use mega_irc.Conn.{
  TlsState, tls_connected, verifying, Engine, Conn, tls_e_alert, first_byte_frames, in_cap,
  chain_word, count_secs, tls_fail, push_out, pump, handshake_done,
}
use mega_irc.Conn.Net.{
  World, net_poll, net_recv, net_send, net_alive, net_connect, net_abort, net_close,
}

abbrev pub is_connected : TlsState → Bool
is_connected tls_connected = true
is_connected _ = false

abbrev pub is_verifying : TlsState → Bool
is_verifying verifying = true
is_verifying _ = false

abbrev pub is_ok : ChainStatus → Bool
is_ok ok = true
is_ok _ = false

abbrev pub is_unsupported : ChainStatus → Bool
is_unsupported unsupported = true
is_unsupported _ = false

module _ (E : Engine) where
  open E use {
    T, tls_start, tls_in, tls_data, tls_state, tls_error, tls_verify, tls_write, tls_close,
    tk_chain, tk_frames,
  }

  -- What `conn_open` returns: `none` for 1, else the text behind `*err`.
  abbrev pub Opening : Type 0
  Opening = Option (Option Str × Conn E)

  -- `net_abort(); *err = ...; return 0`
  unfoldable pub refused : Str → Bool → Conn E → Opening
  refused err retry s = some (some err, record s { world = net_abort s.world; conn_retry = retry })

  -- `if (!*err) *err = ...`
  abbrev pub or_text : Option Str → Str → Str
  or_text none text = text
  or_text (some why) text = why

  -- The chain, and the seconds that the arithmetic took.
  unfoldable pub open_chain : Str → Option Str → Conn E → Opening
  unfolding refused count_secs chain_word
  open_chain host now s =
      let (r, certs) = tk_chain s.t host now in
      let s' = record s {
        status = codes "the certificate chain...";
        conn_certs = certs;
        conn_chain = some r;
      } in
      if is_ok r
      then (let frames = tk_frames s.t % 2 ^ 16 in
          some (none, record s' { conn_secs = count_secs frames frames 0 }))
      else refused (chain_word r) (is_unsupported r) s'

  -- The server's signature, behind the client's Finished, if that went.
  unfoldable pub on_finished : Str → Option Str → Bool → Conn E → Opening
  unfolding open_chain tls_fail
  on_finished host now false s = refused (codes "the connection was lost") s.conn_retry s
  on_finished host now true s =
      let s' = record s { t = tls_verify s.t; status = codes "the server's signature..." } in
      if is_connected (tls_state s'.t)
      then open_chain host now s'
      else refused (tls_fail E s'.t) s'.conn_retry s'

  unfoldable pub open_signature : Str → Option Str → Conn E → Opening
  unfolding on_finished
  open_signature host now s = do (pushed, s1) ← push_out E s; on_finished host now pushed s1

  -- The handshake, and whether it has reached the signature.
  unfoldable pub on_reached : Str → Option Str → Bool → Conn E → Opening
  unfolding open_signature
  on_reached host now true s = open_signature host now s
  on_reached host now false s =
      refused (or_text s.fail_why (codes "the server hung up during the handshake"))
        (not (tls_error s.t == tls_e_alert)) s

  unfoldable pub open_handshake : Str → Option Str → Conn E → Opening
  unfolding on_reached
  open_handshake host now s = do
    (reached, s1) ← pump E (handshake_done E) first_byte_frames s
    on_reached host now (reached && is_verifying (tls_state s1.t)) s1

  unfoldable pub on_started : Str → Option Str → Option T → Conn E → Opening
  unfolding open_handshake
  on_started host now none s = refused (codes "the send buffer is too small") s.conn_retry s
  on_started host now (some t) s = open_handshake host now (record s { t = t })

  unfoldable pub open_tls : Str → Option Str → Conn E → Opening
  unfolding on_started
  open_tls host now s =
      on_started host now (tls_start host)
        (record s { tls_on = true; status = codes "the handshake..." })

  abbrev pub fresh : Conn E → Conn E
  fresh s = record s {
    conn_chain = none;
    conn_secs = 0;
    fail_why = none;
    conn_retry = false;
    conn_cancelled = false;
    tls_on = false;
  }

  -- What follows the dial.
  unfoldable pub on_dial : Str → Bool → Option Str → Option Str → Conn E → Opening
  unfolding open_tls
  on_dial host use_tls now (some why) s = some (some why, record s { conn_retry = true })
  on_dial host use_tls now none s = if use_tls then open_tls host now s else some (none, s)

  unfoldable pub conn_open : Str → Bool → Option Str → Conn E → Opening
  unfolding on_dial
  conn_open host use_tls now s =
      let (err, w) = net_connect s.world in
      on_dial host use_tls now err (record (fresh s) { world = w })

  unfoldable pub conn_pump : Conn E → Option (Conn E)
  conn_pump s =
      let (bytes, w) = net_recv in_cap (net_poll s.world) in
      let s1 = record s { world = w } in
      if length bytes == 0
      then some s1
      else if s.tls_on
      then (do
        (pushed, s2) ←
            push_out E
              (record s1 { t = tls_in bytes s.t; delivered = s.delivered ++ tls_data bytes s.t })
        some s2)
      else some (record s1 { delivered = s.delivered ++ bytes ∷ [] })

  -- The loop over bytes that go as they are, on fuel: a round takes a byte or a poll.
  unfoldable pub send_plain : ℕ → Str → World → Option (Bool × World)
  send_plain zero p w = none
  send_plain (suc f) p w =
      let (n, w') = net_send p w in
      let polled = net_poll w' in
      let sent = send_plain f (drop n p) w' in
      let waited = send_plain f p polled in
      if length p == 0
      then some (true, w)
      else if n == 0
      then (if net_alive polled then waited else some (false, polled))
      else sent

  pub send_record : Str → Conn E → Option (Bool × Conn E)
  send_record p s = do
    (pushed, s1) ← push_out E s
    elim pushed [
      | false ↦ some (false, s1)
      | true ↦ elim (tls_write p s1.t) [
        | none ↦ some (false, s1)
        | some t ↦ push_out E (record s1 { t = t })
      ]
    ]

  unfoldable pub conn_send : Str → Conn E → Option (Bool × Conn E)
  unfolding send_plain send_record
  conn_send p s =
      if s.tls_on
      then (if is_connected (tls_state s.t) then send_record p s else some (false, s))
      else (do
        (done, w) ← send_plain (suc (length p + s.world.left)) p s.world
        some (done, record s { world = w }))

  unfoldable pub conn_alive : Conn E → Bool
  conn_alive s = net_alive s.world && (not s.tls_on || is_connected (tls_state s.t))

  unfoldable pub conn_close : Conn E → Option (Conn E)
  conn_close s =
      if s.tls_on && is_connected (tls_state s.t)
      then (do
        (pushed, s1) ← push_out E (record s { t = tls_close s.t })
        some (record s1 { world = net_close s1.world }))
      else some (record s { world = net_close s.world })

  unfoldable pub conn_abort : Conn E → Conn E
  conn_abort s = record s { tls_on = false; world = net_abort s.world }
