-- ===== src/Conn/Ways.antt =====
-- src/m65/conn.c: the ways in which `conn_open` ends.
use mega_irc.Common.{
  ◌/◌, ◌%◌, ◌^◌, Bool, true, false, not, Option, none, some, ◌≡◌, ◌≢◌, Str, codes, ◌==◌,
}
use mega_irc.Policy.{ChainStatus, ok}
use mega_irc.Conn.{Engine, Conn, tls_connected, tls_e_alert, chain_word, tls_fail}
use mega_irc.Conn.Net.{connected, aborted}
use mega_irc.Conn.Run.{or_text, is_unsupported}

-- A failure drops the connection; conn.h shows the chain's verdict if it was reached, and whether
-- another server is worth a try.
pub record IsDropped {E : Engine} (verdict : Option ChainStatus) (again : Bool) (r : Conn E)
    : Type 0 where
  pub socket : r.world.socket ≡ aborted
  pub chain : r.conn_chain ≡ verdict
  pub retry : r.conn_retry ≡ again

-- The engine is connected, and the chain was checked for this host and this clock and is good.
pub record IsSecure (E : Engine) (host : Str) (now : Option Str) (r : Conn E) : Type 0 where
  pub state : E.tls_state r.t ≡ tls_connected
  pub good : (E.tk_chain r.t host now).0 ≡ ok
  pub chain : r.conn_chain ≡ some ok
  pub certs : r.conn_certs ≡ (E.tk_chain r.t host now).1
  pub secs : r.conn_secs ≡ E.tk_frames r.t % 2 ^ 16 / 50
  pub mode : r.tls_on ≡ true

-- The ways in which a TLS connection fails to open, each with the text behind `*err`.
pub data Failed (E : Engine) (host : Str) (now : Option Str) : Str → Conn E → Type 0 where
  no_buffer :
      {r : Conn E}
      → E.tls_start host ≡ none
      → IsDropped none false r
      → Failed E host now (codes "the send buffer is too small") r
  no_handshake :
      {r : Conn E} (err : Str)
      → err ≡ or_text E r.fail_why (codes "the server hung up during the handshake")
      → IsDropped none (not (E.tls_error r.t == tls_e_alert)) r
      → Failed E host now err r
  link_lost :
      {r : Conn E} → IsDropped none false r → Failed E host now (codes "the connection was lost") r
  no_signature :
      {r : Conn E}
      → E.tls_state r.t ≢ tls_connected
      → IsDropped none false r
      → Failed E host now (tls_fail E r.t) r
  bad_chain :
      {r : Conn E} (v : ChainStatus)
      → (E.tk_chain r.t host now).0 ≡ v
      → v ≢ ok
      → IsDropped (some v) (is_unsupported v) r
      → Failed E host now (chain_word v) r

-- How `conn_open` ends, for what it returns and the state it leaves.
pub data Outcome (E : Engine) (host : Str) (now : Option Str) (s : Conn E)
    : Bool → Option Str → Conn E → Type 0 where
  not_dialled :
      {use_tls : Bool} {why : Str} {r : Conn E}
      → s.world.refusal ≡ some why
      → r.conn_retry ≡ true
      → r.conn_chain ≡ none
      → Outcome E host now s use_tls (some why) r
  plain :
      {r : Conn E}
      → s.world.refusal ≡ none
      → r.world.socket ≡ connected
      → r.tls_on ≡ false
      → Outcome E host now s false none r
  secure :
      {r : Conn E}
      → s.world.refusal ≡ none
      → IsSecure E host now r
      → Outcome E host now s true none r
  failed :
      {err : Str} {r : Conn E}
      → s.world.refusal ≡ none
      → Failed E host now err r
      → Outcome E host now s true (some err) r
