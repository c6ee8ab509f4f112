-- ===== src/Conn/Tests.antt =====
-- src/m65/conn.c with a small engine and scripts of the network.
use mega_irc.Common.{
  zero, suc, arith, ℕ, Bool, true, false, Option, none, some, List, [], ◌∷◌, ◌++◌, ◌≡◌, refl, Str,
  codes, drop,
}
use mega_irc.Policy.{ok, no_anchor}
use mega_irc.Conn.{
  Engine, Conn, TlsState, tls_idle, wait_sh, tls_connected, tls_closed, verifying, push_out, pump,
  handshake_done,
}
use mega_irc.Conn.Net.{Ends, Tick, idle, net_recv, net_send, net_connect, ui_key}
use mega_irc.Conn.Push.{EngineLaws, Pushed, push_out_lem}
use mega_irc.Conn.Waits.{Waits, push_out-spins}
use mega_irc.Conn.Plain.{Sent, conn_send-Sent}
use mega_irc.Conn.Run.{conn_open, conn_send}

record Machine : Type 0 where
  state : TlsState
  out : Str

-- A server's first bytes end the handshake; the hosts' chain is good but for one of them.
abbrev engine : Engine
engine = record {
  T = Machine;
  tls_start = λ host. some (record { state = wait_sh; out = codes "hello" });
  tls_in = λ bytes t. record { state = verifying; out = t.out ++ codes "fin" };
  tls_data = λ bytes t. [];
  tls_out = λ t. t.out;
  tls_out_consumed = λ n t. record t { out = drop n t.out };
  tls_state = λ t. t.state;
  tls_error = λ t. 0;
  tls_error_text = λ t. codes "no error";
  tls_error_line = λ t. 0;
  tls_rec_index = λ t. 0;
  tk_verify_reason = λ t. 0;
  tls_verify = λ t. record t { state = tls_connected };
  tls_write = λ p t. some (record t { out = p });
  tls_close = λ t. record t { state = tls_closed };
  tk_chain = λ t host now. elim host [ [] ↦ (no_anchor, 1) | _ ↦ (ok, 3) ];
  tk_frames = λ t. 275;
}

engine_laws : EngineLaws engine
engine_laws = record { out_consumed = λ n t. refl }

abbrev tick : Str → ℕ → Tick
tick bytes room = record { arrived = bytes; room = room; frames = 1; key = 0; up = true }

-- The output goes three bytes at a time; the server answers in the third poll.
abbrev silence : Tick
silence = record { arrived = []; room = 0; frames = 0; key = 0; up = false }

abbrev script : List Tick
script = tick [] 3 ∷ tick [] 3 ∷ tick (codes "server") 3 ∷ tick [] 3 ∷ tick [] 0 ∷ tick [] 3 ∷ []

-- Behind the script the link is gone.
abbrev polls_of : List Tick → ℕ → Tick
polls_of [] i = silence
polls_of (t ∷ ts) zero = t
polls_of (t ∷ ts) (suc i) = polls_of ts i

abbrev start : Conn engine
start = record {
  tls_on = false;
  t = record { state = tls_idle; out = [] };
  world = record {
    now = tick [] 0;
    later = polls_of script;
    left = 6;
    net_frames = 0;
    sent = [];
    socket = idle;
    refusal = none;
  };
  fail_why = none;
  conn_chain = none;
  conn_secs = 0;
  conn_certs = 0;
  conn_retry = false;
  conn_cancelled = false;
  status = [];
  delivered = [];
}

start-Ends : Ends start.world
start-Ends zero l = absurd (omega arith)
start-Ends (suc zero) l = absurd (omega arith)
start-Ends (suc (suc zero)) l = absurd (omega arith)
start-Ends (suc (suc (suc zero))) l = absurd (omega arith)
start-Ends (suc (suc (suc (suc zero)))) l = absurd (omega arith)
start-Ends (suc (suc (suc (suc (suc zero))))) l = absurd (omega arith)
start-Ends (suc (suc (suc (suc (suc (suc i)))))) l = (refl, refl)

abbrev secs_of : Option (Option Str × Conn engine) → Option (Option Str × ℕ × Str)
secs_of none = none
secs_of (some (e, s)) = some (e, s.conn_secs, s.world.sent)

opened_securely :
    secs_of (conn_open engine (codes "irc.c64") true none start) ≡ some (none, 5, codes "hellofin")
unfolding conn_open net_connect pump push_out handshake_done net_recv net_send ui_key
opened_securely = refl

conn_send-Sent_example :
    (b : Bool) × (s' : Conn engine) × (conn_send engine (codes "NICK a") start ≡ some (b, s'))
    × Sent (codes "NICK a") start.world s'.world b
conn_send-Sent_example = conn_send-Sent engine (codes "NICK a") start refl start-Ends

push_out_lem_example :
    (b : Bool) × (s' : Conn engine) × (push_out engine
        (record start { t = record { state = wait_sh; out = codes "hello" } })
      ≡ some (b, s'))
    × Pushed engine (record start { t = record { state = wait_sh; out = codes "hello" } }) s' b
push_out_lem_example =
    push_out_lem engine engine_laws
      (record start { t = record { state = wait_sh; out = codes "hello" } }) start-Ends

-- A server that takes the greeting and says nothing: the wait ends behind its bound.
abbrev waiting : Conn engine
waiting = record start {
  t = record { state = wait_sh; out = [] };
  world = record (start.world) { later = λ i. tick [] 3; left = 20 };
}

-- A link that is up and takes nothing.
abbrev full : Conn engine
full = record start {
  t = record { state = wait_sh; out = codes "hello" };
  world = record (start.world) { now = tick [] 0; later = λ i. tick [] 0; left = 20 };
}

push_out-spins_example : push_out engine full ≡ none
push_out-spins_example = push_out-spins engine full (omega arith) refl (λ i. refl) (λ i. refl)
