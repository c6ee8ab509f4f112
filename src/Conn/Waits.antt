-- ===== src/Conn/Waits.antt =====
-- src/m65/conn.c: how long the loops wait on a link that stays up.
use mega_irc.Common.{
  ℕ, zero, suc, ◌+◌, ◌≤◌, ◌<◌, min, Bool, true, false, Option, none, some, [], ◌≡◌, ◌≢◌, ◌∙◌, ap,
  refl, arith, Str, codes, ◌==◌, if◌then◌else◌, length,
}
use mega_irc.Ui.{key_stop}
use mega_irc.Conn.{Engine, Conn, push_some, push_rounds, push_out}
use mega_irc.Conn.Net.{Tick, World, net_poll, net_recv, net_send, net_alive}

-- A poll of a link that is up, on which nothing arrives and time passes.
pub record IsQuiet (t : Tick) : Type 0 where
  pub nothing : t.arrived ≡ []
  pub live : t.up ≡ true
  pub time : 0 < t.frames

abbrev pub IsSilent : World → Type 0
IsSilent w = (i : ℕ) → IsQuiet (w.later i)

-- Why a wait of `bound` frames ends, and whether that counts as cancelled: at the first poll behind
-- which more than `bound` frames have passed, or before that at RUN/STOP.
pub data Waits (bound : ℕ) : ℕ → (ℕ → Tick) → Str → Bool → Type 0 where
  late :
      {frames : ℕ} {polls : ℕ → Tick} {c : Bool}
      → bound < frames + (polls 0).frames
      → Waits bound frames polls (codes "no answer from the server") c
  stopped :
      {frames : ℕ} {polls : ℕ → Tick}
      → frames + (polls 0).frames ≤ bound
      → (polls 0).key ≡ key_stop
      → Waits bound frames polls (codes "cancelled") true
  goes_on :
      {frames : ℕ} {polls : ℕ → Tick} {why : Str} {c : Bool}
      → frames + (polls 0).frames ≤ bound
      → (polls 0).key ≢ key_stop
      → Waits bound (frames + (polls 0).frames) (λ i. polls (suc i)) why c
      → Waits bound frames polls why c

module _ (E : Engine) where
  -- A round on a full link is a poll, and another round.
  push_some_full :
      (s : Conn E)
      → s.world.now.room ≡ 0
      → (s.world.later 0).up ≡ true
      → push_some E s ≡ some (record s { world = net_poll (net_send (E.tls_out s.t) s.world).1 })
  unfolding push_some net_send
  push_some_full s r live =
      let polled = net_poll (net_send (E.tls_out s.t) s.world).1 in
      let sent : (min (length (E.tls_out s.t)) s.world.now.room == 0) ≡ true = ground arith in
      let on : Option (Conn E) = some (record s {
        t = E.tls_out_consumed (net_send (E.tls_out s.t) s.world).0 s.t;
        world = (net_send (E.tls_out s.t) s.world).1;
      }) in
      ap
        (λ (b : Bool).
          if b then (if net_alive polled then some (record s { world = polled }) else none) else on)
        sent
      ∙ ap (λ (b : Bool). if b then some (record s { world = polled }) else none) live

  rounds_spin :
      (f : ℕ) (s : Conn E)
      → 0 < length (E.tls_out s.t)
      → s.world.now.room ≡ 0
      → ((i : ℕ) → (s.world.later i).room ≡ 0)
      → ((i : ℕ) → (s.world.later i).up ≡ true)
      → push_rounds E f s ≡ none
  unfolding push_rounds net_send
  rounds_spin zero s h r full live = refl
  rounds_spin (suc f) s h r full live =
      let some_out : (length (E.tls_out s.t) == 0) ≡ false = ground arith in
      let s1 = record s { world = net_poll (net_send (E.tls_out s.t) s.world).1 } in
      let rest = rounds_spin f s1 h (full 0) (λ i. full (suc i)) (λ i. live (suc i)) in
      rw some_out (rw (push_some_full s r (live 0)) rest)

  -- A link that is up and takes no bytes is polled for ever: however many polls are followed,
  -- `push_out` has not come back.
  pub push_out-spins :
      (s : Conn E)
      → 0 < length (E.tls_out s.t)
      → s.world.now.room ≡ 0
      → ((i : ℕ) → (s.world.later i).room ≡ 0)
      → ((i : ℕ) → (s.world.later i).up ≡ true)
      → push_out E s ≡ none
  unfolding push_out
  push_out-spins s h r full live =
      rounds_spin (suc (length (E.tls_out s.t) + s.world.left)) s h r full live

  -- The world behind a poll that is read.
  abbrev polled : World → World
  polled w = (net_recv 256 (net_poll w)).1
