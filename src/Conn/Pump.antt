-- ===== src/Conn/Pump.antt =====
-- src/m65/conn.c: the handshake's loop comes back.
use mega_irc.Common.{
  ℕ, zero, suc, ◌-◌, ◌≤◌, ◌<◌, Bool, true, false, ◌&&◌, not, Option, some, inl, inr, ◌≡◌, ◌≢◌, ap,
  refl, arith, Str, ltb, ◌==◌, Bool-cases, length, take,
}
use mega_irc.Conn.{
  Engine, Conn, Round, answer, again, is_failed, take_in, judge, on_round, on_pushed, pump_rounds,
  pump,
}
use mega_irc.Ui.{key_stop}
use mega_irc.Conn.Net.{net_recv, ui_key, net_alive, Ends, Ends-poll, Ends-over, Ends-nothing}
use mega_irc.Conn.Push.{
  EngineLaws, IsKept, IsKept-trans, IsOrdered, Pushed, all_sent, link_down, push_out_lem,
}

-- A round asks for another only if it leaves the polls as they are, and has seen bytes or a link.
data Judged (E : Engine) (n : ℕ) (s : Conn E) : Round E → Type 0 where
  stops :
      (b : Bool) (s' : Conn E)
      → IsKept s s'
      → (Ends s.world → Ends s'.world)
      → Judged E n s (answer b s')
  goes_on :
      (s' : Conn E)
      → IsKept s s'
      → s'.world.left ≡ s.world.left
      → (Ends s.world → Ends s'.world)
      → (n == 0 && not (net_alive s.world)) ≡ false
      → Judged E n s (again s')

judge-Judged :
    (E : Engine) (done : E.T → Bool) (bound n : ℕ) (s : Conn E)
    → Judged E n s (judge E done bound n s)
unfolding judge ui_key
judge-Judged E done bound n s = elim (Bool-cases (is_failed (E.tls_state s.t))) [
  | inl e ↦ rw e (stops false _ (record { chain = refl; retry = refl; mode = refl }) (λ e. e))
  | inr e ↦ rw e (elim (Bool-cases (done s.t)) [
    | inl f ↦ rw f (stops true _ (record { chain = refl; retry = refl; mode = refl }) (λ e. e))
    | inr f ↦ rw f (elim (Bool-cases (n == 0 && not (net_alive s.world))) [
      | inl g ↦ rw g (stops true _ (record { chain = refl; retry = refl; mode = refl }) (λ e. e))
      | inr g ↦ rw g (elim (Bool-cases (ltb bound s.world.net_frames)) [
        | inl h ↦ rw h (stops false _ (record { chain = refl; retry = refl; mode = refl }) (λ e. e))
        | inr h ↦ rw h (elim (Bool-cases (s.world.now.key == key_stop)) [
          | inl k ↦
              rw k (stops false _ (record { chain = refl; retry = refl; mode = refl }) (λ e. e))
          | inr k ↦
              rw k (goes_on _ (record { chain = refl; retry = refl; mode = refl }) refl (λ e. e) g)
        ])
      ])
    ])
  ])
]

-- A round's poll: one fewer is followed, or none was left, with no bytes and the link down.
record IsPolled {E : Engine} (s s1 : Conn E) (n : ℕ) : Type 0 where
  shorter : s1.world.left ≤ s.world.left - 1
  ends : Ends s1.world
  nothing : s.world.left ≡ 0 → n ≡ 0
  kept : IsKept s s1
  dead : s.world.left ≡ 0 → net_alive s1.world ≡ false

take_in-IsPolled :
    (E : Engine) (s : Conn E) → Ends s.world → IsPolled s (take_in E s).1 (take_in E s).0
unfolding take_in net_recv
take_in-IsPolled E s ends =
    let w = s.world in
    let bytes = take 256 (w.later 0).arrived in
    let none_came =
      λ (l : w.left ≡ 0). ap (λ (a : Str). length (take 256 a)) (Ends-nothing w ends l) in
    elim (Bool-cases (length bytes == 0)) [
      | inl e ↦ rw e (record {
        shorter = omega arith;
        ends = Ends-poll w ends;
        nothing = λ l. refl;
        kept = record { chain = refl; retry = refl; mode = refl };
        dead = λ l. Ends-over w ends l;
      })
      | inr e ↦ rw e (record {
        shorter = omega arith;
        ends = Ends-poll w ends;
        nothing = none_came;
        kept = record { chain = refl; retry = refl; mode = refl };
        dead = λ l. Ends-over w ends l;
      })
    ]

-- Bytes or a link mean that a poll was left.
not_over : (n : ℕ) (up : Bool) → n ≡ 0 → up ≡ false → (n == 0 && not up) ≢ false
not_over n up e d q = ground arith

fewer :
    {E : Engine} (f n : ℕ) (s s1 s2 s3 : Conn E)
    → IsPolled s s1 n
    → IsOrdered E s1 s2
    → s3.world.left ≡ s2.world.left
    → (n == 0 && not (net_alive s2.world)) ≡ false
    → s.world.left < suc f
    → s3.world.left < f
fewer f n s s1 s2 s3 polled o e g h =
    let shorter = polled.shorter in
    let polls = o.polls in
    elim (Bool-cases (s.world.left == 0)) [
      | inr some_left ↦ let pos : 0 < s.world.left = ground arith in omega arith
      | inl none_left ↦
          let l : s.world.left ≡ 0 = ground arith in
          absurd (
            not_over n (net_alive s2.world) (polled.nothing l)
              (o.over (omega arith) (polled.dead l)) g)
    ]

module _ (E : Engine) (laws : EngineLaws E) where
  -- What follows the round's tests, if with fewer polls left there is an end.
  concluded :
      (next : Conn E → Option (Bool × Conn E)) (n : ℕ) (s : Conn E) (r : Round E)
      → Judged E n s r
      → ((s' : Conn E)
          → s'.world.left ≡ s.world.left
          → (Ends s.world → Ends s'.world)
          → (n == 0 && not (net_alive s.world)) ≡ false
          → (b : Bool) × (t : Conn E) × (next s' ≡ some (b, t))
            × IsKept s' t
            × (Ends s'.world → Ends t.world))
      → (b : Bool) × (t : Conn E) × (on_round E next r ≡ some (b, t))
        × IsKept s t
        × (Ends s.world → Ends t.world)
  unfolding on_round
  concluded next n s _ (stops b s' k d) ih = (b, s', refl, k, d)
  concluded next n s _ (goes_on s' k e d g) ih =
      let (b, t, q, l, f) = ih s' e d g in (b, t, q, IsKept-trans k l, λ x. f (d x))

  pushed_lem :
      (next : Conn E → Option (Bool × Conn E)) (done : E.T → Bool) (bound n : ℕ) (s1 s2 : Conn E)
      (b : Bool)
      → Pushed E s1 s2 b
      → (IsOrdered E s1 s2
          → (s' : Conn E) → s'.world.left ≡ s2.world.left
          → (Ends s2.world → Ends s'.world)
          → (n == 0 && not (net_alive s2.world)) ≡ false
          → (b : Bool) × (t : Conn E) × (next s' ≡ some (b, t))
            × IsKept s' t
            × (Ends s'.world → Ends t.world))
      → (b' : Bool) × (t : Conn E) × (on_pushed E next done bound n b s2 ≡ some (b', t))
        × IsKept s1 t
        × (Ends s1.world → Ends t.world)
  unfolding on_pushed
  pushed_lem next done bound n s1 s2 _ (link_down o _) ih = (
    false,
    _,
    refl,
    IsKept-trans o.kept (record { chain = refl; retry = refl; mode = refl }),
    o.ends,
  )
  pushed_lem next done bound n s1 s2 _ (all_sent o _) ih =
      let (b, t, q, k, d) =
        concluded next n s2 (judge E done bound n s2) (judge-Judged E done bound n s2) (ih o) in
      (b, t, q, IsKept-trans o.kept k, λ x. d (o.ends x))

  pump_rounds_lem :
      (f : ℕ) (done : E.T → Bool) (bound : ℕ) (s : Conn E)
      → s.world.left < f
      → Ends s.world
      → (b : Bool) × (s' : Conn E) × (pump_rounds E f done bound s ≡ some (b, s'))
        × IsKept s s'
        × Ends s'.world
  unfolding pump_rounds
  pump_rounds_lem zero done bound s h ends = absurd (omega arith)
  pump_rounds_lem (suc f) done bound s h ends =
      let n = (take_in E s).0 in
      let s1 = (take_in E s).1 in
      let polled = take_in-IsPolled E s ends in
      let (b, s2, q, p) = push_out_lem E laws s1 polled.ends in
      let (b', t, r, k, d) =
        pushed_lem (pump_rounds E f done bound) done bound n s1 s2 b p (λ o s3 e d g.
          let (b3, t3, q3, k3, e3) =
            pump_rounds_lem f done bound s3 (fewer f n s s1 s2 s3 polled o e g h)
              (d (o.ends polled.ends)) in
          (b3, t3, q3, k3, λ x. e3)) in
      (b', t, rw q r, IsKept-trans polled.kept k, d polled.ends)

  -- Over an engine whose output loses at its front what has been sent, and a network whose link is
  -- down from some poll on, the handshake's loop comes back.
  pub pump_lem :
      (done : E.T → Bool) (bound : ℕ) (s : Conn E)
      → Ends s.world
      → (b : Bool) × (s' : Conn E) × (pump E done bound s ≡ some (b, s'))
        × IsKept s s'
        × Ends s'.world
  unfolding pump
  pump_lem done bound s ends =
      let start = record s { world = record (s.world) { net_frames = 0 } } in
      let (b, t, q, k, e) =
        pump_rounds_lem (suc (suc s.world.left)) done bound start (omega arith) ends in
      (b, t, q, record { chain = k.chain; retry = k.retry; mode = k.mode }, e)
