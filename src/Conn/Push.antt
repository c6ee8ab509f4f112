-- ===== src/Conn/Push.antt =====
-- src/m65/conn.c: `push_out` comes back, and the bytes go in order.
use mega_irc.Common.{
  ℕ, zero, suc, ◌+◌, ◌-◌, ◌≤◌, ◌<◌, min, Bool, true, false, none, some, inl, inr, List, [], ◌∷◌,
  ◌++◌, ◌≡◌, ◌≢◌, ◌⊎◌, ◌∙◌, ap, refl, arith, Str, ◌==◌, Bool-cases, length, take, drop, length-drop,
  take-append-drop, append_assoc, append-nil,
}
use native.Mathlib.Nat.{le_trans}
use mega_irc.Conn.{Engine, Conn, push_some, gone, push_rounds, push_out}
use mega_irc.Conn.Net.{net_poll, net_send, net_alive, Ends, Ends-poll, Ends-over, Ends-up}

-- What tls.h says of the output: what has been sent is taken off its front.
pub record EngineLaws (E : Engine) : Type 0 where
  pub out_consumed : (n : ℕ) (t : E.T) → E.tls_out (E.tls_out_consumed n t) ≡ drop n (E.tls_out t)

-- What a loop leaves alone of what conn.h shows.
pub record IsKept {E : Engine} (s s' : Conn E) : Type 0 where
  pub chain : s'.conn_chain ≡ s.conn_chain
  pub retry : s'.conn_retry ≡ s.conn_retry
  pub mode : s'.tls_on ≡ s.tls_on

IsKept-refl : {E : Engine} (s : Conn E) → IsKept s s
IsKept-refl s = record { chain = refl; retry = refl; mode = refl }

pub IsKept-trans : {E : Engine} {s t u : Conn E} → IsKept s t → IsKept t u → IsKept s u
IsKept-trans p q = record {
  chain = q.chain ∙ p.chain;
  retry = q.retry ∙ p.retry;
  mode = q.mode ∙ p.mode;
}

-- The bytes that have gone and those that are still to go are the same text, and no poll is made up.
pub record IsOrdered (E : Engine) (s s' : Conn E) : Type 0 where
  pub order : s'.world.sent ++ E.tls_out s'.t ≡ s.world.sent ++ E.tls_out s.t
  pub polls : s'.world.left ≤ s.world.left
  pub ends : Ends s.world → Ends s'.world
  pub kept : IsKept s s'
  pub over : s.world.left ≡ 0 → net_alive s.world ≡ false → net_alive s'.world ≡ false

-- Everything has gone, or the link is down.
pub data Pushed (E : Engine) (s s' : Conn E) : Bool → Type 0 where
  all_sent : IsOrdered E s s' → E.tls_out s'.t ≡ [] → Pushed E s s' true
  link_down : IsOrdered E s s' → net_alive s'.world ≡ false → Pushed E s s' false

pub Pushed-IsKept : {E : Engine} {s t : Conn E} {b : Bool} → Pushed E s t b → IsKept s t
Pushed-IsKept (all_sent o _) = o.kept
Pushed-IsKept (link_down o _) = o.kept

none_left : {m n : ℕ} → m ≤ n → n ≡ 0 → m ≡ 0
none_left h e = omega arith

IsOrdered-trans :
    {E : Engine} {s t u : Conn E} → IsOrdered E s t → IsOrdered E t u → IsOrdered E s u
IsOrdered-trans p q = record {
  order = q.order ∙ p.order;
  polls = le_trans q.polls p.polls;
  ends = λ e. q.ends (p.ends e);
  kept = IsKept-trans p.kept q.kept;
  over = λ l d. q.over (none_left p.polls l) (p.over l d);
}

Pushed-trans :
    {E : Engine} {s t u : Conn E} {b : Bool} → IsOrdered E s t → Pushed E t u b → Pushed E s u b
Pushed-trans o (all_sent p e) = all_sent (IsOrdered-trans o p) e
Pushed-trans o (link_down p d) = link_down (IsOrdered-trans o p) d

pub nil_of_length {ℓ} : {A : Type ℓ} (xs : List A) → length xs ≡ 0 → xs ≡ []
nil_of_length [] h = refl
nil_of_length (x ∷ xs) h = absurd (omega (arith, h))

-- What is taken goes to the end of what was sent.
pub sent_order : (sent out : Str) (n : ℕ) → (sent ++ take n out) ++ drop n out ≡ sent ++ out
sent_order sent out n =
    append_assoc sent (take n out) (drop n out)
    ∙ ap (λ (s : Str). sent ++ s) (take-append-drop n out)

pub sent_none : (sent out : Str) (n : ℕ) → n ≡ 0 → (sent ++ take n out) ++ out ≡ sent ++ out
sent_none sent out n h = rw h (ap (λ (s : Str). s ++ out) (append-nil sent))

module _ (E : Engine) (laws : EngineLaws E) where
  abbrev work : Conn E → ℕ
  work s = length (E.tls_out s.t) + s.world.left

  push_some_cases :
      (s : Conn E)
      → length (E.tls_out s.t) ≢ 0
      → Ends s.world
      → ((push_some E s ≡ none) × Pushed E s (gone E s) false)
        ⊎ ((s' : Conn E) × (push_some E s ≡ some s') × IsOrdered E s s' × (work s' < work s))
  unfolding push_some gone net_send
  push_some_cases s some_out e =
      let out = E.tls_out s.t in
      let n = min (length out) s.world.now.room in
      let w = s.world in
      elim (Bool-cases (n == 0)) [
        | inr more ↦
            let law = laws.out_consumed n s.t in
            let left : length (E.tls_out (E.tls_out_consumed n s.t)) ≡ length out - n =
              ap length law ∙ length-drop n out in
            let took : 0 < n = ground arith in
            inr (
              record s { t = E.tls_out_consumed n s.t; world = (net_send out s.world).1 },
              rw more refl,
              record {
                order = rw law (sent_order s.world.sent out n);
                polls = omega arith;
                ends = λ h. h;
                kept = record { chain = refl; retry = refl; mode = refl };
                over = λ l d. d;
              },
              omega arith,
            )
        | inl zero_sent ↦ elim (Bool-cases ((w.later 0).up)) [
          | inl up ↦ inr (
            record s { world = net_poll (net_send out s.world).1 },
            rw zero_sent (rw up refl),
            record {
              order = sent_none s.world.sent out n (ground arith);
              polls = omega arith;
              ends = λ h. Ends-poll w h;
              kept = record { chain = refl; retry = refl; mode = refl };
              over = λ l d. Ends-over w e l;
            },
            omega (arith, Ends-up w e up),
          )
          | inr down ↦ inl (
            rw zero_sent (rw down refl),
            link_down
                (record {
                  order = sent_none s.world.sent out n (ground arith);
                  polls = omega arith;
                  ends = λ h. Ends-poll w h;
                  kept = record { chain = refl; retry = refl; mode = refl };
                  over = λ l d. Ends-over w e l;
                })
                down,
          )
        ]
      ]

  push_rounds_lem :
      (f : ℕ) (s : Conn E)
      → work s < f
      → Ends s.world
      → (b : Bool) × (s' : Conn E) × (push_rounds E f s ≡ some (b, s')) × Pushed E s s' b
  unfolding push_rounds
  push_rounds_lem zero s h ends = absurd (omega arith)
  push_rounds_lem (suc f) s h ends = elim (Bool-cases (length (E.tls_out s.t) == 0)) [
    | inl e ↦ (
      true,
      s,
      rw e refl,
      all_sent
          (record {
            order = refl;
            polls = omega arith;
            ends = λ h. h;
            kept = record { chain = refl; retry = refl; mode = refl };
            over = λ l d. d;
          })
          (nil_of_length (E.tls_out s.t) (ground arith)),
    )
    | inr e ↦ elim (push_some_cases s (ground arith) ends) [
      | inl (q, p) ↦ (false, gone E s, rw e (rw q refl), p)
      | inr (s1, q, o, l) ↦
          let (b, s', r, p) = push_rounds_lem f s1 (omega arith) (o.ends ends) in
          (b, s', rw e (rw q r), Pushed-trans o p)
    ]
  ]

  -- Over an engine whose output loses at its front what has been sent, and a network whose link is
  -- down from some poll on, `push_out` comes back: true with nothing left to send, or false with the
  -- link down. Either way the bytes that were sent and those that are left are the same text as
  -- before.
  pub push_out_lem :
      (s : Conn E)
      → Ends s.world
      → (b : Bool) × (s' : Conn E) × (push_out E s ≡ some (b, s')) × Pushed E s s' b
  unfolding push_out
  push_out_lem s e = push_rounds_lem (suc (work s)) s (omega arith) e

pub Pushed-Ends :
    {E : Engine} {s t : Conn E} {b : Bool} → Pushed E s t b → Ends s.world → Ends t.world
Pushed-Ends (all_sent o _) = o.ends
Pushed-Ends (link_down o _) = o.ends
