-- ===== src/Conn/Plain.antt =====
-- src/m65/conn.c: what `conn_send` sends without TLS.
use mega_irc.Common.{
  ap, if◌then◌else◌, ℕ, zero, suc, ◌+◌, ◌<◌, min, Bool, true, false, some, inl, inr, [], ◌++◌, ◌≡◌,
  ◌∙◌, sym, refl, arith, Str, ◌==◌, Bool-cases, length, drop, length-drop, append-nil,
}
use mega_irc.Conn.{Engine, Conn}
use mega_irc.Conn.Net.{World, net_poll, net_send, net_alive, Ends, Ends-poll, Ends-up}
use mega_irc.Conn.Push.{nil_of_length, sent_order, sent_none}
use mega_irc.Conn.Run.{send_plain, conn_send}

-- Every byte has gone, or the link is down and those that have not are the text's last.
pub data Sent (p : Str) (w w' : World) : Bool → Type 0 where
  whole : w'.sent ≡ w.sent ++ p → Sent p w w' true
  cut : (left : Str) → w'.sent ++ left ≡ w.sent ++ p → net_alive w' ≡ false → Sent p w w' false

Sent-after :
    {p q : Str} {w w1 w' : World} {b : Bool}
    → w1.sent ++ q ≡ w.sent ++ p
    → Sent q w1 w' b
    → Sent p w w' b
Sent-after e (whole q) = whole (q ∙ e)
Sent-after e (cut left q d) = cut left (q ∙ e) d

module _ (E : Engine) where
  send_plain_lem :
      (f : ℕ) (p : Str) (w : World)
      → length p + w.left < f
      → Ends w
      → (b : Bool) × (w' : World) × (send_plain E f p w ≡ some (b, w')) × Sent p w w' b
  unfolding send_plain net_send
  send_plain_lem zero p w h ends = absurd (omega arith)
  send_plain_lem (suc f) p w h ends =
      let n = min (length p) w.now.room in
      let w1 = (net_send p w).1 in
      elim (Bool-cases (length p == 0)) [
        | inl e ↦
            let z : p ≡ [] = nil_of_length p (ground arith) in
            (true, w, rw e refl, whole (rw z (sym (append-nil w.sent))))
        | inr e ↦ elim (Bool-cases (n == 0)) [
          | inr more ↦
              let some_bytes : 0 < length p = ground arith in
              let took : 0 < n = ground arith in
              let (b, w', r, s) =
                send_plain_lem f (drop n p) w1 (omega (arith, length-drop n p)) ends in
              (b, w', rw e (rw more r), Sent-after (sent_order w.sent p n) s)
          | inl none_sent ↦
              let same = sent_none w.sent p n (ground arith) in
              let polled = net_poll w1 in
              let answered = λ (b : Bool) (q : (w.later 0).up ≡ b).
                ap (λ (x : Bool). if x then send_plain E f p polled else some (false, polled)) q in
              elim (Bool-cases ((w.later 0).up)) [
                | inl up ↦
                    let (b, w', r, s) =
                      send_plain_lem f p (net_poll w1) (omega (arith, Ends-up w ends up))
                        (Ends-poll w1 ends) in
                    (b, w', rw e (rw none_sent (answered true up ∙ r)), Sent-after same s)
                | inr down ↦
                    (false, net_poll w1, rw e (rw none_sent (answered false down)), cut p same down)
              ]
        ]
      ]

  -- Without TLS, and over a network whose link is down from some poll on, `conn_send` comes back. If
  -- it returns 1 every byte was sent, in order, behind what was sent before; if it returns 0 the link
  -- is down, and what was sent is followed by what was not.
  pub conn_send-Sent :
      (p : Str) (s : Conn E)
      → s.tls_on ≡ false
      → Ends s.world
      → (b : Bool) × (s' : Conn E) × (conn_send E p s ≡ some (b, s')) × Sent p s.world s'.world b
  unfolding conn_send
  conn_send-Sent p s plain ends =
      let (b, w', r, sent) =
        send_plain_lem (suc (length p + s.world.left)) p s.world (omega arith) ends in
      (b, record s { world = w' }, rw plain (rw r refl), sent)
