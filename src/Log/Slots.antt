-- ===== src/Log/Slots.antt =====
-- src/m65/log.c: no two slots overlap.
use mega_irc.Common.{ℕ, ◌+◌, ◌*◌, ◌%◌, ◌^◌, ◌≤◌, ◌<◌, ◌≡◌, ◌≢◌, ◌⊎◌, arith}
use mega_irc.Log.{log_ring, slot}

-- A slot lies inside its view's megabyte, and in view 0 below the history of the input line.
slot_inside :
    (v i : ℕ)
    → (0x8000000 + v * 2 ^ 20 ≤ slot v i) × (slot v i + 96 ≤ 0x8000000 + v * 2 ^ 20 + 0xc0000)
unfolding slot
slot_inside v i = (omega arith, omega arith)

slot_order :
    (v w a b : ℕ)
    → a < 8192
    → b < 8192
    → (v ≢ w) ⊎ (a ≢ b)
    → (0x8000000 + v * 2 ^ 20 + a * 96 + 96 ≤ 0x8000000 + w * 2 ^ 20 + b * 96)
      ⊎ (0x8000000 + w * 2 ^ 20 + b * 96 + 96 ≤ 0x8000000 + v * 2 ^ 20 + a * 96)
slot_order v w a b p q h = ground arith

-- Slots of different views, or of counters that differ in the ring, are at least 96 bytes apart, and
-- equal counters have one slot: a row and its span never run into another.
slot_apart :
    (v w i j : ℕ)
    → (v ≢ w) ⊎ (i % log_ring ≢ j % log_ring)
    → (slot v i + 96 ≤ slot w j) ⊎ (slot w j + 96 ≤ slot v i)
unfolding slot
slot_apart v w i j h = slot_order v w (i % log_ring) (j % log_ring) (omega arith) (omega arith) h

pub slot-mod : (v i : ℕ) → slot v (i % 2 ^ 16) ≡ slot v i
unfolding slot
slot-mod v i = omega arith

-- The next slot is none of those kept.
pub slot_fresh : (v n j : ℕ) → j < n → n < j + log_ring → slot v (n % 2 ^ 16) ≢ slot v j
unfolding slot
slot_fresh v n j p q e = omega arith

pub slot_foreign : (v w i j : ℕ) → v ≢ w → slot v i ≢ slot w j
unfolding slot
slot_foreign v w i j h e = h (omega arith)
