-- ===== src/Log/Ring.antt =====
-- src/m65/log.c: what the ring keeps of all rows ever logged, and what is drawn of it.
use mega_irc.Common.{
  ℕ, zero, suc, ◌+◌, ◌-◌, ◌%◌, ◌^◌, ◌≤◌, ◌<◌, ◌≡◌, ◌≢◌, inl, inr, refl, ap, arith, subst, ◌∙◌, List,
  [], ◌∷◌, Str, ltb, ◌==◌, if◌then◌else◌, Bool-cases,
}
use native.Mathlib.Decide.{dec_lt}
use mega_irc.Log.{
  Log, Row, Drawn, blank, update, log_ring, slot, log_clear, log_row, log_draw, draw_rows, paint,
}
use mega_irc.Log.Slots.{slot-mod, slot_fresh, slot_foreign}

-- How many of `n` rows are kept.
unfoldable pub kept : ℕ → ℕ
kept n = if ltb n log_ring then n else log_ring

-- The ring of a view to which the rows `rows 0` to `rows (n - 1)` were logged.
unfoldable pub KeepsView : Log → ℕ → ℕ → (ℕ → Row) → Type 0
KeepsView l v n rows =
    (l.total v ≡ n % 2 ^ 16)
    × (l.have v ≡ kept n)
    × ((j : ℕ) → n ≤ j + kept n → j < n → l.attic (slot v j) ≡ rows j)

-- Every view keeps the last rows of its own.
unfoldable pub Keeps : Log → (ℕ → ℕ) → (ℕ → ℕ → Row) → Type 0
Keeps l count rows = (v : ℕ) → KeepsView l v (count v) (rows v)

pub update_same {ℓ} : {A : Type ℓ} (f : ℕ → A) (i : ℕ) (x : A) → update f i x i ≡ x
update_same f i x = elim (Bool-cases (i == i)) [
  | inl t ↦ rw t
  | inr e ↦ let z : ⊥ = ground arith in absurd z
]

pub update_other {ℓ} :
    {A : Type ℓ} (f : ℕ → A) (i : ℕ) (x : A) (j : ℕ) → i ≢ j → update f i x j ≡ f j
update_other f i x j h = elim (Bool-cases (i == j)) [
  | inl t ↦ let z : i ≡ j = ground arith in absurd (h z)
  | inr e ↦ rw e
]

-- What `log_row` stores.
abbrev pub pending : Log → Str → Row
pending l row = record {
  codes = row;
  nick_at = l.log_nick_at;
  nick_len = l.log_nick_len;
  nick_col = l.log_nick_col;
}

kept_bound : (n j : ℕ) → n + 1 ≤ j + kept (n + 1) → n < j + log_ring
unfolding kept
kept_bound n j p = ground arith

kept_next : (n j : ℕ) → n + 1 ≤ j + kept (n + 1) → n ≤ j + kept n
unfolding kept
kept_next n j p = ground arith

kept_step :
    (f : ℕ → ℕ) (v n : ℕ)
    → f v ≡ kept n
    → (if ltb (f v) log_ring then update f v (f v + 1) else f) v ≡ kept (n + 1)
unfolding kept
kept_step f v n h = elim (Bool-cases (ltb (f v) log_ring)) [
  | inl t ↦ rw (t, update_same f v (f v + 1)) (ground arith)
  | inr e ↦ rw e (ground arith)
]

kept_apart :
    (f : ℕ → ℕ) (v w : ℕ) → v ≢ w → (if ltb (f v) log_ring then update f v (f v + 1) else f) w ≡ f w
kept_apart f v w h = elim (Bool-cases (ltb (f v) log_ring)) [
  | inl t ↦ rw (t, update_other f v (f v + 1) w h) refl
  | inr e ↦ rw e refl
]

own_slot :
    (l : Log) (v n : ℕ) (rows : ℕ → Row) (x : Row) (j : ℕ)
    → KeepsView l v n rows
    → n + 1 ≤ j + kept (n + 1)
    → j < n + 1
    → update l.attic (slot v (l.total v)) x (slot v j) ≡ update rows n x j
unfolding KeepsView kept
own_slot l v n rows x j h p q = elim (dec_lt j n) [
  | no z ↦
      let e : j ≡ n = omega arith in
      rw (e, h.0, slot-mod v n, update_same l.attic (slot v n) x, update_same rows n x) refl
  | yes y ↦
      let d : slot v (n % 2 ^ 16) ≢ slot v j = slot_fresh v n j y (kept_bound n j p) in
      let ne : n ≢ j = λ c. omega arith in
      rw
        (h.0, update_other l.attic (slot v (n % 2 ^ 16)) x (slot v j) d, update_other rows n x j ne)
        (h.2 j (kept_next n j p) y)
]

own :
    (l : Log) (v n : ℕ) (rows : ℕ → Row) (row : Str)
    → KeepsView l v n rows
    → KeepsView (log_row l v row) v (n + 1) (update rows n (pending l row))
unfolding KeepsView log_row
own l v n rows row h = (
  rw (update_same l.total v ((l.total v + 1) % 2 ^ 16), h.0) (omega arith),
  kept_step l.have v n h.1,
  λ j p q. own_slot l v n rows (pending l row) j h p q,
)

other :
    (l : Log) (v w n : ℕ) (rows : ℕ → Row) (row : Str)
    → v ≢ w
    → KeepsView l w n rows
    → KeepsView (log_row l v row) w n rows
unfolding KeepsView log_row
other l v w n rows row ne h = (
  rw (update_other l.total v ((l.total v + 1) % 2 ^ 16) w ne) h.0,
  kept_apart l.have v w ne ∙ h.1,
  λ j p q.
      rw
        (update_other l.attic (slot v (l.total v)) (pending l row) (slot w j)
          (slot_foreign v w (l.total v) j ne))
        (h.2 j p q),
)

-- In a log that keeps the last rows of every view, logging a row to `v` adds it, with the span that
-- was pending, to what the ring of `v` keeps, and no other view's ring changes.
pub log_row-Keeps :
    (l : Log) (count : ℕ → ℕ) (rows : ℕ → ℕ → Row) (v : ℕ) (row : Str)
    → Keeps l count rows
    → Keeps
        (log_row l v row)
        (update count v (count v + 1))
        (update rows v (update (rows v) (count v) (pending l row)))
unfolding Keeps
log_row-Keeps l count rows v row h w = elim (Bool-cases (v == w)) [
  | inl t ↦
      let e : v ≡ w = ground arith in
      subst
        (λ z.
          KeepsView (log_row l v row) z (update count v (count v + 1) z)
            (update rows v (update (rows v) (count v) (pending l row)) z))
        e
        (rw
          (
            update_same count v (count v + 1),
            update_same rows v (update (rows v) (count v) (pending l row)),
          )
          (own l v (count v) (rows v) row (h v)))
  | inr t ↦
      let ne : v ≢ w = λ c. ground arith in
      rw
        (
          update_other count v (count v + 1) w ne,
          update_other rows v (update (rows v) (count v) (pending l row)) w ne,
        )
        (other l v w (count w) (rows w) row ne (h w))
]

-- Clearing a view empties what its ring keeps, and no other view's ring changes.
log_clear-Keeps :
    (l : Log) (count : ℕ → ℕ) (rows : ℕ → ℕ → Row) (v : ℕ)
    → Keeps l count rows
    → Keeps (log_clear l v) (update count v 0) rows
unfolding Keeps KeepsView log_clear kept
log_clear-Keeps l count rows v h w = elim (Bool-cases (v == w)) [
  | inl t ↦ rw t (refl, refl, λ j p q. absurd (omega arith))
  | inr t ↦ rw t (h w)
]

-- The rows that a screen of `n` shows from the row `top` on, of `kept count` that stand in the ring.
unfoldable pub window : (ℕ → Row) → ℕ → ℕ → ℕ → ℕ → List Drawn
unfolding paint kept
window rows background count top zero = []
window rows background count top (suc n) =
    (if ltb top (kept count) then paint background (rows (count - kept count + top)) else blank)
    ∷ window rows background count (top + 1) n

kept_ring : (n : ℕ) → kept n ≤ log_ring
unfolding kept
kept_ring n = ground arith

kept_le : (n : ℕ) → kept n ≤ n
unfolding kept
kept_le n = ground arith

drawn_at :
    (l : Log) (background v count : ℕ) (rows : ℕ → Row) (i top : ℕ)
    → KeepsView l v count rows
    → i ≡ (count - kept count + top) % 2 ^ 16
    → (if ltb top (l.have v) then paint background (l.attic (slot v i)) else blank)
      ≡ (if ltb top (kept count) then paint background (rows (count - kept count + top)) else blank)
unfolding KeepsView
drawn_at l background v count rows i top h e = elim (Bool-cases (ltb top (kept count))) [
  | inl t ↦
      let k : kept count ≤ count = kept_le count in
      let j : top < kept count = ground arith in
      let r : l.attic (slot v (count - kept count + top)) ≡ rows (count - kept count + top) =
        h.2 (count - kept count + top) (omega arith) (omega arith) in
      rw (h.1, t, e, slot-mod v (count - kept count + top)) (ap (paint background) r)
  | inr t ↦ rw (h.1, t) refl
]

draw_rows-window :
    (l : Log) (background v count : ℕ) (rows : ℕ → Row) (i top n : ℕ)
    → KeepsView l v count rows
    → i ≡ (count - kept count + top) % 2 ^ 16
    → top + n < 2 ^ 16
    → draw_rows l background v i top n ≡ window rows background count top n
unfolding draw_rows window
draw_rows-window l background v count rows i top zero h e b = refl
draw_rows-window l background v count rows i top (suc n) h e b =
    let s : (top + 1) % 2 ^ 16 ≡ top + 1 = omega arith in
    let r : draw_rows l background v ((i + 1) % 2 ^ 16) (top + 1) n
        ≡ window rows background count (top + 1) n =
      draw_rows-window l background v count rows ((i + 1) % 2 ^ 16) (top + 1) n h (omega arith)
        (omega arith) in
    rw (s, r, drawn_at l background v count rows i top h e) refl

-- In a log that keeps the last rows of every view, drawing shows the rows of a view in their order,
-- from the row `top` of those kept on, each with the nick's span it was logged with, and blanks below
-- the last: for any number of rows ever logged, as long as `top` and the rows drawn fit 16 bits.
pub log_draw-Keeps :
    (l : Log) (count : ℕ → ℕ) (rows : ℕ → ℕ → Row) (background v top n : ℕ)
    → Keeps l count rows
    → top + n < 2 ^ 16
    → log_draw l background v top n ≡ window (rows v) background (count v) top n
unfolding log_draw Keeps KeepsView
log_draw-Keeps l count rows background v top n h b =
    let k : kept (count v) ≤ count v = kept_le (count v) in
    let m : kept (count v) ≤ log_ring = kept_ring (count v) in
    draw_rows-window l background v (count v) (rows v)
      ((l.total v + 2 ^ 16 - l.have v + top) % 2 ^ 16) top n (h v)
      (rw ((h v).0, (h v).1) (omega arith)) b
