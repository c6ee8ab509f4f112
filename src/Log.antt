-- ===== src/Log.antt =====
-- src/m65/log.c: the rows of every view, in a ring of the attic memory.
-- The attic is what stands at the address of each slot: the 80 screen codes of a row and the three
-- bytes of its nick's span, which are copied together. `log_init`, the memory test, is not here.
pub mod Slots
pub mod Ring
mod Tests
use mega_irc.Common.{
  ℕ, zero, suc, ◌+◌, ◌-◌, ◌*◌, ◌%◌, ◌^◌, Option, none, some, List, [], ◌∷◌, Str, ltb, ◌==◌,
  if◌then◌else◌, get_or,
}

abbrev pub log_ring : ℕ
log_ring = 8192

-- A slot's contents: the row, and where its nick stands, how long it is and in which colour.
pub record Row : Type 0 where
  pub codes : Str
  pub nick_at : ℕ
  pub nick_len : ℕ
  pub nick_col : ℕ

pub record Log : Type 0 where
  pub total : ℕ → ℕ
  pub have : ℕ → ℕ
  pub attic : ℕ → Row
  pub log_nick_at : ℕ
  pub log_nick_len : ℕ
  pub log_nick_col : ℕ

-- `a[i] = x`
abbrev pub update {ℓ} : {A : Type ℓ} → (ℕ → A) → ℕ → A → ℕ → A
update f i x j = if i == j then x else f j

-- The address of a slot: the base, a megabyte a view, 96 bytes a row.
unfoldable pub slot : ℕ → ℕ → ℕ
slot v i = 0x8000000 + v * 2 ^ 20 + i % log_ring * 96

unfoldable pub log_clear : Log → ℕ → Log
log_clear l v = record l { total = update l.total v 0; have = update l.have v 0 }

-- The row and the pending span go to the next slot, and the span is taken.
unfoldable pub log_row : Log → ℕ → Str → Log
log_row l v row =
    let stored : Row = record {
      codes = row;
      nick_at = l.log_nick_at;
      nick_len = l.log_nick_len;
      nick_col = l.log_nick_col;
    } in
    record l {
      attic = update l.attic (slot v (l.total v)) stored;
      total = update l.total v ((l.total v + 1) % 2 ^ 16);
      have = (if ltb (l.have v) log_ring then update l.have v (l.have v + 1) else l.have);
      log_nick_len = 0;
    }

unfoldable pub log_count : Log → ℕ → ℕ
log_count l v = l.have v

abbrev palette : List ℕ
palette = 3 ∷ 5 ∷ 7 ∷ 8 ∷ 10 ∷ 13 ∷ 14 ∷ 15 ∷ []

-- The colour of a nick: the hash's, or the next where that is the background's.
unfoldable pub nick_colour : ℕ → ℕ → ℕ
nick_colour background c =
    get_or palette ((if get_or palette (c % 8) 0 == background % 16 then c + 1 else c) % 8) 0

-- What `log_draw` puts on one screen row: the codes of a slot and the colour of its nick if it has
-- one, or blanks.
pub data Drawn : Type 0 where
  blank : Drawn
  shown : Row → Option ℕ → Drawn

paint : ℕ → Row → Drawn
paint background r =
    shown r (if r.nick_len == 0 then none else some (nick_colour background r.nick_col))

-- The loop: `i` is the slot's counter and `top` the row's number from the oldest kept.
draw_rows : Log → ℕ → ℕ → ℕ → ℕ → ℕ → List Drawn
unfolding paint
draw_rows l background v i top zero = []
draw_rows l background v i top (suc n) =
    (if ltb top (l.have v) then paint background (l.attic (slot v i)) else blank)
    ∷ draw_rows l background v ((i + 1) % 2 ^ 16) ((top + 1) % 2 ^ 16) n

-- `n` rows from the row `top` on, in the order of the screen.
unfoldable pub log_draw : Log → ℕ → ℕ → ℕ → ℕ → List Drawn
unfolding draw_rows
log_draw l background v top n =
    draw_rows l background v ((l.total v + 2 ^ 16 - l.have v + top) % 2 ^ 16) top n
