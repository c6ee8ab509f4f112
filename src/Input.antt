-- ===== src/Input.antt =====
-- src/ircc.c: the line that is being typed, the lines before it, and the clock that is kept as digits.
-- The buffer is its 201 bytes, with the text up to the first NUL. Each slot of the history holds such a
-- buffer.
pub mod Buffer
pub mod Edit
pub mod History
pub mod Clocked
pub mod Secret
pub mod Cursor
pub mod Counts
mod Tests
use mega_irc.Common.{
  ℕ, zero, suc, ◌+◌, ◌-◌, ◌%◌, ◌^◌, Bool, true, false, not, ◌&&◌, List, [], ◌∷◌, Str, ltb, leb,
  ◌==◌, if◌then◌else◌, length, get_or, set,
}
use mega_irc.Irc.{take_until}
use mega_irc.Log.{update}

abbrev pub input_cap : ℕ
input_cap = 201

abbrev pub hist_max : ℕ
hist_max = 8

pub record Input : Type 0 where
  pub input : List ℕ
  pub input_len : ℕ
  pub input_pos : ℕ
  pub slots : ℕ → List ℕ
  pub hist_count : ℕ
  pub hist_at : ℕ

-- `for (i = ...; ...; i++) input[i] = input[i + 1]`, by the number of rounds.
pub shift_down : ℕ → ℕ → List ℕ → List ℕ
shift_down zero i b = b
shift_down (suc n) i b = shift_down n (i + 1) (set b i (get_or b (i + 1) 0))

-- `for (i = ...; ...; i--) input[i] = input[i - 1]`
pub shift_up : ℕ → ℕ → List ℕ → List ℕ
shift_up zero i b = b
shift_up (suc n) i b = shift_up n (i - 1) (set b i (get_or b (i - 1) 0))

unfoldable pub delete : Input → Input
unfolding shift_down
delete s =
    if s.input_pos == 0
    then s
    else (let pos = s.input_pos - 1 in
        record s {
          input_pos = pos;
          input = shift_down (s.input_len - pos) pos s.input;
          input_len = s.input_len - 1;
        })

unfoldable pub insert : ℕ → Input → Input
unfolding shift_up
insert k s =
    let b = shift_up (s.input_len - s.input_pos) s.input_len s.input in
    let len = (s.input_len + 1) % 2 ^ 8 in
    record s {
      input = set (set b s.input_pos k) len 0;
      input_pos = (s.input_pos + 1) % 2 ^ 8;
      input_len = len;
    }

unfoldable pub hist_add : Input → Input
hist_add s = record s {
  slots = update s.slots (s.hist_count % hist_max) s.input;
  hist_count = (s.hist_count + 1) % 2 ^ 8;
}

unfoldable pub cleared : Input → Input
cleared s = record s { input = set s.input 0 0; input_len = 0; input_pos = 0 }

unfoldable pub hist_recall : ℕ → Input → Input
unfolding cleared
hist_recall zero s = cleared s
hist_recall (suc back) s =
    let b =
      set (s.slots ((s.hist_count + 2 ^ 8 - suc back) % 2 ^ 8 % hist_max)) (input_cap - 1) 0 in
    let len = length (take_until 0 b) % 2 ^ 8 in
    record s { input = b; input_len = len; input_pos = len }

pub data Key : Type 0 where
  key_up key_down key_left key_right key_del : Key
  typed : ℕ → Key

-- The keys that change the line, but for RETURN.
unfoldable pub press : Key → Input → Input
press key_up s =
    let have = (if ltb s.hist_count hist_max then s.hist_count else hist_max) in
    if ltb s.hist_at have
    then hist_recall (s.hist_at + 1) (record s { hist_at = s.hist_at + 1 })
    else s
press key_down s =
    if s.hist_at == 0 then s else hist_recall (s.hist_at - 1) (record s { hist_at = s.hist_at - 1 })
press key_left s = if s.input_pos == 0 then s else record s { input_pos = s.input_pos - 1 }
press key_right s =
    if ltb s.input_pos s.input_len then record s { input_pos = s.input_pos + 1 } else s
press key_del s = delete s
press (typed k) s =
    if leb 0x20 k && ltb k 0x7f && ltb s.input_len (input_cap - 1) then insert k s else s

-- RETURN, around `typed_line`, which is handed the text: the line is kept, and a new one begins.
unfoldable pub enter : Input → Input
enter s = if s.input_len == 0 then s else cleared (record (hist_add s) { hist_at = 0 })

-- The session's clock: hours, minutes and seconds, each a byte.
pub record Uptime : Type 0 where
  pub up_h : ℕ
  pub up_m : ℕ
  pub up_s : ℕ

unfoldable pub tick : Uptime → Uptime
tick t =
    let s = (t.up_s + 1) % 2 ^ 8 in
    let m = (t.up_m + 1) % 2 ^ 8 in
    if s == 60
    then (if m == 60
        then record { up_h = (t.up_h + 1) % 2 ^ 8; up_m = 0; up_s = 0 }
        else record { up_h = t.up_h; up_m = m; up_s = 0 })
    else record { up_h = t.up_h; up_m = t.up_m; up_s = s }
