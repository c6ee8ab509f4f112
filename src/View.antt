-- ===== src/View.antt =====
-- src/m65/view.c: the views, the order of their keys, their rows and how far each is scrolled back.
-- What the screen then shows is the rows of `log_draw` (src/m65/log.c); the copies that scroll the
-- screen in place, the colours of the area and the bar's painting are not here. The number of rows of
-- the chat area comes from the screen's mode, and is an argument.
pub mod Use
pub mod Init
pub mod Order
pub mod Close
pub mod Wrap
pub mod Scroll
pub mod Shape
mod Tests
use mega_irc.Common.{
  ℕ, zero, suc, ◌+◌, ◌-◌, ◌*◌, ◌%◌, ◌^◌, Bool, true, false, ◌&&◌, ◌||◌, not, Option, none, some,
  List, [], ◌∷◌, ◌++◌, Str, codes, ltb, leb, ◌==◌, if◌then◌else◌, length, take, drop, map,
  replicate, lower, get_or, get_elem?, ◌>>=◌,
}
use mega_irc.Screen.{m65_ascii_to_screencode}
use mega_irc.Log.{Log, log_clear, log_row, log_count, update}

abbrev pub view_max : ℕ
view_max = 8

abbrev pub view_none : ℕ
view_none = 0xff

abbrev pub view_name_cap : ℕ
view_name_cap = 33

abbrev pub row_width : ℕ
row_width = 80

-- `view`
pub record View : Type 0 where
  pub name : Str
  pub back : ℕ
  pub used : Bool
  pub unread : Bool

-- `order` holds the first `positions` entries of the array.
pub record Views : Type 0 where
  pub views : ℕ → View
  pub view_active : ℕ
  pub order : List ℕ
  pub log : Log

-- The compare: ASCII case folded, both texts to their ends.
same_folded : Str → Str → Bool
same_folded [] [] = true
same_folded [] (y ∷ b) = false
same_folded (x ∷ a) [] = false
same_folded (x ∷ a) (y ∷ b) = if lower x == lower y then same_folded a b else false

unfoldable pub same_ci : Option Str → Option Str → Bool
unfolding same_folded
same_ci none b = false
same_ci (some a) none = false
same_ci (some a) (some b) = same_folded a b

-- `view_show`, less what it draws.
unfoldable pub view_show : Views → ℕ → Views
view_show s v = if leb view_max v || not (s.views v).used then s else record s {
  view_active = v;
  views = update s.views v (record (s.views v) { unread = false });
}

-- `n` slots from `v` on are put out of use, their logs empty.
pub clear_slots : ℕ → ℕ → Views → Views
clear_slots v zero s = s
clear_slots v (suc n) s = clear_slots (v + 1) n (record s {
  views = update s.views v (record (s.views v) { used = false });
  log = log_clear s.log v;
})

unfoldable pub view_init : Views → Views
unfolding clear_slots
view_init s =
    let t = clear_slots 0 view_max s in
    let status : View = record (t.views 0) { used = true; name = codes "status" } in
    view_show (record t { order = 0 ∷ []; views = update t.views 0 status }) 0

-- The first slot from `v` on, of `n`, that passes a test.
pub first_slot : (ℕ → Bool) → ℕ → ℕ → Option ℕ
first_slot test v zero = none
first_slot test v (suc n) = if test v then some v else first_slot test (v + 1) n

-- A slot that was found is set up: its name, its log, and the next key.
pub open_slot : Views → Str → Option ℕ → Views × ℕ
open_slot s name none = (s, view_none)
open_slot s name (some v) =
    let fresh : View = record {
      name = take (view_name_cap - 1) name;
      back = 0;
      used = true;
      unread = false;
    } in
    (
      record s {
        views = update s.views v fresh;
        log = log_clear s.log v;
        order = s.order ++ v ∷ [];
      },
      v,
    )

unfoldable pub view_open : Views → Str → Views × ℕ
unfolding open_slot first_slot
view_open s name = open_slot s name (first_slot (λ v. not (s.views v).used) 1 7)

-- The positions from 1 on: the one of `v` is taken out, and the ones after it step down. Where none
-- shows `v` the last is lost.
pub step_down : ℕ → List ℕ → List ℕ
step_down v [] = []
step_down v (o ∷ []) = []
step_down v (o ∷ p ∷ os) = if o == v then p ∷ os else o ∷ step_down v (p ∷ os)

pub close_order : ℕ → List ℕ → List ℕ
unfolding step_down
close_order v [] = []
close_order v (o ∷ []) = []
close_order v (o ∷ p ∷ os) = o ∷ step_down v (p ∷ os)

unfoldable pub view_close : Views → ℕ → Views
unfolding close_order
view_close s v =
    if v == 0 || leb view_max v || not (s.views v).used
    then s
    else (let t : Views = record s {
      views = update s.views v (record (s.views v) { used = false });
      order = close_order v s.order;
    } in
        if s.view_active == v then view_show t 0 else t)

-- The slot of a name, or `view_none`.
or_none : Option ℕ → ℕ
or_none none = view_none
or_none (some v) = v

unfoldable pub view_find : Views → Option Str → ℕ
unfolding first_slot or_none
view_find s name =
    or_none (first_slot (λ v. (s.views v).used && same_ci (some (s.views v).name) name) 1 7)

unfoldable pub view_at : Views → ℕ → ℕ
unfolding or_none
view_at s pos = or_none (get_elem? s.order pos)

-- `view_scroll`: how far back the showing view then is. The argument is signed: up, or down.
pub data Rows : Type 0 where
  back_by forth_by : ℕ → Rows

pub scrolled : ℕ → Rows → ℕ
scrolled back (back_by zero) = 0
scrolled back (back_by (suc n)) = back + suc n
scrolled back (forth_by zero) = 0
scrolled back (forth_by (suc n)) = back - suc n

-- The oldest row at the top of the area, no further.
pub clamped : ℕ → ℕ → ℕ → ℕ
clamped count rows back =
    let most = if ltb rows count then count - rows else 0 in if ltb most back then most else back

unfoldable pub view_scroll : Views → ℕ → Rows → Views
unfolding scrolled clamped
view_scroll s rows by =
    let v = s.views s.view_active in
    let back = clamped (log_count s.log s.view_active) rows (scrolled v.back by) in
    record s { views = update s.views s.view_active (record v { back = back }) }

-- The rows that `redraw` shows: from which one on, and how many.
pub shown_rows : ℕ → ℕ → ℕ × ℕ
shown_rows rows avail = if ltb rows avail then (avail - rows, rows) else (0, avail)

unfoldable pub redraw : Views → ℕ → ℕ × ℕ
unfolding shown_rows
redraw s rows =
    let count = log_count s.log s.view_active in
    let back = (s.views s.view_active).back in
    shown_rows rows (if ltb back count then count - back else 0)

-- A row as it is logged: its codes, and blanks up to the screen's width.
pub padded : Str → Str
padded r = r ++ replicate (row_width - length r) 0x20

-- The rows behind a line's first, indented by two, on fuel; `none` means that it ran out.
pub more_rows : ℕ → Str → Option (List Str)
unfolding padded
more_rows zero s = none
more_rows (suc f) [] = some []
more_rows (suc f) (c ∷ s) = do
  rest ← more_rows f (drop 77 (c ∷ s))
  some (padded (0x20 ∷ 0x20 ∷ map m65_ascii_to_screencode (take 77 (c ∷ s))) ∷ rest)

-- The rows of a line, wrapped at 79 columns.
unfoldable pub line_rows : Str → Option (List Str)
unfolding more_rows padded
line_rows s = do
  rest ← more_rows (suc (length s)) (drop 79 s)
  some (padded (map m65_ascii_to_screencode (take 79 s)) ∷ rest)

pub log_rows : Log → ℕ → List Str → Log
log_rows l v [] = l
log_rows l v (r ∷ rs) = log_rows (log_row l v r) v rs

-- The rows are logged, and a view that is not showing is marked as unread.
unfoldable pub view_line : Views → ℕ → Str → Option Views
unfolding log_rows
view_line s v text = do
  rows ← line_rows text
  let w : ℕ = if leb view_max v || not (s.views v).used then 0 else v
  let views : ℕ → View =
      (if not (w == s.view_active) && not (s.views w).unread
        then update s.views w (record (s.views w) { unread = true })
        else s.views)
  some (record s { log = log_rows s.log w rows; views = views })
