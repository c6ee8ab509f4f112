-- ===== src/Ignore.antt =====
-- src/m65/cmd.c: the ignore list, eight slots in far memory. A free slot is an empty name; its bytes
-- are zeros, or a name that never was.
pub mod Names
pub mod Sound
mod Tests
use mega_irc.Common.{
  ℕ, zero, suc, ◌+◌, ◌-◌, Bool, true, false, Option, none, some, List, [], ◌∷◌, Str, codes, ◌==◌,
  if◌then◌else◌, take, set, replicate,
}
use mega_irc.View.{same_ci}
use mega_irc.Session.Monad.{Session, M, ◌>>=◌, ◌>>◌, pure, gets, modify, when}
use mega_irc.Session.{say, lit}

abbrev pub ignore_max : ℕ
ignore_max = 8

abbrev pub ignore_slot : ℕ
ignore_slot = 17

unfoldable pub cmd_init : M (Unit {0})
cmd_init = modify λ s. record s { ignoring = replicate ignore_max [] }

-- `say(view_active, …)`
unfoldable pub say_here : Option Str → Option Str → Option Str → M (Unit {0})
say_here a b c = do active ← gets λ s. s.views.view_active; say active a b c

unfoldable pub usage : Str → M (Unit {0})
usage text = say_here (lit (codes "-- ")) (some text) none

unfoldable pub set_slot : ℕ → Str → M (Unit {0})
set_slot i name = modify λ s. record s { ignoring = set s.ignoring i name }

-- How the walk over the list ends: at the slot of the name, or behind the last slot with the number
-- of the names told and the first free slot.
pub data Walk : Type 0 where
  at_slot : ℕ → Walk
  at_end : ℕ → ℕ → Walk

-- An argument is looked for; the free slot is `ignore_max` until one is met.
unfoldable pub find_slot : ℕ → List Str → Str → ℕ → Walk
find_slot i [] arg free = at_end 0 free
find_slot i ([] ∷ names) arg free =
    find_slot (i + 1) names arg (if free == ignore_max then i else free)
find_slot i ((c ∷ name) ∷ names) arg free =
    if same_ci (some (c ∷ name)) (some arg) then at_slot i else find_slot (i + 1) names arg free

-- Without an argument every name is told.
pub tell_names : List Str → M ℕ
tell_names [] = pure 0
tell_names ([] ∷ names) = tell_names names
tell_names ((c ∷ name) ∷ names) = do
  say_here (lit (codes "-- ignoring ")) (some (c ∷ name)) none
  n ← tell_names names
  pure (n + 1)

unfoldable pub ignore_list : M (Unit {0})
unfolding tell_names
ignore_list = do
  names ← gets λ s. s.ignoring
  n ← tell_names names
  when (n == 0) (usage (codes "ignoring nobody; /ignore nick adds, /ignore -nick removes"))

unfoldable pub on_walk : Bool → Str → Walk → M (Unit {0})
on_walk true arg (at_slot i) = do
  set_slot i []
  say_here (lit (codes "-- no longer ignoring ")) (some arg) none
on_walk false arg (at_slot i) = say_here (lit (codes "-- already ignoring ")) (some arg) none
on_walk true arg (at_end n free) = say_here (lit (codes "-- not ignoring ")) (some arg) none
on_walk false arg (at_end n free) =
    if free == ignore_max then usage (codes "the ignore list is full") else do
      set_slot free (take (ignore_slot - 1) arg)
      say_here (lit (codes "-- ignoring ")) (some arg) none

unfoldable pub ignore_name : Bool → Str → M (Unit {0})
unfolding find_slot
ignore_name remove [] = ignore_list
ignore_name remove (c ∷ arg) = do
  names ← gets λ s. s.ignoring
  on_walk remove (c ∷ arg) (find_slot 0 names (c ∷ arg) ignore_max)

-- A minus in front removes.
unfoldable pub ignore_cmd : Str → M (Unit {0})
ignore_cmd [] = ignore_name false []
ignore_cmd (c ∷ arg) = if c == b'-' then ignore_name true arg else ignore_name false (c ∷ arg)
