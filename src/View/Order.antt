-- ===== src/View/Order.antt =====
-- src/m65/view.c: opening a view keeps the keys and the slots in use together.
use mega_irc.Common.{
  ℕ, ◌+◌, false, not, Option, none, some, [], ◌∷◌, ◌++◌, ◌≡◌, refl, sym, ap, ◌∙◌, arith, Str, ◌==◌,
  if◌then◌else◌,
}
use mega_irc.View.{Views, first_slot, open_slot, view_open}
use mega_irc.View.Use.{KeysOf, KeysMatch, count_of-append, first_slot-some, use_more, still_used}

opened :
    (s : Views) (name : Str) (o : Option ℕ)
    → first_slot (λ v. not (s.views v).used) 1 7 ≡ o
    → KeysMatch s
    → KeysMatch (open_slot s name o).0
unfolding KeysMatch KeysOf open_slot
opened s name none q k = k
opened s name (some v) q ((rest, o, c, z), a) =
    let (lo, hi, free) = first_slot-some (λ v. not (s.views v).used) 1 7 q in
    let f : (s.views v).used ≡ false = ground (arith, free) in
    (
      (
        rest ++ v ∷ [],
        ap (λ os. os ++ v ∷ []) o,
        λ w.
            count_of-append w rest v
            ∙ ap (λ n. n + (if v == w then 1 else 0)) (c w)
            ∙ sym (use_more s.views v w _ (omega arith) (omega arith) f refl),
        still_used s.views v 0 _ z (λ e. refl),
      ),
      still_used s.views v s.view_active _ a (λ e. refl),
    )

-- Opening a view keeps the keys and the slots in use together, whether a slot was free or not.
pub view_open-KeysMatch : (s : Views) (name : Str) → KeysMatch s → KeysMatch (view_open s name).0
unfolding view_open
view_open-KeysMatch s name k = opened s name (first_slot (λ v. not (s.views v).used) 1 7) refl k
