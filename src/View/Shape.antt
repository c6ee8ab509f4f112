-- ===== src/View/Shape.antt =====
-- src/m65/view.c: what a line into a view leaves alone, and the lengths of the views' names.
use mega_irc.Common.{
  ℕ, ◌≤◌, Bool, true, false, not, ◌&&◌, ◌||◌, Option, none, some, ◌≡◌, ◌∙◌, inl, inr, refl, sym, ap,
  arith, Str, length, length-take, leb, ◌==◌, if◌then◌else◌, Bool-cases,
}
use mega_irc.Log.{update}
use mega_irc.View.{
  View, Views, view_max, view_line, view_show, view_open, open_slot, view_close, close_order,
  first_slot, log_rows,
}
use mega_irc.View.Use.{KeysOf, KeysMatch, same_use}
use mega_irc.View.Wrap.{line_rows_lem}

-- The keys, the view on the screen, and every slot's use and name are the same.
pub record SameShape (s t : Views) : Type 0 where
  pub order : t.order ≡ s.order
  pub active : t.view_active ≡ s.view_active
  pub used : (v : ℕ) → (t.views v).used ≡ (s.views v).used
  pub name : (v : ℕ) → (t.views v).name ≡ (s.views v).name

marked : (views : ℕ → View) (v : ℕ) (b : Bool) → ℕ → View
marked views v b = if b then update views v (record (views v) { unread = true }) else views

marked-used :
    (views : ℕ → View) (v : ℕ) (b : Bool) (w : ℕ) → (marked views v b w).used ≡ (views w).used
unfolding marked
marked-used views v false w = refl
marked-used views v true w = elim (Bool-cases (v == w)) [
  | inl e ↦ (let same : v ≡ w = ground (arith, e) in rw e (ap (λ y. (views y).used) same))
  | inr e ↦ rw e refl
]

marked-name :
    (views : ℕ → View) (v : ℕ) (b : Bool) (w : ℕ) → (marked views v b w).name ≡ (views w).name
unfolding marked
marked-name views v false w = refl
marked-name views v true w = elim (Bool-cases (v == w)) [
  | inl e ↦ (let same : v ≡ w = ground (arith, e) in rw e (ap (λ y. (views y).name) same))
  | inr e ↦ rw e refl
]

-- `view_line` comes back for every text, and leaves the shape alone.
pub view_line_lem :
    (s : Views) (v : ℕ) (text : Str) → (t : Views) × (view_line s v text ≡ some t) × SameShape s t
unfolding view_line marked
view_line_lem s v text =
    let (rows, _, q, _, _) = line_rows_lem text in
    let w : ℕ = if leb view_max v || not (s.views v).used then 0 else v in
    let b : Bool = not (w == s.view_active) && not (s.views w).unread in
    (
      record s { log = log_rows s.log w rows; views = marked s.views w b },
      rw q refl,
      record {
        order = refl;
        active = refl;
        used = marked-used s.views w b;
        name = marked-name s.views w b;
      },
    )

pub KeysMatch-SameShape : (s t : Views) → SameShape s t → KeysMatch s → KeysMatch t
unfolding KeysMatch KeysOf
KeysMatch-SameShape s t h ((rest, o, c, z), a) = (
  (
    rest,
    h.order ∙ o,
    λ v. c v ∙ ap (λ (b : Bool). if b then 1 else 0) (sym (same_use t.views s.views h.used v)),
    h.used 0 ∙ z,
  ),
  ap (λ v. (t.views v).used) h.active ∙ h.used s.view_active ∙ a,
)

-- No name is longer than 32 bytes.
abbrev pub ShortNamed : Views → Type 0
ShortNamed s = (v : ℕ) → length (s.views v).name ≤ 32

pub ShortNamed-SameShape : (s t : Views) → SameShape s t → ShortNamed s → ShortNamed t
ShortNamed-SameShape s t h k v = rw (h.name v) (k v)

updated :
    (views : ℕ → View) (v : ℕ) (x : View) (w : ℕ)
    → length x.name ≤ 32
    → length (views w).name ≤ 32
    → length (update views v x w).name ≤ 32
updated views v x w h k = elim (Bool-cases (v == w)) [ inl e ↦ rw e h | inr e ↦ rw e k ]

pub view_show-ShortNamed : (s : Views) (v : ℕ) → ShortNamed s → ShortNamed (view_show s v)
unfolding view_show
view_show-ShortNamed s v k w = elim (Bool-cases (leb view_max v || not (s.views v).used)) [
  | inl e ↦ rw e (k w)
  | inr e ↦ rw e (updated s.views v (record (s.views v) { unread = false }) w (k v) (k w))
]

opened_short :
    (s : Views) (name : Str) (o : Option ℕ) → ShortNamed s → ShortNamed (open_slot s name o).0
unfolding open_slot
opened_short s name none k w = k w
opened_short s name (some v) k w = updated s.views v _ w (omega (arith, length-take 32 name)) (k w)

pub view_open-ShortNamed : (s : Views) (name : Str) → ShortNamed s → ShortNamed (view_open s name).0
unfolding view_open
view_open-ShortNamed s name k = opened_short s name (first_slot (λ v. not (s.views v).used) 1 7) k

pub view_close-ShortNamed : (s : Views) (v : ℕ) → ShortNamed s → ShortNamed (view_close s v)
unfolding view_close
view_close-ShortNamed s v k =
    let t : Views = record s {
      views = update s.views v (record (s.views v) { used = false });
      order = close_order v s.order;
    } in
    let kt : ShortNamed t =
      λ w. updated s.views v (record (s.views v) { used = false }) w (k v) (k w) in
    elim (Bool-cases (v == 0 || leb view_max v || not (s.views v).used)) [
      | inl e ↦ rw e k
      | inr e ↦ rw e (elim (Bool-cases (s.view_active == v)) [
        | inl f ↦ rw f (view_show-ShortNamed t 0 kt)
        | inr f ↦ rw f kt
      ])
    ]
