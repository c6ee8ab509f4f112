-- ===== src/Session/Sound.antt =====
-- src/ircc.c: the invariant of a session, and what every handler is built from.
use mega_irc.Common.{
  ℕ, zero, suc, ◌+◌, ◌*◌, ◌%◌, ◌^◌, ◌≤◌, ◌<◌, Option, none, some, [], ◌∷◌, ◌++◌, ◌≡◌, inl, inr,
  refl, arith, Str, length, get_elem?, Bool-cases, ◌==◌, if◌then◌else◌,
}
use native.Mathlib.Decide.{dec_lt}
use mega_irc.Ui.{ui_cat}
use mega_irc.Client.{shown_room, from_start, compose, fold, send3_text}
use mega_irc.View.{Views, view_none, view_find, view_open, view_show, view_close}
use mega_irc.View.Use.{KeysMatch}
use mega_irc.View.Order.{view_open-KeysMatch}
use mega_irc.View.Close.{view_close-KeysMatch, view_show-KeysMatch}
use mega_irc.View.Shape.{
  view_line_lem, KeysMatch-SameShape, ShortNamed, ShortNamed-SameShape, view_show-ShortNamed,
  view_open-ShortNamed, view_close-ShortNamed,
}
use mega_irc.Session.Monad.{Session, modify}
use mega_irc.Session.Keeps.{
  Keeps, Keeps-pure, Keeps-gets, Keeps-if, Keeps-modify, Keeps-bind, keeps_rules,
}
use mega_irc.Session.{
  put_line, say, nick_span, span_of, mark_nick, or_empty, say_text, send_all, send3, send,
  ui_status, open_view, view_for, show_view, close_view,
}

-- The keys and the slots in use go together, and the names of the views, the nick and the password
-- fit their buffers.
pub record IsSound (s : Session) : Type 0 where
  pub keys : KeysMatch s.views
  pub names : ShortNamed s.views
  pub nick_fits : length s.nick ≤ 16
  pub nspass_fits : length s.nspass ≤ 32

-- A text whose length fits the byte that the nick's loop counts in.
abbrev pub Short : Option Str → Type 0
Short none = Unit {0}
Short (some b) = length b < 256

with_views :
    (s : Session) (w : Views)
    → IsSound s
    → KeysMatch w
    → ShortNamed w
    → IsSound (record s { views = w })
with_views s w h k n = record {
  keys = k;
  names = n;
  nick_fits = h.nick_fits;
  nspass_fits = h.nspass_fits;
}

pub Keeps-put_line : (v : ℕ) (text : Str) → Keeps IsSound (put_line v text)
unfolding put_line
Keeps-put_line v text = record {
  at = λ s h.
      let (w, e, same) = view_line_lem s.views v text in
      (
        tt,
        record s { views = w },
        rw (e, put_line) refl,
        with_views s w h (KeysMatch-SameShape s.views w same h.keys)
            (ShortNamed-SameShape s.views w same h.names),
      );
}

pub Keeps-say : (v : ℕ) (a b c : Option Str) → Keeps IsSound (say v a b c)
unfolding say
Keeps-say v a b c = Keeps-put_line v (compose a b c).text

-- The log keeps where the nick stands; no key, slot or name is touched.
marked_keys : (n : ℕ) (r : ℕ × ℕ) (w : Views) → KeysMatch w → KeysMatch (mark_nick n r w)
unfolding mark_nick
marked_keys n (h, m) w k =
    KeysMatch-SameShape w _
      (record { order = refl; active = refl; used = λ v. refl; name = λ v. refl }) k

marked_names : (n : ℕ) (r : ℕ × ℕ) (w : Views) → ShortNamed w → ShortNamed (mark_nick n r w)
unfolding mark_nick
marked_names n (h, m) w k = k

get_elem?-past : (b : Str) → get_elem? b (length b) ≡ none
get_elem?-past [] = refl
get_elem?-past (x ∷ b) = get_elem?-past b

get_elem?-below : (b : Str) (n : ℕ) → n < length b → (c : ℕ) × (get_elem? b n ≡ some c)
get_elem?-below [] n h = elim h [ ]
get_elem?-below (x ∷ b) zero h = (x, refl)
get_elem?-below (x ∷ b) (suc n) h = get_elem?-below b n (omega arith)

-- The loop over a nick ends within its fuel if the NUL stands below 256.
nick_span_ends :
    (f : ℕ) (b : Str) (h n : ℕ)
    → length b < 256
    → n ≤ length b
    → length b < n + f
    → (r : ℕ × ℕ) × (nick_span f b h n ≡ some r)
unfolding nick_span
nick_span_ends zero b h n l m e = absurd (omega arith)
nick_span_ends (suc f) b h n l m e = elim (dec_lt n (length b)) [
  | yes p ↦
      let (c, g) = get_elem?-below b n p in
      let (r, k) =
        nick_span_ends f b ((h * 5 + c) % 2 ^ 8) ((n + 1) % 2 ^ 8) l (omega arith) (omega arith) in
      (r, rw (g, nick_span) k)
  | no p ↦
      let q : n ≡ length b = omega arith in
      let g : get_elem? b n ≡ none = rw q (get_elem?-past b) in ((h, n), rw (g, nick_span) refl)
]

-- For a longer text it never does, whatever the fuel.
nick_span_spins : (f : ℕ) (b : Str) (h n : ℕ) → 256 ≤ length b → n < 256 → nick_span f b h n ≡ none
unfolding nick_span
nick_span_spins zero b h n l m = refl
nick_span_spins (suc f) b h n l m =
    let (c, g) = get_elem?-below b n (omega arith) in
    rw (g, nick_span) (nick_span_spins f b ((h * 5 + c) % 2 ^ 8) ((n + 1) % 2 ^ 8) l (omega arith))

span-spins : (b : Str) → 256 ≤ length b → span_of (some b) ≡ none
unfolding span_of
span-spins b h = nick_span_spins 257 b 0 0 h (omega arith)

pub say_text-spins :
    (v : ℕ) (a c text : Option Str) (b : Str) (s : Session)
    → 256 ≤ length b
    → say_text v a (some b) c text s ≡ none
unfolding say_text
say_text-spins v a c text b s h = rw (span-spins b h, say_text) refl

span_of_lem : (b : Option Str) → Short b → (r : ℕ × ℕ) × (span_of b ≡ some r)
unfolding span_of
span_of_lem none h = ((0, 0), refl)
span_of_lem (some b) h = nick_span_ends 257 b 0 0 h (omega arith) (omega arith)

pub Keeps-say_text :
    (v : ℕ) (a b c text : Option Str) → Short b → Keeps IsSound (say_text v a b c text)
unfolding say_text
Keeps-say_text v a b c text short = record {
  at = λ s h.
      let (r, e) = span_of_lem b short in
      let p = ui_cat (from_start shown_room) a in
      let t : Session = record s { views = mark_nick (length p.text) r s.views } in
      let ht : IsSound t = record {
        keys = marked_keys (length p.text) r s.views h.keys;
        names = marked_names (length p.text) r s.views h.names;
        nick_fits = h.nick_fits;
        nspass_fits = h.nspass_fits;
      } in
      let k = Keeps-put_line v (fold (ui_cat (ui_cat p b) c) (or_empty text)).text in
      let (x, u, q, z) = k.at t ht in (x, u, rw (e, say_text) q, z);
}

pub Keeps-send_all : (text : Str) → Keeps IsSound (send_all text)
unfolding send_all
Keeps-send_all text = record {
  at = λ s h. (
    s.accepts (length s.sent),
    record s {
      sent = s.sent ++ text ∷ [];
      tx_lines = (if s.accepts (length s.sent) then (s.tx_lines + 1) % 2 ^ 32 else s.tx_lines);
    },
    refl,
    record { keys = h.keys; names = h.names; nick_fits = h.nick_fits; nspass_fits = h.nspass_fits },
  );
}

Keeps-send3 : (a b c : Option Str) → Keeps IsSound (send3 a b c)
unfolding send3
Keeps-send3 a b c = Keeps-send_all (send3_text a b c)

pub Keeps-send : (a b c : Option Str) → Keeps IsSound (send a b c)
unfolding send
Keeps-send a b c = Keeps-bind (send3 a b c) _ (Keeps-send3 a b c) (λ _. Keeps-pure tt)

-- A change that leaves the views, the nick and the password alone.
pub Keeps-aside :
    (f : Session → Session)
    → ((s : Session) → ((f s).views ≡ s.views) × ((f s).nick ≡ s.nick) × ((f s).nspass ≡ s.nspass))
    → Keeps IsSound (modify f)
Keeps-aside f k = Keeps-modify f λ s h.
    let (v, n, p) = k s in
    record {
      keys = rw v h.keys;
      names = rw v h.names;
      nick_fits = rw n h.nick_fits;
      nspass_fits = rw p h.nspass_fits;
    }

pub Keeps-ui_status : (a b : Option Str) → Keeps IsSound (ui_status a b)
unfolding ui_status
Keeps-ui_status a b = Keeps-aside _ λ s. (refl, refl, refl)

pub Keeps-open_view : (name : Str) → Keeps IsSound (open_view name)
unfolding open_view
Keeps-open_view name = record {
  at = λ s h.
      let w : Views = (view_open s.views name).0 in
      (
        (view_open s.views name).1,
        record s { views = w },
        refl,
        with_views s w h (view_open-KeysMatch s.views name h.keys)
            (view_open-ShortNamed s.views name h.names),
      );
}

pub Keeps-view_for : (name : Str) → Keeps IsSound (view_for name)
unfolding view_for
Keeps-view_for name = record {
  at = λ s h. elim (Bool-cases (view_find s.views (some name) == view_none)) [
    | inl e ↦ rw e ((Keeps-open_view name).at s h)
    | inr e ↦ rw e (view_find s.views (some name), s, refl, h)
  ];
}

pub Keeps-show_view : (v : ℕ) → Keeps IsSound (show_view v)
unfolding show_view
Keeps-show_view v = Keeps-modify _ λ s h.
    with_views s (view_show s.views v) h (view_show-KeysMatch s.views v h.keys)
      (view_show-ShortNamed s.views v h.names)

pub Keeps-close_view : (v : ℕ) → Keeps IsSound (close_view v)
unfolding close_view
Keeps-close_view v = Keeps-modify _ λ s h.
    with_views s (view_close s.views v) h (view_close-KeysMatch s.views v h.keys)
      (view_close-ShortNamed s.views v h.names)

pub ruleset session_rules = (
  keeps_rules, Keeps-say, Keeps-send, Keeps-send_all, Keeps-ui_status, Keeps-open_view,
  Keeps-view_for, Keeps-show_view, Keeps-close_view, Keeps-put_line, Keeps-say_text,
)
