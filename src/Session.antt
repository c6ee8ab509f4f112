-- ===== src/Session.antt =====
-- src/ircc.c: the session that lines from the server and typed lines change, and what both use of it:
-- text into a view, lines to the wire, the view of a name.
-- `sent` is every text that was handed to `conn_send`, and `accepts` says which of those calls
-- succeed: the connection is an environment here. `status` is the row that `ui_status` builds. The
-- buffers `shown` and `tmp` are values, since each is written whole before it is read.
pub mod Monad
pub mod Keeps
pub mod Sound
pub mod Sample
use mega_irc.Common.{
  ℕ, zero, suc, ◌+◌, ◌-◌, ◌*◌, ◌%◌, ◌^◌, Bool, true, false, Option, none, some, List, [], ◌∷◌, ◌++◌,
  Str, codes, ltb, ◌==◌, if◌then◌else◌, length, get_elem?,
}
use mega_irc.Ui.{Writer, ui_cat, build_row}
use mega_irc.Client.{shown_room, from_start, compose, send3_text, fold, is_channel}
use mega_irc.Log.{Log}
use mega_irc.View.{Views, view_none, view_line, view_find, view_open, view_show, view_close}
use mega_irc.Session.Monad.{Session, M, ◌>>=◌, ◌>>◌, pure, gets, modify, when}

-- `view_line`, as code that may not come back.
unfoldable pub put_line : ℕ → Str → M (Unit {0})
put_line v text s = elim (view_line s.views v text) [
  | none ↦ none
  | some w ↦ some (tt, record s { views = w })
]

unfoldable pub say : ℕ → Option Str → Option Str → Option Str → M (Unit {0})
say v a b c = put_line v (compose a b c).text

-- The loop over a nick: `n` and the hash are bytes, so from 256 bytes on `b[n]` never meets the NUL.
-- The fuel is the rounds.
pub nick_span : ℕ → Str → ℕ → ℕ → Option (ℕ × ℕ)
nick_span zero b h n = none
nick_span (suc f) b h n = elim (get_elem? b n) [
  | none ↦ some (h, n)
  | some c ↦ nick_span f b ((h * 5 + c) % 2 ^ 8) ((n + 1) % 2 ^ 8)
]

pub span_of : Option Str → Option (ℕ × ℕ)
unfolding nick_span
span_of none = some (0, 0)
span_of (some b) = nick_span 257 b 0 0

-- Where the nick stands in the row, for `log_row`.
pub mark_nick : ℕ → ℕ × ℕ → Views → Views
mark_nick at (h, n) w = record w {
  log = record (w.log) { log_nick_at = at; log_nick_len = n; log_nick_col = h % 8 };
}

-- A text from the server or the keyboard: null is the empty text.
abbrev pub or_empty : Option Str → Str
or_empty none = []
or_empty (some t) = t

unfoldable pub say_text : ℕ → Option Str → Option Str → Option Str → Option Str → M (Unit {0})
unfolding span_of mark_nick
say_text v a b c text s =
    let p = ui_cat (from_start shown_room) a in
    elim (span_of b) [
      | none ↦ none
      | some span ↦
          put_line v (fold (ui_cat (ui_cat p b) c) (or_empty text)).text
            (record s { views = mark_nick (length p.text) span s.views })
    ]

unfoldable pub send_all : Str → M Bool
send_all text s =
    let went = s.accepts (length s.sent) in
    some (
      went,
      record s {
        sent = s.sent ++ text ∷ [];
        tx_lines = (if went then (s.tx_lines + 1) % 2 ^ 32 else s.tx_lines);
      },
    )

unfoldable pub send3 : Option Str → Option Str → Option Str → M Bool
send3 a b c = send_all (send3_text a b c)

-- A line whose going is not looked at.
unfoldable pub send : Option Str → Option Str → Option Str → M (Unit {0})
send a b c = send3 a b c >>= λ _. pure tt

unfoldable pub ui_status : Option Str → Option Str → M (Unit {0})
ui_status a b = modify λ s. record s { status = build_row a b; status_ttl = 5 }

unfoldable pub view_of : Views → Option Str → ℕ
view_of w target =
    let v = (if is_channel target then view_find w target else view_none) in
    if v == view_none then 0 else v

unfoldable pub open_view : Str → M ℕ
open_view name s = let (w, v) = view_open s.views name in some (v, record s { views = w })

unfoldable pub view_for : Str → M ℕ
view_for name s =
    let v = view_find s.views (some name) in
    if v == view_none then open_view name s else some (v, s)

unfoldable pub show_view : ℕ → M (Unit {0})
show_view v = modify λ s. record s { views = view_show s.views v }

unfoldable pub close_view : ℕ → M (Unit {0})
close_view v = modify λ s. record s { views = view_close s.views v }

-- A C text literal.
abbrev pub lit : Str → Option Str
lit t = some t
