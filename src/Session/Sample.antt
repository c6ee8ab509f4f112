-- ===== src/Session/Sample.antt =====
-- src/ircc.c: a session that has just begun, for the tests.
use mega_irc.Common.{
  ℕ, false, [], ◌∷◌, ◌≡◌, inl, inr, refl, arith, codes, ◌==◌, if◌then◌else◌, replicate, Bool-cases,
}
use mega_irc.Log.{Log, Row}
use mega_irc.View.{Views}
use mega_irc.View.Use.{in_use, KeysOf, KeysMatch}
use mega_irc.View.Shape.{ShortNamed}
use mega_irc.Session.Monad.{Session}
use mega_irc.Session.Sound.{IsSound}

abbrev blank_row : Row
blank_row = record { codes = []; nick_at = 0; nick_len = 0; nick_col = 0 }

abbrev blank_log : Log
blank_log = record {
  total = λ v. 0;
  have = λ v. 0;
  attic = λ a. blank_row;
  log_nick_at = 0;
  log_nick_len = 0;
  log_nick_col = 0;
}

-- The status view alone is in use.
abbrev pub first_views : Views
first_views = record {
  views = λ v. record {
    name = (if v == 0 then codes "status" else []);
    back = 0;
    used = v == 0;
    unread = false;
  };
  view_active = 0;
  order = 0 ∷ [];
  log = blank_log;
}

-- The connection takes the first line and refuses those after it.
abbrev pub first_session : Session
first_session = record {
  views = first_views;
  nick = codes "mega";
  nspass = codes "secret";
  channel = [];
  sasl_ok = false;
  registered = false;
  quitting = false;
  tx_lines = 0;
  ignoring = replicate 8 [];
  status = [];
  status_ttl = 0;
  sent = [];
  accepts = λ n. n == 0;
}

alone : (v : ℕ) → in_use first_views.views v ≡ false
unfolding in_use
alone v = ground arith

first_names : ShortNamed first_views
first_names v = elim (Bool-cases (v == 0)) [
  | inl e ↦ rw e (omega arith)
  | inr e ↦ rw e (omega arith)
]

first_keys : KeysMatch first_views
unfolding KeysMatch KeysOf
first_keys = (([], refl, λ v. rw (alone v) refl, refl), refl)

pub first_session-IsSound : IsSound first_session
first_session-IsSound = record {
  keys = first_keys;
  names = first_names;
  nick_fits = omega arith;
  nspass_fits = omega arith;
}
