-- ===== src/Conn/Opened.antt =====
-- src/m65/conn.c: how `conn_open` ends.
use mega_irc.Common.{true, false, Option, none, some, ◌≡◌, Str}
use mega_irc.Conn.{Engine, Conn}
use mega_irc.Conn.Net.{Ends}
use mega_irc.Conn.Push.{EngineLaws}
use mega_irc.Conn.Ways.{IsSecure, Failed}

-- The same for what follows a dial that was answered.
data Secured (E : Engine) (host : Str) (now : Option Str) : Option Str → Conn E → Type 0 where
  good : {r : Conn E} → IsSecure E host now r → Secured E host now none r
  bad : {err : Str} {r : Conn E} → Failed E host now err r → Secured E host now (some err) r

module _ (E : Engine) (laws : EngineLaws E) (host : Str) (now : Option Str) where
  -- What is known once a dial was answered.
  record IsUnchecked (s : Conn E) : Type 0 where
    chain : s.conn_chain ≡ none
    retry : s.conn_retry ≡ false
    mode : s.tls_on ≡ true
    ends : Ends s.world
