-- ===== src/Common/Case.antt =====
-- ASCII letters with their case folded.
use Prim.Native.Nat.{ℕ, ◌+◌}
use mathlib.Core.Bool.{◌&&◌}
use mega_irc.Common.Tests.{leb, if◌then◌else◌}

-- `if (a >= 'A' && a <= 'Z') a = a + 32`
unfoldable pub lower : ℕ → ℕ
lower a = if leb b'A' a && leb a b'Z' then a + 32 else a
