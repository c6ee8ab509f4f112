-- ===== src/Stream/Tests.antt =====
-- `on_bytes` at concrete bytes.
use mega_irc.Common.{◌%◌, ◌^◌, [], ◌∷◌, ◌≡◌, refl, arith, codes}
use mega_irc.Irc.{take_until}
use mega_irc.Stream.{on_bytes}
use mega_irc.Stream.Lines.{between_lines, wire, on_bytes-wire}

-- A bare newline ends a line too, and one carriage return of two is taken.
bytes_endings :
    on_bytes (between_lines 0) (codes "a\nb\r\r\nc")
    ≡ (record { line = codes "c"; rx_lines = 2 }, codes "a" ∷ codes "b\r" ∷ [])
unfolding on_bytes take_until
bytes_endings = refl

on_bytes-wire_example :
    on_bytes (between_lines 7) (wire (codes "A" ∷ [] ∷ []))
    ≡ (between_lines (9 % 2 ^ 32), codes "A" ∷ [] ∷ [])
on_bytes-wire_example =
    on_bytes-wire (codes "A" ∷ [] ∷ []) 7
      (
        (omega arith, ((λ q. omega arith), tt), ((λ q. omega arith), tt)),
        ((omega arith, tt, tt), tt),
      )
      (omega arith)
