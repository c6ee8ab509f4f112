-- ===== src/Sasl/Tests.antt =====
-- `b64` at concrete bytes.
use mega_irc.Common.{[], ◌∷◌, ◌≡◌, refl, arith, codes}
use mega_irc.Sasl.{b64, b64_char}
use mega_irc.Sasl.Textbook.{textbook, b64-textbook}

b64_sam : b64 (codes "sam") 3 ≡ codes "c2Ft"
unfolding b64 b64_char
b64_sam = refl

b64_light : b64 (codes "light w") 7 ≡ codes "bGlnaHQgdw=="
unfolding b64 b64_char
b64_light = refl

b64-textbook_example : b64 (0 ∷ 255 ∷ []) 2 ≡ textbook (0 ∷ 255 ∷ [])
b64-textbook_example = b64-textbook (0 ∷ 255 ∷ []) (omega arith, (omega arith, tt)) (omega arith)
