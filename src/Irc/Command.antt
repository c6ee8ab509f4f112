-- ===== src/Irc/Command.antt =====
-- src/irc.c: `irc_is` compares the whole command.
use mega_irc.Common.{true, Option, none, some, [], ◌∷◌, ◌≡◌, ◌↔◌, refl, arith, Str}
use mega_irc.Irc.{Msg, same_text, irc_is}

pub same_text_iff : (a b : Str) → (same_text a b ≡ true) ↔ (a ≡ b)
unfolding same_text
same_text_iff [] [] = ground arith
same_text_iff [] (y ∷ b) = ground arith
same_text_iff (x ∷ a) [] = ground arith
same_text_iff (x ∷ a) (y ∷ b) = ground (arith, same_text_iff a b)

irc_is-some :
    (m : Msg) (name : Str) (c : Option Str) → m.cmd ≡ c → (irc_is m name ≡ true) ↔ (c ≡ some name)
unfolding irc_is
irc_is-some m name none e = rw e (ground arith)
irc_is-some m name (some a) e = rw e (ground (arith, same_text_iff a name))

-- `irc_is` holds exactly of the message whose command is the given name, no prefix of it and no
-- extension.
pub irc_is_iff : (m : Msg) (name : Str) → (irc_is m name ≡ true) ↔ (m.cmd ≡ some name)
irc_is_iff m name = irc_is-some m name m.cmd refl
