-- ===== src/Sasl/Answer.antt =====
-- src/ircc.c: what `sasl_answer` sends, whole.
use mega_irc.Common.{
  ℕ, ◌+◌, ◌-◌, ◌*◌, ◌^◌, ◌<◌, ◌≤◌, ◌≡◌, ◌∙◌, List, [], ◌∷◌, ◌++◌, Str, All, All-append, sym, ap,
  arith, codes, some, none, length, length-append, take, append-nil, fill_whole,
}
use mega_irc.Client.{line_max}
use mega_irc.Client.Compose.{send3_text_lem}
use mega_irc.Sasl.{b64, sasl_raw, sasl_answer}
use mega_irc.Sasl.Textbook.{textbook, b64-textbook}

length-textbook : (bytes : List ℕ) → 3 * length (textbook bytes) ≤ 4 * length bytes + 8
unfolding textbook
length-textbook [] = omega arith
length-textbook (a ∷ []) = omega arith
length-textbook (a ∷ b ∷ []) = omega arith
length-textbook (a ∷ b ∷ c ∷ bytes) = omega (arith, length-textbook bytes)

take_whole : (n : ℕ) (s : Str) → length s ≤ n → take n s ≡ s
take_whole n s h =
    let e : n - length {A = ℕ} [] ≡ n = omega arith in
    ap (λ k. take k s) (sym e) ∙ fill_whole n [] s (omega arith)

-- With a nick of at most 16 bytes and a password of at most 32, `sasl_answer` sends one line with the
-- textbook's base64 of nick, NUL, nick, NUL and password, whole.
sasl_answer-textbook :
    (nick nspass : Str)
    → All (λ b. b < 2 ^ 8) nick
    → All (λ b. b < 2 ^ 8) nspass
    → length nick ≤ 16
    → length nspass ≤ 32
    → sasl_answer nick nspass
      ≡ codes "AUTHENTICATE " ++ textbook (sasl_raw nick nspass) ++ codes "\r\n"
unfolding sasl_answer
sasl_answer-textbook nick nspass bn bp ln lp =
    let raw : Str = sasl_raw nick nspass in
    let bytes : All (λ b. b < 2 ^ 8) raw =
      All-append (λ b. b < 2 ^ 8) (nick ++ 0 ∷ nick) (0 ∷ nspass)
        (All-append (λ b. b < 2 ^ 8) nick (0 ∷ nick) bn (omega arith, bn)) (omega arith, bp) in
    let lr : length raw ≤ 66 =
      omega (arith, length-append (nick ++ 0 ∷ nick) (0 ∷ nspass), length-append nick (0 ∷ nick)) in
    let head : Str = codes "AUTHENTICATE " in
    let t : length (head ++ textbook raw ++ []) ≤ line_max - 2 = omega (
      arith,
      length-append (head ++ textbook raw) [],
      length-append head (textbook raw),
      length-textbook raw,
    ) in
    (send3_text_lem (some head) (some (b64 raw (length raw))) none).0
    ∙ ap (λ x. take (line_max - 2) (head ++ x ++ []) ++ codes "\r\n")
        (b64-textbook raw bytes (omega arith))
    ∙ ap (λ x. x ++ codes "\r\n")
        (take_whole (line_max - 2) (head ++ textbook raw ++ []) t
          ∙ append-nil (head ++ textbook raw))
