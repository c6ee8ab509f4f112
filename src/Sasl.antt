-- ===== src/Sasl.antt =====
-- src/ircc.c: SASL PLAIN: the base64 writer, a bit at a time, and the answer that it goes into.
-- The raw bytes and their base64 share the buffer `shown`, 128 bytes apart; with a nick of at most 16
-- bytes and a password of at most 32 there are 66 raw bytes and 88 characters, so they do not meet.
pub mod Textbook
pub mod Answer
mod Tests
use mega_irc.Client.{send3_text}
use mega_irc.Common.{
  some, none, ℕ, zero, suc, ◌+◌, ◌-◌, ◌*◌, ◌/◌, ◌%◌, ◌^◌, List, [], ◌∷◌, ◌++◌, Str, codes, ◌==◌,
  if◌then◌else◌, get_or, take, length,
}

abbrev b64chars : Str
b64chars = codes "ABCDEFGHIJKLMNOPQRSTUVWXYZabcdefghijklmnopqrstuvwxyz0123456789+/"

pub b64_char : ℕ → ℕ
b64_char i = get_or b64chars i 0

-- The accumulator, how many bits of it are waiting, the count of characters out, and those characters.
pub record Bits : Type 0 where
  pub acc : ℕ
  pub bits : ℕ
  pub out : ℕ
  pub text : Str

-- A bit into the accumulator; the sixth gives a character.
abbrev pub push_bit : Bits → ℕ → Bits
push_bit s bit =
    let acc : ℕ = (s.acc * 2 + bit) % 2 ^ 8 in
    if s.bits + 1 == 6
    then record {
      acc = acc;
      bits = 0;
      out = (s.out + 1) % 2 ^ 8;
      text = s.text ++ b64_char (acc % 64) ∷ [];
    }
    else record s { acc = acc; bits = s.bits + 1 }

-- `n` bits of a byte, its top bit first.
pub push_bits : ℕ → Bits → ℕ → Bits
push_bits zero s byte = s
push_bits (suc n) s byte = push_bits n (push_bit s (byte / 2 ^ 7)) (byte * 2 % 2 ^ 8)

pub push_bytes : Bits → List ℕ → Bits
unfolding push_bits
push_bytes s [] = s
push_bytes s (byte ∷ bytes) = push_bytes (push_bits 8 s byte) bytes

-- `while (out & 3)`: at most three rounds.
pub pad : ℕ → ℕ → Str
pad zero out = []
pad (suc f) out = if out % 4 == 0 then [] else b'=' ∷ pad f ((out + 1) % 2 ^ 8)

pub finish : Bits → Str
unfolding pad
finish s =
    if s.bits == 0
    then s.text ++ pad 3 s.out
    else s.text ++ (b64_char (s.acc * 2 ^ (6 - s.bits) % 64) ∷ pad 3 ((s.out + 1) % 2 ^ 8))

-- `n` bytes at `s`: the count is an unsigned char.
unfoldable pub b64 : List ℕ → ℕ → Str
unfolding push_bytes finish
b64 s n =
    finish (push_bytes (record { acc = 0; bits = 0; out = 0; text = [] }) (take (n % 2 ^ 8) s))

-- nick NUL nick NUL password
abbrev pub sasl_raw : Str → Str → Str
sasl_raw nick nspass = nick ++ 0 ∷ nick ++ 0 ∷ nspass

unfoldable pub sasl_answer : Str → Str → Str
sasl_answer nick nspass =
    send3_text (some (codes "AUTHENTICATE "))
      (some (b64 (sasl_raw nick nspass) (length (sasl_raw nick nspass)))) none
