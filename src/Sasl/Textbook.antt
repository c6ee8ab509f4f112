-- ===== src/Sasl/Textbook.antt =====
-- src/ircc.c: `b64` writes what the textbook's three bytes to four characters do.
use mega_irc.Common.{
  ℕ, ◌+◌, ◌-◌, ◌*◌, ◌/◌, ◌%◌, ◌^◌, ◌<◌, ◌≡◌, ◌∙◌, List, [], ◌∷◌, ◌++◌, Str, All, refl, ap, arith,
  append_assoc, length,
}
use mega_irc.Marks.Lines.{take_whole}
use mega_irc.Sasl.{push_bits, push_bytes, pad, finish, b64, b64_char}

unfoldable pub textbook : List ℕ → Str
textbook [] = []
textbook (a ∷ []) = b64_char (a / 4) ∷ b64_char (a % 4 * 16) ∷ b'=' ∷ b'=' ∷ []
textbook (a ∷ b ∷ []) =
    b64_char (a / 4) ∷ b64_char (a % 4 * 16 + b / 16) ∷ b64_char (b % 16 * 4) ∷ b'=' ∷ []
textbook (a ∷ b ∷ c ∷ bytes) =
    b64_char (a / 4)
    ∷ b64_char (a % 4 * 16 + b / 16)
    ∷ b64_char (b % 16 * 4 + c / 64)
    ∷ b64_char (c % 64)
    ∷ textbook bytes

-- A first byte gives one character and leaves two bits.
first_byte :
    (acc out a : ℕ) (text : Str)
    → a < 2 ^ 8
    → (x : ℕ) × (push_bits 8 (record { acc = acc; bits = 0; out = out; text = text }) a ≡ record {
      acc = x;
      bits = 2;
      out = (out + 1) % 2 ^ 8;
      text = text ++ b64_char (a / 4) ∷ [];
    })
      × (x % 4 ≡ a % 4)
unfolding push_bits
first_byte acc out a text h =
    let x : ℕ = (push_bits 8 (record { acc = acc; bits = 0; out = out; text = text }) a).acc in
    (
      x,
      ap
          (λ (k : ℕ). record {
            acc = x;
            bits = 2;
            out = (out + 1) % 2 ^ 8;
            text = text ++ b64_char k ∷ [];
          })
          (omega arith),
      omega arith,
    )

-- A second gives one with those bits in front, and leaves four.
second_byte :
    (acc out b : ℕ) (text : Str)
    → b < 2 ^ 8
    → (x : ℕ) × (push_bits 8 (record { acc = acc; bits = 2; out = out; text = text }) b ≡ record {
      acc = x;
      bits = 4;
      out = (out + 1) % 2 ^ 8;
      text = text ++ b64_char (acc % 4 * 16 + b / 16) ∷ [];
    })
      × (x % 16 ≡ b % 16)
unfolding push_bits
second_byte acc out b text h =
    let x : ℕ = (push_bits 8 (record { acc = acc; bits = 2; out = out; text = text }) b).acc in
    (
      x,
      ap
          (λ (k : ℕ). record {
            acc = x;
            bits = 4;
            out = (out + 1) % 2 ^ 8;
            text = text ++ b64_char k ∷ [];
          })
          (omega arith),
      omega arith,
    )

-- A third gives two and leaves none.
third_byte :
    (acc out c : ℕ) (text : Str)
    → c < 2 ^ 8
    → (x : ℕ) × (push_bits 8 (record { acc = acc; bits = 4; out = out; text = text }) c ≡ record {
      acc = x;
      bits = 0;
      out = ((out + 1) % 2 ^ 8 + 1) % 2 ^ 8;
      text = (text ++ b64_char (acc % 16 * 4 + c / 64) ∷ []) ++ b64_char (c % 64) ∷ [];
    })
unfolding push_bits
third_byte acc out c text h =
    let x : ℕ = (push_bits 8 (record { acc = acc; bits = 4; out = out; text = text }) c).acc in
    let e1 : ((acc * 2 + c / 2 ^ 7) % 2 ^ 8 * 2 + c * 2 % 2 ^ 8 / 2 ^ 7) % 2 ^ 8 % 64
        ≡ acc % 16 * 4 + c / 64 =
      omega arith in
    let e2 : x % 64 ≡ c % 64 = omega arith in
    (
      x,
      λ i. record {
        acc = x;
        bits = 0;
        out = ((out + 1) % 2 ^ 8 + 1) % 2 ^ 8;
        text = (text ++ b64_char (e1 i) ∷ []) ++ b64_char (e2 i) ∷ [];
      },
    )

pad_none : (out : ℕ) → out % 4 ≡ 0 → pad 3 out ≡ []
unfolding pad
pad_none out h = rw h refl

pad_two : (out : ℕ) → out % 4 ≡ 2 → pad 3 out ≡ b'=' ∷ b'=' ∷ []
unfolding pad
pad_two out h =
    let e : (out + 1) % 2 ^ 8 % 4 ≡ 3 = omega arith in
    let f : ((out + 1) % 2 ^ 8 + 1) % 2 ^ 8 % 4 ≡ 0 = omega arith in rw (h, e, f) refl

pad_one : (out : ℕ) → out % 4 ≡ 3 → pad 3 out ≡ b'=' ∷ []
unfolding pad
pad_one out h = let f : (out + 1) % 2 ^ 8 % 4 ≡ 0 = omega arith in rw (h, f) refl

behind_two : (t : Str) (a b : ℕ) (r : Str) → ((t ++ a ∷ []) ++ b ∷ []) ++ r ≡ t ++ (a ∷ b ∷ r)
behind_two t a b r = append_assoc (t ++ a ∷ []) (b ∷ []) r ∙ append_assoc t (a ∷ []) (b ∷ r)

encode :
    (acc out : ℕ) (text : Str) (bytes : List ℕ)
    → out % 4 ≡ 0
    → All (λ b. b < 2 ^ 8) bytes
    → finish (push_bytes (record { acc = acc; bits = 0; out = out; text = text }) bytes)
      ≡ text ++ textbook bytes
unfolding push_bytes finish textbook
encode acc out text [] h p = ap (λ t. text ++ t) (pad_none out h)
encode acc out text (a ∷ []) h p =
    let (x, e, m) = first_byte acc out a text p.0 in
    let o : ((out + 1) % 2 ^ 8 + 1) % 2 ^ 8 % 4 ≡ 2 = omega arith in
    let k : x * 2 ^ (6 - 2) % 64 ≡ a % 4 * 16 = omega arith in
    ap finish e
    ∙ append_assoc text (b64_char (a / 4) ∷ []) _
    ∙ ap (λ t. text ++ (b64_char (a / 4) ∷ t))
        (λ i. b64_char (k i) ∷ pad_two (((out + 1) % 2 ^ 8 + 1) % 2 ^ 8) o i)
encode acc out text (a ∷ b ∷ []) h p =
    let (x, e, m) = first_byte acc out a text p.0 in
    let (y, e', m') = second_byte x ((out + 1) % 2 ^ 8) b (text ++ b64_char (a / 4) ∷ []) p.1.0 in
    let out2 : ℕ = ((out + 1) % 2 ^ 8 + 1) % 2 ^ 8 in
    let o : (out2 + 1) % 2 ^ 8 % 4 ≡ 3 = omega arith in
    let j : x % 4 * 16 + b / 16 ≡ a % 4 * 16 + b / 16 = ap (λ z. z * 16 + b / 16) m in
    let k : y * 2 ^ (6 - 4) % 64 ≡ b % 16 * 4 = omega arith in
    ap (λ s. finish (push_bits 8 s b)) e
    ∙ ap finish e'
    ∙ behind_two text (b64_char (a / 4)) (b64_char (x % 4 * 16 + b / 16)) _
    ∙ (λ i.
        text
        ++ (b64_char (a / 4) ∷ b64_char (j i) ∷ b64_char (k i) ∷ pad_one ((out2 + 1) % 2 ^ 8) o i))
encode acc out text (a ∷ b ∷ c ∷ bytes) h p =
    let (x, e, m) = first_byte acc out a text p.0 in
    let (y, e', m') = second_byte x ((out + 1) % 2 ^ 8) b (text ++ b64_char (a / 4) ∷ []) p.1.0 in
    let out2 : ℕ = ((out + 1) % 2 ^ 8 + 1) % 2 ^ 8 in
    let ab : Str = (text ++ b64_char (a / 4) ∷ []) ++ b64_char (x % 4 * 16 + b / 16) ∷ [] in
    let (z, e'') = third_byte y out2 c ab p.1.1.0 in
    let j : x % 4 * 16 + b / 16 ≡ a % 4 * 16 + b / 16 = ap (λ n. n * 16 + b / 16) m in
    let k : y % 16 * 4 + c / 64 ≡ b % 16 * 4 + c / 64 = ap (λ n. n * 4 + c / 64) m' in
    ap (λ s. finish (push_bytes (push_bits 8 (push_bits 8 s b) c) bytes)) e
    ∙ ap (λ s. finish (push_bytes (push_bits 8 s c) bytes)) e'
    ∙ ap (λ s. finish (push_bytes s bytes)) e''
    ∙ encode z (((out2 + 1) % 2 ^ 8 + 1) % 2 ^ 8) _ bytes (omega arith) p.1.1.1
    ∙ behind_two ab (b64_char (y % 16 * 4 + c / 64)) (b64_char (c % 64)) (textbook bytes)
    ∙ behind_two text (b64_char (a / 4)) (b64_char (x % 4 * 16 + b / 16)) _
    ∙ (λ i.
        text
        ++ (b64_char (a / 4)
            ∷ b64_char (j i)
            ∷ b64_char (k i)
            ∷ b64_char (c % 64)
            ∷ textbook bytes))

-- For fewer than 256 bytes `b64`, which takes their number as a byte, writes what the textbook does:
-- every three of them become the four characters of their sixes of bits, and one or two at the end
-- become two or three with `=` behind them, although the count of the characters out, which is kept
-- in a byte, wraps.
pub b64-textbook :
    (bytes : List ℕ)
    → All (λ b. b < 2 ^ 8) bytes
    → length bytes < 2 ^ 8
    → b64 bytes (length bytes) ≡ textbook bytes
unfolding b64
b64-textbook bytes p h =
    let n : length bytes % 2 ^ 8 ≡ length bytes = omega arith in
    rw (n, take_whole (length bytes) bytes (omega arith)) (encode 0 0 [] bytes refl p)
