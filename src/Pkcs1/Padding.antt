-- ===== src/Pkcs1/Padding.antt =====
-- src/crypto/pkcs1.c: the encoded message that the padding check accepts.
use mega_irc.Common.{
  false, ◌%◌, ◌^◌, ◌==◌, if◌then◌else◌, Bool, not, leb, ltb, ◌||◌, ℕ, zero, suc, ◌+◌, ◌-◌, ◌^◌, ◌≤◌,
  ◌<◌, true, [], ◌∷◌, ◌++◌, ◌≡◌, ◌↔◌, ◌∙◌, ap, refl, sym, arith, Str, length, length-drop, get_or,
  drop, replicate, append-nil,
}
use mega_irc.Pkcs1.{sha256_digestinfo, ones, matches, digest_ok, padding_ok}

-- The message for a hash of 32 bytes, in `nlen` bytes.
abbrev pub encoded : Str → ℕ → Str
encoded hash nlen = 0 ∷ 1 ∷ (replicate (nlen - 54) 0xff ++ 0 ∷ (sha256_digestinfo ++ hash))

matches_split : (want s : Str) → matches want s ≡ true → s ≡ want ++ drop (length want) s
unfolding matches
matches_split [] s h = refl
matches_split (x ∷ want) [] h = cc
matches_split (x ∷ want) (b ∷ s) h = ground (arith, matches_split want s)

matches-append : (want s : Str) → matches want (want ++ s) ≡ true
unfolding matches
matches-append [] s = refl
matches-append (x ∷ want) s = ground (arith, matches-append want s)

-- The bytes are the 0xff ones and what stands behind them.
ones_split : (s : Str) → s ≡ replicate (ones s) 0xff ++ drop (ones s) s
unfolding ones
ones_split [] = refl
ones_split (b ∷ s) = ground (arith, ones_split s)

ones-replicate : (k : ℕ) (s : Str) → ones (replicate k 0xff ++ 0 ∷ s) ≡ k
unfolding ones
ones-replicate zero s = refl
ones-replicate (suc k) s = ground (arith, ones-replicate k s)

drop-replicate : (k : ℕ) (s : Str) → drop k (replicate k 0xff ++ s) ≡ s
drop-replicate zero s = refl
drop-replicate (suc k) s = drop-replicate k s

get_or-drop : (s : Str) (k : ℕ) → get_or s k 0 ≡ get_or (drop k s) 0 0
get_or-drop [] zero = refl
get_or-drop [] (suc k) = refl
get_or-drop (b ∷ s) zero = refl
get_or-drop (b ∷ s) (suc k) = get_or-drop s k

drop-nil : (n : ℕ) → drop {A = ℕ} n [] ≡ []
drop-nil zero = refl
drop-nil (suc n) = refl

drop-drop : (j k : ℕ) (s : Str) → drop j (drop k s) ≡ drop (k + j) s
drop-drop j zero s = ap (λ (n : ℕ). drop n s) (omega arith)
drop-drop j (suc k) [] = drop-nil j ∙ sym (drop-nil (suc k + j))
drop-drop j (suc k) (b ∷ s) =
    drop-drop j k s
    ∙ ap (λ (n : ℕ). drop n (b ∷ s)) (let e : suc (k + j) ≡ suc k + j = omega arith in e)

nil_of_length : (s : Str) → length s ≡ 0 → s ≡ []
nil_of_length [] h = refl
nil_of_length (b ∷ s) h = absurd (omega (arith, h))

cons_of_first : (s : Str) → 0 < length s → get_or s 0 0 ≡ 0 → s ≡ 0 ∷ drop 1 s
cons_of_first [] h e = absurd (omega (arith, h))
cons_of_first (b ∷ s) h e = ap (λ (x : ℕ). x ∷ s) e

-- What stands behind the zero byte, once both loops are through it.
tail_split :
    (t hash : Str)
    → length t ≡ 51
    → length hash ≡ 32
    → matches sha256_digestinfo t ≡ true
    → matches hash (drop 19 t) ≡ true
    → t ≡ sha256_digestinfo ++ hash
tail_split t hash l lh d h =
    let rest : drop (length hash) (drop 19 t) ≡ [] =
      nil_of_length _
        (omega (arith, length-drop (length hash) (drop 19 t), length-drop 19 t, l, lh)) in
    let e : drop 19 t ≡ hash =
      matches_split hash (drop 19 t) h ∙ ap (λ (r : Str). hash ++ r) rest ∙ append-nil hash in
    matches_split sha256_digestinfo t d ∙ ap (λ (r : Str). sha256_digestinfo ++ r) e

-- `if (test) return 0`, and the last tests.
stop_iff : (a b : Bool) → ((if a then false else b) ≡ true) ↔ ((a ≡ false) × (b ≡ true))
stop_iff true b = (λ q. cc, λ q. cc)
stop_iff false b = (λ q. (refl, q), λ q. q.1)

both_iff : (a b : Bool) → ((if a then b else false) ≡ true) ↔ ((a ≡ true) × (b ≡ true))
both_iff true b = (λ q. (refl, q), λ q. q.1)
both_iff false b = (λ q. cc, λ q. cc)

at_zero : (nlen i x : ℕ) → ((leb nlen i || not (x == 0)) ≡ false) ↔ ((i < nlen) × (x ≡ 0))
at_zero nlen i x = (λ q. ground arith, λ q. ground arith)

at_end :
    (nlen i : ℕ)
    → nlen ≤ 512
    → i < nlen
    → (not ((nlen + 2 ^ 16 - (i + 1)) % 2 ^ 16 == 19 + 32) ≡ false) ↔ (nlen ≡ i + 52)
at_end nlen i h l = (λ q. ground arith, λ q. ground arith)

enough : (i : ℕ) → (ltb i 10 ≡ false) ↔ (10 ≤ i)
enough i = (λ q. ground arith, λ q. ground arith)

-- The tests behind the loop over the 0xff bytes, one by one.
digest_ok_iff :
    (em hash : Str) (nlen i : ℕ)
    → nlen ≤ 512
    → (digest_ok em hash nlen i ≡ true) ↔ (
        (10 ≤ i)
        × (get_or em i 0 ≡ 0)
        × (nlen ≡ i + 52)
        × (matches sha256_digestinfo (drop (i + 1) em) ≡ true)
        × (matches hash (drop (i + 1 + 19) em) ≡ true))
unfolding digest_ok
digest_ok_iff em hash nlen i h =
    let zero_iff = at_zero nlen i (get_or em i 0) in
    (
      λ q.
          let (a, q1) = (stop_iff _ _).0 q in
          let (b, q2) = (stop_iff _ _).0 q1 in
          let (c, q3) = (stop_iff _ _).0 q2 in
          let (d, e) = (both_iff _ _).0 q3 in
          let (l, z) = zero_iff.0 b in ((enough i).0 a, z, (at_end nlen i h l).0 c, d, e),
      λ q.
          let (a, z, n, d, e) = q in
          let l : i < nlen = omega arith in
          (stop_iff _ _).1 (
            (enough i).1 a,
            (stop_iff _ _).1 (
              zero_iff.1 (l, z),
              (stop_iff _ _).1 ((at_end nlen i h l).1 n, (both_iff _ _).1 (d, e)),
            ),
          ),
    )

-- What the tests ask of the bytes behind the first two, `k` of them being 0xff.
abbrev Passes : Str → Str → ℕ → ℕ → Type 0
Passes rest hash nlen k =
    (10 ≤ 2 + k)
    × (get_or (drop k rest) 0 0 ≡ 0)
    × (nlen ≡ 2 + k + 52)
    × (matches sha256_digestinfo (drop (suc k) rest) ≡ true)
    × (matches hash (drop 19 (drop (suc k) rest)) ≡ true)

get_or-third : (a b k : ℕ) (rest : Str) → get_or (a ∷ b ∷ rest) (2 + k) 0 ≡ get_or (drop k rest) 0 0
get_or-third a b k rest = let e : 2 + k ≡ suc (suc k) = omega arith in rw e (get_or-drop rest k)

drop_third : (a b k : ℕ) (rest : Str) → drop (2 + k + 1) (a ∷ b ∷ rest) ≡ drop (suc k) rest
drop_third a b k rest = let e : 2 + k + 1 ≡ suc (suc (suc k)) = omega arith in rw e refl

digest_ok-Passes :
    (a b : ℕ) (rest hash : Str) (nlen k : ℕ)
    → nlen ≤ 512
    → (digest_ok (a ∷ b ∷ rest) hash nlen (2 + k) ≡ true) ↔ Passes rest hash nlen k
digest_ok-Passes a b rest hash nlen k h =
    let tests = digest_ok_iff (a ∷ b ∷ rest) hash nlen (2 + k) h in
    let far = sym (drop-drop 19 (2 + k + 1) (a ∷ b ∷ rest)) in
    rw (get_or-third a b k rest) at (rw (drop_third a b k rest) at (rw far at tests))

-- The bytes that pass are the message's.
Passes-sound :
    (rest hash : Str) (nlen : ℕ)
    → length rest + 2 ≡ nlen
    → length hash ≡ 32
    → Passes rest hash nlen (ones rest)
    → rest ≡ replicate (nlen - 54) 0xff ++ 0 ∷ (sha256_digestinfo ++ hash)
Passes-sound rest hash nlen l lh (_, z, n, d, h) =
    let k = ones rest in
    let m : nlen - 54 ≡ k = omega arith in
    let one : k + 1 ≡ suc k = omega arith in
    let next : drop 1 (drop k rest) ≡ drop (suc k) rest = rw (drop-drop 1 k rest) (rw one refl) in
    let first : drop k rest ≡ 0 ∷ drop 1 (drop k rest) =
      cons_of_first (drop k rest) (omega (arith, length-drop k rest)) z in
    let tail : drop (suc k) rest ≡ sha256_digestinfo ++ hash =
      tail_split (drop (suc k) rest) hash (omega (arith, length-drop (suc k) rest)) lh d h in
    rw m (
      ones_split rest
      ∙ ap (λ (s : Str). replicate k 0xff ++ s) (first ∙ ap (λ (s : Str). 0 ∷ s) (next ∙ tail)))

-- And the message passes.
Passes-message :
    (hash : Str) (nlen k : ℕ)
    → 8 ≤ k
    → nlen ≡ k + 54
    → Passes (replicate k 0xff ++ 0 ∷ (sha256_digestinfo ++ hash)) hash nlen k
Passes-message hash nlen k lo n =
    let rest = replicate k 0xff ++ 0 ∷ (sha256_digestinfo ++ hash) in
    let one : k + 1 ≡ suc k = omega arith in
    let first = drop-replicate k (0 ∷ (sha256_digestinfo ++ hash)) in
    let next : drop (suc k) rest ≡ sha256_digestinfo ++ hash =
      rw (← one) (rw (← drop-drop 1 k rest) (rw first refl)) in
    let all = matches-append hash [] in
    let all' : matches hash hash ≡ true = rw (append-nil hash) at all in
    (
      omega arith,
      rw first refl,
      omega arith,
      rw next (matches-append sha256_digestinfo hash),
      rw next all',
    )

message_ok :
    (hash : Str) (nlen : ℕ)
    → 62 ≤ nlen
    → nlen ≤ 512
    → padding_ok (encoded hash nlen) hash nlen ≡ true
unfolding padding_ok
message_ok hash nlen lo hi =
    let k = nlen - 54 in
    let rest = replicate k 0xff ++ 0 ∷ (sha256_digestinfo ++ hash) in
    let tests = digest_ok-Passes 0 1 rest hash nlen k hi in
    rw (ones-replicate k (sha256_digestinfo ++ hash))
      (tests.1 (Passes-message hash nlen k (omega arith) (omega arith)))

same_ok :
    (em hash : Str) (nlen : ℕ)
    → 62 ≤ nlen
    → nlen ≤ 512
    → em ≡ encoded hash nlen
    → padding_ok em hash nlen ≡ true
same_ok em hash nlen lo hi e = rw e (message_ok hash nlen lo hi)

first_two : (a b : ℕ) → ((not (a == 0) || not (b == 1)) ≡ false) → (a ≡ 0) × (b ≡ 1)
first_two a b q = ground arith

-- With a hash of 32 bytes and a message of 62 to 512, the padding check accepts exactly the
-- encoded message.
pub padding_ok_iff :
    (em hash : Str) (nlen : ℕ)
    → length em ≡ nlen
    → 62 ≤ nlen
    → nlen ≤ 512
    → length hash ≡ 32
    → (padding_ok em hash nlen ≡ true) ↔ (em ≡ encoded hash nlen)
unfolding padding_ok
padding_ok_iff [] hash nlen l lo hi lh = absurd (omega (arith, l))
padding_ok_iff (a ∷ []) hash nlen l lo hi lh = absurd (omega (arith, l))
padding_ok_iff (a ∷ b ∷ rest) hash nlen l lo hi lh =
    let tests = digest_ok-Passes a b rest hash nlen (ones rest) hi in
    (
      λ q.
          let (head, tail) = (stop_iff _ _).0 q in
          let (za, zb) = first_two a b head in
          let whole = Passes-sound rest hash nlen (omega arith) lh (tests.0 tail) in
          cc (za, zb, whole),
      same_ok _ hash nlen lo hi,
    )
