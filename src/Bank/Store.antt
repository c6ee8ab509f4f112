-- ===== src/Bank/Store.antt =====
-- src/bank/api.c: what the store holds of the certificates that were appended.
use mega_irc.Common.{
  ℕ, zero, suc, ◌+◌, ◌-◌, ◌%◌, ◌^◌, ◌≤◌, ◌<◌, min, List, [], ◌∷◌, ◌++◌, ◌≡◌, ◌∙◌, ap, sym, refl,
  arith, Str, All, ltb, ◌==◌, if◌then◌else◌, length, take-nil, length-take, take, append-nil,
  append_assoc,
}
use mega_irc.Bank.{cert_cap, ck_api_cert_reset, ck_api_cert_append}

take_all : (n : ℕ) (s : Str) → length s ≤ n → take n s ≡ s
take_all zero [] h = refl
take_all zero (b ∷ s) h = absurd (omega arith)
take_all (suc n) [] h = refl
take_all (suc n) (b ∷ s) h = ap (λ (t : Str). b ∷ t) (take_all n s (omega arith))

take-append : (n : ℕ) (s t : Str) → length s ≤ n → take n (s ++ t) ≡ s ++ take (n - length s) t
take-append n [] t h = ap (λ (m : ℕ). take m t) (omega arith)
take-append zero (b ∷ s) t h = absurd (omega arith)
take-append (suc n) (b ∷ s) t h =
    ap (λ (r : Str). b ∷ r)
      (take-append n s t (omega arith)
        ∙ ap (λ (m : ℕ). s ++ take m t)
            (let e : n - length s ≡ suc n - suc (length s) = omega arith in e))

take-min : (n : ℕ) (s : Str) → take (min n (length s)) s ≡ take n s
take-min zero s = ap (λ (m : ℕ). take m s) (let e : min 0 (length s) ≡ 0 = omega arith in e)
take-min (suc n) [] = take-nil ℕ (min (suc n) 0)
take-min (suc n) (b ∷ s) =
    let e : min (suc n) (suc (length s)) ≡ suc (min n (length s)) = omega arith in
    rw e (ap (λ (t : Str). b ∷ t) (take-min n s))

-- What is copied, whether or not there is anything.
appended : (n : ℕ) (s p : Str) → (if n == 0 then s else s ++ take n p) ≡ s ++ take n p
appended zero s p = sym (append-nil s)
appended (suc n) s p = ground arith

-- The number of the bytes that are copied.
copied_size :
    (cap l n : ℕ)
    → l ≤ cap
    → cap < 2 ^ 16
    → n < 2 ^ 16
    → (if ltb cap (l + n) then (cap + 2 ^ 16 - l) % 2 ^ 16 else n) ≡ min (cap - l) n
copied_size cap l n h c k = ground arith

-- One part behind the others, cut at the cap.
ck_api_cert_append_lem :
    (store p : Str)
    → length store ≤ cert_cap
    → length p < 2 ^ 16
    → ck_api_cert_append store p ≡ take cert_cap (store ++ p)
unfolding ck_api_cert_append
ck_api_cert_append_lem store p h l =
    rw (copied_size cert_cap (length store) (length p) h (omega arith) l) (
      appended (min (cert_cap - length store) (length p)) store p
      ∙ ap (λ (t : Str). store ++ t) (take-min (cert_cap - length store) p)
      ∙ sym (take-append cert_cap store p h))

-- The parts of a chain, one after another.
abbrev pub append_all : Str → List Str → Str
append_all store [] = store
append_all store (p ∷ ps) = append_all (ck_api_cert_append store p) ps

abbrev pub concat : List Str → Str
concat [] = []
concat (p ∷ ps) = p ++ concat ps

length-take-le : (n : ℕ) (s : Str) → length (take n s) ≤ n
length-take-le n s = omega (arith, length-take n s)

take-take : (n : ℕ) (s t : Str) → take n (take n s ++ t) ≡ take n (s ++ t)
take-take zero s t = refl
take-take (suc n) [] t = refl
take-take (suc n) (b ∷ s) t = ap (λ (r : Str). b ∷ r) (take-take n s t)

append_all_lem :
    (store : Str) (ps : List Str)
    → length store ≤ cert_cap
    → All (λ p. length p < 2 ^ 16) ps
    → append_all store ps ≡ take cert_cap (store ++ concat ps)
append_all_lem store [] h l = sym (rw (append-nil store) (take_all cert_cap store h))
append_all_lem store (p ∷ ps) h l =
    let e = ck_api_cert_append_lem store p h l.0 in
    let small : length (ck_api_cert_append store p) ≤ cert_cap =
      rw e (length-take-le cert_cap (store ++ p)) in
    append_all_lem (ck_api_cert_append store p) ps small l.1
    ∙ ap (λ (s : Str). take cert_cap (s ++ concat ps)) e
    ∙ take-take cert_cap (store ++ p) (concat ps)
    ∙ ap (take cert_cap) (append_assoc store p (concat ps))

-- However a chain is cut into parts of less than 2^16 bytes, after a reset and an append of each
-- the store holds the first 5888 bytes of them all, in order.
store-concat :
    (ps : List Str)
    → All (λ p. length p < 2 ^ 16) ps
    → append_all ck_api_cert_reset ps ≡ take cert_cap (concat ps)
unfolding ck_api_cert_reset
store-concat ps h = append_all_lem [] ps (omega arith) h
