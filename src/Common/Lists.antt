-- ===== src/Common/Lists.antt =====
-- Lists measured and indexed by native numbers: C arrays and strings.
use Prim.Native.Nat.{ℕ, zero, suc, ◌+◌, ◌-◌, ◌≤◌, ◌<◌, min}
use mathlib.Core.Path.{◌≡◌, refl, sym, ap, ◌∙◌}
use mathlib.Core.Logic.{◌≢◌}
use mathlib.Core.List.{List, [], ◌∷◌, ◌++◌, map, append-nil, append_assoc}
use mathlib.Core.Option.{Option, none, some}
use native.Mathlib.Decide.{dec_lt}
use native.Mathlib.Omega.{arith}

module _ {ℓ} {A : Type ℓ} where
  abbrev pub length : List A → ℕ
  length [] = 0
  length (x ∷ xs) = suc (length xs)

  abbrev pub get_elem? : List A → ℕ → Option A
  get_elem? [] i = none
  get_elem? (x ∷ xs) zero = some x
  get_elem? (x ∷ xs) (suc i) = get_elem? xs i

  -- A write out of bounds changes nothing.
  abbrev pub set : List A → ℕ → A → List A
  set [] i v = []
  set (x ∷ xs) zero v = v ∷ xs
  set (x ∷ xs) (suc i) v = x ∷ set xs i v

  pub length-append : (xs ys : List A) → length (xs ++ ys) ≡ length xs + length ys
  length-append [] ys = omega arith
  length-append (x ∷ xs) ys = omega (arith, length-append xs ys)

module _ {ℓ} {A : Type ℓ} where
  pub length-set : (xs : List A) (i : ℕ) (v : A) → length (set xs i v) ≡ length xs
  length-set [] i v = refl
  length-set (x ∷ xs) zero v = refl
  length-set (x ∷ xs) (suc i) v = ap suc (length-set xs i v)

  pub get_elem?-set_self :
      (xs : List A) (i : ℕ) (v : A) → i < length xs → get_elem? (set xs i v) i ≡ some v
  get_elem?-set_self [] i v h = elim h [ ]
  get_elem?-set_self (x ∷ xs) zero v h = refl
  get_elem?-set_self (x ∷ xs) (suc i) v h = get_elem?-set_self xs i v (omega arith)

  pub get_elem?-set_ne :
      (xs : List A) {i j : ℕ} (v : A) → i ≢ j → get_elem? (set xs i v) j ≡ get_elem? xs j
  get_elem?-set_ne [] v h = refl
  get_elem?-set_ne (x ∷ xs) {i = zero} {j = zero} v h = absurd (h refl)
  get_elem?-set_ne (x ∷ xs) {i = zero} {j = suc j} v h = refl
  get_elem?-set_ne (x ∷ xs) {i = suc i} {j = zero} v h = refl
  get_elem?-set_ne (x ∷ xs) {i = suc i} {j = suc j} v h = get_elem?-set_ne xs v (λ e. h (ap suc e))

module _ {ℓ} {A : Type ℓ} where
  abbrev pub get_or : List A → ℕ → A → A
  get_or [] i d = d
  get_or (x ∷ xs) zero d = x
  get_or (x ∷ xs) (suc i) d = get_or xs i d

  abbrev pub take : ℕ → List A → List A
  take zero xs = []
  take (suc n) [] = []
  take (suc n) (x ∷ xs) = x ∷ take n xs

  abbrev pub drop : ℕ → List A → List A
  drop zero xs = xs
  drop (suc n) [] = []
  drop (suc n) (x ∷ xs) = drop n xs

  abbrev pub replicate : ℕ → A → List A
  replicate zero a = []
  replicate (suc n) a = a ∷ replicate n a

  pub take-append-drop : (n : ℕ) (xs : List A) → take n xs ++ drop n xs ≡ xs
  take-append-drop zero xs = refl
  take-append-drop (suc n) [] = refl
  take-append-drop (suc n) (x ∷ xs) = rw (take-append-drop n xs)

  pub length-take : (n : ℕ) (xs : List A) → length (take n xs) ≡ min n (length xs)
  length-take zero xs = omega arith
  length-take (suc n) [] = omega arith
  length-take (suc n) (x ∷ xs) = omega (arith, length-take n xs)

  pub length-drop : (n : ℕ) (xs : List A) → length (drop n xs) ≡ length xs - n
  length-drop zero xs = omega arith
  length-drop (suc n) [] = omega arith
  length-drop (suc n) (x ∷ xs) = omega (arith, length-drop n xs)

  pub length-replicate : (n : ℕ) (a : A) → length (replicate n a) ≡ n
  length-replicate zero a = refl
  length-replicate (suc n) a = ap suc (length-replicate n a)

  pub length-map {κ} : {B : Type κ} (xs : List A) (f : A → B) → length (map f xs) ≡ length xs
  length-map [] f = refl
  length-map (x ∷ xs) f = ap suc (length-map xs f)

pub take-nil {ℓ} : (A : Type ℓ) (n : ℕ) → take {A = A} n [] ≡ []
take-nil A zero = refl
take-nil A (suc n) = refl

-- A list that is filled up to `n` places: one more element while there is room, none after that.
module _ {ℓ} {A : Type ℓ} where
  abbrev pub fill : ℕ → List A → List A → List A
  fill n xs ys = xs ++ take (n - length xs) ys

  pub fill-nil : (n : ℕ) (xs : List A) → fill n xs [] ≡ xs
  fill-nil n xs = ap (λ t. xs ++ t) (take-nil A (n - length xs)) ∙ append-nil xs

  pub fill_room :
      (n : ℕ) (xs : List A) (y : A) (ys : List A)
      → length xs < n
      → fill n (xs ++ y ∷ []) ys ≡ fill n xs (y ∷ ys)
  fill_room n xs y ys h =
      let e : n - length xs ≡ suc (n - length (xs ++ y ∷ [])) =
        omega (arith, length-append xs (y ∷ [])) in
      append_assoc xs (y ∷ []) _ ∙ ap (λ t. xs ++ t) (rw e refl)

  pub fill_full : (n : ℕ) (xs ys : List A) → n ≤ length xs → fill n xs ys ≡ xs
  fill_full n xs ys h =
      let z : n - length xs ≡ 0 = omega arith in ap (λ k. xs ++ take k ys) z ∙ append-nil xs

  pub length-fill : (n : ℕ) (xs ys : List A) → length xs ≤ n → length (fill n xs ys) ≤ n
  length-fill n xs ys h =
      omega (arith, length-append xs (take (n - length xs) ys), length-take (n - length xs) ys)

  pub fill-fill : (n : ℕ) (xs ys zs : List A) → fill n (fill n xs ys) zs ≡ fill n xs (ys ++ zs)
  fill-fill n xs [] zs = ap (λ t. fill n t zs) (fill-nil n xs)
  fill-fill n xs (y ∷ ys) zs = elim (dec_lt (length xs) n) [
    | yes h ↦
        ap (λ t. fill n t zs) (sym (fill_room n xs y ys h))
        ∙ fill-fill n (xs ++ y ∷ []) ys zs
        ∙ fill_room n xs y (ys ++ zs) h
    | no h ↦
        let h' : n ≤ length xs = omega arith in
        ap (λ t. fill n t zs) (fill_full n xs (y ∷ ys) h')
        ∙ fill_full n xs zs h'
        ∙ sym (fill_full n xs (y ∷ (ys ++ zs)) h')
  ]

  -- What fits is appended whole.
  pub fill_whole : (n : ℕ) (xs ys : List A) → length xs + length ys ≤ n → fill n xs ys ≡ xs ++ ys
  fill_whole n xs [] h = fill-nil n xs ∙ sym (append-nil xs)
  fill_whole n xs (y ∷ ys) h =
      sym (fill_room n xs y ys (omega arith))
      ∙ fill_whole n (xs ++ y ∷ []) ys (omega (arith, length-append xs (y ∷ [])))
      ∙ append_assoc xs (y ∷ []) ys
