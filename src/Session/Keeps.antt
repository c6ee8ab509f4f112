-- ===== src/Session/Keeps.antt =====
-- src/ircc.c: code that comes back and keeps an invariant, one rule for each way to build it.
use mega_irc.Common.{Bool, true, false, some, ◌≡◌, refl, ap, ◌∙◌, if◌then◌else◌}
use mega_irc.Session.Monad.{Session, M, bind, ◌>>=◌, pure, gets, modify, when}

-- From every state of which `P` holds, `m` comes back, with a value of which `Q` holds, in a state of
-- which `P` holds.
pub record Gives {A : Type 0} (P : Session → Type 0) (Q : A → Type 0) (m : M A) : Type 0 where
  pub at : (s : Session) → P s → (a : A) × (t : Session) × (m s ≡ some (a, t)) × Q a × P t

-- The same of any value.
pub record Keeps {A : Type 0} (P : Session → Type 0) (m : M A) : Type 0 where
  pub at : (s : Session) → P s → (a : A) × (t : Session) × (m s ≡ some (a, t)) × P t

module _ {P : Session → Type 0} {A : Type 0} where
  pub Keeps-pure : (a : A) → Keeps P (pure a)
  unfolding pure
  Keeps-pure a = record { at = λ s h. (a, s, refl, h) }

  pub Keeps-gets : (f : Session → A) → Keeps P (gets f)
  unfolding gets
  Keeps-gets f = record { at = λ s h. (f s, s, refl, h) }

  pub Keeps-if : (b : Bool) (m n : M A) → Keeps P m → Keeps P n → Keeps P (if b then m else n)
  Keeps-if true m n k l = k
  Keeps-if false m n k l = l

  -- Where the branches rest on their test.
  pub Keeps-if_of :
      (b : Bool) (m n : M A)
      → (b ≡ true → Keeps P m)
      → (b ≡ false → Keeps P n)
      → Keeps P (if b then m else n)
  Keeps-if_of true m n k l = k refl
  Keeps-if_of false m n k l = l refl

module _ {P : Session → Type 0} where
  pub Keeps-modify : (f : Session → Session) → ((s : Session) → P s → P (f s)) → Keeps P (modify f)
  unfolding modify
  Keeps-modify f k = record { at = λ s h. (tt, f s, refl, k s h) }

  pub Keeps-when : (b : Bool) (m : M (Unit {0})) → Keeps P m → Keeps P (when b m)
  unfolding when
  Keeps-when true m k = k
  Keeps-when false m k = Keeps-pure tt

module _ {P : Session → Type 0} {A B : Type 0} where
  pub Keeps-bind :
      (m : M A) (f : A → M B) → Keeps P m → ((a : A) → Keeps P (f a)) → Keeps P (m >>= f)
  unfolding ◌>>=◌
  Keeps-bind m f k l = record {
    at = λ s h.
        let (a, t, e, p) = k.at s h in
        let (b, u, e', q) = (l a).at t p in (b, u, ap (λ r. bind r f) e ∙ e', q);
  }

  -- The rest may use that the value was read from a state of which `P` holds.
  pub Keeps-bind-gets :
      (g : Session → A) (f : A → M B)
      → ((s : Session) → P s → Keeps P (f (g s)))
      → Keeps P (gets g >>= f)
  unfolding ◌>>=◌ gets
  Keeps-bind-gets g f l = record { at = λ s h. (l s h).at s h }

  pub Keeps-bind-Gives :
      {Q : A → Type 0} (m : M A) (f : A → M B)
      → Gives P Q m
      → ((a : A) → Q a → Keeps P (f a))
      → Keeps P (m >>= f)
  unfolding ◌>>=◌
  Keeps-bind-Gives m f k l = record {
    at = λ s h.
        let (a, t, e, v, p) = k.at s h in
        let (b, u, e', q) = (l a v).at t p in (b, u, ap (λ r. bind r f) e ∙ e', q);
  }

module _ {P : Session → Type 0} {A : Type 0} where
  pub Gives-pure : (Q : A → Type 0) (a : A) → Q a → Gives P Q (pure a)
  unfolding pure
  Gives-pure Q a q = record { at = λ s h. (a, s, refl, q, h) }

  pub Gives-if :
      (Q : A → Type 0) (b : Bool) (m n : M A)
      → Gives P Q m
      → Gives P Q n
      → Gives P Q (if b then m else n)
  Gives-if Q true m n k l = k
  Gives-if Q false m n k l = l

  pub Gives-Keeps : (Q : A → Type 0) (m : M A) → ((a : A) → Q a) → Keeps P m → Gives P Q m
  Gives-Keeps Q m q k = record { at = λ s h. let (a, t, e, z) = k.at s h in (a, t, e, q a, z) }

module _ {P : Session → Type 0} {A B : Type 0} where
  pub Gives-bind :
      {Q : A → Type 0} (R : B → Type 0) (m : M A) (f : A → M B)
      → Gives P Q m
      → ((a : A) → Q a → Gives P R (f a))
      → Gives P R (m >>= f)
  unfolding ◌>>=◌
  Gives-bind R m f k l = record {
    at = λ s h.
        let (a, t, e, v, p) = k.at s h in
        let (b, u, e', q, z) = (l a v).at t p in (b, u, ap (λ r. bind r f) e ∙ e', q, z);
  }

pub ruleset keeps_rules =
    (Keeps-pure, Keeps-gets, Keeps-if, Keeps-when, Keeps-bind-gets, Keeps-bind)
