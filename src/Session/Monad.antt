-- ===== src/Session/Monad.antt =====
-- src/ircc.c: the state of a session, and code that changes it in steps.
use mega_irc.Common.{ℕ, Bool, true, false, ◌≡◌, ap, Option, none, some, List, Str}
use mega_irc.View.{Views}

pub record Session : Type 0 where
  pub views : Views
  pub nick : Str
  pub nspass : Str
  pub channel : Str
  pub sasl_ok : Bool
  pub registered : Bool
  pub quitting : Bool
  pub tx_lines : ℕ
  pub ignoring : List Str
  pub status : Str
  pub status_ttl : ℕ
  pub sent : List Str
  pub accepts : ℕ → Bool

-- `none` is code that never comes back.
abbrev pub M {ℓ} : Type ℓ → Type ℓ
M A = Session → Option (A × Session)

infixl 5 ◌>>=◌ ◌>>◌
pub bind {ℓ κ} : {A : Type ℓ} {B : Type κ} → Option (A × Session) → (A → M B) → Option (B × Session)
bind none f = none
bind (some (a, s)) f = f a s

unfoldable pub ◌>>=◌ {ℓ κ} : {A : Type ℓ} {B : Type κ} → M A → (A → M B) → M B
unfolding bind
(m >>= f) s = bind (m s) f

-- What follows code that never comes back is not reached.
pub >>=-none {ℓ κ} :
    {A : Type ℓ} {B : Type κ} (m : M A) (f : A → M B) (s : Session)
    → m s ≡ none
    → (m >>= f) s ≡ none
unfolding ◌>>=◌ bind
>>=-none m f s e = ap (λ r. bind r f) e

pub >>=-some {ℓ κ} :
    {A : Type ℓ} {B : Type κ} (m : M A) (f : A → M B) (s : Session) {a : A} {t : Session}
    → m s ≡ some (a, t)
    → (m >>= f) s ≡ f a t
unfolding ◌>>=◌ bind
>>=-some m f s e = ap (λ r. bind r f) e

abbrev pub ◌>>◌ {κ} : {B : Type κ} → M (Unit {0}) → M B → M B
m >> k = m >>= λ _. k

unfoldable pub pure {ℓ} : {A : Type ℓ} → A → M A
pure a s = some (a, s)

unfoldable pub gets {ℓ} : {A : Type ℓ} → (Session → A) → M A
gets f s = some (f s, s)

unfoldable pub modify : (Session → Session) → M (Unit {0})
modify f s = some (tt, f s)

-- `if (b) m;`
unfoldable pub when : Bool → M (Unit {0}) → M (Unit {0})
unfolding pure
when true m = m
when false m = pure tt
