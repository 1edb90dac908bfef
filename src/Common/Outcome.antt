-- ===== src/Common/Outcome.antt =====
-- What a Go function does: it returns, or it panics. A Go error is a value.
use mathlib.Core.Path.{◌≡◌, refl}

-- A call that returns a value, or ends in a panic (a write to a nil map, a nil dereference).
pub data Run {ℓ} (A : Type ℓ) : Type ℓ where
  returns : A → Run A
  panics : Run A

infixl 5 ◌>>=◌
abbrev pub ◌>>=◌ {ℓ κ} : {A : Type ℓ} {B : Type κ} → Run A → (A → Run B) → Run B
returns a >>= f = f a
panics >>= f = panics

-- Go's pair of a value and an error.
pub data Try {ℓ κ} (E : Type κ) (A : Type ℓ) : Type (ℓ ⊔ κ) where
  ok : A → Try E A
  err : E → Try E A

-- The call does not panic, and what it returns has the property.
abbrev pub Ensures {ℓ} : {A : Type ℓ} → (A → Type 0) → Run A → Type 0
Ensures P (returns a) = P a
Ensures P panics = ⊥

-- A chain of calls ensures what its last step ensures.
pub Ensures-bind {ℓ κ} :
    {A : Type ℓ} {B : Type κ} (P : A → Type 0) (Q : B → Type 0) (m : Run A) (f : A → Run B)
    → Ensures P m
    → ((a : A) → P a → Ensures Q (f a))
    → Ensures Q (m >>= f)
Ensures-bind P Q (returns a) f p q = q a p
Ensures-bind P Q panics f p q = absurd p

pub Ensures-returns {ℓ} :
    {A : Type ℓ} (P : A → Type 0) (m : Run A) → Ensures P m → (a : A) × (m ≡ returns a) × P a
Ensures-returns P (returns a) p = (a, refl, p)
Ensures-returns P panics p = absurd p

pub Ensures-mono {ℓ} :
    {A : Type ℓ} (P Q : A → Type 0) (m : Run A) → ((a : A) → P a → Q a) → Ensures P m → Ensures Q m
Ensures-mono P Q (returns a) f p = f a p
Ensures-mono P Q panics f p = p
