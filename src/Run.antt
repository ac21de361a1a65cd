-- ===== src/Run.antt =====
-- A Go function that may panic: an index out of range, a close of a closed channel.
use mathlib.Core.Path.{◌≡◌, refl, subst}
use mathlib.Core.Logic.{◌⊎◌, inl, inr}

pub data Run {ℓ} (A : Type ℓ) : Type ℓ where
  returns : A → Run A
  panics : Run A

infixl 5 ◌>>=◌
abbrev pub ◌>>=◌ {ℓ κ} : {A : Type ℓ} {B : Type κ} → Run A → (A → Run B) → Run B
returns a >>= f = f a
panics >>= f = panics

-- The call returns, and what it returns has the property.
abbrev pub Returns {ℓ} : {A : Type ℓ} → Run A → (A → Type 0) → Type 0
Returns (returns a) P = P a
Returns panics P = ⊥

-- What holds of each result of a call holds of the one that it has.
pub Returns-eq {ℓ} :
    {A : Type ℓ} (P : A → Type 0) (x : Run A) {a : A} → x ≡ returns a → Returns x P → P a
Returns-eq P x e h = subst (λ y. Returns y P) e h

pub Run-cases {ℓ} : {A : Type ℓ} (x : Run A) → (x ≡ panics) ⊎ ((a : A) × (x ≡ returns a))
Run-cases (returns a) = inr (a, refl)
Run-cases panics = inl refl

-- A chain of calls returns if each does.
pub Returns-bind {ℓ κ} :
    {A : Type ℓ} {B : Type κ} (P : A → Type 0) (Q : B → Type 0) (x : Run A) (f : A → Run B)
    → Returns x P
    → ((a : A) → P a → Returns (f a) Q)
    → Returns (x >>= f) Q
Returns-bind P Q (returns a) f h next = next a h
Returns-bind P Q panics f h next = absurd h
