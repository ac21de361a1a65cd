-- ===== src/Outcome.antt =====
-- How a call that takes a lock, sends on a channel or waits for a goroutine can end: it returns, it
-- panics, or it waits for what no step of its own brings about.
use mathlib.Core.Path.{◌≡◌, refl}
use wadjit.Run.{Run, returns, panics, Returns}

pub data Outcome {ℓ} (A : Type ℓ) : Type ℓ where
  finishes : A → Outcome A
  crashes : Outcome A
  blocks : Outcome A

infixl 5 ◌>>=◌
abbrev pub ◌>>=◌ {ℓ κ} : {A : Type ℓ} {B : Type κ} → Outcome A → (A → Outcome B) → Outcome B
finishes a >>= f = f a
crashes >>= f = crashes
blocks >>= f = blocks

-- The call returns, and what it returns has the property.
abbrev pub Finishes {ℓ} : {A : Type ℓ} → Outcome A → (A → Type 0) → Type 0
Finishes (finishes a) P = P a
Finishes crashes P = ⊥
Finishes blocks P = ⊥

-- What such a call returns.
pub Finishes-value {ℓ} :
    {A : Type ℓ} (P : A → Type 0) (o : Outcome A) → Finishes o P → (a : A) × (o ≡ finishes a) × P a
Finishes-value P (finishes a) h = (a, refl, h)
Finishes-value P crashes h = absurd h
Finishes-value P blocks h = absurd h

-- A chain of calls returns if each does.
pub Finishes-bind {ℓ κ} :
    {A : Type ℓ} {B : Type κ} (P : A → Type 0) (Q : B → Type 0) (o : Outcome A) (f : A → Outcome B)
    → Finishes o P
    → ((a : A) → P a → Finishes (f a) Q)
    → Finishes (o >>= f) Q
Finishes-bind P Q (finishes a) f h next = next a h
Finishes-bind P Q crashes f h next = absurd h
Finishes-bind P Q blocks f h next = absurd h

abbrev pub of_run {ℓ} : {A : Type ℓ} → Run A → Outcome A
of_run (returns a) = finishes a
of_run panics = crashes

pub Returns-of_run {ℓ} :
    {A : Type ℓ} (P : A → Type 0) (x : Run A) → Returns x P → Finishes (of_run x) P
Returns-of_run P (returns a) h = h
Returns-of_run P panics h = absurd h
