-- ===== src/Common/Throwing.antt =====
-- The result of a call that may throw; each component has its own type of errors.
use mathlib.Core.Path.{◌≡◌, refl}
use mathlib.Core.Logic.{◌⊎◌, inl, inr}

pub data Outcome {ℓ} (E : Type 0) (A : Type ℓ) : Type ℓ where
  returns : A → Outcome E A
  throws : E → Outcome E A

-- the state that a call leaves behind: a call that throws has changed nothing
abbrev pub state_after {ℓ} : {E : Type 0} {A : Type ℓ} → Outcome E A → A → A
state_after (returns s) old = s
state_after (throws e) old = old

infixl 5 ◌>>=◌
abbrev pub ◌>>=◌ {ℓ κ} :
    {E : Type 0} {A : Type ℓ} {B : Type κ} → Outcome E A → (A → Outcome E B) → Outcome E B
returns a >>= f = f a
throws e >>= f = throws e

pub Outcome-cases {ℓ} :
    {E : Type 0} {A : Type ℓ} (o : Outcome E A)
    → ((a : A) × (o ≡ returns a)) ⊎ ((e : E) × (o ≡ throws e))
Outcome-cases (returns a) = inl (a, refl)
Outcome-cases (throws e) = inr (e, refl)
