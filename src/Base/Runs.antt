-- ===== src/Base/Runs.antt =====
-- The outcome of code that may read outside its memory or, in the model, run out of fuel.
use mathlib.Core.Path.{◌≡◌, refl, ap, subst}

pub data Outcome {ℓ} (A : Type ℓ) : Type ℓ where
  done : A → Outcome A
  fault : Outcome A
  no_fuel : Outcome A

infixl 5 ◌>>=◌
abbrev pub ◌>>=◌ {ℓ κ} : {A : Type ℓ} {B : Type κ} → Outcome A → (A → Outcome B) → Outcome B
done a >>= f = f a
fault >>= f = fault
no_fuel >>= f = no_fuel

-- The run ended with a result.
abbrev pub IsDone {ℓ} : {A : Type ℓ} → Outcome A → Type 0
IsDone (done a) = Unit
IsDone fault = ⊥
IsDone no_fuel = ⊥

abbrev pub result_or {ℓ} : {A : Type ℓ} → Outcome A → A → A
result_or (done a) d = a
result_or fault d = d
result_or no_fuel d = d

pub IsDone→result_or {ℓ} :
    {A : Type ℓ} (r : Outcome A) (d : A) → IsDone r → r ≡ done (result_or r d)
IsDone→result_or (done a) d h = refl
IsDone→result_or fault d h = absurd h
IsDone→result_or no_fuel d h = absurd h

-- The run ended with a result that satisfies `P`.
abbrev pub Returns {ℓ} : {A : Type ℓ} → Outcome A → (A → Type 0) → Type 0
Returns (done a) P = P a
Returns fault P = ⊥
Returns no_fuel P = ⊥

pub Returns_mono {ℓ} :
    {A : Type ℓ} {P Q : A → Type 0} (r : Outcome A)
    → ((a : A) → P a → Q a)
    → Returns r P
    → Returns r Q
Returns_mono (done a) f h = f a h
Returns_mono fault f h = h
Returns_mono no_fuel f h = h

-- A chain returns what its first step returns, handed on.
pub Returns->>= {ℓ κ} :
    {A : Type ℓ} {B : Type κ} {P : A → Type 0} (Q : B → Type 0) (r : Outcome A) (k : A → Outcome B)
    → Returns r P
    → ((a : A) → P a → Returns (k a) Q)
    → Returns (r >>= k) Q
Returns->>= Q (done a) k h f = f a h
Returns->>= Q fault k h f = h
Returns->>= Q no_fuel k h f = h

pub Returns→eq : {A : Type 0} (r : Outcome A) (a : A) → Returns r (λ b. b ≡ a) → r ≡ done a
Returns→eq (done b) a h = ap done h
Returns→eq fault a h = absurd h
Returns→eq no_fuel a h = absurd h

-- The number returned, rewritten.
pub Returns_trans :
    {A : Type 0} (r : Outcome A) (a b : A) → Returns r (λ k. k ≡ a) → a ≡ b → Returns r (λ k. k ≡ b)
Returns_trans r a b h e = subst (λ t. Returns r (λ k. k ≡ t)) e h
