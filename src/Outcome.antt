-- ===== src/Outcome.antt =====
-- What a call that may panic comes to. A panic carries its message.
use Prim.Native.String.{String}

pub data Outcome {ℓ} (A : Type ℓ) : Type ℓ where
  returned : A → Outcome A
  panicked : String → Outcome A

infixl 5 ◌>>=◌
abbrev pub ◌>>=◌ {ℓ κ} : {A : Type ℓ} {B : Type κ} → Outcome A → (A → Outcome B) → Outcome B
returned a >>= f = f a
panicked m >>= f = panicked m

-- The call returns, and its result satisfies `P`.
abbrev pub Returns {ℓ} : {A : Type ℓ} → Outcome A → (A → Type 0) → Type 0
Returns (returned a) P = P a
Returns (panicked m) P = ⊥

pub Returns->>= {ℓ κ} :
    {A : Type ℓ} {B : Type κ} (m : Outcome A) (P : A → Type 0) (f : A → Outcome B) (Q : B → Type 0)
    → Returns m P
    → ((a : A) → P a → Returns (f a) Q)
    → Returns (m >>= f) Q
Returns->>= (returned a) P f Q h k = k a h
Returns->>= (panicked e) P f Q h k = h

pub Returns-map {ℓ} :
    {A : Type ℓ} (m : Outcome A) (P Q : A → Type 0)
    → Returns m P
    → ((a : A) → P a → Q a)
    → Returns m Q
Returns-map (returned a) P Q h k = k a h
Returns-map (panicked e) P Q h k = h

-- If the call returns, its result satisfies `P`.
abbrev pub Ensures {ℓ} : {A : Type ℓ} → Outcome A → (A → Type 0) → Type 0
Ensures (returned a) P = P a
Ensures (panicked m) P = Unit {0}

pub Ensures-of_Returns {ℓ} :
    {A : Type ℓ} (m : Outcome A) (P : A → Type 0) → Returns m P → Ensures m P
Ensures-of_Returns (returned a) P h = h
Ensures-of_Returns (panicked e) P h = tt
