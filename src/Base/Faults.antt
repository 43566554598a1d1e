-- ===== src/Base/Faults.antt =====
-- What a call ends in: a value, or the end of the process.
use Prim.Native.Nat.{ℕ}
use mathlib.Core.Path.{◌≡◌, refl}

-- The diagnostics that call `exit(1)`, and an access outside an array, which C leaves
-- undefined.
pub data Fault : Type 0 where
  bad_access : ℕ → ℕ → Fault
  illegal : ℕ → Fault
  alloc_failed out_of_bounds : Fault

pub data Outcome {ℓ} (A : Type ℓ) : Type ℓ where
  ok : A → Outcome A
  fatal : Fault → Outcome A

infixl 5 ◌>>=◌
abbrev pub ◌>>=◌ {ℓ κ} : {A : Type ℓ} {B : Type κ} → Outcome A → (A → Outcome B) → Outcome B
ok a >>= f = f a
fatal e >>= f = fatal e

pub fatal-ne-ok {ℓ} : {A : Type ℓ} {e : Fault} {a : A} → fatal e ≡ ok a → ⊥
fatal-ne-ok h = cc

pub ok-injective {ℓ} : {A : Type ℓ} {a b : A} → ok a ≡ ok b → a ≡ b
ok-injective h = cc

-- `P` holds of the value, if there is one.
abbrev pub After {ℓ κ} : {A : Type ℓ} → Outcome A → (A → Type κ) → Type κ
After (ok a) P = P a
After (fatal e) P = Unit

module _ {ℓ κ} {A : Type ℓ} {B : Type κ} where
  pub bind_congr :
      (r : Outcome A) (f g : A → Outcome B) → ((a : A) → f a ≡ g a) → (r >>= f) ≡ (r >>= g)
  bind_congr r f g p = λ i. r >>= λ a. p a i

  pub bind_assoc {μ} :
      {C : Type μ} (r : Outcome A) (f : A → Outcome B) (g : B → Outcome C)
      → (r >>= f >>= g) ≡ (r >>= λ a. f a >>= g)
  bind_assoc (ok a) f g = refl
  bind_assoc (fatal e) f g = refl

  -- The parts of a successful bind.
  pub bind-eq-ok :
      (r : Outcome A) (f : A → Outcome B) {b : B}
      → (r >>= f) ≡ ok b
      → (a : A) × (r ≡ ok a) × (f a ≡ ok b)
  bind-eq-ok (ok a) f h = (a, refl, h)
  bind-eq-ok (fatal e) f h = absurd (fatal-ne-ok h)

  -- Two continuations that agree on what the value satisfies.
  pub bind_congr_after {μ} :
      (P : A → Type μ) (r : Outcome A) (f g : A → Outcome B)
      → After r P
      → ((a : A) → P a → f a ≡ g a)
      → (r >>= f) ≡ (r >>= g)
  bind_congr_after P (ok a) f g h p = p a h
  bind_congr_after P (fatal e) f g h p = refl

  -- A condition on what a bind gives.
  pub After-bind {μ ν} :
      (P : A → Type μ) (Q : B → Type ν) (r : Outcome A) (f : A → Outcome B)
      → After r P
      → ((a : A) → P a → After (f a) Q)
      → After (r >>= f) Q
  After-bind P Q (ok a) f h k = k a h
  After-bind P Q (fatal e) f h k = tt

  pub After-bind_all {ν} :
      (Q : B → Type ν) (r : Outcome A) (f : A → Outcome B)
      → ((a : A) → After (f a) Q)
      → After (r >>= f) Q
  After-bind_all Q (ok a) f k = k a
  After-bind_all Q (fatal e) f k = tt

pub After-both {ℓ κ μ} :
    {A : Type ℓ} (P : A → Type κ) (Q : A → Type μ) (r : Outcome A)
    → After r P
    → After r Q
    → After r (λ a. P a × Q a)
After-both P Q (ok a) h k = (h, k)
After-both P Q (fatal e) h k = tt

pub After-weaken {ℓ κ μ} :
    {A : Type ℓ} (P : A → Type κ) (Q : A → Type μ) (r : Outcome A)
    → After r P
    → ((a : A) → P a → Q a)
    → After r Q
After-weaken P Q (ok a) h k = k a h
After-weaken P Q (fatal e) h k = tt

-- Both calls end in the same fault, or both give values that `P` relates.
abbrev pub BothEnd {ℓ} : {A : Type ℓ} → (A → A → Type 0) → Outcome A → Outcome A → Type 0
BothEnd P (ok a) (ok b) = P a b
BothEnd P (fatal e) (fatal f) = e ≡ f
BothEnd P (ok a) (fatal f) = ⊥
BothEnd P (fatal e) (ok b) = ⊥

module _ {ℓ κ} {A : Type ℓ} {B : Type κ} where
  pub BothEnd-bind :
      (P : A → A → Type 0) (Q : B → B → Type 0) (r s : Outcome A) (f g : A → Outcome B)
      → BothEnd P r s
      → ((a b : A) → P a b → BothEnd Q (f a) (g b))
      → BothEnd Q (r >>= f) (s >>= g)
  BothEnd-bind P Q (ok a) (ok b) f g h k = k a b h
  BothEnd-bind P Q (fatal e) (fatal e') f g h k = h
  BothEnd-bind P Q (ok a) (fatal e) f g h k = absurd h
  BothEnd-bind P Q (fatal e) (ok a) f g h k = absurd h

  pub BothEnd-same :
      (Q : B → B → Type 0) (r : Outcome A) (f g : A → Outcome B)
      → ((a : A) → BothEnd Q (f a) (g a))
      → BothEnd Q (r >>= f) (r >>= g)
  BothEnd-same Q (ok a) f g k = k a
  BothEnd-same Q (fatal e) f g k = refl

-- There is a value, and `P` holds of it.
abbrev pub Returns {ℓ} : {A : Type ℓ} → Outcome A → (A → Type 0) → Type 0
Returns (ok a) P = P a
Returns (fatal e) P = ⊥

pub Returns-ok {ℓ} :
    {A : Type ℓ} (P : A → Type 0) (r : Outcome A) → Returns r P → (a : A) × (r ≡ ok a) × P a
Returns-ok P (ok a) h = (a, refl, h)
Returns-ok P (fatal e) h = absurd h

pub Returns-bind {ℓ κ} :
    {A : Type ℓ} {B : Type κ} (P : A → Type 0) (Q : B → Type 0) (r : Outcome A) (f : A → Outcome B)
    → Returns r P
    → ((a : A) → P a → Returns (f a) Q)
    → Returns (r >>= f) Q
Returns-bind P Q (ok a) f h k = k a h
Returns-bind P Q (fatal e) f h k = absurd h
