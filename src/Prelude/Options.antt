-- ===== src/Prelude/Options.antt =====
-- Chains of results that may fail.
use mathlib.Core.Path.{◌≡◌}
use mathlib.Core.Option.{Option, none, some}

infixl 5 ◌>>=◌
abbrev pub ◌>>=◌ {ℓ κ} : {A : Type ℓ} {B : Type κ} → Option A → (A → Option B) → Option B
none >>= f = none
some a >>= f = f a

-- What holds of the result, if there is one.
unfoldable pub Holds {ℓ κ} : {A : Type ℓ} → (A → Type κ) → Option A → Type κ
Holds P none = Unit
Holds P (some a) = P a

abbrev pub IsSome {ℓ} : {A : Type ℓ} → Option A → Type ℓ
IsSome {A = A} o = (a : A) × (o ≡ some a)

pub Holds-bind {ℓ κ λ₁ μ} :
    {A : Type ℓ} {B : Type κ} (Q : A → Type λ₁) (P : B → Type μ) (o : Option A) (f : A → Option B)
    → Holds Q o
    → ((a : A) → Q a → Holds P (f a))
    → Holds P (o >>= f)
unfolding Holds
Holds-bind Q P none f h k = tt
Holds-bind Q P (some a) f h k = k a h

pub Holds-bind_any {ℓ κ μ} :
    {A : Type ℓ} {B : Type κ} (P : B → Type μ) (o : Option A) (f : A → Option B)
    → ((a : A) → Holds P (f a))
    → Holds P (o >>= f)
unfolding Holds
Holds-bind_any P none f k = tt
Holds-bind_any P (some a) f k = k a

pub Holds-imp {ℓ κ μ} :
    {A : Type ℓ} (P : A → Type κ) (Q : A → Type μ) (o : Option A)
    → ((a : A) → P a → Q a)
    → Holds P o
    → Holds Q o
unfolding Holds
Holds-imp P Q none f h = tt
Holds-imp P Q (some a) f h = f a h

pub Holds-some {ℓ κ} : {A : Type ℓ} (P : A → Type κ) {a : A} → P a → Holds P (some a)
unfolding Holds
Holds-some P h = h

pub IsSome-bind {ℓ κ} :
    {A : Type ℓ} {B : Type κ} (o : Option A) (f : A → Option B)
    → IsSome o
    → ((a : A) → IsSome (f a))
    → IsSome (o >>= f)
IsSome-bind o f (a, e) k = rw e (k a)
