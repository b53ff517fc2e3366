-- ===== src/Prelude/Lists.antt =====
-- Lists measured and indexed by native numbers, under the library's names.
use Prim.Native.Nat.{ℕ, zero, suc, ◌+◌, ◌≤◌, ◌<◌}
use mathlib.Core.Path.{◌≡◌, refl, sym, ap, subst}
use mathlib.Core.List.{List, [], ◌∷◌, ◌++◌, map}
use mathlib.Core.Logic.{◌⊎◌, inl, inr}
use mathlib.Core.Option.{Option, none, some}
use native.Mathlib.Decide.{ℕ_discrete}
use native.Mathlib.Omega.{arith}

module _ {ℓ} {A : Type ℓ} where
  abbrev pub length : List A → ℕ
  length [] = 0
  length (x ∷ xs) = suc (length xs)

  abbrev pub get_elem? : List A → ℕ → Option A
  get_elem? [] i = none
  get_elem? (x ∷ xs) zero = some x
  get_elem? (x ∷ xs) (suc i) = get_elem? xs i

  abbrev pub take : ℕ → List A → List A
  take zero xs = []
  take (suc n) [] = []
  take (suc n) (x ∷ xs) = x ∷ take n xs

  abbrev pub drop : ℕ → List A → List A
  drop zero xs = xs
  drop (suc n) [] = []
  drop (suc n) (x ∷ xs) = drop n xs

  abbrev pub replicate : ℕ → A → List A
  replicate zero a = []
  replicate (suc n) a = a ∷ replicate n a

  pub length-append : (xs ys : List A) → length (xs ++ ys) ≡ length xs + length ys
  length-append [] ys = omega arith
  length-append (x ∷ xs) ys = omega (arith, length-append xs ys)

  pub get_elem?-lt : (xs : List A) (i : ℕ) → i < length xs → (a : A) × (get_elem? xs i ≡ some a)
  get_elem?-lt [] i h = elim h [ ]
  get_elem?-lt (x ∷ xs) zero h = (x, refl)
  get_elem?-lt (x ∷ xs) (suc i) h = get_elem?-lt xs i (omega arith)

  pub get_elem?-eq-some : (xs : List A) (i : ℕ) (a : A) → get_elem? xs i ≡ some a → i < length xs
  get_elem?-eq-some [] i a h = ground arith
  get_elem?-eq-some (x ∷ xs) zero a h = omega arith
  get_elem?-eq-some (x ∷ xs) (suc i) a h = omega (arith, get_elem?-eq-some xs i a h)

pub length-map {ℓ κ} :
    {A : Type ℓ} {B : Type κ} (xs : List A) (f : A → B) → length (map f xs) ≡ length xs
length-map [] f = refl
length-map (x ∷ xs) f = ap suc (length-map xs f)

-- A predicate of every member, by recursion.
abbrev pub All {ℓ κ} : {A : Type ℓ} → (A → Type κ) → List A → Type κ
All P [] = Unit
All P (x ∷ xs) = P x × All P xs

pub All-append {ℓ κ} :
    {A : Type ℓ} (P : A → Type κ) (xs ys : List A) → All P xs → All P ys → All P (xs ++ ys)
All-append P [] ys h k = k
All-append P (x ∷ xs) ys h k = (h.0, All-append P xs ys h.1 k)

pub All-of_append {ℓ κ} :
    {A : Type ℓ} (P : A → Type κ) (xs ys : List A) → All P (xs ++ ys) → All P xs × All P ys
All-of_append P [] ys h = (tt, h)
All-of_append P (x ∷ xs) ys h = let (l, r) = All-of_append P xs ys h.1 in ((h.0, l), r)

-- Membership, by recursion.
abbrev pub Has : {A : Type 0} → A → List A → Type 0
Has a [] = ⊥
Has a (x ∷ xs) = (a ≡ x) ⊎ Has a xs

module _ {A : Type 0} where
  pub Has-append_left : (a : A) (xs ys : List A) → Has a xs → Has a (xs ++ ys)
  Has-append_left a [] ys h = elim h [ ]
  Has-append_left a (x ∷ xs) ys (inl e) = inl e
  Has-append_left a (x ∷ xs) ys (inr h) = inr (Has-append_left a xs ys h)

  pub Has-append_right : (a : A) (xs ys : List A) → Has a ys → Has a (xs ++ ys)
  Has-append_right a [] ys h = h
  Has-append_right a (x ∷ xs) ys h = inr (Has-append_right a xs ys h)

  pub Has-append : (a : A) (xs ys : List A) → Has a (xs ++ ys) → Has a xs ⊎ Has a ys
  Has-append a [] ys h = inr h
  Has-append a (x ∷ xs) ys (inl e) = inl (inl e)
  Has-append a (x ∷ xs) ys (inr h) = elim (Has-append a xs ys h) [
    | inl l ↦ inl (inr l)
    | inr r ↦ inr r
  ]

pub All-imp {ℓ κ μ} :
    {A : Type ℓ} {P : A → Type κ} {Q : A → Type μ} (xs : List A)
    → ((a : A) → P a → Q a)
    → All P xs
    → All Q xs
All-imp [] f h = tt
All-imp (x ∷ xs) f h = (f x h.0, All-imp xs f h.1)

pub All-map {ℓ κ μ} :
    {A : Type ℓ} {B : Type κ} (P : B → Type μ) (f : A → B) (xs : List A)
    → All P (map f xs)
    → All (λ a. P (f a)) xs
All-map P f [] h = tt
All-map P f (x ∷ xs) h = (h.0, All-map P f xs h.1)

pub All-of_Has : {A : Type 0} (P : A → Type 0) (xs : List A) → ((a : A) → Has a xs → P a) → All P xs
All-of_Has P [] h = tt
All-of_Has P (x ∷ xs) h = (h x (inl refl), All-of_Has P xs (λ a there. h a (inr there)))

pub All-Has : {A : Type 0} (P : A → Type 0) (xs : List A) (a : A) → All P xs → Has a xs → P a
All-Has P [] a h k = elim k [ ]
All-Has P (x ∷ xs) a h (inl e) = subst P (sym e) h.0
All-Has P (x ∷ xs) a h (inr k) = All-Has P xs a h.1 k

-- The numbers from, from + 1, …, `n` of them.
abbrev pub upto : ℕ → ℕ → List ℕ
upto from zero = []
upto from (suc n) = from ∷ upto (suc from) n

pub map-upto-suc {ℓ} :
    {A : Type ℓ} (f : ℕ → A) (from n : ℕ)
    → map f (upto from (suc n)) ≡ map f (upto from n) ++ f (from + n) ∷ []
map-upto-suc f from zero = ap (λ k. f k ∷ []) (omega arith)
map-upto-suc f from (suc n) =
    let e : suc from + n ≡ from + suc n = omega arith in
    ap (◌∷◌ (f from)) (rw (← e) (map-upto-suc f (suc from) n))

pub upto-suc : (from n : ℕ) → upto from (suc n) ≡ upto from n ++ (from + n) ∷ []
upto-suc from zero = ap (λ k. k ∷ []) (omega arith)
upto-suc from (suc n) =
    let e : suc from + n ≡ from + suc n = omega arith in
    ap (◌∷◌ from) (rw (← e) (upto-suc (suc from) n))

pub Has-upto : (from n k : ℕ) → from ≤ k → k < from + n → Has k (upto from n)
Has-upto from zero k le lt = absurd (omega arith)
Has-upto from (suc n) k le lt = elim (ℕ_discrete k from) [
  | yes e ↦ inl e
  | no other ↦ inr (Has-upto (suc from) n k (omega arith) (omega arith))
]
