-- ===== src/Prelude/Lists.antt =====
-- Lists measured by native numbers, predicates on all members, and ordering by a rank.
use Prim.Native.Nat.{ℕ, zero, suc, ◌+◌, ◌≤◌}
use mathlib.Core.Path.{◌≡◌, refl, sym, subst, ap, ap₂, ◌∙◌}
use mathlib.Core.Logic.{◌≢◌, ◌⊎◌, inl, inr}
use mathlib.Core.List.{List, [], ◌∷◌, ◌++◌, map}
use mathlib.Core.Option.{Option, none, some}
use native.Mathlib.Omega.{arith}
use native.Mathlib.Decide.{ℕ_discrete}

module _ {ℓ} {A : Type ℓ} where
  abbrev pub length : List A → ℕ
  length [] = 0
  length (x ∷ xs) = suc (length xs)

  abbrev pub head? : List A → Option A
  head? [] = none
  head? (x ∷ xs) = some x

  abbrev pub head_or : List A → A → A
  head_or [] d = d
  head_or (x ∷ xs) d = x

  -- The last member, of a list known by its head and tail.
  abbrev pub last_from : A → List A → A
  last_from x [] = x
  last_from x (y ∷ ys) = last_from y ys

  abbrev pub get_last? : List A → Option A
  get_last? [] = none
  get_last? (x ∷ xs) = some (last_from x xs)

  -- A write out of range changes nothing.
  abbrev pub set : List A → ℕ → A → List A
  set [] i v = []
  set (x ∷ xs) zero v = v ∷ xs
  set (x ∷ xs) (suc i) v = x ∷ set xs i v

  abbrev pub replicate : ℕ → A → List A
  replicate zero a = []
  replicate (suc n) a = a ∷ replicate n a

  pub length-append : (xs ys : List A) → length (xs ++ ys) ≡ length xs + length ys
  length-append [] ys = omega arith
  length-append (x ∷ xs) ys = omega (arith, length-append xs ys)

  pub last_from-append : (x y : A) (xs ys : List A) → last_from x (xs ++ y ∷ ys) ≡ last_from y ys
  last_from-append x y [] ys = refl
  last_from-append x y (z ∷ xs) ys = last_from-append z y xs ys

  pub head_or-append : (xs ys : List A) (d : A) → head_or (xs ++ ys) d ≡ head_or xs (head_or ys d)
  head_or-append [] ys d = refl
  head_or-append (x ∷ xs) ys d = refl

  abbrev pub All {κ} : (A → Type κ) → List A → Type κ
  All P [] = Unit
  All P (x ∷ xs) = P x × All P xs

module _ {ℓ κ} {A : Type ℓ} (P : A → Type κ) where
  pub All-append : (xs ys : List A) → All P xs → All P ys → All P (xs ++ ys)
  All-append [] ys hx hy = hy
  All-append (x ∷ xs) ys hx hy = (hx.0, All-append xs ys hx.1 hy)

  pub All-left : (xs ys : List A) → All P (xs ++ ys) → All P xs
  All-left [] ys h = tt
  All-left (x ∷ xs) ys h = (h.0, All-left xs ys h.1)

  pub All-right : (xs ys : List A) → All P (xs ++ ys) → All P ys
  All-right [] ys h = h
  All-right (x ∷ xs) ys h = All-right xs ys h.1

  pub All-last_from : (x : A) (xs : List A) → All P (x ∷ xs) → P (last_from x xs)
  All-last_from x [] h = h.0
  All-last_from x (y ∷ xs) h = All-last_from y xs h.1

module _ {ℓ κ μ} {A : Type ℓ} {P : A → Type κ} {Q : A → Type μ} where
  pub All-imp : ((a : A) → P a → Q a) → (xs : List A) → All P xs → All Q xs
  All-imp f [] h = tt
  All-imp f (x ∷ xs) h = (f x h.0, All-imp f xs h.1)

module _ {ℓ κ μ ν} {A : Type ℓ} {P : A → Type κ} {Q : A → Type μ} {R : A → Type ν} where
  pub All-zip : ((a : A) → P a → Q a → R a) → (xs : List A) → All P xs → All Q xs → All R xs
  All-zip f [] h k = tt
  All-zip f (x ∷ xs) h k = (f x h.0 k.0, All-zip f xs h.1 k.1)

module _ {ℓ κ μ} {A : Type ℓ} {B : Type κ} (P : B → Type μ) (f : A → B) where
  pub All-map : (xs : List A) → All (λ a. P (f a)) xs → All P (map f xs)
  All-map [] h = tt
  All-map (x ∷ xs) h = (h.0, All-map xs h.1)

  pub All-of_map : (xs : List A) → All P (map f xs) → All (λ a. P (f a)) xs
  All-of_map [] h = tt
  All-of_map (x ∷ xs) h = (h.0, All-of_map xs h.1)

module _ {ℓ κ} {A : Type ℓ} {B : Type κ} where
  pub map-All-eq : (f g : A → B) (xs : List A) → All (λ a. f a ≡ g a) xs → map f xs ≡ map g xs
  map-All-eq f g [] h = refl
  map-All-eq f g (x ∷ xs) h = ap₂ ◌∷◌ h.0 (map-All-eq f g xs h.1)

  pub length-map : (f : A → B) (xs : List A) → length (map f xs) ≡ length xs
  length-map f [] = refl
  length-map f (x ∷ xs) = ap suc (length-map f xs)

  pub last_from-map :
      (f : A → B) (x : A) (xs : List A) → last_from (f x) (map f xs) ≡ f (last_from x xs)
  last_from-map f x [] = refl
  last_from-map f x (y ∷ xs) = last_from-map f y xs

module _ {ℓ κ} {A : Type ℓ} {B : Type κ} (f : A → B) where
  pub head?-map-append :
      (xs : List A) (y : A) (ys : List A) → head? (map f (xs ++ y ∷ ys)) ≡ some (f (head_or xs y))
  head?-map-append [] y ys = refl
  head?-map-append (x ∷ xs) y ys = refl

  pub get_last?-map-append :
      (xs : List A) (y : A) (ys : List A)
      → get_last? (map f (xs ++ y ∷ ys)) ≡ some (f (last_from y ys))
  get_last?-map-append [] y ys = ap some (last_from-map f y ys)
  get_last?-map-append (x ∷ xs) y ys =
      ap some (last_from-map f x (xs ++ y ∷ ys) ∙ ap f (last_from-append x y xs ys))

-- The members stand in the order of their ranks.
abbrev pub SortedBy {ℓ} : {A : Type ℓ} → (A → ℕ) → List A → Type 0
SortedBy rank [] = Unit
SortedBy rank (x ∷ xs) = All (λ y. rank x ≤ rank y) xs × SortedBy rank xs

-- No member twice.
abbrev pub Distinct {ℓ} : {A : Type ℓ} → List A → Type ℓ
Distinct [] = Unit
Distinct (x ∷ xs) = All (λ y. x ≢ y) xs × Distinct xs

-- Two lists are apart whichever is taken first.
pub All-apart {ℓ} :
    {A : Type ℓ} (xs ys : List A)
    → All (λ x. All (λ y. x ≢ y) ys) xs
    → All (λ y. All (λ x. y ≢ x) xs) ys
All-apart xs [] h = tt
All-apart xs (y ∷ ys) h =
    (All-imp (λ x k e. k.0 (sym e)) xs h, All-apart xs ys (All-imp (λ x k. k.1) xs h))

abbrev pub In : {A : Type 0} → A → List A → Type 0
In a [] = ⊥
In a (x ∷ xs) = (a ≡ x) ⊎ In a xs

pub All-In {κ} : {A : Type 0} (P : A → Type κ) (a : A) (xs : List A) → All P xs → In a xs → P a
All-In P a [] h i = absurd i
All-In P a (x ∷ xs) h (inl e) = subst P (sym e) h.0
All-In P a (x ∷ xs) h (inr i) = All-In P a xs h.1 i

pub All-always {ℓ κ} : {A : Type ℓ} {P : A → Type κ} → ((a : A) → P a) → (xs : List A) → All P xs
All-always f [] = tt
All-always f (x ∷ xs) = (f x, All-always f xs)

pub In-right : {A : Type 0} (a : A) (xs ys : List A) → In a ys → In a (xs ++ ys)
In-right a [] ys i = i
In-right a (x ∷ xs) ys i = inr (In-right a xs ys i)

pub In-left : {A : Type 0} (a : A) (xs ys : List A) → In a xs → In a (xs ++ ys)
In-left a [] ys i = absurd i
In-left a (x ∷ xs) ys (inl e) = inl e
In-left a (x ∷ xs) ys (inr i) = inr (In-left a xs ys i)

-- A number is one of the members, or differs from all of them.
pub In-or-apart : (n : ℕ) (ns : List ℕ) → In n ns ⊎ All (λ m. n ≢ m) ns
In-or-apart n [] = inr tt
In-or-apart n (m ∷ ns) =
    let rest = In-or-apart n ns in
    elim (ℕ_discrete n m) [
      | yes same ↦ inl (inl same)
      | no other ↦ elim rest [ inl i ↦ inl (inr i) | inr apart ↦ inr (other, apart) ]
    ]

-- Only the second part of a list is replaced.
pub In-append-imp :
    {A : Type 0} (a : A) (xs ys zs : List A)
    → (In a ys → In a zs)
    → In a (xs ++ ys)
    → In a (xs ++ zs)
In-append-imp a [] ys zs f i = f i
In-append-imp a (x ∷ xs) ys zs f (inl e) = inl e
In-append-imp a (x ∷ xs) ys zs f (inr i) = inr (In-append-imp a xs ys zs f i)
