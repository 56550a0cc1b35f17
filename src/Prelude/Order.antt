-- ===== src/Prelude/Order.antt =====
-- Lists kept in the order of a rank: the place of a new member, and the removal of one.
use Prim.Native.Nat.{ℕ, suc, ◌≤◌, ◌<◌}
use mathlib.Core.Path.{◌≡◌, refl, sym, ap, ◌∙◌}
use mathlib.Core.Logic.{◌≢◌, inl, inr}
use mathlib.Core.List.{List, [], ◌∷◌, ◌++◌, map}
use native.Mathlib.Nat.{le_trans}
use native.Mathlib.Omega.{arith}
use cfs_userspace.Prelude.Tests.{ltb, if◌then◌else◌, lt→ltb, le→ltb, Bool-cases}
use cfs_userspace.Prelude.Lists.{
  All, In, All-append, All-left, All-right, All-imp, All-of_map, SortedBy, Distinct, length,
  last_from,
}

-- A member goes behind those of its rank, so equal ranks keep the order of insertion.
unfoldable pub insert_by {ℓ} : {A : Type ℓ} → (A → ℕ) → A → List A → List A
insert_by rank p [] = p ∷ []
insert_by rank p (q ∷ qs) =
    let rest = insert_by rank p qs in if ltb (rank p) (rank q) then p ∷ q ∷ qs else q ∷ rest

module _ {ℓ} {A : Type ℓ} (rank : A → ℕ) (p : A) where
  insert_by-front : (ys : List A) → All (λ q. rank p < rank q) ys → insert_by rank p ys ≡ p ∷ ys
  unfolding insert_by
  insert_by-front [] h = refl
  insert_by-front (y ∷ ys) h = rw (lt→ltb _ _ h.0)

  pub insert_by-place :
      (xs ys : List A)
      → All (λ q. rank q ≤ rank p) xs
      → All (λ q. rank p < rank q) ys
      → insert_by rank p (xs ++ ys) ≡ xs ++ p ∷ ys
  unfolding insert_by
  insert_by-place [] ys hx hy = insert_by-front ys hy
  insert_by-place (x ∷ xs) ys hx hy =
      rw (le→ltb _ _ hx.0) (ap (◌∷◌ x) (insert_by-place xs ys hx.1 hy))

  pub SortedBy-insert :
      (xs ys : List A)
      → All (λ q. rank q ≤ rank p) xs
      → All (λ q. rank p < rank q) ys
      → SortedBy rank (xs ++ ys)
      → SortedBy rank (xs ++ p ∷ ys)
  SortedBy-insert [] ys hx hy s = (All-imp (λ q h. omega arith) ys hy, s)
  SortedBy-insert (x ∷ xs) ys hx hy s = (
    All-append _ xs (p ∷ ys) (All-left _ xs ys s.0) (hx.0, All-right _ xs ys s.0),
    SortedBy-insert xs ys hx.1 hy s.1,
  )

module _ {ℓ} {A : Type ℓ} (p : A) where
  pub All-insert {κ} :
      (P : A → Type κ) (xs ys : List A) → P p → All P (xs ++ ys) → All P (xs ++ p ∷ ys)
  All-insert P xs ys hp h = All-append P xs (p ∷ ys) (All-left P xs ys h) (hp, All-right P xs ys h)

  pub All-remove {κ} : (P : A → Type κ) (xs ys : List A) → All P (xs ++ p ∷ ys) → All P (xs ++ ys)
  All-remove P xs ys h = All-append P xs ys (All-left P xs (p ∷ ys) h) (All-right P xs (p ∷ ys) h).1

  pub All-at {κ} : (P : A → Type κ) (xs ys : List A) → All P (xs ++ p ∷ ys) → P p
  All-at P xs ys h = (All-right P xs (p ∷ ys) h).0

  pub Distinct-insert :
      (xs ys : List A) → All (λ q. p ≢ q) (xs ++ ys) → Distinct (xs ++ ys) → Distinct (xs ++ p ∷ ys)
  Distinct-insert [] ys new d = (new, d)
  Distinct-insert (x ∷ xs) ys new d =
      (All-insert _ xs ys (λ e. new.0 (sym e)) d.0, Distinct-insert xs ys new.1 d.1)

  pub Distinct-remove : (xs ys : List A) → Distinct (xs ++ p ∷ ys) → Distinct (xs ++ ys)
  Distinct-remove [] ys d = d.1
  Distinct-remove (x ∷ xs) ys d = (All-remove _ xs ys d.0, Distinct-remove xs ys d.1)

  -- The removed member is not among those that are left.
  pub Distinct-removed : (xs ys : List A) → Distinct (xs ++ p ∷ ys) → All (λ q. p ≢ q) (xs ++ ys)
  Distinct-removed [] ys d = d.0
  Distinct-removed (x ∷ xs) ys d = (λ e. All-at _ xs ys d.0 (sym e), Distinct-removed xs ys d.1)

  pub SortedBy-remove :
      (rank : A → ℕ) (xs ys : List A) → SortedBy rank (xs ++ p ∷ ys) → SortedBy rank (xs ++ ys)
  SortedBy-remove rank [] ys s = s.1
  SortedBy-remove rank (x ∷ xs) ys s = (All-remove _ xs ys s.0, SortedBy-remove rank xs ys s.1)

pub SortedBy-of_map {ℓ κ} :
    {A : Type ℓ} {B : Type κ} (rank : B → ℕ) (f : A → B) (xs : List A)
    → SortedBy rank (map f xs)
    → SortedBy (λ x. rank (f x)) xs
SortedBy-of_map rank f [] s = tt
SortedBy-of_map rank f (x ∷ xs) s = (All-of_map _ f xs s.0, SortedBy-of_map rank f xs s.1)

-- A list with a new member is not empty.
pub insert_by-cons {ℓ} :
    {A : Type ℓ} (rank : A → ℕ) (p : A) (qs : List A)
    → (x : A) × (rest : List A) × (insert_by rank p qs ≡ x ∷ rest) × (length rest ≡ length qs)
unfolding insert_by
insert_by-cons rank p [] = (p, [], refl, refl)
insert_by-cons rank p (q ∷ qs) =
    let (x, rest, e, n) = insert_by-cons rank p qs in
    elim (Bool-cases (ltb (rank p) (rank q))) [
      | inl first ↦ (p, q ∷ qs, rw first, refl)
      | inr behind ↦ (q, insert_by rank p qs, rw behind, rw e (ap suc n))
    ]

-- The last member of an ordered list has the greatest rank.
pub SortedBy-last {ℓ} :
    {A : Type ℓ} (rank : A → ℕ) (x : A) (xs : List A)
    → SortedBy rank (x ∷ xs)
    → All (λ y. rank y ≤ rank (last_from x xs)) (x ∷ xs)
SortedBy-last rank x [] s = (omega arith, tt)
SortedBy-last rank x (y ∷ xs) s =
    let rest = SortedBy-last rank y xs s.1 in (le_trans s.0.0 rest.0, rest)

pub All-insert_by {ℓ κ} :
    {A : Type ℓ} (P : A → Type κ) (rank : A → ℕ) (p : A) (qs : List A)
    → P p
    → All P qs
    → All P (insert_by rank p qs)
unfolding insert_by
All-insert_by P rank p [] hp h = (hp, h)
All-insert_by P rank p (q ∷ qs) hp h =
    let rest = All-insert_by P rank p qs hp h.1 in
    elim (Bool-cases (ltb (rank p) (rank q))) [
      | inl first ↦ rw first (hp, h)
      | inr behind ↦ rw behind (h.0, rest)
    ]

-- The new member is one of the members.
pub In-insert_by : {A : Type 0} (rank : A → ℕ) (p : A) (qs : List A) → In p (insert_by rank p qs)
unfolding insert_by
In-insert_by rank p [] = inl refl
In-insert_by rank p (q ∷ qs) =
    let rest = In-insert_by rank p qs in
    elim (Bool-cases (ltb (rank p) (rank q))) [
      | inl first ↦ rw first (inl refl)
      | inr behind ↦ rw behind (inr rest)
    ]

-- So is each old one.
pub In-insert_by-old :
    {A : Type 0} (rank : A → ℕ) (p a : A) (qs : List A) → In a qs → In a (insert_by rank p qs)
unfolding insert_by
In-insert_by-old rank p a [] i = inr i
In-insert_by-old rank p a (q ∷ qs) (inl e) = elim (Bool-cases (ltb (rank p) (rank q))) [
  | inl first ↦ rw first (inr (inl e))
  | inr behind ↦ rw behind (inl e)
]
In-insert_by-old rank p a (q ∷ qs) (inr i) =
    let rest = In-insert_by-old rank p a qs i in
    elim (Bool-cases (ltb (rank p) (rank q))) [
      | inl first ↦ rw first (inr (inr i))
      | inr behind ↦ rw behind (inr rest)
    ]

pub length-insert_by {ℓ} :
    {A : Type ℓ} (rank : A → ℕ) (p : A) (qs : List A)
    → length (insert_by rank p qs) ≡ suc (length qs)
length-insert_by rank p qs =
    let (x, rest, e, n) = insert_by-cons rank p qs in ap length e ∙ ap suc n
