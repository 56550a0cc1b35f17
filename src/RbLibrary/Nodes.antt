-- ===== src/RbLibrary/Nodes.antt =====
-- Binary trees of node addresses, and what it means that pointers link one.
use cfs_userspace.Prelude.{
  ℕ, ◌+◌, ◌≤◌, refl, sym, ◌∙◌, head_or, head_or-append, last_from, last_from-append, ◌≡◌, ◌≢◌, List,
  [], ◌∷◌, ◌++◌, All, All-append, length, length-append, arith,
}

pub data Shape : Type 0 where
  leaf : Shape
  branch : Shape → ℕ → Shape → Shape

abbrev pub inorder : Shape → List ℕ
inorder leaf = []
inorder (branch l n r) = inorder l ++ n ∷ inorder r

abbrev pub Links : (ℕ → ℕ) → (ℕ → ℕ) → ℕ → ℕ → Shape → Type 0
Links left right nil n leaf = n ≡ nil
Links left right nil n (branch l m r) =
    (n ≡ m) × (m ≢ nil) × Links left right nil (left m) l × Links left right nil (right m) r

pub size : Shape → ℕ
size s = length (inorder s)

pub size-branch : (a : Shape) (m : ℕ) (b : Shape) → size (branch a m b) ≡ size a + size b + 1
unfolding size
size-branch a m b = omega (arith, length-append (inorder a) (m ∷ inorder b))

-- The nodes on the way down to the left, and to the right.
abbrev pub left_spine : Shape → List ℕ
left_spine leaf = []
left_spine (branch l n r) = n ∷ left_spine l

abbrev pub right_spine : Shape → List ℕ
right_spine leaf = []
right_spine (branch l n r) = n ∷ right_spine r

pub length-left_spine-le : (s : Shape) → length (left_spine s) ≤ size s
unfolding size
length-left_spine-le leaf = omega arith
length-left_spine-le (branch l n r) =
    omega (arith, length-left_spine-le l, length-append (inorder l) (n ∷ inorder r))

pub length-right_spine-le : (s : Shape) → length (right_spine s) ≤ size s
unfolding size
length-right_spine-le leaf = omega arith
length-right_spine-le (branch l n r) =
    omega (arith, length-right_spine-le r, length-append (inorder l) (n ∷ inorder r))

-- The way to the left ends at the first node in order, that to the right at the last.
pub last-left_spine : (n : ℕ) (s : Shape) → last_from n (left_spine s) ≡ head_or (inorder s) n
last-left_spine n leaf = refl
last-left_spine n (branch l m r) =
    last-left_spine m l ∙ sym (head_or-append (inorder l) (m ∷ inorder r) n)

pub last-right_spine : (n : ℕ) (s : Shape) → last_from n (right_spine s) ≡ last_from n (inorder s)
last-right_spine n leaf = refl
last-right_spine n (branch l m r) =
    last-right_spine m r ∙ sym (last_from-append n m (inorder l) (inorder r))

-- Pointers along one direction, up to the sentinel.
abbrev pub Chain : (ℕ → ℕ) → ℕ → ℕ → List ℕ → Type 0
Chain next nil n [] = n ≡ nil
Chain next nil n (m ∷ ms) = (n ≡ m) × (m ≢ nil) × Chain next nil (next m) ms

pub Links-left_spine :
    (left right : ℕ → ℕ) (nil n : ℕ) (s : Shape)
    → Links left right nil n s
    → Chain left nil n (left_spine s)
Links-left_spine left right nil n leaf h = h
Links-left_spine left right nil n (branch l m r) h =
    (h.0, h.1, Links-left_spine left right nil (left m) l h.2)

pub Links-right_spine :
    (left right : ℕ → ℕ) (nil n : ℕ) (s : Shape)
    → Links left right nil n s
    → Chain right nil n (right_spine s)
Links-right_spine left right nil n leaf h = h
Links-right_spine left right nil n (branch l m r) h =
    (h.0, h.1, Links-right_spine left right nil (right m) r h.3)

-- The sentinel is no node of the tree.
pub Links-ne_nil :
    (left right : ℕ → ℕ) (nil n : ℕ) (s : Shape)
    → Links left right nil n s
    → All (λ m. m ≢ nil) (inorder s)
Links-ne_nil left right nil n leaf h = tt
Links-ne_nil left right nil n (branch l m r) h =
    All-append _ (inorder l) (m ∷ inorder r) (Links-ne_nil left right nil (left m) l h.2)
      (h.1, Links-ne_nil left right nil (right m) r h.3)
