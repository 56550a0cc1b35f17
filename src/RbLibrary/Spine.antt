-- ===== src/RbLibrary/Spine.antt =====
-- The interface can be met: trees in which every node hangs to the right of the one before it.
-- They serve where a statement is tried on concrete threads.
pub mod Insertion
pub mod Library
use cfs_userspace.Prelude.{
  ℕ, suc, ◌+◌, ◌≤◌, ◌<◌, ◌≡◌, ◌≢◌, refl, sym, ap, ◌∙◌, ◌⊎◌, inl, inr, List, [], ◌∷◌, ◌++◌, map, All,
  All-imp, All-append, All-left, All-right, All-zip, All-insert, All-remove, All-at, Distinct,
  Distinct-insert, Distinct-remove, SortedBy, head_or, store, store_self, store_other, arith, ◌==◌,
  if◌then◌else◌, subst, Bool-cases, Bool, true, false,
}
use mathlib.Core.List.{append_assoc}
use cfs_userspace.RbLibrary.{
  RbLibrary, Shape, leaf, branch, inorder, Links, Comparison, less, same, greater, Agrees,
}

-- The nodes in order, the thread of each, and the next free address; 1 is `nil`, 2 is `root`.
pub record Spine : Type 0 where
  pub nodes : List ℕ
  pub keys : ℕ → ℕ
  pub fresh : ℕ

abbrev pub shape_of : List ℕ → Shape
shape_of [] = leaf
shape_of (n ∷ ns) = branch leaf n (shape_of ns)

abbrev pub next_of : List ℕ → ℕ → ℕ
next_of [] n = 1
next_of (x ∷ xs) n = if x == n then head_or xs 1 else next_of xs n

abbrev pub left_of : Spine → ℕ → ℕ
left_of t n = if n == 2 then head_or t.nodes 1 else 1

abbrev pub is_greater : Comparison → Bool
is_greater greater = true
is_greater _ = false

abbrev pub place_in : (ℕ → Comparison) → ℕ → List ℕ → List ℕ
place_in against z [] = z ∷ []
place_in against z (x ∷ xs) =
    let rest = place_in against z xs in if is_greater (against x) then z ∷ x ∷ xs else x ∷ rest

abbrev pub remove_in : ℕ → List ℕ → List ℕ
remove_in n [] = []
remove_in n (x ∷ xs) = let rest = remove_in n xs in if x == n then xs else x ∷ rest

abbrev pub insert_in : (ℕ → ℕ → Comparison) → Spine → ℕ → Spine
insert_in cmp t k = record {
  nodes = place_in (λ n. cmp (t.keys n) k) t.fresh t.nodes;
  keys = store t.keys t.fresh k;
  fresh = suc t.fresh;
}

abbrev pub delete_in : Spine → ℕ → Spine
delete_in t n = record t { nodes = remove_in n t.nodes }

pub record IsSpine (t : Spine) : Type 0 where
  pub above : All (λ n. 3 ≤ n) t.nodes
  pub below : All (λ n. n < t.fresh) t.nodes
  pub distinct : Distinct t.nodes
  pub room : 3 ≤ t.fresh

pub inorder-shape_of : (ns : List ℕ) → inorder (shape_of ns) ≡ ns
inorder-shape_of [] = refl
inorder-shape_of (n ∷ ns) = ap (◌∷◌ n) (inorder-shape_of ns)

pub next_of-at :
    (xs : List ℕ) (n : ℕ) (ys : List ℕ)
    → Distinct (xs ++ n ∷ ys)
    → next_of (xs ++ n ∷ ys) n ≡ head_or ys 1
next_of-at [] n ys d = ground arith
next_of-at (x ∷ xs) n ys d = ground (arith, All-at n (λ y. x ≢ y) xs ys d.0, next_of-at xs n ys d.1)

pub remove_in-at :
    (xs : List ℕ) (n : ℕ) (ys : List ℕ)
    → Distinct (xs ++ n ∷ ys)
    → remove_in n (xs ++ n ∷ ys) ≡ xs ++ ys
remove_in-at [] n ys d = ground arith
remove_in-at (x ∷ xs) n ys d =
    ground (arith, All-at n (λ y. x ≢ y) xs ys d.0, remove_in-at xs n ys d.1)

-- Each node is linked to the rest of the list behind it.
pub linked_from :
    (t : Spine) (xs ys : List ℕ)
    → t.nodes ≡ xs ++ ys
    → IsSpine t
    → Links (left_of t) (next_of t.nodes) 1 (head_or ys 1) (shape_of ys)
linked_from t xs [] e v = refl
linked_from t xs (y ∷ ys) e v =
    let big : 3 ≤ y = All-at y _ xs ys (subst (All _) e v.above) in
    (
      refl,
      (λ h. omega arith),
      ground arith,
      subst (λ n. Links (left_of t) (next_of t.nodes) 1 n (shape_of ys))
          (rw e (sym (next_of-at xs y ys (subst Distinct e v.distinct))))
          (linked_from t (xs ++ y ∷ []) ys (e ∙ sym (append_assoc xs (y ∷ []) ys)) v),
    )
