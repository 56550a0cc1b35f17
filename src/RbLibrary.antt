-- ===== src/RbLibrary.antt =====
-- The calls that the scheduler makes of the red-black tree library in rb/, as an interface.
-- rb/ is a copy of another project's library; its pointers are addresses, and NULL is 0.
-- The interface stands for the library with enough memory: SafeMalloc, which RBTreeCreate and
-- RBTreeInsert call, ends the program when malloc gives none.
pub mod Nodes
pub mod Spine
use cfs_userspace.Prelude.{ℕ, ◌≤◌, ◌<◌, ◌≡◌, ◌≢◌, ◌↔◌, List, ◌++◌, ◌∷◌, All, SortedBy, head_or}
pub use Nodes.*

-- The values of an `int (*Compare)(a, b)`: negative, zero and positive.
pub data Comparison : Type 0 where
  less same greater : Comparison

-- `Compare(a,b) should return 1 if *a > *b, -1 if *a < *b, and 0 otherwise`, for an order by rank.
abbrev pub Agrees : (ℕ → ℕ → Comparison) → (ℕ → ℕ) → Type 0
Agrees compare rank = (a b : ℕ) → (compare a b ≡ greater) ↔ (rank b < rank a)

-- `rb_red_blk_tree` and its operations. `shape` and `Valid` are the view in which the laws speak:
-- the nodes below `root->left`, as the pointers `left` and `right` link them.
pub record RbLibrary : Type 1 where
  pub Tree : Type 0
  pub rb_tree_create : Tree
  pub rb_tree_insert : (ℕ → ℕ → Comparison) → Tree → (key info : ℕ) → Tree
  -- the node that the call of `rb_tree_insert` returns
  pub inserted_node : (ℕ → ℕ → Comparison) → Tree → (key info : ℕ) → ℕ
  pub rb_delete : Tree → ℕ → Tree
  pub tree_successor : Tree → ℕ → ℕ
  pub root : Tree → ℕ
  pub nil : Tree → ℕ
  pub left : Tree → ℕ → ℕ
  pub right : Tree → ℕ → ℕ
  pub key : Tree → ℕ → ℕ
  pub shape : Tree → Shape
  pub Valid : Tree → Type 0
  -- the sentinels are allocated, and the tree hangs to the left of `root`
  pub nonnull : (t : Tree) → Valid t → (root t ≢ 0) × (left t (root t) ≢ 0)
  pub linked : (t : Tree) → Valid t → Links (left t) (right t) (nil t) (left t (root t)) (shape t)
  -- RBTreeCreate
  pub create_valid : Valid rb_tree_create
  pub create_empty : shape rb_tree_create ≡ leaf
  -- RBTreeInsert: a new node, which stands behind the keys that are not greater
  pub insert_valid :
      (cmp : ℕ → ℕ → Comparison) (t : Tree) (k i : ℕ) → Valid t → Valid (rb_tree_insert cmp t k i)
  pub insert_key :
      (cmp : ℕ → ℕ → Comparison) (t : Tree) (k i : ℕ)
      → Valid t
      → key (rb_tree_insert cmp t k i) (inserted_node cmp t k i) ≡ k
  pub insert_keys :
      (cmp : ℕ → ℕ → Comparison) (t : Tree) (k i : ℕ)
      → Valid t
      → All (λ n. key (rb_tree_insert cmp t k i) n ≡ key t n) (inorder (shape t))
  pub insert_place :
      (cmp : ℕ → ℕ → Comparison) (rank : ℕ → ℕ) (t : Tree) (k i : ℕ)
      → Valid t
      → Agrees cmp rank
      → SortedBy (λ n. rank (key t n)) (inorder (shape t))
      → (xs ys : List ℕ) × (inorder (shape t) ≡ xs ++ ys)
        × (inorder (shape (rb_tree_insert cmp t k i)) ≡ xs ++ inserted_node cmp t k i ∷ ys)
        × All (λ n. rank (key t n) ≤ rank k) xs
        × All (λ n. rank k < rank (key t n)) ys
  -- RBDelete
  pub delete_valid :
      (t : Tree) (n : ℕ) (xs ys : List ℕ)
      → Valid t
      → inorder (shape t) ≡ xs ++ n ∷ ys
      → Valid (rb_delete t n)
  pub delete_nodes :
      (t : Tree) (n : ℕ) (xs ys : List ℕ)
      → Valid t
      → inorder (shape t) ≡ xs ++ n ∷ ys
      → inorder (shape (rb_delete t n)) ≡ xs ++ ys
  pub delete_keys :
      (t : Tree) (n : ℕ) (xs ys : List ℕ)
      → Valid t
      → inorder (shape t) ≡ xs ++ n ∷ ys
      → All (λ m. key (rb_delete t n) m ≡ key t m) (xs ++ ys)
  -- TreeSuccessor
  pub successor_next :
      (t : Tree) (n : ℕ) (xs ys : List ℕ)
      → Valid t
      → inorder (shape t) ≡ xs ++ n ∷ ys
      → tree_successor t n ≡ head_or ys (nil t)
