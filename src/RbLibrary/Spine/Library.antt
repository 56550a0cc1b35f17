-- ===== src/RbLibrary/Spine/Library.antt =====
-- The removal of a node, and the spines as an instance of the interface.
use cfs_userspace.Prelude.{
  ℕ, ◌≤◌, ◌≡◌, ◌≢◌, refl, sym, ◌∙◌, List, [], ◌∷◌, ◌++◌, All, All-remove, Distinct, Distinct-remove,
  SortedBy, head_or, store_self, arith, subst,
}
use cfs_userspace.RbLibrary.{RbLibrary, inorder}
use cfs_userspace.RbLibrary.Spine.{
  Spine, shape_of, next_of, left_of, remove_in, insert_in, delete_in, IsSpine, inorder-shape_of,
  next_of-at, remove_in-at, linked_from,
}
use cfs_userspace.RbLibrary.Spine.Insertion.{insert_in-IsSpine, insert_in-keys, insert_in-place}

module _ (t : Spine) (n : ℕ) (xs ys : List ℕ) (v : IsSpine t)
    (at : inorder (shape_of t.nodes) ≡ xs ++ n ∷ ys) where
  nodes_at : t.nodes ≡ xs ++ n ∷ ys
  nodes_at = sym (inorder-shape_of t.nodes) ∙ at

  split-Distinct : Distinct (xs ++ n ∷ ys)
  split-Distinct = subst Distinct nodes_at v.distinct

  deleted : remove_in n t.nodes ≡ xs ++ ys
  deleted = rw nodes_at (remove_in-at xs n ys split-Distinct)

  pub delete_in-IsSpine : IsSpine (delete_in t n)
  delete_in-IsSpine = record {
    above = rw deleted (All-remove n _ xs ys (subst (All _) nodes_at v.above));
    below = rw deleted (All-remove n _ xs ys (subst (All _) nodes_at v.below));
    distinct = rw deleted (Distinct-remove n xs ys split-Distinct);
    room = v.room;
  }

  pub delete_in-nodes : inorder (shape_of (delete_in t n).nodes) ≡ xs ++ ys
  delete_in-nodes = inorder-shape_of _ ∙ deleted

  pub next_of-node : next_of t.nodes n ≡ head_or ys 1
  next_of-node = rw nodes_at (next_of-at xs n ys split-Distinct)

pub All-refl : (f : ℕ → ℕ) (ns : List ℕ) → All (λ n. f n ≡ f n) ns
All-refl f [] = tt
All-refl f (n ∷ ns) = (refl, All-refl f ns)

head-nonnull : (ns : List ℕ) → All (λ n. 3 ≤ n) ns → head_or ns 1 ≢ 0
head-nonnull [] h = λ e. omega arith
head-nonnull (n ∷ ns) h = λ e. omega arith

pub empty-IsSpine : IsSpine (record { nodes = []; keys = λ n. 0; fresh = 3 })
empty-IsSpine = record { above = tt; below = tt; distinct = tt; room = omega arith }

pub sentinels-nonnull : (t : Spine) → IsSpine t → (◌≢◌ {A = ℕ} 2 0) × (head_or t.nodes 1 ≢ 0)
sentinels-nonnull t v = (λ e. absurd (omega arith), head-nonnull t.nodes v.above)

abbrev pub spines : RbLibrary
spines = record {
  Tree = Spine;
  rb_tree_create = record { nodes = []; keys = λ n. 0; fresh = 3 };
  rb_tree_insert = λ cmp t k i. insert_in cmp t k;
  inserted_node = λ cmp t k i. t.fresh;
  rb_delete = delete_in;
  tree_successor = λ t n. next_of t.nodes n;
  root = λ t. 2;
  nil = λ t. 1;
  left = left_of;
  right = λ t n. next_of t.nodes n;
  key = λ t. t.keys;
  shape = λ t. shape_of t.nodes;
  Valid = IsSpine;
  nonnull = sentinels-nonnull;
  linked = λ t v. linked_from t [] t.nodes refl v;
  create_valid = empty-IsSpine;
  create_empty = refl;
  insert_valid = λ cmp t k i v. insert_in-IsSpine cmp t k v;
  insert_key = λ cmp t k i v. store_self t.keys t.fresh k;
  insert_keys =
      λ cmp t k i v. subst (All _) (sym (inorder-shape_of t.nodes)) (insert_in-keys cmp t k v);
  insert_place = λ cmp rank t k i v agrees sorted.
      insert_in-place cmp t k v rank agrees (subst (SortedBy _) (inorder-shape_of t.nodes) sorted);
  delete_valid = λ t n xs ys v at. delete_in-IsSpine t n xs ys v at;
  delete_nodes = λ t n xs ys v at. delete_in-nodes t n xs ys v at;
  delete_keys = λ t n xs ys v at. All-refl t.keys (xs ++ ys);
  successor_next = λ t n xs ys v at. next_of-node t n xs ys v at;
}
