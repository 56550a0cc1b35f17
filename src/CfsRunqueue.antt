-- ===== src/CfsRunqueue.antt =====
-- cfs_runqueue.c and cfs_runqueue.h: the run queue of one kernel thread, over the tree of rb/.
-- The print and destroy callbacks that the code hands to the tree do nothing, and are left out.
pub mod Descent
pub mod Invariant
pub mod Adding
pub mod Removing
pub mod Choice
pub mod Printing
use cfs_userspace.Prelude.{
  store_self, ℕ, zero, suc, ◌+◌, ◌-◌, ◌%◌, ◌^◌, Option, none, some, Exec, ok, fault, diverged,
  ◌>>=◌, ltb, ◌==◌, if◌then◌else◌, store, store_other, ◌≢◌, ◌||◌, ◌≡◌, refl, arith, List, map,
}
use mathlib.Core.Path.{fun_ext}
use cfs_userspace.Uthread.{Uthread}
use cfs_userspace.RbLibrary.{RbLibrary, Comparison, less, same, greater, inorder, size}

-- `cfs_runqueue_t`. `min` may be NULL; `num_threads` is an unsigned int.
pub record CfsRunqueue (Tree : Type 0) : Type 0 where
  pub tree : Tree
  pub min : Option ℕ
  pub num_threads : ℕ

-- The threads in memory, by address, and one run queue.
pub record Queued (Tree : Type 0) : Type 0 where
  pub heap : ℕ → Uthread
  pub rq : CfsRunqueue Tree

abbrev pub vruntime_of : (ℕ → Uthread) → ℕ → ℕ
vruntime_of heap p = (heap p).vruntime

-- `uthread->node = n`
pub set_node : (ℕ → Uthread) → ℕ → ℕ → ℕ → Uthread
set_node heap p n = store heap p (record (heap p) { node = n })

pub vruntime_of-set_node :
    (heap : ℕ → Uthread) (p n : ℕ) → vruntime_of (set_node heap p n) ≡ vruntime_of heap
unfolding set_node store
vruntime_of-set_node heap p n = fun_ext (λ q. ground arith)

pub set_node_self : (heap : ℕ → Uthread) (p n : ℕ) → (set_node heap p n p).node ≡ n
unfolding set_node store
set_node_self heap p n = ground arith

pub set_node_same :
    (heap : ℕ → Uthread) (p n q : ℕ)
    → ((set_node heap p n q).vruntime ≡ (heap q).vruntime)
      × ((set_node heap p n q).nice ≡ (heap q).nice)
      × ((set_node heap p n q).uthread_state ≡ (heap q).uthread_state)
unfolding set_node store
set_node_same heap p n q = ground arith

pub set_node_at :
    (heap : ℕ → Uthread) (p n : ℕ) → set_node heap p n p ≡ record (heap p) { node = n }
unfolding set_node
set_node_at heap p n = store_self heap p _

pub set_node_other : (heap : ℕ → Uthread) (p n q : ℕ) → p ≢ q → set_node heap p n q ≡ heap q
unfolding set_node
set_node_other heap p n q h = store_other heap p q _ h

pub compare_virtual_runtimes : (ℕ → Uthread) → ℕ → ℕ → Comparison
compare_virtual_runtimes heap a b =
    if ltb (vruntime_of heap b) (vruntime_of heap a)
    then greater
    else if ltb (vruntime_of heap a) (vruntime_of heap b)
    then less
    else same

-- The last node before the sentinel on the way along `next`. The code is a `do … while` loop.
unfoldable pub descend : ℕ → (ℕ → ℕ) → ℕ → ℕ → Exec ℕ
descend zero next nil node = fault diverged
descend (suc fuel) next nil node =
    let rest = descend fuel next nil (next node) in if next node == nil then ok node else rest

-- The update of the cached minimum when a thread is added.
abbrev pub min_after_add : (ℕ → ℕ) → Option ℕ → ℕ → Option ℕ
min_after_add vruntime none p = some p
min_after_add vruntime (some m) p = if ltb (vruntime p) (vruntime m) then some p else some m

-- The cached minimum after the removal of `p`, whose successor is the node `n1`.
abbrev pub min_after_remove : Option ℕ → ℕ → ℕ → ℕ → ℕ → Option ℕ
min_after_remove none p n1 nil next = none
min_after_remove (some m) p n1 nil next =
    if m == p then if n1 == nil then none else some next else some m

-- The threads of a tree, in the order of the tree.
abbrev pub threads : (lib : RbLibrary) → lib.Tree → List ℕ
threads lib t = map (lib.key t) (inorder (lib.shape t))

module _ (lib : RbLibrary) where
  open lib use {
    Tree, rb_tree_create, rb_tree_insert, inserted_node, rb_delete, tree_successor, root, nil, left,
    right, key, shape,
  }

  pub initialize_cfs_runqueue : CfsRunqueue Tree
  initialize_cfs_runqueue = record { tree = rb_tree_create; min = none; num_threads = 0 }

  pub add_to_cfs_runqueue : Queued Tree → ℕ → Queued Tree
  add_to_cfs_runqueue s p =
      let cmp = compare_virtual_runtimes s.heap in
      let heap = set_node s.heap p (inserted_node cmp s.rq.tree p p) in
      record {
        heap = heap;
        rq = record {
          tree = rb_tree_insert cmp s.rq.tree p p;
          min = min_after_add (vruntime_of heap) s.rq.min p;
          num_threads = (s.rq.num_threads + 1) % 2 ^ 32;
        };
      }

  pub remove_from_cfs_runqueue : Queued Tree → Option ℕ → Queued Tree
  remove_from_cfs_runqueue s none = s
  remove_from_cfs_runqueue s (some p) =
      let n = (s.heap p).node in
      let n1 = tree_successor s.rq.tree n in
      let tree = rb_delete s.rq.tree n in
      record {
        heap = set_node s.heap p (nil tree);
        rq = record {
          tree = tree;
          min = min_after_remove s.rq.min p n1 (nil s.rq.tree) (key s.rq.tree n1);
          num_threads = (s.rq.num_threads + 2 ^ 32 - 1) % 2 ^ 32;
        };
      }

  -- The loops of the two searches take at most one round for each node.
  pub get_leftmost : Tree → Exec (Option ℕ)
  get_leftmost t =
      if root t == 0 || (left t (root t) == 0 || left t (root t) == nil t) then ok none else do
        parent ← descend (size (shape t)) (left t) (nil t) (left t (root t))
        ok (some (key t parent))

  pub get_rightmost : Tree → Exec (Option ℕ)
  get_rightmost t =
      if root t == 0 || (left t (root t) == 0 || left t (root t) == nil t) then ok none else do
        parent ← descend (size (shape t)) (right t) (nil t) (left t (root t))
        ok (if parent == nil t then none else some (key t parent))

  -- The best thread, and the run queue with its cache filled.
  pub get_best_thread : CfsRunqueue Tree → Exec (Option ℕ × CfsRunqueue Tree)
  get_best_thread rq = fill rq.min
    where
      fill : Option ℕ → Exec (Option ℕ × CfsRunqueue Tree)
      fill (some m) = ok (some m, rq)
      fill none = do m ← get_leftmost rq.tree; ok (m, record rq { min = m })

  pub get_max_uthread : CfsRunqueue Tree → Exec (Option ℕ)
  get_max_uthread rq = get_rightmost rq.tree

  pub remove_none : (s : Queued Tree) → remove_from_cfs_runqueue s none ≡ s
  unfolding remove_from_cfs_runqueue
  remove_none s = refl

  -- Adding a thread writes its node, and nothing else in memory.
  pub heap-add :
      (s : Queued Tree) (p : ℕ)
      → (add_to_cfs_runqueue s p).heap
        ≡ set_node s.heap p (inserted_node (compare_virtual_runtimes s.heap) s.rq.tree p p)
  unfolding add_to_cfs_runqueue
  heap-add s p = refl

  -- So does the removal of one.
  pub heap-remove :
      (s : Queued Tree) (p : ℕ)
      → (remove_from_cfs_runqueue s (some p)).heap
        ≡ set_node s.heap p (nil (rb_delete s.rq.tree (s.heap p).node))
  unfolding remove_from_cfs_runqueue
  heap-remove s p = refl
