-- ===== src/CfsRunqueue/Adding.antt =====
-- About add_to_cfs_runqueue in cfs_runqueue.c.
use cfs_userspace.Prelude.{
  ℕ, ◌+◌, ◌≤◌, ◌<◌, ◌≡◌, ◌≢◌, refl, sym, ap, ◌∙◌, List, [], ◌∷◌, ◌++◌, map, All, SortedBy, Distinct,
  length, length-append, head?, arith, insert_by, insert_by-place, SortedBy-insert, Distinct-insert,
  All-insert, All-map, All-of_map, All-left, All-right, map-All-eq, SortedBy-of_map, subst,
}
use mathlib.Core.List.{map-append}
use cfs_userspace.Uthread.{Uthread}
use cfs_userspace.RbLibrary.{RbLibrary, inorder, Agrees}
use cfs_userspace.CfsRunqueue.{
  Queued, vruntime_of, threads, set_node, set_node_self, set_node_other, vruntime_of-set_node,
  compare_virtual_runtimes, min_after_add, add_to_cfs_runqueue,
}
use cfs_userspace.CfsRunqueue.Invariant.{IsRunqueue, NodesMatch}

-- The comparison orders threads by their virtual run times.
pub compare_virtual_runtimes-Agrees :
    (heap : ℕ → Uthread) → Agrees (compare_virtual_runtimes heap) (vruntime_of heap)
unfolding compare_virtual_runtimes
compare_virtual_runtimes-Agrees heap a b = ground arith

-- The cached minimum follows the head of the queue.
head?-insert_by :
    (vruntime : ℕ → ℕ) (p : ℕ) (qs : List ℕ)
    → min_after_add vruntime (head? qs) p ≡ head? (insert_by vruntime p qs)
unfolding insert_by
head?-insert_by vruntime p [] = refl
head?-insert_by vruntime p (q ∷ qs) = ground arith

module _ (lib : RbLibrary) (s : Queued lib.Tree) (p : ℕ) (inv : IsRunqueue lib s)
    (new : All (λ q. p ≢ q) (threads lib s.rq.tree)) where
  open lib use {Tree, key, shape, rb_tree_insert, inserted_node}

  abbrev before : Tree
  before = s.rq.tree

  abbrev after : Tree
  after = rb_tree_insert (compare_virtual_runtimes s.heap) before p p

  abbrev fresh : ℕ
  fresh = inserted_node (compare_virtual_runtimes s.heap) before p p

  -- Where the new node stands, in nodes and in threads.
  record Placed : Type 0 where
    xs : List ℕ
    ys : List ℕ
    old_nodes : inorder (shape before) ≡ xs ++ ys
    new_nodes : inorder (shape after) ≡ xs ++ fresh ∷ ys
    old_threads : threads lib before ≡ map (key before) xs ++ map (key before) ys
    new_threads : threads lib after ≡ map (key before) xs ++ p ∷ map (key before) ys
    low : All (λ q. vruntime_of s.heap q ≤ vruntime_of s.heap p) (map (key before) xs)
    high : All (λ q. vruntime_of s.heap p < vruntime_of s.heap q) (map (key before) ys)

  keys_kept : All (λ n. key after n ≡ key before n) (inorder (shape before))
  keys_kept = lib.insert_keys _ before p p inv.valid

  placed : Placed
  placed =
      let (xs, ys, old, now, low, high) =
        lib.insert_place _ (vruntime_of s.heap) before p p inv.valid
          (compare_virtual_runtimes-Agrees s.heap) (SortedBy-of_map _ (key before) _ inv.sorted) in
      let kept : All (λ n. key after n ≡ key before n) (xs ++ ys) = subst (All _) old keys_kept in
      record {
        xs = xs;
        ys = ys;
        old_nodes = old;
        new_nodes = now;
        old_threads = ap (map (key before)) old ∙ map-append (key before) xs ys;
        new_threads =
            ap (map (key after)) now
            ∙ map-append (key after) xs (fresh ∷ ys)
            ∙ rw (
              map-All-eq _ _ xs (All-left _ xs ys kept),
              map-All-eq _ _ ys (All-right _ xs ys kept),
              lib.insert_key (compare_virtual_runtimes s.heap) before p p inv.valid,
            );
        low = All-map _ (key before) xs low;
        high = All-map _ (key before) ys high;
      }

  abbrev heap : ℕ → Uthread
  heap = set_node s.heap p fresh

  -- If the run queue is well formed and thread p is not in it, the threads of the queue after
  -- add_to_cfs_runqueue are those before with p inserted by its virtual run time, behind the
  -- threads of the same virtual run time.
  pub threads-add :
      threads lib (add_to_cfs_runqueue lib s p).rq.tree
      ≡ insert_by (vruntime_of s.heap) p (threads lib s.rq.tree)
  unfolding add_to_cfs_runqueue
  threads-add =
      rw (placed.new_threads, placed.old_threads)
        (sym (insert_by-place (vruntime_of s.heap) p _ _ placed.low placed.high))

  Placed-sorted : Placed → SortedBy (vruntime_of heap) (threads lib after)
  Placed-sorted w =
      rw (vruntime_of-set_node s.heap p fresh, w.new_threads)
        (SortedBy-insert (vruntime_of s.heap) p _ _ w.low w.high
          (subst (SortedBy _) w.old_threads inv.sorted))

  Placed-Distinct : Placed → Distinct (threads lib after)
  Placed-Distinct w = rw w.new_threads (
      Distinct-insert p _ _ (subst (All _) w.old_threads new)
        (subst Distinct w.old_threads inv.distinct))

  -- The nodes that were there keep their threads, whose nodes do not change.
  old_matched : NodesMatch heap (key after) (inorder (shape before))
  old_matched =
      old_by (inorder (shape before)) keys_kept (All-of_map _ (key before) _ new) inv.matched
    where
      old_at :
          (n : ℕ)
          → key after n ≡ key before n
          → p ≢ key before n
          → (s.heap (key before n)).node ≡ n
          → (heap (key after n)).node ≡ n
      old_at n kept other h = rw (kept, set_node_other s.heap p fresh (key before n) other) h

      old_by :
          (ns : List ℕ)
          → All (λ n. key after n ≡ key before n) ns
          → All (λ n. p ≢ key before n) ns
          → NodesMatch s.heap (key before) ns
          → NodesMatch heap (key after) ns
      old_by [] a b c = tt
      old_by (n ∷ ns) a b c = (old_at n a.0 b.0 c.0, old_by ns a.1 b.1 c.1)

  Placed-matched : Placed → NodesMatch heap (key after) (inorder (shape after))
  Placed-matched w = rw w.new_nodes (
      All-insert fresh _ w.xs w.ys
        (rw (lib.insert_key (compare_virtual_runtimes s.heap) before p p inv.valid)
          (set_node_self s.heap p fresh))
        (subst (All _) w.old_nodes old_matched))

  Placed-length : Placed → length (threads lib after) ≡ length (threads lib before) + 1
  Placed-length w =
      rw (w.new_threads, w.old_threads)
        (omega (
          arith,
          length-append (map (key before) w.xs) (p ∷ map (key before) w.ys),
          length-append (map (key before) w.xs) (map (key before) w.ys),
        ))

  -- If the run queue is well formed and thread p is not in it, it is well formed after
  -- add_to_cfs_runqueue of p.
  pub add-IsRunqueue : IsRunqueue lib (add_to_cfs_runqueue lib s p)
  unfolding add_to_cfs_runqueue
  add-IsRunqueue = record {
    valid = lib.insert_valid _ before p p inv.valid;
    sorted = Placed-sorted placed;
    distinct = Placed-Distinct placed;
    matched = Placed-matched placed;
    counted = omega (arith, Placed-length placed, inv.counted);
    cached =
        rw (vruntime_of-set_node s.heap p fresh, inv.cached)
          (head?-insert_by (vruntime_of s.heap) p _ ∙ ap head? (sym threads-add));
  }
