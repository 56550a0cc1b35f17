-- ===== src/CfsRunqueue/Removing.antt =====
-- About remove_from_cfs_runqueue in cfs_runqueue.c.
use cfs_userspace.Prelude.{
  ℕ, ◌+◌, ◌≡◌, ◌≢◌, refl, sym, ap, ◌∙◌, List, [], ◌∷◌, ◌++◌, map, none, some, All, SortedBy,
  Distinct, length, length-append, head?, head_or, arith, All-at, All-remove, All-right,
  Distinct-remove, Distinct-removed, SortedBy-remove, map-All-eq, subst, ◌==◌, if◌then◌else◌,
  All-of_map,
}
use mathlib.Core.List.{map-append}
use cfs_userspace.RbLibrary.{RbLibrary, inorder, Links-ne_nil}
use cfs_userspace.CfsRunqueue.{
  Queued, vruntime_of, threads, set_node, set_node_other, vruntime_of-set_node, min_after_remove,
  remove_from_cfs_runqueue,
}
use cfs_userspace.CfsRunqueue.Invariant.{IsRunqueue, NodesMatch}

-- A split of the mapped list is a split of the list.
record Split (f : ℕ → ℕ) (ns ps : List ℕ) (p : ℕ) (qs : List ℕ) : Type 0 where
  xs : List ℕ
  n : ℕ
  ys : List ℕ
  nodes : ns ≡ xs ++ n ∷ ys
  left_part : map f xs ≡ ps
  middle : f n ≡ p
  right_part : map f ys ≡ qs

Split-map :
    (f : ℕ → ℕ) (ns ps : List ℕ) (p : ℕ) (qs : List ℕ)
    → map f ns ≡ ps ++ p ∷ qs
    → Split f ns ps p qs
Split-map f [] [] p qs e = absurd (ground arith)
Split-map f [] (r ∷ ps) p qs e = absurd (ground arith)
Split-map f (n ∷ ns) [] p qs e = record {
  xs = [];
  n = n;
  ys = ns;
  nodes = refl;
  left_part = refl;
  middle = ground arith;
  right_part = ground arith;
}
Split-map f (m ∷ ns) (r ∷ ps) p qs e =
    let w = Split-map f ns ps p qs (ground arith) in
    record {
      xs = m ∷ w.xs;
      n = w.n;
      ys = w.ys;
      nodes = ap (◌∷◌ m) w.nodes;
      left_part = ground (arith, w.left_part);
      middle = w.middle;
      right_part = w.right_part;
    }

-- The cached minimum follows the head of the queue.
head?-removed :
    (ps : List ℕ) (p : ℕ) (qs : List ℕ) (n1 nil next : ℕ)
    → Distinct (ps ++ p ∷ qs)
    → (if n1 == nil then none else some next) ≡ head? qs
    → min_after_remove (head? (ps ++ p ∷ qs)) p n1 nil next ≡ head? (ps ++ qs)
head?-removed [] p qs n1 nil next d e = ground arith
head?-removed (m ∷ ps) p qs n1 nil next d e = ground (arith, All-at p _ ps qs d.0)

-- The successor is the sentinel exactly when no node follows.
head_or-nil :
    (key : ℕ → ℕ) (nil : ℕ) (ys : List ℕ)
    → All (λ m. m ≢ nil) ys
    → (if head_or ys nil == nil then none else some (key (head_or ys nil))) ≡ head? (map key ys)
head_or-nil key nil [] h = ground arith
head_or-nil key nil (y ∷ ys) h = ground (arith, h.0)

module _ (lib : RbLibrary) (s : Queued lib.Tree) (ps : List ℕ) (p : ℕ) (qs : List ℕ)
    (inv : IsRunqueue lib s) (queued : threads lib s.rq.tree ≡ ps ++ p ∷ qs) where
  open lib use {Tree, key, shape, nil, rb_delete, tree_successor}

  abbrev before : Tree
  before = s.rq.tree

  abbrev Queue : Type 0
  Queue = Split (key before) (inorder (shape before)) ps p qs

  queue : Queue
  queue = Split-map (key before) (inorder (shape before)) ps p qs queued

  -- The node that the thread names is the one that holds it.
  node_of : (w : Queue) → (s.heap p).node ≡ w.n
  node_of w =
      rw (← w.middle)
        (All-at w.n _ w.xs w.ys (subst (NodesMatch s.heap (key before)) w.nodes inv.matched))

  threads_by : (w : Queue) → threads lib (rb_delete before w.n) ≡ ps ++ qs
  threads_by w =
      ap (map (key (rb_delete before w.n)))
        (lib.delete_nodes before w.n w.xs w.ys inv.valid w.nodes)
      ∙ map-All-eq _ _ (w.xs ++ w.ys) (lib.delete_keys before w.n w.xs w.ys inv.valid w.nodes)
      ∙ map-append (key before) w.xs w.ys
      ∙ rw (w.left_part, w.right_part)

  -- If the run queue is well formed and its threads are ps, p and then qs, the threads after
  -- remove_from_cfs_runqueue of p are ps and then qs.
  pub threads-remove : threads lib (remove_from_cfs_runqueue lib s (some p)).rq.tree ≡ ps ++ qs
  unfolding remove_from_cfs_runqueue
  threads-remove = rw (node_of queue) (threads_by queue)

  kept : Distinct (ps ++ p ∷ qs)
  kept = subst Distinct queued inv.distinct

  matched_by :
      (w : Queue) (m : ℕ)
      → NodesMatch
          (set_node s.heap p m)
          (key (rb_delete before w.n))
          (inorder (shape (rb_delete before w.n)))
  matched_by w m = rw (lib.delete_nodes before w.n w.xs w.ys inv.valid w.nodes) (
      go (w.xs ++ w.ys) (lib.delete_keys before w.n w.xs w.ys inv.valid w.nodes)
        (All-of_map (λ q. p ≢ q) (key before) (w.xs ++ w.ys)
          (rw (map-append (key before) w.xs w.ys, w.left_part, w.right_part)
            (Distinct-removed p ps qs kept)))
        (All-remove w.n _ w.xs w.ys (subst (NodesMatch s.heap (key before)) w.nodes inv.matched)))
    where
      go :
          (ns : List ℕ)
          → All (λ n. key (rb_delete before w.n) n ≡ key before n) ns
          → All (λ n. p ≢ key before n) ns
          → NodesMatch s.heap (key before) ns
          → NodesMatch (set_node s.heap p m) (key (rb_delete before w.n)) ns
      go [] a b c = tt
      go (n ∷ ns) a b c =
          (rw (a.0, set_node_other s.heap p m (key before n) b.0) c.0, go ns a.1 b.1 c.1)

  cached_by :
      (w : Queue)
      → min_after_remove s.rq.min p
          (tree_successor before w.n)
          (nil before)
          (key before (tree_successor before w.n))
        ≡ head? (ps ++ qs)
  cached_by w =
      rw (inv.cached, queued, lib.successor_next before w.n w.xs w.ys inv.valid w.nodes)
        (head?-removed ps p qs _ (nil before) _ kept (
          head_or-nil (key before) (nil before) w.ys
            (All-right _ w.xs (w.n ∷ w.ys) (
              subst (All (λ m. m ≢ nil before)) w.nodes
                (Links-ne_nil _ _ (nil before) _ _ (lib.linked before inv.valid)))).1
          ∙ ap head? w.right_part))

  length_by : length (threads lib before) ≡ length (ps ++ qs) + 1
  length_by = rw queued (omega (arith, length-append ps (p ∷ qs), length-append ps qs))

  -- If the run queue is well formed and p is one of its threads, it is well formed after
  -- remove_from_cfs_runqueue of p.
  pub remove-IsRunqueue : IsRunqueue lib (remove_from_cfs_runqueue lib s (some p))
  unfolding remove_from_cfs_runqueue
  remove-IsRunqueue = rw (node_of queue) (record {
    valid = lib.delete_valid before queue.n queue.xs queue.ys inv.valid queue.nodes;
    sorted =
        rw (vruntime_of-set_node s.heap p (nil (rb_delete before queue.n)), threads_by queue)
          (SortedBy-remove p (vruntime_of s.heap) ps qs (subst (SortedBy _) queued inv.sorted));
    distinct = rw (threads_by queue) (Distinct-remove p ps qs kept);
    matched = matched_by queue (nil (rb_delete before queue.n));
    counted = rw (threads_by queue) (omega (arith, length_by, inv.counted));
    cached = cached_by queue ∙ ap head? (sym (threads_by queue));
  })
