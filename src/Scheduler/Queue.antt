-- ===== src/Scheduler/Queue.antt =====
-- The run queue under the writes of the scheduler: what keeps it, and what requeueing does to it.
use cfs_userspace.Prelude.{
  ℕ, ◌≡◌, ◌≢◌, ◌≤◌, ◌∙◌, List, [], ◌∷◌, All, SortedBy, arith, store, All-of_map,
}
use mathlib.Core.Path.{fun_ext}
use cfs_userspace.Uthread.{Uthread}
use cfs_userspace.RbLibrary.{RbLibrary}
use cfs_userspace.CfsRunqueue.{Queued, CfsRunqueue, threads, vruntime_of}
use cfs_userspace.CfsRunqueue.Invariant.{IsRunqueue, NodesMatch}
use cfs_userspace.Kthread.{Cpu}

abbrev pub queue_of : {Tree : Type 0} → Cpu Tree → Queued Tree
queue_of c = record { heap = c.heap; rq = c.k_ctx.krunqueue.runqueue }

abbrev pub ready_threads : (lib : RbLibrary) → Cpu lib.Tree → List ℕ
ready_threads lib c = threads lib c.k_ctx.krunqueue.runqueue.tree

-- A thread as far as the queue sees it, and its share.
abbrev pub SameThread : (ℕ → Uthread) → (ℕ → Uthread) → ℕ → Type 0
SameThread h h' q =
    ((h' q).vruntime ≡ (h q).vruntime) × ((h' q).node ≡ (h q).node) × ((h' q).nice ≡ (h q).nice)

SortedBy-same :
    (h h' : ℕ → Uthread) (qs : List ℕ)
    → All (SameThread h h') qs
    → SortedBy (vruntime_of h) qs
    → SortedBy (vruntime_of h') qs
SortedBy-same h h' [] same s = tt
SortedBy-same h h' (q ∷ qs) same s = (go qs same.1 s.0, SortedBy-same h h' qs same.1 s.1)
  where
    go :
        (ps : List ℕ)
        → All (SameThread h h') ps
        → All (λ p. vruntime_of h q ≤ vruntime_of h p) ps
        → All (λ p. vruntime_of h' q ≤ vruntime_of h' p) ps
    go [] k l = tt
    go (p ∷ ps) k l = (omega (arith, k.0, same.0), go ps k.1 l.1)

NodesMatch-same :
    (h h' : ℕ → Uthread) (key : ℕ → ℕ) (ns : List ℕ)
    → All (λ n. SameThread h h' (key n)) ns
    → NodesMatch h key ns
    → NodesMatch h' key ns
NodesMatch-same h h' key [] same m = tt
NodesMatch-same h h' key (n ∷ ns) same m = (same.0.1 ∙ m.0, NodesMatch-same h h' key ns same.1 m.1)

-- A queue depends on memory through its own threads alone.
pub same-IsRunqueue :
    (lib : RbLibrary) (rq : CfsRunqueue lib.Tree) (h h' : ℕ → Uthread)
    → All (SameThread h h') (threads lib rq.tree)
    → IsRunqueue lib (record { heap = h; rq = rq })
    → IsRunqueue lib (record { heap = h'; rq = rq })
same-IsRunqueue lib rq h h' same inv = record {
  valid = inv.valid;
  sorted = SortedBy-same h h' _ same inv.sorted;
  distinct = inv.distinct;
  matched = NodesMatch-same h h' (lib.key rq.tree) _ (All-of_map _ _ _ same) inv.matched;
  counted = inv.counted;
  cached = inv.cached;
}

-- A write to a thread that is not queued.
pub outside-same :
    (h : ℕ → Uthread) (p : ℕ) (u : Uthread) (qs : List ℕ)
    → All (λ q. p ≢ q) qs
    → All (SameThread h (store h p u)) qs
unfolding store
outside-same h p u [] new = tt
outside-same h p u (q ∷ qs) new = (ground (arith, new.0), outside-same h p u qs new.1)

-- A write that keeps what the queue sees, anywhere.
pub All-same :
    (h h' : ℕ → Uthread) (qs : List ℕ) → ((q : ℕ) → SameThread h h' q) → All (SameThread h h') qs
All-same h h' [] f = tt
All-same h h' (q ∷ qs) f = (f q, All-same h h' qs f)

-- A write of a field that the queue does not see.
pub vruntime_of-write :
    (h : ℕ → Uthread) (p : ℕ) (u : Uthread)
    → u.vruntime ≡ (h p).vruntime
    → vruntime_of (store h p u) ≡ vruntime_of h
unfolding store
vruntime_of-write h p u e = fun_ext (λ q. ground arith)

pub write-same :
    (h : ℕ → Uthread) (p : ℕ) (u : Uthread)
    → u.vruntime ≡ (h p).vruntime
    → u.node ≡ (h p).node
    → u.nice ≡ (h p).nice
    → (q : ℕ) → SameThread h (store h p u) q
unfolding store
write-same h p u e f g q = ground arith
