-- ===== src/CfsRunqueue/Invariant.antt =====
-- What holds of a run queue between the operations of cfs_runqueue.c.
use cfs_userspace.Prelude.{ℕ, ◌%◌, ◌^◌, ◌≡◌, refl, List, [], All, SortedBy, Distinct, length, head?}
use cfs_userspace.Uthread.{Uthread}
use cfs_userspace.RbLibrary.{RbLibrary, inorder}
use cfs_userspace.CfsRunqueue.{Queued, vruntime_of, threads, initialize_cfs_runqueue}

-- Each node knows its thread, and each thread its node.
abbrev pub NodesMatch : (ℕ → Uthread) → (ℕ → ℕ) → List ℕ → Type 0
NodesMatch heap key nodes = All (λ n. (heap (key n)).node ≡ n) nodes

pub record IsRunqueue (lib : RbLibrary) (s : Queued lib.Tree) : Type 0 where
  pub valid : lib.Valid s.rq.tree
  pub sorted : SortedBy (vruntime_of s.heap) (threads lib s.rq.tree)
  pub distinct : Distinct (threads lib s.rq.tree)
  pub matched : NodesMatch s.heap (lib.key s.rq.tree) (inorder (lib.shape s.rq.tree))
  pub counted : s.rq.num_threads ≡ length (threads lib s.rq.tree) % 2 ^ 32
  pub cached : s.rq.min ≡ head? (threads lib s.rq.tree)

pub initialize-IsRunqueue :
    (lib : RbLibrary) (heap : ℕ → Uthread)
    → IsRunqueue lib (record { heap = heap; rq = initialize_cfs_runqueue lib })
unfolding initialize_cfs_runqueue
initialize-IsRunqueue lib heap = record {
  valid = lib.create_valid;
  sorted = rw lib.create_empty tt;
  distinct = rw lib.create_empty tt;
  matched = rw lib.create_empty tt;
  counted = rw lib.create_empty;
  cached = rw lib.create_empty;
}

pub initialize-empty : (lib : RbLibrary) → threads lib (initialize_cfs_runqueue lib).tree ≡ []
unfolding initialize_cfs_runqueue
initialize-empty lib = rw lib.create_empty refl
