-- ===== src/KthreadRunqueue/Dispatch.antt =====
-- About sched_find_best_uthread and kthread_init_runqueue in gt_pq.c.
use cfs_userspace.Prelude.{ℕ, ◌≡◌, refl, List, [], ◌∷◌, none, some, ok}
use cfs_userspace.RbLibrary.{RbLibrary}
use cfs_userspace.CfsRunqueue.{Queued, threads, remove_from_cfs_runqueue, remove_none}
use cfs_userspace.CfsRunqueue.Invariant.{IsRunqueue, initialize-IsRunqueue, initialize-empty}
use cfs_userspace.CfsRunqueue.Choice.{get_best_thread_lem}
use cfs_userspace.Spinlock.{Spinlock, initialized_lem, released-acquired}
use cfs_userspace.KthreadRunqueue.{
  Ready, KthreadRunqueue, sched_find_best_uthread, reset_runqueue, init_runqueue,
}
use cfs_userspace.Uthread.{Uthread}

abbrev pub queued_of : {Tree : Type 0} → Ready Tree → Queued Tree
queued_of r = record { heap = r.heap; rq = r.runq.runqueue }

-- The lock as sched_find_best_uthread leaves it.
abbrev pub after_search : Spinlock → Spinlock
after_search l = record l { locked = 0; holder = 0x04 }

-- With no thread queued the search answers NULL and changes nothing but the lock's note.
pub find_best-none :
    (lib : RbLibrary) (r : Ready lib.Tree)
    → IsRunqueue lib (queued_of r)
    → threads lib r.runq.runqueue.tree ≡ []
    → sched_find_best_uthread lib r
      ≡ ok (
        none,
        record r {
          runq = record r.runq { kthread_runqlock = after_search r.runq.kthread_runqlock };
        },
      )
unfolding sched_find_best_uthread
find_best-none lib r inv e =
    rw (get_best_thread_lem lib (queued_of r) inv, e, remove_none, released-acquired)

-- On a well-formed run queue whose first thread is p, sched_find_best_uthread returns p, leaves
-- the queue that remove_from_cfs_runqueue of p gives, and leaves its lock free.
pub find_best-some :
    (lib : RbLibrary) (r : Ready lib.Tree) (p : ℕ) (ps : List ℕ)
    → IsRunqueue lib (queued_of r)
    → threads lib r.runq.runqueue.tree ≡ p ∷ ps
    → let s = remove_from_cfs_runqueue lib (queued_of r) (some p) in
      sched_find_best_uthread lib r
      ≡ ok (
        some p,
        record {
          heap = s.heap;
          runq = record r.runq {
            runqueue = s.rq;
            kthread_runqlock = after_search r.runq.kthread_runqlock;
          };
        },
      )
unfolding sched_find_best_uthread
find_best-some lib r p ps inv e =
    rw (get_best_thread_lem lib (queued_of r) inv, e, released-acquired)

-- A new run queue is well formed, and its lock is free.
pub init_runqueue-IsRunqueue :
    (lib : RbLibrary) (heap : ℕ → Uthread) (k : KthreadRunqueue lib.Tree)
    → IsRunqueue lib (record { heap = heap; rq = (reset_runqueue lib k).runqueue })
unfolding reset_runqueue init_runqueue
init_runqueue-IsRunqueue lib heap k = initialize-IsRunqueue lib heap

pub reset_runqueue-unlocked :
    (lib : RbLibrary) (k : KthreadRunqueue lib.Tree)
    → (reset_runqueue lib k).kthread_runqlock.locked ≡ 0
unfolding reset_runqueue
reset_runqueue-unlocked lib k = initialized_lem k.kthread_runqlock

pub init_runqueue-empty :
    (lib : RbLibrary) (k : KthreadRunqueue lib.Tree)
    → threads lib (reset_runqueue lib k).runqueue.tree ≡ []
unfolding reset_runqueue init_runqueue
init_runqueue-empty lib k = initialize-empty lib

pub init_runqueue-current :
    (lib : RbLibrary) (k : KthreadRunqueue lib.Tree)
    → (reset_runqueue lib k).cur_uthread ≡ k.cur_uthread
unfolding reset_runqueue
init_runqueue-current lib k = refl
