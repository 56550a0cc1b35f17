-- ===== src/KthreadRunqueue.antt =====
-- gt_pq.c and gt_pq.h: the run queue of a kernel thread behind its lock.
pub mod Dispatch
pub mod Traces
use cfs_userspace.Prelude.{check_pointer, ℕ, Option, none, some, Exec, ok, ◌>>=◌, ◌≡◌, refl}
use cfs_userspace.Uthread.{Uthread}
use cfs_userspace.RbLibrary.{RbLibrary}
use cfs_userspace.CfsRunqueue.{
  CfsRunqueue, Queued, initialize_cfs_runqueue, add_to_cfs_runqueue, remove_from_cfs_runqueue,
  get_best_thread,
}
use cfs_userspace.Spinlock.{Spinlock, initialized, acquired, released, released-acquired}

abbrev pub default_nice_value : ℕ
default_nice_value = 1

-- `kthread_runqueue_t`. `cur_uthread` is NULL while no user thread runs.
pub record KthreadRunqueue (Tree : Type 0) : Type 0 where
  pub runqueue : CfsRunqueue Tree
  pub kthread_runqlock : Spinlock
  pub cur_uthread : Option ℕ

-- The threads in memory, and the run queue of one kernel thread.
pub record Ready (Tree : Type 0) : Type 0 where
  pub heap : ℕ → Uthread
  pub runq : KthreadRunqueue Tree

module _ (lib : RbLibrary) where
  open lib use {Tree}

  pub init_runqueue : CfsRunqueue Tree
  init_runqueue = initialize_cfs_runqueue lib

  pub add_to_runqueue : Queued Tree → Spinlock → ℕ → Queued Tree × Spinlock
  add_to_runqueue s runq_lock uthread =
      let lock = record (acquired runq_lock) { holder = 0x02 } in
      (add_to_cfs_runqueue lib s uthread, released lock)

  -- The two calls of kthread_init_runqueue on the new block.
  pub reset_runqueue : KthreadRunqueue Tree → KthreadRunqueue Tree
  reset_runqueue k = record k {
    runqueue = init_runqueue;
    kthread_runqlock = initialized k.kthread_runqlock;
  }

  -- The block that malloc gives is not checked.
  unfoldable pub kthread_init_runqueue :
      (block : ℕ) → KthreadRunqueue Tree → Exec (KthreadRunqueue Tree)
  kthread_init_runqueue block k = check_pointer block >>= λ _. ok (reset_runqueue k)

  -- The best thread, taken out of the queue.
  pub sched_find_best_uthread : Ready Tree → Exec (Option ℕ × Ready Tree)
  sched_find_best_uthread r = do
    let lock = record (acquired r.runq.kthread_runqlock) { holder = 0x04 }
    (best, rq) ← get_best_thread lib r.runq.runqueue
    let s = remove_from_cfs_runqueue lib (record { heap = r.heap; rq = rq }) best
    ok (
      best,
      record {
        heap = s.heap;
        runq = record r.runq { runqueue = s.rq; kthread_runqlock = released lock };
      },
    )

  -- Under its lock, which is free afterwards, add_to_runqueue is add_to_cfs_runqueue.
  pub add_to_runqueue_lem :
      (s : Queued Tree) (l : Spinlock) (p : ℕ)
      → add_to_runqueue s l p ≡ (add_to_cfs_runqueue lib s p, record { locked = 0; holder = 0x02 })
  unfolding add_to_runqueue
  add_to_runqueue_lem s l p = rw (released-acquired l 0x02)
