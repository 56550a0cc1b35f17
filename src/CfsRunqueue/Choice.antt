-- ===== src/CfsRunqueue/Choice.antt =====
-- About get_best_thread and get_max_uthread in cfs_runqueue.c.
use cfs_userspace.Prelude.{◌≡◌, ok, head?, get_last?, arith}
use cfs_userspace.RbLibrary.{RbLibrary}
use cfs_userspace.CfsRunqueue.{Queued, threads, get_best_thread, get_max_uthread}
use cfs_userspace.CfsRunqueue.Invariant.{IsRunqueue}
use cfs_userspace.CfsRunqueue.Descent.{get_leftmost_lem, get_rightmost_lem}

module _ (lib : RbLibrary) (s : Queued lib.Tree) (inv : IsRunqueue lib s) where
  -- On a well-formed run queue get_best_thread returns the first thread, NULL if there is none,
  -- and leaves the queue as it is.
  pub get_best_thread_lem : get_best_thread lib s.rq ≡ ok (head? (threads lib s.rq.tree), s.rq)
  unfolding get_best_thread
  get_best_thread_lem = ground (arith, inv.cached, get_leftmost_lem lib s.rq.tree inv.valid)

  -- On a well-formed run queue get_max_uthread ends, and returns the last thread, NULL if there is
  -- none.
  pub get_max_uthread_lem : get_max_uthread lib s.rq ≡ ok (get_last? (threads lib s.rq.tree))
  unfolding get_max_uthread
  get_max_uthread_lem = get_rightmost_lem lib s.rq.tree inv.valid
