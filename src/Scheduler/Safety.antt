-- ===== src/Scheduler/Safety.antt =====
-- About uthread_schedule in gt_uthread.c, whatever the state of the thread that ran.
use cfs_userspace.Prelude.{
  ℕ, In, All-right, ◌++◌, ◌+◌, ◌≡◌, ◌≢◌, ◌≤◌, refl, sym, ap, ◌∙◌, List, [], ◌∷◌, none, ok, arith,
  subst, length, inl, inr, Option-cases,
}
use cfs_userspace.RbLibrary.{RbLibrary}
use cfs_userspace.KthreadRunqueue.{sched_find_best_uthread}
use cfs_userspace.KthreadRunqueue.Dispatch.{find_best-none}
use cfs_userspace.Kthread.{Cpu}
use cfs_userspace.Accounting.Slices.{max_sharing}
use cfs_userspace.Scheduler.{
  InitCalls, Clock, Jump, to_uthread, to_kthread_env, set_cur, leave, choose, next_or_idle, idle,
  uthread_schedule,
}
use cfs_userspace.Scheduler.Queue.{ready_threads}
use cfs_userspace.Scheduler.Choosing.{CallsSucceed}
use cfs_userspace.Scheduler.Pass.{Switched-IsCpu, IsCpu, entry, pass_framed}
use cfs_userspace.Scheduler.Ownership.{cur_list, owned, Confined, size, Settled}
use cfs_userspace.Scheduler.Standing.{Waiting, Standing}
use cfs_userspace.Scheduler.Leaving.{Left, put_back-ok}
use cfs_userspace.Scheduler.Finishing.{
  idle-IsCpu, idle-Settled, idle-Standing, Switched-Standing, idle_jump, idle-Confined,
  size_switched, Switched-Confined,
}

module _ (lib : RbLibrary) (os : InitCalls) (clock : Clock) (c : Cpu lib.Tree)
    (cpu : IsCpu lib c) where
  pub leave-ok :
      (left : Cpu lib.Tree) × (leave lib (entry c) c.k_ctx.krunqueue.cur_uthread clock.leaving
        ≡ ok left)
      × Left lib (ready_threads lib c) c.heap (owned lib c.k_ctx) c.shared.kthread_cur_uthreads left
  unfolding leave
  leave-ok = elim (Option-cases c.k_ctx.krunqueue.cur_uthread) [
    | inl off ↦ (
      entry c,
      ap (λ o. leave lib (entry c) o clock.leaving) off,
      record {
        kept = cpu.kept;
        current = off;
        few = omega arith;
        frame = λ x own. refl;
        foreign = λ x own. All-right (λ q. x ≢ q) (cur_list c.k_ctx.krunqueue.cur_uthread) _ own;
        remains = λ x i. inl (subst (λ o. In x (cur_list o ++ ready_threads lib c)) off i);
        waiting = λ w. w;
        settled = inl (ap (λ o. length (cur_list o ++ ready_threads lib c)) (sym off), refl);
      },
    )
    | inr (p, cur) ↦
        let (left, run, l) =
          put_back-ok lib (set_cur (entry c) none) p cpu.kept (cpu.away p cur) refl clock.leaving in
        (
          left,
          ap (λ o. leave lib (entry c) o clock.leaving) cur ∙ run,
          subst
              (λ o.
                Left lib (ready_threads lib c) c.heap (cur_list o ++ ready_threads lib c)
                  c.shared.kthread_cur_uthreads left)
              (sym cur) l,
        )
  ]

  -- A pass that goes on: it ends in a jump, and the queue is well formed.
  unfoldable pub Safe : Type 0
  Safe =
      (jump : Jump) × (e : Cpu lib.Tree) × (uthread_schedule lib (sched_find_best_uthread lib) os
          clock c
        ≡ ok (jump, e))
      × IsCpu lib e
      × Confined lib c.heap c.k_ctx e
      × (Waiting c.heap (ready_threads lib c) → Standing lib e.heap e.k_ctx.krunqueue)
      × Settled (size lib c.k_ctx) c.shared.kthread_cur_uthreads (size lib e.k_ctx)
          e.shared.kthread_cur_uthreads

  finish_pass :
      (left : Cpu lib.Tree)
      → leave lib (entry c) c.k_ctx.krunqueue.cur_uthread clock.leaving ≡ ok left
      → Left lib (ready_threads lib c) c.heap (owned lib c.k_ctx) c.shared.kthread_cur_uthreads left
      → CallsSucceed os
      → length (ready_threads lib c) + 2 ≤ max_sharing
      → (qs : List ℕ) → ready_threads lib left ≡ qs
      → Safe
  unfolding Safe uthread_schedule choose next_or_idle
  finish_pass left run l good few [] order =
      let k = left.k_ctx.krunqueue in
      let lock = record k.kthread_runqlock { locked = 0; holder = 0x04 } in
      let d = record left {
        k_ctx = record left.k_ctx { krunqueue = record k { kthread_runqlock = lock } };
      } in
      let search = find_best-none lib (record { heap = left.heap; runq = k }) l.kept order in
      (
        to_kthread_env,
        (idle lib d).1,
        rw (run, search) (idle_jump lib c d),
        idle-IsCpu lib c d l.kept l.current,
        idle-Confined lib c left d l refl refl l.current,
        λ w. idle-Standing lib c d (l.waiting w) l.current,
        idle-Settled lib c d l.current l.settled,
      )
  finish_pass left run l good few (q ∷ rest) order =
      let (j, e, reach, sw, frame, counters) =
        pass_framed lib os clock c left q rest good (omega (arith, ap length order, l.few)) run
          l.kept order in
      (
        to_uthread q j,
        e,
        reach,
        Switched-IsCpu lib left.heap q rest clock.entering e sw,
        Switched-Confined lib c left e q rest l order sw.current sw.queue frame,
        λ w.
            Switched-Standing lib c left e q rest clock.entering
              (subst (Waiting left.heap) order (l.waiting w)) sw frame,
        subst
            (λ n.
              Settled (size lib c.k_ctx) c.shared.kthread_cur_uthreads n
                e.shared.kthread_cur_uthreads)
            (ap length order ∙ sym (size_switched lib c e q rest sw.current sw.queue))
            (subst
              (Settled (size lib c.k_ctx) c.shared.kthread_cur_uthreads
                (length (ready_threads lib left)))
              (sym counters.live) l.settled),
      )

  -- On a kernel thread whose run queue is well formed and does not hold the current thread, if
  -- there is one, with at most 2147481 threads queued, and if the system calls of uthread_init
  -- succeed, uthread_schedule ends in a jump, in whatever state the current thread is; the run
  -- queue is well formed then and does not hold the current thread, memory has changed only at the
  -- current thread and the queued ones, no other thread is current or queued, and each of them
  -- stays or is done or cancelled. If each queued thread has never run or is runnable, so is each
  -- one that is queued then, and the thread that is current then is running or runnable. The
  -- kernel thread has as many threads as before and as many are counted as live, or it has one
  -- less and one less is counted.
  pub schedule_safe : CallsSucceed os → length (ready_threads lib c) + 2 ≤ max_sharing → Safe
  schedule_safe good few =
      let (left, run, l) = leave-ok in finish_pass left run l good few (ready_threads lib left) refl
