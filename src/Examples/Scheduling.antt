-- ===== src/Examples/Scheduling.antt =====
-- The theorems about the scheduler, at the kernel thread of the parent module.
use cfs_userspace.Prelude.{
  ◌≢◌, ℕ, ◌+◌, ◌-◌, ◌%◌, ◌≡◌, ◌≢◌, ◌^◌, refl, List, [], ◌∷◌, none, some, ok, arith, insert_by,
}
use cfs_userspace.Uthread.{running, yield, cancelled, SavedContext}
use cfs_userspace.RbLibrary.Spine.{Spine}
use cfs_userspace.RbLibrary.Spine.Library.{spines}
use cfs_userspace.CfsRunqueue.{vruntime_of}
use cfs_userspace.Kthread.{Cpu}
use cfs_userspace.Scheduler.{to_uthread, to_kthread_env, uthread_schedule}
use cfs_userspace.KthreadRunqueue.{sched_find_best_uthread}
use cfs_userspace.Scheduler.Queue.{ready_threads}
use cfs_userspace.Scheduler.Switch.{Switched}
use cfs_userspace.Scheduler.Pass.{Resumable}
use cfs_userspace.Scheduler.Passes.{charged, put_past, schedule_preempts}
use cfs_userspace.Scheduler.Safety.{Safe, schedule_safe}
use cfs_userspace.Scheduler.Entries.{gt_yield, ksched_priority}
use cfs_userspace.Scheduler.Entries.Handlers.{with_state, gt_yield_lem, ksched_priority_lem}
use cfs_userspace.App.{gtthread_app_exit, exit_round}
use cfs_userspace.App.Exit.{gtthread_app_exit_lem}
use cfs_userspace.Examples.{
  two_queued, none_queued, machine, clock, calls, calls-CallsSucceed, two_queued-IsCpu,
  none_queued-IsCpu,
}

abbrev pub busy : Cpu Spine
busy = machine two_queued none running

abbrev yielding : Cpu Spine
yielding = machine two_queued none yield

abbrev stopped : Cpu Spine
stopped = machine none_queued none cancelled

abbrev main_thread : Cpu Spine
main_thread = machine none_queued (some 5) running

schedule_preempts_example :
    (q : ℕ) × (rest : List ℕ) × (insert_by
        (vruntime_of (charged busy.heap 5 clock.leaving))
        5
        (ready_threads spines busy)
      ≡ q ∷ rest)
    × (j : SavedContext) × (e : Cpu Spine) × (uthread_schedule spines
          (sched_find_best_uthread spines)
          calls
          clock
          busy
        ≡ ok (to_uthread q j, e))
    × Switched spines (charged busy.heap 5 clock.leaving) q rest clock.entering e
    × (q ≢ 5 → Resumable (e.heap 5))
schedule_preempts_example =
    schedule_preempts spines calls clock busy 5 (two_queued-IsCpu none running) refl refl
      calls-CallsSucceed (omega arith)

gt_yield_example :
    (j : SavedContext) × (e : Cpu Spine) × (gt_yield spines calls clock busy
      ≡ ok (to_uthread 1 j, e))
    × Switched spines (put_past (with_state busy 5 yield).heap 5 2) 1 (2 ∷ 5 ∷ []) clock.entering e
gt_yield_example =
    gt_yield_lem spines calls clock busy 5 1 (2 ∷ []) (two_queued-IsCpu none running) refl refl refl
      (omega arith) calls-CallsSucceed (omega arith)

ksched_priority_example :
    (busy.k_ctx.do_not_disturb ≢ 0 → ksched_priority spines calls clock busy ≡ ok (none, busy))
    × (busy.k_ctx.do_not_disturb ≡ 0
        → (q : ℕ) × (rest : List ℕ) × (j : SavedContext) × (e : Cpu Spine) × (insert_by
              (vruntime_of (charged busy.heap 5 clock.leaving))
              5
              (ready_threads spines busy)
            ≡ q ∷ rest)
          × (ksched_priority spines calls clock busy ≡ ok (some (to_uthread q j), e))
          × Switched spines (charged busy.heap 5 clock.leaving) q rest clock.entering e)
ksched_priority_example =
    ksched_priority_lem spines calls clock busy 5 (two_queued-IsCpu none running) refl refl
      calls-CallsSucceed (omega arith)

gtthread_app_exit_example :
    (e : Cpu Spine) × (gtthread_app_exit spines calls clock main_thread
      ≡ ok (some to_kthread_env, e))
    × (e.shared.kthread_cur_uthreads ≡ (3 + 2 ^ 32 - 1) % 2 ^ 32)
    × (exit_round spines calls clock e ≡ ok (none, e))
gtthread_app_exit_example =
    gtthread_app_exit_lem spines calls clock main_thread 5 (none_queued-IsCpu (some 5) running) refl
      refl refl

schedule_safe_example : Safe spines calls clock yielding (two_queued-IsCpu none yield)
schedule_safe_example =
    schedule_safe spines calls clock yielding (two_queued-IsCpu none yield) calls-CallsSucceed
      (omega arith)
