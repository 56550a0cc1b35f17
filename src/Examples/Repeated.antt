-- ===== src/Examples/Repeated.antt =====
-- Calls one after the other: of the timer, of gt_yield, and of the run queue.
use cfs_userspace.Prelude.{
  ℕ, ◌≡◌, ◌≢◌, refl, subst, List, [], ◌∷◌, none, some, some_inj, ok, arith, All, insert_by,
}
use cfs_userspace.Uthread.{Timeval, running, runnable, SavedContext}
use cfs_userspace.RbLibrary.Spine.{Spine}
use cfs_userspace.RbLibrary.Spine.Library.{spines}
use cfs_userspace.CfsRunqueue.{vruntime_of}
use cfs_userspace.KthreadRunqueue.{Ready}
use cfs_userspace.KthreadRunqueue.Traces.{Command, post, pick, run, picks, remains, Stands, run_lem}
use cfs_userspace.Kthread.{Cpu}
use cfs_userspace.Scheduler.{Clock, to_uthread}
use cfs_userspace.Scheduler.Pass.{IsCpu}
use cfs_userspace.Scheduler.Entries.Drain.{finishes, Runs, Over, drain}
use cfs_userspace.Scheduler.Entries.RoundRobin.{yields, Turn, round_robin}
use cfs_userspace.Scheduler.Entries.Fairness.{ticks, Fair, Reordered, ticks-Fair}
use cfs_userspace.App.{gtthread_app_exit, exit_round}
use cfs_userspace.App.Exit.{exit_drains}
use cfs_userspace.Examples.{
  machine, memory, two_queued, free_lock, clock, calls, calls-CallsSucceed, two_queued-IsRunqueue,
  two_queued-IsCpu,
}
use cfs_userspace.Examples.Scheduling.{busy}

busy-Turn : Turn spines 2 busy 5 (1 ∷ 2 ∷ [])
busy-Turn = record {
  cpu = two_queued-IsCpu none running;
  current = refl;
  state = refl;
  queue = refl;
  room = (omega arith, (omega arith, tt));
}

round_robin_example :
    (e : Cpu Spine) × (yields spines calls (clock ∷ clock ∷ []) busy ≡ ok (some 1 ∷ some 2 ∷ [], e))
    × Turn spines 0 e 2 (5 ∷ 1 ∷ [])
round_robin_example =
    round_robin spines calls calls-CallsSucceed (clock ∷ clock ∷ []) busy 5 (1 ∷ 2 ∷ []) [] refl
      (omega arith) busy-Turn

busy-Runs : Runs spines busy 5 (1 ∷ 2 ∷ []) 3
busy-Runs = record {
  cpu = two_queued-IsCpu none running;
  current = refl;
  queue = refl;
  count = refl;
}

drain_example :
    (e : Cpu Spine) × (finishes spines calls (clock ∷ clock ∷ clock ∷ []) busy
      ≡ ok (some 1 ∷ some 2 ∷ none ∷ [], e))
    × Over spines busy e 0
drain_example =
    drain spines calls calls-CallsSucceed (1 ∷ 2 ∷ []) (clock ∷ clock ∷ clock ∷ []) busy 5 0 refl
      (omega arith) (omega arith) busy-Runs

-- The master thread runs, and threads 1 and 2 wait.
abbrev main_runs : Cpu Spine
main_runs = machine two_queued (some 5) running

exit_drains_example :
    (j : SavedContext) × (d e : Cpu Spine) × (gtthread_app_exit spines calls clock main_runs
      ≡ ok (some (to_uthread 1 j), d))
    × (finishes spines calls (clock ∷ clock ∷ []) d ≡ ok (some 2 ∷ none ∷ [], e))
    × (e.shared.kthread_cur_uthreads ≡ 0)
    × (exit_round spines calls clock e ≡ ok (none, e))
exit_drains_example =
    exit_drains spines calls clock main_runs 5 (two_queued-IsCpu (some 5) running) refl refl 1
      (2 ∷ []) (clock ∷ clock ∷ []) 0 calls-CallsSucceed refl refl (omega arith) (omega arith) refl

-- Thread 0 runs, with the least virtual run time.
abbrev pub first_runs : Cpu Spine
first_runs = record busy {
  k_ctx = record busy.k_ctx { krunqueue = record busy.k_ctx.krunqueue { cur_uthread = some 0 } };
}

abbrev time_zero : Timeval
time_zero = record { tv_sec = 0; tv_usec = 0 }

abbrev next_clock : Clock
next_clock = record {
  leaving = record { tv_sec = 0; tv_usec = 2710 };
  entering = record { tv_sec = 0; tv_usec = 2720 };
}

pub first_runs-IsCpu : IsCpu spines first_runs
first_runs-IsCpu = record {
  kept = two_queued-IsRunqueue running;
  away = λ p e.
      subst (λ q. All (λ x. q ≢ x) (1 ∷ 2 ∷ [])) (some_inj.0 e)
        (λ f. omega arith, (λ f. omega arith, tt));
}

first_runs-Fair : Fair spines 1700 2 first_runs 0 time_zero (1 ∷ 2 ∷ [])
first_runs-Fair = record {
  cpu = first_runs-IsCpu;
  current = refl;
  state = refl;
  entered = refl;
  undisturbed = refl;
  queue = refl;
  least = (omega arith, (omega arith, tt));
  spread = (omega arith, (omega arith, tt));
  room = omega arith;
}

ticks-Fair_example :
    (e : Cpu Spine) × (q : ℕ) × (rest : List ℕ) × (t' : Timeval) × (ticks spines calls
        (clock ∷ next_clock ∷ [])
        first_runs
      ≡ ok e)
    × Fair spines 1700 0 e q t' rest
    × Reordered (0 ∷ 1 ∷ 2 ∷ []) (q ∷ rest)
ticks-Fair_example =
    ticks-Fair spines calls calls-CallsSucceed 1700 (omega arith) (clock ∷ next_clock ∷ [])
      first_runs 0 time_zero (1 ∷ 2 ∷ []) (omega arith) first_runs-Fair
      (
        record { usec_range = omega arith; sec_range = omega arith },
        record { usec_range = omega arith; sec_range = omega arith },
        (1700, omega arith, omega arith),
        (
          record { usec_range = omega arith; sec_range = omega arith },
          record { usec_range = omega arith; sec_range = omega arith },
          (1000, omega arith, omega arith),
          tt,
        ),
      )

abbrev waiting : Ready Spine
waiting = record {
  heap = memory runnable;
  runq = record { runqueue = two_queued; kthread_runqlock = free_lock; cur_uthread = none };
}

abbrev calls_made : List Command
calls_made = pick ∷ post 5 ∷ pick ∷ pick ∷ pick ∷ []

waiting-Stands : Stands spines (vruntime_of (memory runnable)) waiting (1 ∷ 2 ∷ [])
waiting-Stands = record { kept = two_queued-IsRunqueue runnable; listed = refl; ranks = refl }

run_example :
    (e : Ready Spine) × (run spines calls_made waiting
      ≡ ok (picks (vruntime_of (memory runnable)) calls_made (1 ∷ 2 ∷ []), e))
    × Stands spines
        (vruntime_of (memory runnable))
        e
        (remains (vruntime_of (memory runnable)) calls_made (1 ∷ 2 ∷ []))
unfolding insert_by
run_example =
    run_lem spines (vruntime_of (memory runnable)) calls_made waiting (1 ∷ 2 ∷ []) waiting-Stands
      ((λ e. omega arith, tt), tt)
