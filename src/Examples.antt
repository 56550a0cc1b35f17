-- ===== src/Examples.antt =====
-- A kernel thread that runs thread 5 while threads 1 and 2 are queued, and the theorems about it.
pub mod Scheduling
pub mod Parts
pub mod Queues
pub mod Creating
pub mod Programs
pub mod Repeated
pub mod Waiting
pub mod Applications
use cfs_userspace.Prelude.{
  ℕ, sym, ◌∙◌, some_inj, ◌*◌, ◌+◌, ◌-◌, ◌≡◌, ◌≢◌, ◌≤◌, ◌<◌, ◌^◌, refl, List, [], ◌∷◌, ◌++◌, All,
  Distinct, store, false, Option, none, some, Exec, ok, arith, insert_by, inl, inr,
}
use cfs_userspace.Uthread.{
  Uthread, UthreadState, running, runnable, yield, done, in_schedule, SavedContext, Timeval,
}
use cfs_userspace.RbLibrary.Spine.{Spine, IsSpine}
use cfs_userspace.RbLibrary.Spine.Library.{spines}
use cfs_userspace.CfsRunqueue.{CfsRunqueue, Queued, vruntime_of}
use cfs_userspace.CfsRunqueue.Invariant.{IsRunqueue}
use cfs_userspace.Signal.{Signals, sig_dfl, timer_handler}
use cfs_userspace.Spinlock.{Spinlock}
use cfs_userspace.KthreadRunqueue.{sched_find_best_uthread}
use cfs_userspace.Kthread.{Cpu, KthreadContext, KschedSharedInfo, one_shot}
use cfs_userspace.Scheduler.{InitCalls, Clock, to_uthread, to_kthread_env, uthread_schedule}
use cfs_userspace.Scheduler.Queue.{queue_of, ready_threads}
use cfs_userspace.Scheduler.Choosing.{CallsSucceed}
use cfs_userspace.Scheduler.Switch.{Switched}
use cfs_userspace.Scheduler.Pass.{IsCpu, Reaches}
use cfs_userspace.Scheduler.Passes.{charged, put_past, schedule_preempts, schedule_yields}
use cfs_userspace.Scheduler.Endings.{schedule_done, schedule_drains, Drained}
use cfs_userspace.Scheduler.Entries.{gt_yield, ksched_priority, context_func_finish}
use cfs_userspace.Scheduler.Entries.Handlers.{
  with_state, gt_yield_lem, ksched_priority_lem, context_func_finish_lem,
}
use cfs_userspace.App.{gtthread_app_exit, exit_round}
use cfs_userspace.App.Exit.{gtthread_app_exit_lem}

abbrev pub thread_at : UthreadState → ℕ → Uthread
thread_at state p = record {
  uthread_state = state;
  nice = 1;
  cpu_id = 0;
  last_cpu_id = 0;
  uthread_tid = p;
  uthread_gid = 0;
  uthread_func = 100;
  uthread_arg = 0;
  entry_to_cpu = record { tv_sec = 0; tv_usec = 0 };
  vruntime = 10 * p;
  node = p + 2;
  uthread_env = in_schedule;
  uthread_stack = record { ss_sp = 1; ss_flags = 0; ss_size = 16384 };
}

-- The threads, all in the same state; the node of thread p is at p + 2.
abbrev pub memory : UthreadState → ℕ → Uthread
memory state p = thread_at state p

abbrev pub two_queued : CfsRunqueue Spine
two_queued = record {
  tree = record { nodes = 3 ∷ 4 ∷ []; keys = λ n. n - 2; fresh = 5 };
  min = some 1;
  num_threads = 2;
}

abbrev pub none_queued : CfsRunqueue Spine
none_queued = record {
  tree = record { nodes = []; keys = λ n. n - 2; fresh = 3 };
  min = none;
  num_threads = 0;
}

abbrev pub free_lock : Spinlock
free_lock = record { locked = 0; holder = 0 }

abbrev pub context : CfsRunqueue Spine → Option ℕ → KthreadContext Spine
context rq master = record {
  cpuid = 0;
  cpu_apic_id = 0;
  pid = 10;
  tid = 10;
  do_not_disturb = 0;
  kthread_flags = 0;
  kthread_sched_timer = timer_handler;
  master_thread = master;
  krunqueue = record { runqueue = rq; kthread_runqlock = free_lock; cur_uthread = some 5 };
  log = [];
}

abbrev pub counters : KschedSharedInfo
counters = record {
  kthread_tot_uthreads = 6;
  kthread_cur_uthreads = 3;
  app_exit = 0;
  last_ugroup_kthread = λ _. 0;
  ksched_lock = free_lock;
  uthread_init_lock = free_lock;
  malloc_lock = free_lock;
}

-- SIGVTALRM and SIGUSR1 go to ksched_priority.
abbrev pub handlers : Signals
handlers = record {
  sa_handler = store (store (λ _. sig_dfl) 26 timer_handler) 10 timer_handler;
  blocked = λ _. false;
}

abbrev pub machine : CfsRunqueue Spine → Option ℕ → UthreadState → Cpu Spine
machine rq master state = record {
  heap = memory state;
  k_ctx = context rq master;
  shared = counters;
  vtalrm = one_shot 0;
  signals = handlers;
}

abbrev pub calls : InitCalls
calls = record {
  sigaction = 0;
  sigaltstack = 0;
  sigaction_revert = 0;
  sigaltstack_revert = 0;
  ss_disable = 2;
}

abbrev pub clock : Clock
clock = record {
  leaving = record { tv_sec = 0; tv_usec = 1700 };
  entering = record { tv_sec = 0; tv_usec = 1710 };
}

pub calls-CallsSucceed : CallsSucceed calls
calls-CallsSucceed = record {
  sigaction_ok = refl;
  sigaltstack_ok = refl;
  sigaction_revert_ok = refl;
  sigaltstack_revert_ok = refl;
}

pub two_queued-IsRunqueue :
    (state : UthreadState) → IsRunqueue spines (record { heap = memory state; rq = two_queued })
two_queued-IsRunqueue state = record {
  valid = record {
    above = (omega arith, (omega arith, tt));
    below = (omega arith, (omega arith, tt));
    distinct = ((λ e. omega arith, tt), (tt, tt));
    room = omega arith;
  };
  sorted = ((omega arith, tt), (tt, tt));
  distinct = ((λ e. omega arith, tt), (tt, tt));
  matched = (refl, (refl, tt));
  counted = refl;
  cached = refl;
}

pub none_queued-IsRunqueue :
    (state : UthreadState) → IsRunqueue spines (record { heap = memory state; rq = none_queued })
none_queued-IsRunqueue state = record {
  valid = record { above = tt; below = tt; distinct = tt; room = omega arith };
  sorted = tt;
  distinct = tt;
  matched = tt;
  counted = refl;
  cached = refl;
}

five_ne : (p n : ℕ) → some 5 ≡ some p → n ≢ 5 → p ≢ n
five_ne p n e ne f = ne (sym f ∙ sym (some_inj.0 e))

away_from : (p : ℕ) → some 5 ≡ some p → All (λ q. p ≢ q) (1 ∷ 2 ∷ [])
away_from p e =
    (λ f. five_ne p 1 e (λ g. omega arith) f, (λ f. five_ne p 2 e (λ g. omega arith) f, tt))

two_queued-IsCpu :
    (master : Option ℕ) (state : UthreadState) → IsCpu spines (machine two_queued master state)
two_queued-IsCpu master state = record { kept = two_queued-IsRunqueue state; away = away_from }

none_queued-IsCpu :
    (master : Option ℕ) (state : UthreadState) → IsCpu spines (machine none_queued master state)
none_queued-IsCpu master state = record { kept = none_queued-IsRunqueue state; away = λ p e. tt }
