-- ===== src/Kthread.antt =====
-- gt_kthread.h and the timer of gt_signal.c: the state that the kernel threads keep and share.
use cfs_userspace.Prelude.{ℕ, ◌+◌, ◌-◌, ◌%◌, ◌^◌, List, Option, some, Bool, ◌==◌, store}
use cfs_userspace.Uthread.{Uthread, Timeval}
use cfs_userspace.Spinlock.{Spinlock, acquired, released}
use cfs_userspace.Signal.{Signals, Handler}
use cfs_userspace.KthreadRunqueue.{KthreadRunqueue}

abbrev pub gt_max_cores : ℕ
gt_max_cores = 16

abbrev pub max_uthread_groups : ℕ
max_uthread_groups = 32

-- KTHREAD_DONE is the lowest bit of `kthread_flags`: setting, clearing and testing it.
abbrev pub set_done : ℕ → ℕ
set_done flags = flags - flags % 2 + 1

abbrev pub clear_done : ℕ → ℕ
clear_done flags = flags - flags % 2

abbrev pub is_done : ℕ → Bool
is_done flags = flags % 2 == 1

-- `struct itimerval`
pub record Itimerval : Type 0 where
  pub it_interval : Timeval
  pub it_value : Timeval

-- The timer value that the code hands to setitimer.
abbrev pub one_shot : ℕ → Itimerval
one_shot usecs = record {
  it_interval = record { tv_sec = 0; tv_usec = 0 };
  it_value = record { tv_sec = 0; tv_usec = usecs };
}

abbrev pub kthread_set_vtalrm : ℕ → Itimerval
kthread_set_vtalrm usecs = one_shot usecs

-- A line of a log file: `0 tid gid total` when a thread is done, `1 tid gid delta` after each run.
pub data LogLine : Type 0 where
  total : (tid gid vruntime : ℕ) → LogLine
  delta : (tid gid usecs : ℕ) → LogLine

-- `kthread_context_t`; the log file is the list of the lines written, the last one first.
pub record KthreadContext (Tree : Type 0) : Type 0 where
  pub cpuid : ℕ
  pub cpu_apic_id : ℕ
  pub pid : ℕ
  pub tid : ℕ
  pub do_not_disturb : ℕ
  pub kthread_flags : ℕ
  pub kthread_sched_timer : Handler
  pub master_thread : Option ℕ
  pub krunqueue : KthreadRunqueue Tree
  pub log : List LogLine

-- `ksched_shared_info_t`
pub record KschedSharedInfo : Type 0 where
  pub kthread_tot_uthreads : ℕ
  pub kthread_cur_uthreads : ℕ
  pub app_exit : ℕ
  pub last_ugroup_kthread : ℕ → ℕ
  pub ksched_lock : Spinlock
  pub uthread_init_lock : Spinlock
  pub malloc_lock : Spinlock

-- What the code on one kernel thread works with: the threads in memory, its own context, the
-- shared counters, its virtual timer, and the signals.
pub record Cpu (Tree : Type 0) : Type 0 where
  pub heap : ℕ → Uthread
  pub k_ctx : KthreadContext Tree
  pub shared : KschedSharedInfo
  pub vtalrm : Itimerval
  pub signals : Signals

-- The whole program: all contexts by the id of their processor, as `kthread_cpu_map` has them.
pub record World (Tree : Type 0) : Type 0 where
  pub heap : ℕ → Uthread
  pub kthread_cpu_map : ℕ → Option (KthreadContext Tree)
  pub shared : KschedSharedInfo

abbrev pub put_context : {Tree : Type 0} → World Tree → ℕ → KthreadContext Tree → World Tree
put_context w cpu k = record w { kthread_cpu_map = store w.kthread_cpu_map cpu (some k) }

abbrev pub put_uthread : {Tree : Type 0} → World Tree → ℕ → Uthread → World Tree
put_uthread w p u = record w { heap = store w.heap p u }

-- MALLOC_SAFE and MALLOCZ_SAFE, but for the allocation itself
abbrev pub malloc_safe : {Tree : Type 0} → World Tree → World Tree
malloc_safe w = record w {
  shared = record w.shared { malloc_lock = released (acquired w.shared.malloc_lock) };
}

-- The next thread id, and one thread more, under ksched_lock.
abbrev pub count_thread : KschedSharedInfo → KschedSharedInfo
count_thread i = record i {
  kthread_tot_uthreads = (i.kthread_tot_uthreads + 1) % 2 ^ 32;
  kthread_cur_uthreads = (i.kthread_cur_uthreads + 1) % 2 ^ 32;
  ksched_lock = released (acquired i.ksched_lock);
}
