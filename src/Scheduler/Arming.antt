-- ===== src/Scheduler/Arming.antt =====
-- About the signals and the timer in uthread_schedule.
use cfs_userspace.Prelude.{ℕ, false, ◌≡◌, ◌<◌, ◌^◌, Exec, ok, fault, length}
use cfs_userspace.Uthread.{Uthread}
use cfs_userspace.RbLibrary.{RbLibrary}
use cfs_userspace.Signal.{Signals, Handler, sigvtalrm}
use cfs_userspace.Kthread.{Cpu, one_shot}
use cfs_userspace.Accounting.Slices.{FairSlice}
use cfs_userspace.Scheduler.{Jump, to_uthread, to_kthread_env}
use cfs_userspace.Scheduler.Queue.{ready_threads}
use cfs_userspace.Scheduler.Choosing.{SameSignals}

-- The signals, and the handler that the kernel thread has for its timer.
abbrev sig_of : {Tree : Type 0} → Cpu Tree → Signals × Handler
sig_of c = (c.signals, c.k_ctx.kthread_sched_timer)

abbrev Calm : {Tree : Type 0} → Signals × Handler → Exec (Cpu Tree) → Type 0
Calm s (ok left) = sig_of left ≡ s
Calm s (fault f) = Unit

-- The kernel thread is ready for the timer of thread `q`: it is set to a slice that is not 0 and is
-- a fair share, it is let in, and its handler schedules again.
pub record Armed (lib : RbLibrary) (c : Cpu lib.Tree) (q : ℕ) (e : Cpu lib.Tree) : Type 0 where
  pub slice : ℕ
  pub positive : 0 < slice
  pub fair : FairSlice (e.heap q).nice (length (ready_threads lib e)) slice
  pub timer : e.vtalrm ≡ one_shot slice
  pub undisturbed : e.k_ctx.do_not_disturb ≡ 0
  pub sched_timer : e.k_ctx.kthread_sched_timer ≡ c.k_ctx.kthread_sched_timer
  pub handled : e.signals.sa_handler sigvtalrm ≡ c.k_ctx.kthread_sched_timer
  pub let_in : e.signals.blocked sigvtalrm ≡ false
  pub others : SameSignals c.signals e.signals

abbrev Ends : (lib : RbLibrary) → Cpu lib.Tree → Exec (Jump × Cpu lib.Tree) → Type 0
Ends lib c (ok (to_uthread q j, e)) =
    0 < (e.heap q).nice → (e.heap q).nice < 2 ^ 31 → Armed lib c q e
Ends lib c (ok (to_kthread_env, e)) = Unit
Ends lib c (fault f) = Unit
