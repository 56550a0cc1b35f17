-- ===== src/Scheduler/Entries.antt =====
-- The ways into uthread_schedule: the timer handler ksched_priority of gt_kthread.c, and in
-- gt_uthread.c gt_yield and the end of uthread_context_func.
pub mod Handlers
pub mod Entered
pub mod Keeping
pub mod RoundRobin
pub mod Fairness
pub mod Starvation
pub mod Drain
use cfs_userspace.Prelude.{
  ℕ, Option, none, some, Exec, ok, deref, assert, ◌>>=◌, ◌>>◌, if◌then◌else◌,
}
use cfs_userspace.Uthread.{running, done, yield, is_state}
use cfs_userspace.RbLibrary.{RbLibrary}
use cfs_userspace.KthreadRunqueue.{sched_find_best_uthread}
use cfs_userspace.Kthread.{Cpu}
use cfs_userspace.Scheduler.{
  InitCalls, Clock, Jump, uthread_schedule, write_uthread, set_timer, disturb, not_zero,
}

-- The call `uthread_func(uthread_arg)` of the thread that was switched to for the first time.
pub context_func_call : {Tree : Type 0} → Cpu Tree → Exec (ℕ × ℕ × ℕ)
context_func_call c = do
  p ← deref c.k_ctx.krunqueue.cur_uthread
  assert (is_state (c.heap p).uthread_state running)
  ok (p, (c.heap p).uthread_func, (c.heap p).uthread_arg)

module _ (lib : RbLibrary) (os : InitCalls) (clock : Clock) where
  open lib use {Tree}

  abbrev pub schedule : Cpu Tree → Exec (Jump × Cpu Tree)
  schedule c = uthread_schedule lib (sched_find_best_uthread lib) os clock c

  -- The code behind that call; `p` is the local `cur_uthread`.
  pub context_func_finish : Cpu Tree → ℕ → Exec (Jump × Cpu Tree)
  context_func_finish c p =
      let d = disturb (set_timer c 0) 1 in
      schedule (write_uthread d p (record (d.heap p) { uthread_state = done }))

  -- gt_yield, once the thread is known.
  pub yield_uthread : Cpu Tree → ℕ → Exec (Jump × Cpu Tree)
  yield_uthread c p = do
    assert (is_state (c.heap p).uthread_state running)
    schedule (write_uthread c p (record (c.heap p) { uthread_state = yield }))

  pub gt_yield : Cpu Tree → Exec (Jump × Cpu Tree)
  gt_yield c = deref c.k_ctx.krunqueue.cur_uthread >>= yield_uthread c

  -- The handler returns to the interrupted code (`none`) or schedules.
  pub ksched_priority : Cpu Tree → Exec (Option Jump × Cpu Tree)
  ksched_priority c =
      if not_zero c.k_ctx.do_not_disturb
      then ok (none, c)
      else schedule (disturb (set_timer c 0) 1) >>= λ (jump, d). ok (some jump, d)
