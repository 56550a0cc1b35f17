-- ===== src/Scheduler.antt =====
-- gt_uthread.c: the scheduler of one kernel thread, from uthread_schedule down to the switch.
-- A `siglongjmp` ends a function, and is the result; a `sigsetjmp` notes what it will resume.
pub mod Queue
pub mod Ownership
pub mod Standing
pub mod Requeue
pub mod Choosing
pub mod Switch
pub mod Pass
pub mod Passes
pub mod Endings
pub mod Leaving
pub mod Finishing
pub mod Safety
pub mod Arming
pub mod Entries
use cfs_userspace.Prelude.{
  ℕ, ◌+◌, ◌-◌, ◌%◌, ◌^◌, ◌∷◌, Bool, Option, none, some, Exec, ok, fault, exited, Status, success,
  failure, deref, assert, ◌>>=◌, ◌>>◌, ◌==◌, if◌then◌else◌, store, bit_or, not,
}
use cfs_userspace.Uthread.{
  Uthread, Timeval, init, runnable, running, cancelled, done, yield, flag, has_flag, is_state,
  SavedContext, in_context_func, in_schedule,
}
use cfs_userspace.RbLibrary.{RbLibrary}
use cfs_userspace.Signal.{
  Signals, Handler, stack_handler, sigusr2, sigvtalrm, set_handler, kthread_block_signal,
  kthread_unblock_signal, kthread_install_sighandler,
}
use cfs_userspace.Spinlock.{Spinlock, acquired, released}
use cfs_userspace.KthreadRunqueue.{Ready, add_to_runqueue}
use cfs_userspace.Kthread.{Cpu, LogLine, total, delta, set_done, kthread_set_vtalrm}
use cfs_userspace.Accounting.{elapsed_int, update_vruntime, update_vruntime_to_max, get_fair_slice}

-- What the system calls of uthread_init return, and the constant SS_DISABLE.
pub record InitCalls : Type 0 where
  pub sigaction : ℕ
  pub sigaltstack : ℕ
  pub sigaction_revert : ℕ
  pub sigaltstack_revert : ℕ
  pub ss_disable : ℕ

-- The readings of gettimeofday in one pass: in update_vruntime, and before the switch.
pub record Clock : Type 0 where
  pub leaving : Timeval
  pub entering : Timeval

-- Where control goes: to a user thread, at the context that it saved, or to `kthread_env`.
pub data Jump : Type 0 where
  to_uthread : ℕ → SavedContext → Jump
  to_kthread_env : Jump

-- A return value as a condition.
abbrev pub not_zero : ℕ → Bool
not_zero n = not (n == 0)

-- `exit(0)` after a failure
abbrev pub or_exit {ℓ} : {A : Type ℓ} → Status → A → Exec A
or_exit success a = ok a
or_exit failure a = fault exited

module _ {Tree : Type 0} where
  abbrev pub write_uthread : Cpu Tree → ℕ → Uthread → Cpu Tree
  write_uthread c p u = record c { heap = store c.heap p u }

  abbrev pub set_cur : Cpu Tree → Option ℕ → Cpu Tree
  set_cur c cur = record c {
    k_ctx = record c.k_ctx { krunqueue = record c.k_ctx.krunqueue { cur_uthread = cur } };
  }

  abbrev pub log_line : Cpu Tree → LogLine → Cpu Tree
  log_line c l = record c { k_ctx = record c.k_ctx { log = l ∷ c.k_ctx.log } }

  abbrev pub disturb : Cpu Tree → ℕ → Cpu Tree
  disturb c d = record c { k_ctx = record c.k_ctx { do_not_disturb = d } }

  abbrev pub set_timer : Cpu Tree → ℕ → Cpu Tree
  set_timer c usecs = record c { vtalrm = kthread_set_vtalrm usecs }

  abbrev pub set_signals : Cpu Tree → Signals → Cpu Tree
  set_signals c s = record c { signals = s }

  -- The code between `sigsetjmp` and `return` of uthread_context_func, which SIGUSR2 runs.
  pub context_func_save : Cpu Tree → Exec (Cpu Tree)
  context_func_save c = do
    p ← deref c.k_ctx.krunqueue.cur_uthread
    assert (is_state (c.heap p).uthread_state init)
    ok (
        write_uthread c p
          (record (c.heap p) { uthread_env = in_context_func; uthread_state = runnable }))

  abbrev pub init_lock : Cpu Tree → Spinlock → Cpu Tree
  init_lock c lock = record c { shared = record c.shared { uthread_init_lock = lock } }

  -- The steps of uthread_init behind the handler, where SIGUSR2 is blocked and gets its old handler
  -- back; the lock is given back on the last line only.
  abbrev pub uthread_init_rest : InitCalls → Cpu Tree → ℕ → Handler → Status × Cpu Tree
  uthread_init_rest os c p oldact =
      let blocked = set_signals c (kthread_block_signal c.signals sigusr2) in
      if not_zero os.sigaction_revert
      then (failure, blocked)
      else let u = c.heap p in
        let reverted = set_signals blocked (set_handler blocked.signals sigusr2 oldact) in
        let off =
          write_uthread reverted p
            (record u { uthread_stack = record u.uthread_stack { ss_flags = os.ss_disable } }) in
        if not_zero os.sigaltstack_revert
        then (failure, off)
        else (success, init_lock off (released off.shared.uthread_init_lock))

  pub uthread_init : InitCalls → Cpu Tree → ℕ → Exec (Status × Cpu Tree)
  unfolding context_func_save
  uthread_init os c p =
      let locked = init_lock c (acquired c.shared.uthread_init_lock) in
      if not_zero os.sigaction
      then ok (failure, locked)
      else let handled = set_signals locked (set_handler locked.signals sigusr2 stack_handler) in
        if not_zero os.sigaltstack
        then ok (failure, handled)
        else context_func_save
            (set_signals handled (kthread_unblock_signal handled.signals sigusr2))
          >>= λ saved. ok (uthread_init_rest os saved p (c.signals.sa_handler sigusr2))

  -- update_vruntime with its log line
  pub charge : Cpu Tree → ℕ → Timeval → Cpu Tree
  charge c p now =
      let u = c.heap p in
      log_line (write_uthread c p (update_vruntime u now))
        (delta u.uthread_tid u.uthread_gid (elapsed_int u.entry_to_cpu now))

  -- A thread that is done or cancelled: the last log line, and one thread less.
  pub retire : Cpu Tree → ℕ → Timeval → Cpu Tree
  retire c p now =
      let d = charge c p now in
      let u = d.heap p in
      let logged = log_line d (total u.uthread_tid u.uthread_gid u.vruntime) in
      record logged {
        shared = record c.shared {
          ksched_lock = released (acquired c.shared.ksched_lock);
          kthread_cur_uthreads = (c.shared.kthread_cur_uthreads + 2 ^ 32 - 1) % 2 ^ 32;
        };
      }

  -- uthread_init, for a thread that has never run; a failure ends the program
  pub initialize_uthread : InitCalls → Cpu Tree → ℕ → Exec (Cpu Tree)
  unfolding uthread_init
  initialize_uthread os c p =
      if is_state (c.heap p).uthread_state init
      then (uthread_init os c p >>= λ (status, d). or_exit status d)
      else ok c

module _ (lib : RbLibrary) where
  open lib use {Tree}

  -- add_to_runqueue on the own run queue
  pub enqueue : Cpu Tree → ℕ → Cpu Tree
  enqueue c p =
      let k = c.k_ctx.krunqueue in
      let (s, lock) =
        add_to_runqueue lib (record { heap = c.heap; rq = k.runqueue }) k.kthread_runqlock p in
      record c {
        heap = s.heap;
        k_ctx = record c.k_ctx {
          krunqueue = record k { runqueue = s.rq; kthread_runqlock = lock };
        };
      }

  -- Make a thread runnable, queue it, and save its context.
  pub requeue : Cpu Tree → ℕ → Cpu Tree
  requeue c p =
      let queued = enqueue (write_uthread c p (record (c.heap p) { uthread_state = runnable })) p in
      write_uthread queued p (record (queued.heap p) { uthread_env = in_schedule })

  -- A thread that yields goes behind all that are queued.
  pub requeue_last : Cpu Tree → ℕ → Exec (Cpu Tree)
  requeue_last c p = do
    u ← update_vruntime_to_max lib c.heap c.k_ctx.krunqueue.runqueue (c.heap p)
    ok (requeue (write_uthread c p u) p)

  -- What becomes of the thread that was running.
  pub put_back : Cpu Tree → ℕ → Timeval → Exec (Cpu Tree)
  put_back c p now =
      let state = (c.heap p).uthread_state in
      if has_flag state (bit_or (flag done) (flag cancelled))
      then ok (retire c p now)
      else if has_flag state (flag yield)
      then requeue_last c p
      else ok (requeue (charge c p now) p)

  pub leave : Cpu Tree → Option ℕ → Timeval → Exec (Cpu Tree)
  leave c none now = ok c
  leave c (some p) now = put_back (set_cur c none) p now

  -- The switch to the chosen thread.
  pub dispatch : InitCalls → Cpu Tree → ℕ → Timeval → Exec (Jump × Cpu Tree)
  dispatch os c p now = do
    d ← initialize_uthread os (set_cur c (some p)) p
    let u = record (d.heap p) { uthread_state = running }
    fair_slice ← get_fair_slice u d.k_ctx.krunqueue.runqueue.num_threads
    let entered = write_uthread d p (record u { entry_to_cpu = now })
    let signals =
        kthread_install_sighandler entered.signals sigvtalrm entered.k_ctx.kthread_sched_timer
    ok (to_uthread p u.uthread_env, disturb (set_timer (set_signals entered signals) fair_slice) 0)

  -- No thread is left to run.
  pub idle : Cpu Tree → Jump × Cpu Tree
  idle c = (
    to_kthread_env,
    if c.shared.app_exit == 0
        then c
        else record c { k_ctx = record c.k_ctx { kthread_flags = set_done c.k_ctx.kthread_flags } },
  )

  pub next_or_idle : InitCalls → Cpu Tree → Option ℕ → Timeval → Exec (Jump × Cpu Tree)
  next_or_idle os c none now = ok (idle c)
  next_or_idle os c (some p) now = dispatch os c p now

  -- The choice of the next thread, by the function that the caller of uthread_schedule hands over.
  pub choose : (Ready Tree → Exec (Option ℕ × Ready Tree)) → Cpu Tree → Exec (Option ℕ × Cpu Tree)
  choose best c = do
    (p, r) ← best (record { heap = c.heap; runq = c.k_ctx.krunqueue })
    ok (p, record c { heap = r.heap; k_ctx = record c.k_ctx { krunqueue = r.runq } })

  pub uthread_schedule :
      (Ready Tree → Exec (Option ℕ × Ready Tree))
      → InitCalls
      → Clock
      → Cpu Tree
      → Exec (Jump × Cpu Tree)
  unfolding put_back dispatch
  uthread_schedule best os clock c = do
    let entered = disturb (set_timer c 0) 1
    left ← leave entered entered.k_ctx.krunqueue.cur_uthread clock.leaving
    (p, chosen) ← choose best left
    next_or_idle os chosen p clock.entering
