-- ===== src/Signal.antt =====
-- gt_signal.c: the signal handlers and the mask of blocked signals.
use cfs_userspace.Prelude.{ℕ, Bool, true, false, store}

-- What handles a signal: the default action, ksched_priority (`timer_handler`),
-- uthread_context_func (`stack_handler`), or another function, by its address.
pub data Handler : Type 0 where
  sig_dfl timer_handler stack_handler : Handler
  other_handler : ℕ → Handler

-- The numbers of the signals, as on x86.
abbrev pub sigusr1 : ℕ
sigusr1 = 10

abbrev pub sigusr2 : ℕ
sigusr2 = 12

abbrev pub sigvtalrm : ℕ
sigvtalrm = 26

-- The handler of each signal, and which signals are blocked on the kernel thread.
pub record Signals : Type 0 where
  pub sa_handler : ℕ → Handler
  pub blocked : ℕ → Bool

-- `sigaction(signo, { handler }, 0)`, when it succeeds
abbrev pub set_handler : Signals → ℕ → Handler → Signals
set_handler s signo handler = record s { sa_handler = store s.sa_handler signo handler }

-- `sigprocmask(SIG_BLOCK, { signo })` and `sigprocmask(SIG_UNBLOCK, { signo })`
abbrev pub kthread_block_signal : Signals → ℕ → Signals
kthread_block_signal s signo = record s { blocked = store s.blocked signo true }

abbrev pub kthread_unblock_signal : Signals → ℕ → Signals
kthread_unblock_signal s signo = record s { blocked = store s.blocked signo false }

abbrev pub kthread_install_sighandler : Signals → ℕ → Handler → Signals
kthread_install_sighandler s signo handler =
    kthread_unblock_signal (set_handler s signo handler) signo
