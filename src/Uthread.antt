-- ===== src/Uthread.antt =====
-- gt_uthread.h: the states and the struct of a user-level thread.
use cfs_userspace.Prelude.{ℕ, Bool, not, ◌==◌, bit_and, ◌*◌}

-- The UTHREAD_ states; each is one bit of `uthread_state`.
pub data UthreadState : Type 0 where
  init runnable running cancelled done yield : UthreadState

abbrev pub flag : UthreadState → ℕ
flag init = 0x01
flag runnable = 0x02
flag running = 0x04
flag cancelled = 0x08
flag done = 0x10
flag yield = 0x20

-- `uthread_state & mask`, as a condition
abbrev pub has_flag : UthreadState → ℕ → Bool
has_flag s mask = not (bit_and (flag s) mask == 0)

abbrev pub is_state : UthreadState → UthreadState → Bool
is_state s t = flag s == flag t

abbrev pub uthread_default_ssize : ℕ
uthread_default_ssize = 16 * 1024

-- `struct timeval`; each field is a `long`, kept as its 64-bit pattern
pub record Timeval : Type 0 where
  pub tv_sec : ℕ
  pub tv_usec : ℕ

-- `stack_t`; a null `ss_sp` is 0
pub record SignalStack : Type 0 where
  pub ss_sp : ℕ
  pub ss_flags : ℕ
  pub ss_size : ℕ

-- What a `siglongjmp` to a saved context resumes: nothing saved yet, the first `sigsetjmp` in
-- `uthread_context_func`, or the one in `uthread_schedule`, after which that function returns.
pub data SavedContext : Type 0 where
  unsaved in_context_func in_schedule : SavedContext

-- `uthread_struct_t`. `node` is the address of the thread's node in the tree, 0 for none.
pub record Uthread : Type 0 where
  pub uthread_state : UthreadState
  pub nice : ℕ
  pub cpu_id : ℕ
  pub last_cpu_id : ℕ
  pub uthread_tid : ℕ
  pub uthread_gid : ℕ
  pub uthread_func : ℕ
  pub uthread_arg : ℕ
  pub entry_to_cpu : Timeval
  pub vruntime : ℕ
  pub node : ℕ
  pub uthread_env : SavedContext
  pub uthread_stack : SignalStack
