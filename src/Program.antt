-- ===== src/Program.antt =====
-- The whole program as steps of its kernel threads.
-- A step is a whole call; the user code between two calls changes none of the scheduler's state.
pub mod Invariant
pub mod Counting
pub mod Fates
pub mod Entering
pub mod Posted
pub mod Creating
pub mod Starting
pub mod Exclusion
pub mod Runs
pub mod Affinity
pub mod Waiting
pub mod Progress
use cfs_userspace.Prelude.{
  ℕ, ◌%◌, ◌⊎◌, ◌+◌, ◌^◌, ◌≤◌, ◌<◌, ◌≡◌, ◌≢◌, Option, none, some, Exec, ok, deref, ◌>>=◌, store,
  length,
}
use cfs_userspace.RbLibrary.{RbLibrary}
use cfs_userspace.Signal.{Signals}
use cfs_userspace.Kthread.{Cpu, World, KthreadContext, KschedSharedInfo, Itimerval, put_context}
use cfs_userspace.Uthread.{Uthread, Timeval, running}
use cfs_userspace.Accounting.Slices.{max_sharing}
use cfs_userspace.Scheduler.{InitCalls, Clock, Jump}
use cfs_userspace.Scheduler.Queue.{ready_threads}
use cfs_userspace.Scheduler.Choosing.{CallsSucceed}
use cfs_userspace.Scheduler.Ownership.{Foreign, size, Settled}
use cfs_userspace.Scheduler.Entries.{ksched_priority, gt_yield, context_func_finish}
use cfs_userspace.Creation.{Request, Created, uthread_create, create_master_uthread}
use cfs_userspace.App.{
  Served, Identity, kthread_init, gtthread_app_start, gtthread_app_exit, exit_round,
}

-- What the code on one kernel thread sees of the program, and what it leaves behind.
abbrev pub view :
    {Tree : Type 0} → World Tree → KthreadContext Tree → Itimerval → Signals → Cpu Tree
view w k timer signals = record {
  heap = w.heap;
  k_ctx = k;
  shared = w.shared;
  vtalrm = timer;
  signals = signals;
}

abbrev pub commit : {Tree : Type 0} → World Tree → ℕ → Cpu Tree → World Tree
commit w cpu e = record {
  heap = e.heap;
  kthread_cpu_map = store w.kthread_cpu_map cpu (some e.k_ctx);
  shared = e.shared;
}

-- The ways in which a kernel thread comes to uthread_schedule: a signal, gt_yield, the return of a
-- thread's function, and the rounds of the loops of gtthread_app_start and gtthread_app_exit.
pub data Entry : Type 0 where
  on_signal on_yield on_return on_round on_exit on_exit_round : Entry

-- How many threads the kernel thread of a processor has.
abbrev pub size_at : (lib : RbLibrary) → Option (KthreadContext lib.Tree) → ℕ
size_at lib none = 0
size_at lib (some k) = size lib k

-- One thread less, as many, or one thread more, and counted so.
abbrev pub Tally : (n live : ℕ) → (n' live' : ℕ) → Type 0
Tally n live n' live' = Settled n live n' live' ⊎ ((n' ≡ n + 1) × (live' ≡ (live + 1) % 2 ^ 32))

-- A jump goes on elsewhere.
pub jumps : {Tree : Type 0} → Exec (Jump × Cpu Tree) → Exec (Option Jump × Cpu Tree)
jumps m = m >>= λ (jump, d). ok (some jump, d)

pub enter :
    (lib : RbLibrary) → InitCalls → Clock → Entry → Cpu lib.Tree → Exec (Option Jump × Cpu lib.Tree)
enter lib os clock on_signal c = ksched_priority lib os clock c
enter lib os clock on_yield c = jumps (gt_yield lib os clock c)
enter lib os clock on_return c =
    jumps (deref c.k_ctx.krunqueue.cur_uthread >>= context_func_finish lib os clock c)
enter lib os clock on_round c = gtthread_app_start lib os clock c
enter lib os clock on_exit c = gtthread_app_exit lib os clock c
enter lib os clock on_exit_round c = exit_round lib os clock c

-- The master thread itself calls gtthread_app_exit, which forgets it in the first round.
abbrev pub Allowed : {Tree : Type 0} → Entry → Cpu Tree → Type 0
Allowed on_exit c = c.k_ctx.master_thread ≡ c.k_ctx.krunqueue.cur_uthread
Allowed on_exit_round c = c.k_ctx.master_thread ≡ none
Allowed _ c = Unit

-- A thread that yields runs, and a function that returns is that of the current thread.
abbrev pub Ready : {Tree : Type 0} → Entry → Cpu Tree → Type 0
Ready on_yield c =
    (p : ℕ) × (c.k_ctx.krunqueue.cur_uthread ≡ some p) × ((c.heap p).uthread_state ≡ running)
Ready on_return c = (p : ℕ) × (c.k_ctx.krunqueue.cur_uthread ≡ some p)
Ready _ c = Unit

-- The address is that of no thread of the program.
abbrev pub Unused : (lib : RbLibrary) → World lib.Tree → ℕ → Type 0
Unused lib w p =
    (t : ℕ) (k : KthreadContext lib.Tree) → w.kthread_cpu_map t ≡ some k → Foreign lib k p

-- The limits are those of uthread_init, get_fair_slice, ksched_find_target and tid_to_filename; malloc
-- succeeds, and gives an address that is in use by no thread of the program. The last three are the
-- parts of gtthread_app_init: kthread_init, create_master_uthread, and that the timer is let in.
pub data Step (lib : RbLibrary) (w : World lib.Tree) : World lib.Tree → Type 0 where
  enters :
      (os : InitCalls) (clock : Clock) (timer : Itimerval) (signals : Signals) (way : Entry)
      (cpu : ℕ) (k : KthreadContext lib.Tree) {jump : Option Jump} {e : Cpu lib.Tree}
      → CallsSucceed os
      → w.kthread_cpu_map cpu ≡ some k
      → length (ready_threads lib (view w k timer signals)) + 2 ≤ max_sharing
      → Allowed way (view w k timer signals)
      → enter lib os clock way (view w k timer signals) ≡ ok (jump, e)
      → Step lib w (commit w cpu e)
  creates :
      (cpu : ℕ) (k : KthreadContext lib.Tree) (m : ℕ) (r : Request) {made : Created}
      {v : World lib.Tree}
      → w.kthread_cpu_map cpu ≡ some k
      → k.master_thread ≡ some m
      → cpu < 16
      → r.u_gid < 32
      → r.u_new ≢ 0
      → r.ss_sp ≢ 0
      → Unused lib w r.u_new
      → uthread_create lib w cpu r ≡ ok (made, v)
      → Step lib w v
  starts :
      (me : Identity) (zeroed : KthreadContext lib.Tree) {v : World lib.Tree}
      → w.kthread_cpu_map me.apic_id ≡ none
      → zeroed.krunqueue.cur_uthread ≡ none
      → Served me
      → me.apic_id < 16
      → kthread_init lib me w zeroed ≡ ok v
      → Step lib w v
  masters :
      (cpu : ℕ) (k : KthreadContext lib.Tree) (u_new ss_sp : ℕ) (now : Timeval) {v : World lib.Tree}
      {k' : KthreadContext lib.Tree}
      → w.kthread_cpu_map cpu ≡ some k
      → k.krunqueue.cur_uthread ≡ none
      → u_new ≢ 0
      → ss_sp ≢ 0
      → Unused lib w u_new
      → create_master_uthread lib w k u_new ss_sp now ≡ ok (v, k')
      → Step lib w (put_context v cpu k')
  opens :
      (cpu : ℕ) (k : KthreadContext lib.Tree)
      → w.kthread_cpu_map cpu ≡ some k
      → Step lib w (put_context w cpu (record k { do_not_disturb = 0 }))

-- Before gtthread_app_init no kernel thread is mapped.
abbrev pub start : {Tree : Type 0} → (ℕ → Uthread) → KschedSharedInfo → World Tree
start heap shared = record { heap = heap; kthread_cpu_map = λ _. none; shared = shared }

pub data Reach (lib : RbLibrary) : World lib.Tree → Type 0 where
  here : (heap : ℕ → Uthread) (shared : KschedSharedInfo) → Reach lib (start heap shared)
  next : {w v : World lib.Tree} → Reach lib w → Step lib w v → Reach lib v
