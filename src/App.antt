-- ===== src/App.antt =====
-- gt_kthread.c: the kernel threads of an application, from gtthread_app_init to gtthread_app_exit.
pub mod Startup
pub mod Exit
pub mod Rounds
pub mod Counting
pub mod Booting
pub mod Mastering
pub mod Init
use cfs_userspace.Prelude.{
  ◌<◌, ◌≢◌, ℕ, zero, suc, ◌+◌, ◌^◌, ◌==◌, List, [], ◌∷◌, ◌++◌, Bool, ◌&&◌, Option, none, some, Exec,
  ok, fault, exited, check_pointer, assert_failed, length, diverged, out_of_bounds, deref, ◌>>=◌,
  ◌>>◌, ltb, leb, if◌then◌else◌,
}
use cfs_userspace.Uthread.{Timeval, done}
use cfs_userspace.RbLibrary.{RbLibrary}
use cfs_userspace.Signal.{Signals, timer_handler, sigusr1, sigvtalrm, kthread_install_sighandler}
use cfs_userspace.Spinlock.{initialized, acquired, released}
use cfs_userspace.KthreadRunqueue.{kthread_init_runqueue}
use cfs_userspace.Kthread.{
  Cpu, World, KthreadContext, KschedSharedInfo, Itimerval, put_context, malloc_safe, is_done,
  clear_done, gt_max_cores, one_shot,
}
use cfs_userspace.Filename.{tid_to_filename}
use cfs_userspace.Target.{is_some}
use cfs_userspace.Creation.{create_master_uthread}
use cfs_userspace.Scheduler.Entries.{schedule}
use cfs_userspace.Accounting.{scheduler_min_granularity_usec}
use cfs_userspace.Scheduler.{InitCalls, Clock, Jump, write_uthread, set_timer, disturb}

-- What the system tells a kernel thread: its ids, the processor that it runs on, and the blocks that
-- malloc gives in tid_to_filename and in kthread_init_runqueue.
pub record Identity : Type 0 where
  pub pid : ℕ
  pub tid : ℕ
  pub apic_id : ℕ
  pub name_block : ℕ
  pub runqueue_block : ℕ

-- The id of a kernel thread is a positive int, and malloc gives both blocks.
abbrev pub Served : Identity → Type 0
Served me = (me.tid < 2 ^ 31) × (me.name_block ≢ 0) × (me.runqueue_block ≢ 0)

-- kthread_create: the stack's block, and what clone returns, as the pattern of an int; the new
-- thread's id, or nothing for -1.
pub kthread_create : (stack retval : ℕ) → Option ℕ
kthread_create stack retval =
    if stack == 0 then none else if ltb 0 retval && ltb retval (2 ^ 31) then some retval else none

abbrev pub ksched_info_init : KschedSharedInfo → KschedSharedInfo
ksched_info_init i = record i {
  ksched_lock = initialized i.ksched_lock;
  uthread_init_lock = initialized i.uthread_init_lock;
  malloc_lock = initialized i.malloc_lock;
  app_exit = 0;
}

-- kthread_init_vtalrm in gt_signal.c
abbrev pub kthread_init_vtalrm : Itimerval
kthread_init_vtalrm = one_shot scheduler_min_granularity_usec

-- How many processors have a context in `kthread_cpu_map`, from `inx` on.
unfoldable pub mapped : ℕ → (ℕ → Bool) → ℕ → ℕ
mapped zero present inx = 0
mapped (suc left) present inx =
    let rest = mapped left present (inx + 1) in if present inx then rest + 1 else rest

-- The loop at `yield_again`, over what the map holds each time it is read.
pub yield_again : ℕ → List (ℕ → Bool) → Exec (Unit {0})
yield_again num_cpus [] = fault diverged
yield_again num_cpus (seen ∷ later) =
    let init_done = mapped gt_max_cores seen 0 in
    let rest = yield_again num_cpus later in
    if leb init_done num_cpus
    then (if ltb init_done num_cpus then rest else ok tt)
    else fault assert_failed

-- The loop that waits for the other kernel threads, over the counts that it reads.
pub wait_for_uthreads : List ℕ → Exec (Unit {0})
wait_for_uthreads [] = fault diverged
wait_for_uthreads (kthread_cur_uthreads ∷ later) =
    let rest = wait_for_uthreads later in if kthread_cur_uthreads == 0 then ok tt else rest

-- A kernel thread to start: the block of its context and what calloc puts there, the block of its
-- stack, the result of clone, and its identity once it runs.
pub record Boot (Tree : Type 0) : Type 0 where
  pub block : ℕ
  pub zeroed : KthreadContext Tree
  pub stack : ℕ
  pub retval : ℕ
  pub me : Identity

-- The blocks for the master thread, the time, and which processors `kthread_cpu_map` held each time
-- that main read it while kernel threads were still starting.
pub record Master : Type 0 where
  pub starting : List (ℕ → Bool)
  pub u_new : ℕ
  pub ss_sp : ℕ
  pub now : Timeval

abbrev pub check_created : Option ℕ → Exec (Unit {0})
check_created none = fault exited
check_created (some k_tid) = ok tt

-- `kthread_cpu_map[apic_id] = k`
abbrev pub map_context : {Tree : Type 0} → World Tree → ℕ → KthreadContext Tree → Exec (World Tree)
map_context w apic_id k =
    if ltb apic_id gt_max_cores then ok (put_context w apic_id k) else fault out_of_bounds

module _ (lib : RbLibrary) where
  open lib use {Tree}

  -- fopen opens the log for appending; what it held before is not in the model.
  pub kthread_init : Identity → World Tree → KthreadContext Tree → Exec (World Tree)
  kthread_init me w k = do
    check_pointer me.name_block
    tid_string ← tid_to_filename me.tid
    krunqueue ← kthread_init_runqueue lib me.runqueue_block k.krunqueue
    let started = record k {
      pid = me.pid;
      tid = me.tid;
      kthread_sched_timer = timer_handler;
      master_thread = none;
      do_not_disturb = 1;
      log = [];
      krunqueue = krunqueue;
      cpu_apic_id = me.apic_id;
    }
    map_context w me.apic_id started

  -- One round of the loop over the processors, and, at once, kthread_handler on the new thread up
  -- to the application function.
  pub start_kthread : World Tree → (cpuid : ℕ) → Boot Tree → Exec (World Tree)
  start_kthread w cpuid b = do
    check_pointer b.block
    check_created (kthread_create b.stack b.retval)
    kthread_init b.me (malloc_safe (malloc_safe w)) (record b.zeroed { cpuid = cpuid })

  pub start_kthreads : World Tree → (inx : ℕ) → List (Boot Tree) → Exec (World Tree)
  start_kthreads w inx [] = ok w
  start_kthreads w inx (b ∷ bs) = start_kthread w inx b >>= λ v. start_kthreads v (inx + 1) bs

  -- The main kernel thread first, whose timer and notifications ksched_priority handles, then the
  -- others; the timer of the main one is set at the end.
  pub gtthread_app_init :
      World Tree
      → Signals
      → Boot Tree
      → Master
      → List (Boot Tree)
      → Exec (World Tree × Itimerval × Signals)
  gtthread_app_init w signals main master others = do
    check_pointer main.block
    let informed = malloc_safe (record w { shared = ksched_info_init w.shared })
    started ← kthread_init main.me informed (record main.zeroed { cpuid = 0 })
    k ← deref (started.kthread_cpu_map main.me.apic_id)
    (mastered, k_main) ← create_master_uthread lib started k master.u_new master.ss_sp master.now
    let timed = kthread_install_sighandler signals sigvtalrm k_main.kthread_sched_timer
    let notified = kthread_install_sighandler timed sigusr1 k_main.kthread_sched_timer
    all ← start_kthreads (put_context mastered main.me.apic_id k_main) 1 others
    yield_again (length others + 1) (master.starting ++ (λ i. is_some (all.kthread_cpu_map i)) ∷ [])
    k_ctx ← deref (all.kthread_cpu_map main.me.apic_id)
    ok (
      put_context all main.me.apic_id (record k_ctx { do_not_disturb = 0 }),
      kthread_init_vtalrm,
      notified,
    )

module _ (lib : RbLibrary) (os : InitCalls) (clock : Clock) where
  open lib use {Tree}

  -- A round of the loop in gtthread_app_start, or `none` when the loop is left; a jump to
  -- `kthread_env` goes to the next round.
  pub gtthread_app_start : Cpu Tree → Exec (Option Jump × Cpu Tree)
  gtthread_app_start c =
      if is_done c.k_ctx.kthread_flags
      then ok (none, c)
      else schedule lib os clock c >>= λ (jump, d). ok (some jump, d)

  -- The master thread ends at the first round.
  pub finish_thread : Cpu Tree → Option ℕ → Cpu Tree
  finish_thread c none = c
  finish_thread c (some m) =
      let d = write_uthread c m (record (c.heap m) { uthread_state = done }) in
      record d { k_ctx = record d.k_ctx { master_thread = none } }

  pub finish_master : Cpu Tree → Cpu Tree
  unfolding finish_thread
  finish_master c = finish_thread c c.k_ctx.master_thread

  -- A round of the loop in gtthread_app_exit.
  pub exit_round : Cpu Tree → Exec (Option Jump × Cpu Tree)
  exit_round c =
      if is_done c.k_ctx.kthread_flags
      then ok (none, c)
      else schedule lib os clock (finish_master c) >>= λ (jump, d). ok (some jump, d)

  -- gtthread_app_exit up to that loop.
  pub announce_exit : Cpu Tree → Cpu Tree
  announce_exit c =
      let d = disturb (set_timer c 0) 1 in
      record d {
        k_ctx = record d.k_ctx { kthread_flags = clear_done d.k_ctx.kthread_flags };
        shared = record d.shared {
          app_exit = 1;
          ksched_lock = released (acquired d.shared.ksched_lock);
        };
      }

  pub gtthread_app_exit : Cpu Tree → Exec (Option Jump × Cpu Tree)
  gtthread_app_exit c = exit_round (announce_exit c)
