-- ===== src/Creation.antt =====
-- uthread_create in gt_uthread.c and create_master_uthread in gt_kthread.c.
-- What malloc returns is an argument: the address of the block, 0 for NULL.
pub mod Failures
pub mod Queued
pub mod Posting
pub mod Success
pub mod Master
use cfs_userspace.Prelude.{
  ℕ, ◌==◌, Option, none, some, Exec, ok, fault, exited, Status, success, failure, deref, ◌>>=◌,
  ◌>>◌, if◌then◌else◌,
}
use cfs_userspace.Uthread.{
  Uthread, UthreadState, init, runnable, Timeval, SavedContext, unsaved, uthread_default_ssize,
}
use cfs_userspace.RbLibrary.{RbLibrary}
use cfs_userspace.KthreadRunqueue.{add_to_runqueue, default_nice_value}
use cfs_userspace.Kthread.{
  World, KthreadContext, put_context, put_uthread, malloc_safe, count_thread,
}
use cfs_userspace.Accounting.{get_time_delta}
use cfs_userspace.Target.{ksched_find_target}

-- The arguments of uthread_create, the blocks that malloc gives, and the time.
pub record Request : Type 0 where
  pub u_func : ℕ
  pub u_arg : ℕ
  pub u_gid : ℕ
  pub u_new : ℕ
  pub ss_sp : ℕ
  pub now : Timeval

-- The result of uthread_create: `*u_tid`, and the kernel thread that SIGUSR1 goes to.
pub record Created : Type 0 where
  pub status : Status
  pub u_tid : Option ℕ
  pub notified : Option ℕ

-- `exit(0)` where calloc gives no block
abbrev pub check_block : ℕ → Exec (Unit {0})
check_block p = if p == 0 then fault exited else ok tt

-- A block from calloc, with the fields that both functions set at first.
abbrev pub blank_uthread : UthreadState → ℕ → ℕ → ℕ → Uthread
blank_uthread state gid func arg = record {
  uthread_state = state;
  nice = 0;
  cpu_id = 0;
  last_cpu_id = 0;
  uthread_tid = 0;
  uthread_gid = gid;
  uthread_func = func;
  uthread_arg = arg;
  entry_to_cpu = record { tv_sec = 0; tv_usec = 0 };
  vruntime = 0;
  node = 0;
  uthread_env = unsaved;
  uthread_stack = record { ss_sp = 0; ss_flags = 0; ss_size = 0 };
}

-- The stack, of the default size; a null block is found by the caller.
abbrev pub with_stack : Uthread → ℕ → Uthread
with_stack u sp = record u {
  uthread_stack = record { ss_sp = sp; ss_flags = 0; ss_size = uthread_default_ssize };
}

-- The virtual run time that a new thread takes over from the master thread of its creator.
abbrev pub adopted_vruntime : (ℕ → Uthread) → Option ℕ → Timeval → Exec ℕ
adopted_vruntime heap (some m) now = ok (heap m).vruntime
adopted_vruntime heap none now = get_time_delta none now

-- `kthread_cpu_map[cpu]->do_not_disturb = d`
abbrev pub set_disturb : {Tree : Type 0} → World Tree → ℕ → ℕ → Exec (World Tree)
set_disturb w cpu d = do
  k ← deref (w.kthread_cpu_map cpu)
  ok (put_context w cpu (record k { do_not_disturb = d }))

module _ (lib : RbLibrary) where
  open lib use {Tree}

  -- add_to_runqueue on the run queue of the target
  abbrev pub post : World Tree → ℕ → KthreadContext Tree → ℕ → World Tree
  post w target k p =
      let (s, lock) =
        add_to_runqueue lib (record { heap = w.heap; rq = k.krunqueue.runqueue })
          k.krunqueue.kthread_runqlock p in
      put_context (record w { heap = s.heap }) target
        (record k { krunqueue = record k.krunqueue { runqueue = s.rq; kthread_runqlock = lock } })

  -- From the allocation of the stack on.
  pub finish_create : World Tree → ℕ → Request → Uthread → Exec (Created × World Tree)
  finish_create w cpu r u =
      if r.ss_sp == 0
      then ok (record { status = failure; u_tid = none; notified = none }, put_uthread w r.u_new u)
      else (do
        let tid = w.shared.kthread_tot_uthreads
        let numbered =
            put_uthread (record w { shared = count_thread w.shared }) r.u_new
              (record (with_stack u r.ss_sp) { uthread_tid = tid })
        (target, found) ← ksched_find_target numbered r.u_new
        k ← deref (found.kthread_cpu_map target)
        resumed ← set_disturb (post found target k r.u_new) cpu 0
        ok (record { status = success; u_tid = some tid; notified = some k.tid }, resumed))

  pub uthread_create : World Tree → ℕ → Request → Exec (Created × World Tree)
  unfolding finish_create
  uthread_create w cpu r = do
    kctx ← deref (w.kthread_cpu_map cpu)
    undisturbed ← set_disturb w cpu 1
    let allocated = malloc_safe undisturbed
    check_block r.u_new
    vruntime ← adopted_vruntime w.heap kctx.master_thread r.now
    let u = record (blank_uthread init r.u_gid r.u_func r.u_arg) {
      vruntime = vruntime;
      nice = default_nice_value;
    }
    finish_create (malloc_safe allocated) cpu r u

  -- The master thread stands for `main`: it is counted, and runs already.
  pub create_master_uthread :
      World Tree
      → KthreadContext Tree
      → (u_new ss_sp : ℕ) → Timeval
      → Exec (World Tree × KthreadContext Tree)
  create_master_uthread w k u_new ss_sp now =
      let allocated = malloc_safe w in
      let u = record (blank_uthread runnable 0 0 0) {
        nice = default_nice_value;
        entry_to_cpu = now;
      } in
      if u_new == 0
      then fault exited
      else if ss_sp == 0
      then ok (put_uthread (malloc_safe allocated) u_new u, k)
      else ok (
        put_uthread
            (record (malloc_safe allocated) {
              shared = count_thread (malloc_safe allocated).shared;
            })
            u_new (record (with_stack u ss_sp) { uthread_tid = w.shared.kthread_tot_uthreads }),
        record k {
          master_thread = some u_new;
          krunqueue = record k.krunqueue { cur_uthread = some u_new };
        },
      )
