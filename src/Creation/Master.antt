-- ===== src/Creation/Master.antt =====
-- About create_master_uthread in gt_kthread.c.
use cfs_userspace.Prelude.{ℕ, ◌+◌, ◌%◌, ◌^◌, ◌≡◌, ◌≢◌, refl, some, ok, store}
use cfs_userspace.Uthread.{Uthread, Timeval, runnable}
use cfs_userspace.RbLibrary.{RbLibrary}
use cfs_userspace.KthreadRunqueue.{default_nice_value}
use cfs_userspace.Kthread.{World, KthreadContext, put_uthread, malloc_safe, count_thread}
use cfs_userspace.Creation.{create_master_uthread, blank_uthread, with_stack}
use cfs_userspace.Creation.Failures.{nonzero}

-- What the master thread is when it stands for main.
abbrev pub master_uthread : (tid sp : ℕ) → Timeval → Uthread
master_uthread tid sp now =
    record (with_stack
      (record (blank_uthread runnable 0 0 0) { nice = default_nice_value; entry_to_cpu = now })
      sp) { uthread_tid = tid }

-- The context of the kernel thread that runs main.
abbrev pub mastered : {Tree : Type 0} → KthreadContext Tree → ℕ → KthreadContext Tree
mastered k p = record k {
  master_thread = some p;
  krunqueue = record k.krunqueue { cur_uthread = some p };
}

pub create_master_uthread_lem :
    (lib : RbLibrary) (w : World lib.Tree) (k : KthreadContext lib.Tree) (p sp : ℕ) (now : Timeval)
    → p ≢ 0
    → sp ≢ 0
    → (v : World lib.Tree) × (create_master_uthread lib w k p sp now ≡ ok (v, mastered k p))
      × (v.heap ≡ store w.heap p (master_uthread w.shared.kthread_tot_uthreads sp now))
      × (v.kthread_cpu_map ≡ w.kthread_cpu_map)
      × (v.shared.kthread_cur_uthreads ≡ (w.shared.kthread_cur_uthreads + 1) % 2 ^ 32)
      × (v.shared.kthread_tot_uthreads ≡ (w.shared.kthread_tot_uthreads + 1) % 2 ^ 32)
unfolding create_master_uthread
create_master_uthread_lem lib w k p sp now block stack =
    let u = master_uthread w.shared.kthread_tot_uthreads sp now in
    let allocated = malloc_safe (malloc_safe w) in
    (
      put_uthread (record allocated { shared = count_thread allocated.shared }) p u,
      rw (nonzero p block, nonzero sp stack) refl,
      refl,
      refl,
      refl,
      refl,
    )
