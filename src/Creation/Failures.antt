-- ===== src/Creation/Failures.antt =====
-- About the error paths of uthread_create in gt_uthread.c.
use cfs_userspace.Prelude.{
  ℕ, ◌≡◌, ◌≢◌, refl, some, none, ok, fault, exited, failure, arith, ◌==◌, store_self, false,
}
use cfs_userspace.RbLibrary.{RbLibrary}
use cfs_userspace.Uthread.{init}
use cfs_userspace.KthreadRunqueue.{default_nice_value}
use cfs_userspace.Kthread.{World, KthreadContext, malloc_safe, put_context, put_uthread}
use cfs_userspace.Creation.{Request, uthread_create, finish_create, blank_uthread}

pub nonzero : (p : ℕ) → p ≢ 0 → (p == 0) ≡ false
nonzero p h = ground arith

module _ (lib : RbLibrary) (w : World lib.Tree) (cpu : ℕ) (k : KthreadContext lib.Tree)
    (r : Request) (here : w.kthread_cpu_map cpu ≡ some k) where
  -- With no memory for the thread's struct the program ends.
  pub uthread_create-no_struct : r.u_new ≡ 0 → uthread_create lib w cpu r ≡ fault exited
  unfolding uthread_create
  uthread_create-no_struct no_block = rw (here, no_block)

  -- On a kernel thread with a master thread, if malloc gives a struct but no stack, uthread_create
  -- returns -1, without a thread id and without waking a kernel thread; do_not_disturb stays set,
  -- and the number of live threads is as before.
  pub uthread_create-no_stack :
      (m : ℕ)
      → k.master_thread ≡ some m
      → r.u_new ≢ 0
      → r.ss_sp ≡ 0
      → (v : World lib.Tree) × (uthread_create lib w cpu r
          ≡ ok (record { status = failure; u_tid = none; notified = none }, v))
        × (v.kthread_cpu_map cpu ≡ some (record k { do_not_disturb = 1 }))
        × (v.shared.kthread_cur_uthreads ≡ w.shared.kthread_cur_uthreads)
  unfolding uthread_create finish_create
  uthread_create-no_stack m master block no_stack =
      let u = record (blank_uthread init r.u_gid r.u_func r.u_arg) {
        vruntime = (w.heap m).vruntime;
        nice = default_nice_value;
      } in
      let v = malloc_safe (malloc_safe (put_context w cpu (record k { do_not_disturb = 1 }))) in
      (
        put_uthread v r.u_new u,
        rw (here, master, nonzero r.u_new block, no_stack),
        store_self w.kthread_cpu_map cpu _,
        refl,
      )
