-- ===== src/Creation/Success.antt =====
-- About uthread_create in gt_uthread.c when memory is there.
use cfs_userspace.Prelude.{
  ℕ, ◌≡◌, ◌≢◌, ◌<◌, refl, sym, ap, ◌∙◌, subst, some, ok, success, All, store, store_self,
  store_other, ℕ_discrete, some_inj,
}
use cfs_userspace.Uthread.{init}
use cfs_userspace.KthreadRunqueue.{default_nice_value}
use cfs_userspace.RbLibrary.{RbLibrary}
use cfs_userspace.CfsRunqueue.{threads}
use cfs_userspace.CfsRunqueue.Invariant.{IsRunqueue}
use cfs_userspace.Kthread.{World, KthreadContext, put_context, malloc_safe}
use cfs_userspace.Creation.Failures.{nonzero}
use cfs_userspace.Creation.{Request, uthread_create, adopted_vruntime, blank_uthread}
use cfs_userspace.Creation.Queued.{IsCreated, IsFresh, QueuedOn}
use cfs_userspace.Creation.Posting.{finish_create_lem}

-- The state when uthread_create starts to fill in the stack: timers are off on the processor.
abbrev pub prepared : {Tree : Type 0} → World Tree → ℕ → KthreadContext Tree → World Tree
prepared w cpu k = malloc_safe (malloc_safe (put_context w cpu (record k { do_not_disturb = 1 })))

prepared-IsFresh :
    (lib : RbLibrary) (w : World lib.Tree) (cpu p : ℕ) (k : KthreadContext lib.Tree)
    → w.kthread_cpu_map cpu ≡ some k
    → IsFresh lib w p
    → IsFresh lib (prepared w cpu k) p
unfolding IsFresh
prepared-IsFresh lib w cpu p k here fresh t kt at_t =
    let k1 = record k { do_not_disturb = 1 } in
    elim (ℕ_discrete cpu t) [
      | yes same ↦
          let is_k : k1 ≡ kt = some_inj.0 (
            sym (store_self w.kthread_cpu_map cpu (some k1))
            ∙ subst (λ z. store w.kthread_cpu_map cpu (some k1) z ≡ some kt) (sym same) at_t) in
          subst
            (λ (x : KthreadContext lib.Tree).
              IsRunqueue lib (record { heap = w.heap; rq = x.krunqueue.runqueue })
              × All (λ q. p ≢ q) (threads lib x.krunqueue.runqueue.tree))
            is_k (fresh cpu k here)
      | no other ↦ fresh t kt (sym (store_other w.kthread_cpu_map cpu t (some k1) other) ∙ at_t)
    ]

-- On a kernel thread of a processor below 16, with a master thread m, let malloc give a struct and
-- a stack, let the group be below 32, and let every run queue be well formed and hold no thread at
-- the address of the struct. Then uthread_create returns 0 and the next thread id, and notifies a
-- kernel thread of a mapped processor t. The new thread has that id, the function, argument and
-- group of the call, the default nice value and the stack, has never run, has the virtual run time
-- of m, and is inserted by it into the run queue of t, behind those of its rank; that queue is
-- well formed, and one live thread more is counted.
pub uthread_create_lem :
    (lib : RbLibrary) (w : World lib.Tree) (cpu : ℕ) (k : KthreadContext lib.Tree) (m : ℕ)
    (r : Request)
    → w.kthread_cpu_map cpu ≡ some k
    → k.master_thread ≡ some m
    → cpu < 16
    → r.u_gid < 32
    → r.u_new ≢ 0
    → r.ss_sp ≢ 0
    → IsFresh lib w r.u_new
    → (t : ℕ) × (kt : KthreadContext lib.Tree) × (v : World lib.Tree) × (uthread_create lib w cpu r
        ≡ ok (
          record {
            status = success;
            u_tid = some w.shared.kthread_tot_uthreads;
            notified = some kt.tid;
          },
          v,
        ))
      × IsCreated r w.shared.kthread_tot_uthreads (v.heap r.u_new)
      × QueuedOn lib (prepared w cpu k) v r.u_new (w.heap m).vruntime t kt
unfolding uthread_create
uthread_create_lem lib w cpu k m r here master range group block stack fresh =
    let u = record (blank_uthread init r.u_gid r.u_func r.u_arg) {
      vruntime = (w.heap m).vruntime;
      nice = default_nice_value;
    } in
    let (t, kt, v, run, made, on) =
      finish_create_lem lib (prepared w cpu k) r u cpu (record k { do_not_disturb = 1 })
        (store_self w.kthread_cpu_map cpu _) range group stack refl refl refl refl refl
        (prepared-IsFresh lib w cpu r.u_new k here fresh) in
    let adopted : adopted_vruntime w.heap k.master_thread r.now ≡ ok (w.heap m).vruntime =
      ap (λ o. adopted_vruntime w.heap o r.now) master in
    (t, kt, v, rw (here, nonzero r.u_new block, adopted) run, made, on)
