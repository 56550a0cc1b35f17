-- ===== src/Examples/Creating.antt =====
-- uthread_create on processor 0, with threads 1 and 2 queued there.
use cfs_userspace.Prelude.{
  ℕ, ◌≡◌, ◌≢◌, sym, ◌∙◌, refl, subst, none, some, some_inj, ok, success, arith, All, [], ◌∷◌, store,
  store_self, store_other, ℕ_discrete,
}
use cfs_userspace.Uthread.{runnable}
use cfs_userspace.RbLibrary.Spine.{Spine}
use cfs_userspace.RbLibrary.Spine.Library.{spines}
use cfs_userspace.CfsRunqueue.{threads}
use cfs_userspace.CfsRunqueue.Invariant.{IsRunqueue}
use cfs_userspace.Kthread.{World, KthreadContext}
use cfs_userspace.Creation.{Request, uthread_create}
use cfs_userspace.Creation.Queued.{IsCreated, IsFresh, QueuedOn}
use cfs_userspace.Creation.Success.{prepared, uthread_create_lem}
use cfs_userspace.Examples.{memory, context, counters, two_queued, two_queued-IsRunqueue}

abbrev zero_context : KthreadContext Spine
zero_context = context two_queued (some 5)

abbrev world : World Spine
world = record {
  heap = memory runnable;
  kthread_cpu_map = store (λ i. none) 0 (some zero_context);
  shared = counters;
}

abbrev pub request : Request
request = record {
  u_func = 100;
  u_arg = 0;
  u_gid = 1;
  u_new = 7;
  ss_sp = 9;
  now = record { tv_sec = 0; tv_usec = 0 };
}

seven_new : All (λ (q : ℕ). 7 ≢ q) (1 ∷ 2 ∷ [])
seven_new = (λ e. omega arith, (λ e. omega arith, tt))

world-IsFresh : IsFresh spines world 7
unfolding IsFresh
world-IsFresh t k at_t = elim (ℕ_discrete 0 t) [
  | yes same ↦
      let is_zero : zero_context ≡ k = some_inj.0 (
        sym (store_self (λ i. none) 0 (some zero_context))
        ∙ subst (λ z. store (λ i. none) 0 (some zero_context) z ≡ some k) (sym same) at_t) in
      subst
        (λ (x : KthreadContext Spine).
          IsRunqueue spines (record { heap = memory runnable; rq = x.krunqueue.runqueue })
          × All (λ q. 7 ≢ q) (threads spines x.krunqueue.runqueue.tree))
        is_zero (two_queued-IsRunqueue runnable, seven_new)
  | no other ↦
      absurd (unmapped k (sym (store_other (λ i. none) 0 t (some zero_context) other) ∙ at_t))
]
  where
    unmapped : (k : KthreadContext Spine) → none ≡ some k → ⊥
    unmapped k e = cc

uthread_create_example :
    (t : ℕ) × (kt : KthreadContext Spine) × (v : World Spine) × (uthread_create spines world 0
        request
      ≡ ok (record { status = success; u_tid = some 6; notified = some kt.tid }, v))
    × IsCreated request 6 (v.heap 7)
    × QueuedOn spines (prepared world 0 zero_context) v 7 50 t kt
uthread_create_example =
    uthread_create_lem spines world 0 zero_context 5 request
      (store_self (λ i. none) 0 (some zero_context)) refl (omega arith) (omega arith)
      (λ e. omega arith) (λ e. omega arith) world-IsFresh
