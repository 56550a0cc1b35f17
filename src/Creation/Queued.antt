-- ===== src/Creation/Queued.antt =====
-- About the state that uthread_create in gt_uthread.c leaves behind.
use cfs_userspace.Prelude.{
  ℕ, ◌+◌, ◌%◌, ◌^◌, ◌≡◌, ◌≢◌, refl, sym, ap, ◌∙◌, subst, Option, some, some_inj, All, store,
  store_self, store_other, store_ind, ℕ_discrete, insert_by,
}
use cfs_userspace.Uthread.{Uthread, init}
use cfs_userspace.KthreadRunqueue.{default_nice_value}
use cfs_userspace.Creation.{Request}
use cfs_userspace.RbLibrary.{RbLibrary}
use cfs_userspace.CfsRunqueue.{threads, vruntime_of}
use cfs_userspace.CfsRunqueue.Invariant.{IsRunqueue}
use cfs_userspace.Kthread.{World, KthreadContext}

-- Two writes to the map of processors, the second one at a processor that is mapped.
pub mapped_twice :
    {Tree : Type 0} (map : ℕ → Option (KthreadContext Tree)) (t cpu : ℕ)
    (k kc : KthreadContext Tree)
    → map cpu ≡ some kc
    → (x y : KthreadContext Tree) × (store map t (some k) cpu ≡ some x)
      × (store (store map t (some k)) cpu (some (record x { do_not_disturb = 0 })) t ≡ some y)
      × (y.krunqueue ≡ k.krunqueue)
mapped_twice map t cpu k kc e = elim (ℕ_discrete t cpu) [
  | yes same ↦ (
    k,
    record k { do_not_disturb = 0 },
    subst (λ z. store map t (some k) z ≡ some k) same (store_self map t (some k)),
    subst
        (λ z.
          store (store map t (some k)) cpu (some (record k { do_not_disturb = 0 })) z
          ≡ some (record k { do_not_disturb = 0 }))
        (sym same) (store_self (store map t (some k)) cpu _),
    refl,
  )
  | no other ↦ (
    kc,
    k,
    store_other map t cpu (some k) other ∙ e,
    store_other (store map t (some k)) cpu t _ (λ f. other (sym f)) ∙ store_self map t (some k),
    refl,
  )
]

-- What the other processors are mapped to then.
pub mapped_others :
    {Tree : Type 0} (map : ℕ → Option (KthreadContext Tree)) (t cpu : ℕ) (k x : KthreadContext Tree)
    → store map t (some k) cpu ≡ some x
    → (s : ℕ) (b : KthreadContext Tree)
    → store (store map t (some k)) cpu (some (record x { do_not_disturb = 0 })) s ≡ some b
    → t ≢ s
    → (a : KthreadContext Tree) × (map s ≡ some a) × (b.krunqueue ≡ a.krunqueue)
mapped_others {Tree} map t cpu k x at_cpu =
    store_ind
      (λ s b. t ≢ s → (a : KthreadContext Tree) × (map s ≡ some a) × (b.krunqueue ≡ a.krunqueue))
      (store map t (some k)) cpu (record x { do_not_disturb = 0 })
      (λ ne. (x, sym (store_other map t cpu (some k) ne) ∙ at_cpu, refl))
      (λ s b other at_s ne. (b, sym (store_other map t s (some k) ne) ∙ at_s, refl))

-- A context is replaced by one with the same master thread.
pub store_masters :
    {Tree : Type 0} (map : ℕ → Option (KthreadContext Tree)) (t : ℕ) (a b : KthreadContext Tree)
    → map t ≡ some a
    → b.master_thread ≡ a.master_thread
    → (s : ℕ) (k : KthreadContext Tree) → map s ≡ some k
    → (k' : KthreadContext Tree) × (store map t (some b) s ≡ some k')
      × (k'.master_thread ≡ k.master_thread)
store_masters {Tree} map t a b at_t same s k at_s = elim (ℕ_discrete t s) [
  | yes e ↦
      let is_a : a ≡ k = some_inj.0 (sym at_t ∙ subst (λ z. map z ≡ some k) (sym e) at_s) in
      (
        b,
        subst (λ z. store map t (some b) z ≡ some b) e (store_self map t (some b)),
        same ∙ ap (λ (x : KthreadContext Tree). x.master_thread) is_a,
      )
  | no ne ↦ (k, store_other map t s (some b) ne ∙ at_s, refl)
]

-- Every run queue is well formed, and thread p is in none.
unfoldable pub IsFresh : (lib : RbLibrary) → World lib.Tree → ℕ → Type 0
IsFresh lib w p =
    (t : ℕ) (k : KthreadContext lib.Tree)
    → w.kthread_cpu_map t ≡ some k
    → IsRunqueue lib (record { heap = w.heap; rq = k.krunqueue.runqueue })
      × All (λ q. p ≢ q) (threads lib k.krunqueue.runqueue.tree)

-- A thread that has what uthread_create was asked for: its id, function, argument, group and nice
-- value, and it has never run.
pub record IsCreated (r : Request) (tid : ℕ) (u : Uthread) : Type 0 where
  pub id : u.uthread_tid ≡ tid
  pub func : u.uthread_func ≡ r.u_func
  pub arg : u.uthread_arg ≡ r.u_arg
  pub group : u.uthread_gid ≡ r.u_gid
  pub nice : u.nice ≡ default_nice_value
  pub stack : u.uthread_stack.ss_sp ≡ r.ss_sp
  pub state : u.uthread_state ≡ init

-- The state after a thread p with the given virtual run time was queued on processor t, which had
-- the context k before.
pub record QueuedOn (lib : RbLibrary) (w v : World lib.Tree) (p vruntime t : ℕ)
    (k : KthreadContext lib.Tree) : Type 0 where
  pub now : KthreadContext lib.Tree
  pub before : w.kthread_cpu_map t ≡ some k
  pub mapped : v.kthread_cpu_map t ≡ some now
  pub order :
      threads lib now.krunqueue.runqueue.tree
      ≡ insert_by (vruntime_of v.heap) p (threads lib k.krunqueue.runqueue.tree)
  pub kept : IsRunqueue lib (record { heap = v.heap; rq = now.krunqueue.runqueue })
  pub rank : (v.heap p).vruntime ≡ vruntime
  pub state : (v.heap p).uthread_state ≡ init
  pub count : v.shared.kthread_cur_uthreads ≡ (w.shared.kthread_cur_uthreads + 1) % 2 ^ 32
  pub frame : (x : ℕ) → p ≢ x → v.heap x ≡ w.heap x
  pub current : now.krunqueue.cur_uthread ≡ k.krunqueue.cur_uthread
  pub others :
      (s : ℕ) (b : KthreadContext lib.Tree)
      → v.kthread_cpu_map s ≡ some b
      → t ≢ s
      → (a : KthreadContext lib.Tree) × (w.kthread_cpu_map s ≡ some a) × (b.krunqueue ≡ a.krunqueue)
  pub total : v.shared.kthread_tot_uthreads ≡ (w.shared.kthread_tot_uthreads + 1) % 2 ^ 32
  pub masters :
      (s : ℕ) (a : KthreadContext lib.Tree)
      → w.kthread_cpu_map s ≡ some a
      → (b : KthreadContext lib.Tree) × (v.kthread_cpu_map s ≡ some b)
        × (b.master_thread ≡ a.master_thread)
