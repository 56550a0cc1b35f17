-- ===== src/Scheduler/Requeue.antt =====
-- Queueing a thread again: what requeue and enqueue do to the run queue and to memory.
use cfs_userspace.Prelude.{
  ℕ, ◌≡◌, ◌≢◌, refl, sym, ap, ◌∙◌, All, store_self, store_other, insert_by, subst,
}
use mathlib.Core.Path.{fun_ext}
use cfs_userspace.Uthread.{Uthread, runnable, in_schedule}
use cfs_userspace.RbLibrary.{RbLibrary}
use cfs_userspace.CfsRunqueue.{
  Queued, threads, vruntime_of, add_to_cfs_runqueue, heap-add, set_node, set_node_same,
  set_node_other, compare_virtual_runtimes,
}
use cfs_userspace.CfsRunqueue.Invariant.{IsRunqueue}
use cfs_userspace.CfsRunqueue.Adding.{threads-add, add-IsRunqueue}
use cfs_userspace.KthreadRunqueue.{add_to_runqueue_lem}
use cfs_userspace.Spinlock.{Spinlock}
use cfs_userspace.Kthread.{Cpu, KthreadContext}
use cfs_userspace.Scheduler.{write_uthread, enqueue, requeue}
use cfs_userspace.Scheduler.Queue.{
  queue_of, ready_threads, SameThread, same-IsRunqueue, outside-same, All-same, write-same,
}

-- The queue that requeueing thread `p` gives.
pub record Requeued (lib : RbLibrary) (c : Cpu lib.Tree) (p : ℕ) (d : Cpu lib.Tree) : Type 0 where
  pub order : ready_threads lib d ≡ insert_by (vruntime_of c.heap) p (ready_threads lib c)
  pub kept : IsRunqueue lib (queue_of d)
  pub same :
      (q : ℕ) → ((d.heap q).vruntime ≡ (c.heap q).vruntime) × ((d.heap q).nice ≡ (c.heap q).nice)
  pub frame : (q : ℕ) → p ≢ q → d.heap q ≡ c.heap q
  pub current : d.k_ctx.krunqueue.cur_uthread ≡ c.k_ctx.krunqueue.cur_uthread
  pub state : (d.heap p).uthread_state ≡ runnable
  pub saved : (d.heap p).uthread_env ≡ in_schedule
  pub shared : d.shared ≡ c.shared

-- Queueing a thread is add_to_cfs_runqueue on the own run queue, and touches nothing else.
pub enqueue_lem :
    (lib : RbLibrary) (c : Cpu lib.Tree) (p : ℕ)
    → (queue_of (enqueue lib c p) ≡ add_to_cfs_runqueue lib (queue_of c) p)
      × ((enqueue lib c p).k_ctx.krunqueue.cur_uthread ≡ c.k_ctx.krunqueue.cur_uthread)
      × ((enqueue lib c p).shared ≡ c.shared)
unfolding enqueue
enqueue_lem lib c p = (
  ap (λ (r : Queued lib.Tree × Spinlock). r.0)
      (add_to_runqueue_lem lib (queue_of c) c.k_ctx.krunqueue.kthread_runqlock p),
  refl,
  refl,
)

module _ (lib : RbLibrary) (c : Cpu lib.Tree) (p : ℕ) (inv : IsRunqueue lib (queue_of c))
    (new : All (λ q. p ≢ q) (ready_threads lib c)) where
  -- The state before and after the call of add_to_runqueue.
  woken : Cpu lib.Tree
  woken = write_uthread c p (record (c.heap p) { uthread_state = runnable })

  added : Cpu lib.Tree
  added = enqueue lib woken p

  woken_same : (q : ℕ) → SameThread c.heap woken.heap q
  unfolding woken
  woken_same = write-same c.heap p _ refl refl refl

  woken-IsRunqueue : IsRunqueue lib (queue_of woken)
  unfolding woken
  woken-IsRunqueue =
      same-IsRunqueue lib c.k_ctx.krunqueue.runqueue c.heap _ (outside-same c.heap p _ _ new) inv

  woken_threads : ready_threads lib woken ≡ ready_threads lib c
  unfolding woken
  woken_threads = refl

  added_queue : queue_of added ≡ add_to_cfs_runqueue lib (queue_of woken) p
  unfolding added
  added_queue = (enqueue_lem lib woken p).0

  added_current : added.k_ctx.krunqueue.cur_uthread ≡ c.k_ctx.krunqueue.cur_uthread
  unfolding added woken
  added_current =
      (enqueue_lem lib (write_uthread c p (record (c.heap p) { uthread_state = runnable })) p).1

  added-IsRunqueue : IsRunqueue lib (queue_of added)
  added-IsRunqueue =
      rw added_queue (add-IsRunqueue lib (queue_of woken) p woken-IsRunqueue (rw woken_threads new))

  added_order : ready_threads lib added ≡ insert_by (vruntime_of c.heap) p (ready_threads lib c)
  added_order =
      ap (λ (s : Queued lib.Tree). threads lib s.rq.tree) added_queue
      ∙ threads-add lib (queue_of woken) p woken-IsRunqueue (rw woken_threads new)
      ∙ rw woken_threads
          (ap (λ rank. insert_by rank p (ready_threads lib c)) (fun_ext (λ q. (woken_same q).0)))

  added_same :
      (q : ℕ)
      → ((added.heap q).vruntime ≡ (c.heap q).vruntime) × ((added.heap q).nice ≡ (c.heap q).nice)
  added_same q =
      let node =
        lib.inserted_node (compare_virtual_runtimes woken.heap) woken.k_ctx.krunqueue.runqueue.tree
          p p in
      let linked = set_node_same woken.heap p node q in
      let heap : added.heap ≡ set_node woken.heap p node =
        ap (λ (s : Queued lib.Tree). s.heap) added_queue ∙ heap-add lib (queue_of woken) p in
      rw heap (linked.0 ∙ (woken_same q).0, linked.1 ∙ (woken_same q).2)

  added_frame : (q : ℕ) → p ≢ q → added.heap q ≡ c.heap q
  unfolding woken
  added_frame q ne =
      let node =
        lib.inserted_node (compare_virtual_runtimes woken.heap) woken.k_ctx.krunqueue.runqueue.tree
          p p in
      let heap : added.heap ≡ set_node woken.heap p node =
        ap (λ (s : Queued lib.Tree). s.heap) added_queue ∙ heap-add lib (queue_of woken) p in
      ap (λ f. f q) heap ∙ set_node_other woken.heap p node q ne ∙ store_other c.heap p q _ ne

  saved_frame : (q : ℕ) → p ≢ q → (requeue lib c p).heap q ≡ added.heap q
  unfolding requeue added woken
  saved_frame q ne = store_other added.heap p q _ ne

  saved_state : ((requeue lib c p).heap p).uthread_state ≡ (added.heap p).uthread_state
  unfolding requeue added woken
  saved_state = ap (λ (u : Uthread). u.uthread_state) (store_self added.heap p _)

  saved_env : ((requeue lib c p).heap p).uthread_env ≡ in_schedule
  unfolding requeue added woken
  saved_env = ap (λ (u : Uthread). u.uthread_env) (store_self added.heap p _)

  woken_state : (woken.heap p).uthread_state ≡ runnable
  unfolding woken
  woken_state = ap (λ (u : Uthread). u.uthread_state) (store_self c.heap p _)

  added_state : (added.heap p).uthread_state ≡ runnable
  added_state =
      let node =
        lib.inserted_node (compare_virtual_runtimes woken.heap) woken.k_ctx.krunqueue.runqueue.tree
          p p in
      let heap : added.heap ≡ set_node woken.heap p node =
        ap (λ (s : Queued lib.Tree). s.heap) added_queue ∙ heap-add lib (queue_of woken) p in
      ap (λ f. (f p).uthread_state) heap ∙ ((set_node_same woken.heap p node p).2 ∙ woken_state)

  saved_same : (q : ℕ) → SameThread added.heap (requeue lib c p).heap q
  unfolding requeue added woken
  saved_same = write-same added.heap p _ refl refl refl

  requeue_queue : (requeue lib c p).k_ctx ≡ added.k_ctx
  unfolding requeue added woken
  requeue_queue = refl

  requeue_shared : (requeue lib c p).shared ≡ c.shared
  unfolding requeue enqueue
  requeue_shared = refl

  -- A requeued thread stands in the order of its virtual run time; the queue stays a queue.
  pub requeue_lem : Requeued lib c p (requeue lib c p)
  requeue_lem = record {
    saved = saved_env;
    order =
        ap (λ (k : KthreadContext lib.Tree). threads lib k.krunqueue.runqueue.tree) requeue_queue
        ∙ added_order;
    kept =
        subst (IsRunqueue lib)
          (ap
            (λ (k : KthreadContext lib.Tree). record {
              heap = (requeue lib c p).heap;
              rq = k.krunqueue.runqueue;
            })
            (sym requeue_queue))
          (same-IsRunqueue lib added.k_ctx.krunqueue.runqueue added.heap (requeue lib c p).heap
            (All-same added.heap (requeue lib c p).heap _ saved_same) added-IsRunqueue);
    same = λ q. ((saved_same q).0 ∙ (added_same q).0, (saved_same q).2 ∙ (added_same q).1);
    frame = λ q ne. saved_frame q ne ∙ added_frame q ne;
    current =
        ap (λ (k : KthreadContext lib.Tree). k.krunqueue.cur_uthread) requeue_queue ∙ added_current;
    state = saved_state ∙ added_state;
    shared = requeue_shared;
  }
