-- ===== src/Creation/Posting.antt =====
-- About uthread_create in gt_uthread.c from the allocation of the stack on, when there is one.
use cfs_userspace.Prelude.{
  ℕ, ◌≡◌, ◌≢◌, ◌<◌, refl, sym, ap, ◌∙◌, subst, some, ok, success, All, store, store_self,
  store_other, insert_by,
}
use cfs_userspace.Uthread.{Uthread, init}
use cfs_userspace.RbLibrary.{RbLibrary}
use cfs_userspace.CfsRunqueue.{
  Queued, threads, vruntime_of, vruntime_of-set_node, set_node_other, set_node_same, set_node_at,
  compare_virtual_runtimes, add_to_cfs_runqueue, heap-add,
}
use cfs_userspace.CfsRunqueue.Invariant.{IsRunqueue}
use cfs_userspace.CfsRunqueue.Adding.{threads-add, add-IsRunqueue}
use cfs_userspace.KthreadRunqueue.{KthreadRunqueue, add_to_runqueue_lem}
use cfs_userspace.KthreadRunqueue.{default_nice_value}
use cfs_userspace.Kthread.{World, KthreadContext, put_uthread, count_thread}
use cfs_userspace.Scheduler.Queue.{same-IsRunqueue, outside-same}
use cfs_userspace.Creation.Failures.{nonzero}
use cfs_userspace.Target.{ksched_find_target}
use cfs_userspace.Target.Turns.{ksched_find_target_lem, targeted}
use cfs_userspace.Creation.{Request, finish_create, with_stack}
use cfs_userspace.Creation.Queued.{
  mapped_twice, mapped_others, store_masters, IsCreated, IsFresh, QueuedOn,
}

module _ (lib : RbLibrary) (w : World lib.Tree) (r : Request) (u : Uthread) where
  numbered : World lib.Tree
  numbered =
      put_uthread (record w { shared = count_thread w.shared }) r.u_new
        (record (with_stack u r.ss_sp) { uthread_tid = w.shared.kthread_tot_uthreads })

  module _ (t : ℕ) (kt : KthreadContext lib.Tree)
      (inv : IsRunqueue lib (record { heap = w.heap; rq = kt.krunqueue.runqueue }))
      (away : All (λ q. r.u_new ≢ q) (threads lib kt.krunqueue.runqueue.tree)) where
    ready : Queued lib.Tree
    ready = record { heap = (targeted numbered r.u_new t kt).heap; rq = kt.krunqueue.runqueue }

    ready-IsRunqueue : IsRunqueue lib ready
    unfolding ready numbered
    ready-IsRunqueue =
        let rq = kt.krunqueue.runqueue in
        let first =
          outside-same w.heap r.u_new
            (record (with_stack u r.ss_sp) { uthread_tid = w.shared.kthread_tot_uthreads }) _
            away in
        same-IsRunqueue lib rq numbered.heap _ (outside-same numbered.heap r.u_new _ _ away)
          (same-IsRunqueue lib rq w.heap numbered.heap first inv)

    ready_rank : (ready.heap r.u_new).vruntime ≡ u.vruntime
    unfolding ready numbered
    ready_rank =
        ap (λ (x : Uthread). x.vruntime) (store_self numbered.heap r.u_new _)
        ∙ ap (λ (x : Uthread). x.vruntime) (store_self w.heap r.u_new _)

    ready_state : (ready.heap r.u_new).uthread_state ≡ u.uthread_state
    unfolding ready numbered
    ready_state =
        ap (λ (x : Uthread). x.uthread_state) (store_self numbered.heap r.u_new _)
        ∙ ap (λ (x : Uthread). x.uthread_state) (store_self w.heap r.u_new _)

    ready_tree : ready.rq ≡ kt.krunqueue.runqueue
    unfolding ready
    ready_tree = refl

    posted : Queued lib.Tree
    posted = add_to_cfs_runqueue lib ready r.u_new

    posted_ranks : vruntime_of posted.heap ≡ vruntime_of ready.heap
    unfolding posted
    posted_ranks =
        ap vruntime_of (heap-add lib ready r.u_new) ∙ vruntime_of-set_node ready.heap r.u_new _

    posted_state : (posted.heap r.u_new).uthread_state ≡ u.uthread_state
    unfolding posted
    posted_state =
        ap (λ f. (f r.u_new).uthread_state) (heap-add lib ready r.u_new)
        ∙ ((set_node_same ready.heap r.u_new _ r.u_new).2 ∙ ready_state)

    -- The new thread, with the id and the stack, on the processor that was found.
    ready_uthread :
        ready.heap r.u_new
        ≡ record (record (with_stack u r.ss_sp) { uthread_tid = w.shared.kthread_tot_uthreads }) {
          cpu_id = kt.cpuid;
          last_cpu_id = kt.cpuid;
        }
    unfolding ready numbered
    ready_uthread =
        store_self numbered.heap r.u_new _
        ∙ ap (λ (x : Uthread). record x { cpu_id = kt.cpuid; last_cpu_id = kt.cpuid })
            (store_self w.heap r.u_new _)

    posted-IsCreated :
        u.uthread_func ≡ r.u_func
        → u.uthread_arg ≡ r.u_arg
        → u.uthread_gid ≡ r.u_gid
        → u.nice ≡ default_nice_value
        → u.uthread_state ≡ init
        → IsCreated r w.shared.kthread_tot_uthreads (posted.heap r.u_new)
    unfolding posted
    posted-IsCreated func arg group nice new =
        let node =
          lib.inserted_node (compare_virtual_runtimes ready.heap) ready.rq.tree r.u_new r.u_new in
        let linked =
          ap (λ f. f r.u_new) (heap-add lib ready r.u_new) ∙ set_node_at ready.heap r.u_new node in
        let whole = linked ∙ ap (λ (x : Uthread). record x { node = node }) ready_uthread in
        subst (IsCreated r w.shared.kthread_tot_uthreads) (sym whole) (record {
          id = refl;
          func = func;
          arg = arg;
          group = group;
          nice = nice;
          stack = refl;
          state = new;
        })

    posted-IsRunqueue : IsRunqueue lib posted
    unfolding posted
    posted-IsRunqueue = add-IsRunqueue lib ready r.u_new ready-IsRunqueue (rw ready_tree away)

    posted_order :
        threads lib posted.rq.tree
        ≡ insert_by (vruntime_of posted.heap) r.u_new (threads lib kt.krunqueue.runqueue.tree)
    unfolding posted ready
    posted_order =
        threads-add lib ready r.u_new ready-IsRunqueue away
        ∙ ap (λ rank. insert_by rank r.u_new (threads lib kt.krunqueue.runqueue.tree))
            (sym posted_ranks)

    posted_frame : (x : ℕ) → r.u_new ≢ x → posted.heap x ≡ w.heap x
    unfolding posted ready numbered
    posted_frame x other =
        ap (λ f. f x) (heap-add lib ready r.u_new)
        ∙ (set_node_other ready.heap r.u_new _ x other
            ∙ (store_other numbered.heap r.u_new x _ other ∙ store_other w.heap r.u_new x _ other))

    posted_context : KthreadContext lib.Tree
    posted_context = record kt {
      krunqueue = record kt.krunqueue {
        runqueue = posted.rq;
        kthread_runqlock = record { locked = 0; holder = 0x02 };
      };
    }

    -- The state that finish_create leaves on processor `cpu`, which has the context x then.
    resumed : (cpu : ℕ) (x : KthreadContext lib.Tree) → World lib.Tree
    resumed cpu x = record (targeted numbered r.u_new t kt) {
      heap = posted.heap;
      kthread_cpu_map =
          store (store w.kthread_cpu_map t (some posted_context)) cpu
            (some (record x { do_not_disturb = 0 }));
    }

    posted_run :
        (cpu : ℕ) (x : KthreadContext lib.Tree)
        → r.ss_sp ≢ 0
        → w.kthread_cpu_map t ≡ some kt
        → ksched_find_target numbered r.u_new ≡ ok (t, targeted numbered r.u_new t kt)
        → store w.kthread_cpu_map t (some posted_context) cpu ≡ some x
        → finish_create lib w cpu r u
          ≡ ok (
            record {
              status = success;
              u_tid = some w.shared.kthread_tot_uthreads;
              notified = some kt.tid;
            },
            resumed cpu x,
          )
    unfolding finish_create numbered ready posted posted_context resumed
    posted_run cpu x stack at_t found at_cpu = rw (
      nonzero r.ss_sp stack,
      found,
      at_t,
      add_to_runqueue_lem lib
          (record { heap = (targeted numbered r.u_new t kt).heap; rq = kt.krunqueue.runqueue })
          kt.krunqueue.kthread_runqlock r.u_new,
      at_cpu,
    )

  pub finish_create_lem :
      (cpu : ℕ) (kc : KthreadContext lib.Tree)
      → w.kthread_cpu_map cpu ≡ some kc
      → cpu < 16
      → u.uthread_gid < 32
      → r.ss_sp ≢ 0
      → u.uthread_state ≡ init
      → u.uthread_func ≡ r.u_func
      → u.uthread_arg ≡ r.u_arg
      → u.uthread_gid ≡ r.u_gid
      → u.nice ≡ default_nice_value
      → IsFresh lib w r.u_new
      → (t : ℕ) × (kt : KthreadContext lib.Tree) × (v : World lib.Tree) × (finish_create lib w cpu r
            u
          ≡ ok (
            record {
              status = success;
              u_tid = some w.shared.kthread_tot_uthreads;
              notified = some kt.tid;
            },
            v,
          ))
        × IsCreated r w.shared.kthread_tot_uthreads (v.heap r.u_new)
        × QueuedOn lib w v r.u_new u.vruntime t kt
  unfolding IsFresh numbered ready posted posted_context resumed
  finish_create_lem cpu kc here range group stack new func arg gid' nice fresh =
      let gid : (numbered.heap r.u_new).uthread_gid ≡ u.uthread_gid =
        ap (λ (x : Uthread). x.uthread_gid) (store_self w.heap r.u_new _) in
      let (t, kt, at_t, found, near) =
        ksched_find_target_lem numbered r.u_new cpu kc (subst (λ g. g < 32) (sym gid) group) range
          here in
      let (inv, away) = fresh t kt at_t in
      let k = posted_context t kt inv away in
      let (x, y, at_cpu, again, same) = mapped_twice w.kthread_cpu_map t cpu k kc here in
      (
        t,
        kt,
        resumed t kt inv away cpu x,
        posted_run t kt inv away cpu x stack at_t found at_cpu,
        posted-IsCreated t kt inv away func arg gid' nice new,
        record {
          now = y;
          before = at_t;
          mapped = again;
          order = rw same (posted_order t kt inv away);
          kept = rw same (posted-IsRunqueue t kt inv away);
          rank = ap (λ f. f r.u_new) (posted_ranks t kt inv away) ∙ ready_rank t kt inv away;
          state = posted_state t kt inv away ∙ new;
          count = refl;
          frame = posted_frame t kt inv away;
          current = ap (λ (q : KthreadRunqueue lib.Tree). q.cur_uthread) same;
          others = mapped_others w.kthread_cpu_map t cpu k x at_cpu;
          total = refl;
          masters = λ s a at_s.
              let (b, at_b, one) = store_masters w.kthread_cpu_map t kt k at_t refl s a at_s in
              let (b', at_b', two) =
                store_masters (store w.kthread_cpu_map t (some k)) cpu x
                  (record x { do_not_disturb = 0 }) at_cpu refl s b at_b in
              (b', at_b', two ∙ one);
        },
      )
