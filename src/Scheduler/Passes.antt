-- ===== src/Scheduler/Passes.antt =====
-- About uthread_schedule in gt_uthread.c, for a thread that is preempted or yields.
use cfs_userspace.Prelude.{
  append-nil, ℕ, ◌+◌, ◌≡◌, ◌≢◌, ◌≤◌, ◌<◌, ◌^◌, ap, ◌∙◌, List, [], ◌∷◌, ◌++◌, some, none, ok, All,
  arith, All-zip, length-append, get_last?, store, subst, length, insert_by, insert_by-place,
  insert_by-cons, SortedBy-last, last_from, SortedBy,
}
use cfs_userspace.Uthread.{Uthread, Timeval, SavedContext, running, yield}
use cfs_userspace.RbLibrary.{RbLibrary}
use cfs_userspace.CfsRunqueue.{vruntime_of}
use cfs_userspace.CfsRunqueue.Invariant.{IsRunqueue}
use cfs_userspace.Accounting.Runtime.{update_vruntime_to_max_lem}
use cfs_userspace.Kthread.{Cpu}
use cfs_userspace.Accounting.{update_vruntime}
use cfs_userspace.Accounting.Slices.{max_sharing}
use cfs_userspace.Scheduler.{
  InitCalls, Clock, set_cur, charge, requeue, requeue_last, put_back, leave,
}
use cfs_userspace.Scheduler.Queue.{queue_of, ready_threads, same-IsRunqueue, outside-same}
use cfs_userspace.Scheduler.Choosing.{CallsSucceed}
use cfs_userspace.Scheduler.Pass.{
  IsCpu, entry, Reaches, pass-requeue, pass-requeue_framed, Resumable,
}
use cfs_userspace.Scheduler.Switch.{Switched}
use cfs_userspace.KthreadRunqueue.{sched_find_best_uthread}
use cfs_userspace.Scheduler.{uthread_schedule, to_uthread}

-- Memory once the time of thread `p` until `now` is accounted.
abbrev pub charged : (ℕ → Uthread) → ℕ → Timeval → ℕ → Uthread
charged h p now = store h p (update_vruntime (h p) now)

-- Let thread p run on a kernel thread whose run queue is well formed and does not hold p, with at
-- most 2147482 threads queued, and let the system calls of uthread_init succeed. Then
-- uthread_schedule charges p the time since it entered the CPU and inserts it into the queue by
-- its virtual run time, behind those of its rank; it jumps to the head q of that queue, with the
-- others left queued, q marked as running and as entered now, timers allowed, and the timer set to
-- a slice that is fair if the nice value of q is not negative. If q is not p, p is left runnable,
-- and goes on behind the sigsetjmp of uthread_schedule.
pub schedule_preempts :
    (lib : RbLibrary) (os : InitCalls) (clock : Clock) (c : Cpu lib.Tree) (p : ℕ)
    → IsCpu lib c
    → c.k_ctx.krunqueue.cur_uthread ≡ some p
    → (c.heap p).uthread_state ≡ running
    → CallsSucceed os
    → length (ready_threads lib c) + 1 ≤ max_sharing
    → (q : ℕ) × (rest : List ℕ) × (insert_by
          (vruntime_of (charged c.heap p clock.leaving))
          p
          (ready_threads lib c)
        ≡ q ∷ rest)
      × (j : SavedContext) × (e : Cpu lib.Tree) × (uthread_schedule lib
            (sched_find_best_uthread lib)
            os
            clock
            c
          ≡ ok (to_uthread q j, e))
      × Switched lib (charged c.heap p clock.leaving) q rest clock.entering e
      × (q ≢ p → Resumable (e.heap p))
unfolding charge leave put_back
schedule_preempts lib os clock c p cpu cur st good few =
    let before = charge (set_cur (entry c) none) p clock.leaving in
    let (q, rest, order, n) = insert_by-cons (vruntime_of before.heap) p (ready_threads lib c) in
    let inv =
      same-IsRunqueue lib c.k_ctx.krunqueue.runqueue c.heap before.heap
        (outside-same c.heap p _ _ (cpu.away p cur)) cpu.kept in
    let (j, e, run, sw, again) =
      pass-requeue_framed lib os clock c before p q rest good (rw n few) inv (cpu.away p cur)
        (rw (cur, st)) order in
    (q, rest, order, j, e, run, sw, again)

-- Memory once thread `p` stands one past the virtual run time of thread `m`.
abbrev pub put_past : (ℕ → Uthread) → ℕ → ℕ → ℕ → Uthread
put_past h p m = store h p (record (h p) { vruntime = (h m).vruntime + 1 })

yield-last :
    (h : ℕ → Uthread) (p q : ℕ) (qs : List ℕ)
    → SortedBy (vruntime_of h) (q ∷ qs)
    → All (λ x. p ≢ x) (q ∷ qs)
    → insert_by (vruntime_of (put_past h p (last_from q qs))) p (q ∷ qs) ≡ q ∷ qs ++ p ∷ []
unfolding store
yield-last h p q qs sorted away =
    let rank = vruntime_of (put_past h p (last_from q qs)) in
    subst (λ l. insert_by rank p l ≡ q ∷ qs ++ p ∷ []) (append-nil (q ∷ qs))
      (insert_by-place rank p (q ∷ qs) []
        (All-zip (λ x le ne. ground (arith, le, ne)) (q ∷ qs)
          (SortedBy-last (vruntime_of h) q qs sorted) away)
        tt)

put_back-yield :
    (lib : RbLibrary) (c : Cpu lib.Tree) (p : ℕ) (now : Timeval)
    → (c.heap p).uthread_state ≡ yield
    → put_back lib c p now ≡ requeue_last lib c p
unfolding put_back
put_back-yield lib c p now st = rw st

requeue_last_lem :
    (lib : RbLibrary) (c : Cpu lib.Tree) (p m : ℕ)
    → IsRunqueue lib (queue_of c)
    → get_last? (ready_threads lib c) ≡ some m
    → (c.heap m).vruntime + 1 < 2 ^ 64
    → requeue_last lib c p ≡ ok (requeue lib (record c { heap = put_past c.heap p m }) p)
unfolding requeue_last
requeue_last_lem lib c p m inv last fits =
    rw (update_vruntime_to_max_lem lib (queue_of c) (c.heap p) m inv last fits)

leave-yield :
    (lib : RbLibrary) (c : Cpu lib.Tree) (p m : ℕ) (now : Timeval)
    → IsRunqueue lib (queue_of c)
    → (c.heap p).uthread_state ≡ yield
    → get_last? (ready_threads lib c) ≡ some m
    → (c.heap m).vruntime + 1 < 2 ^ 64
    → leave lib (entry c) (some p) now
      ≡ ok (requeue lib (record (set_cur (entry c) none) { heap = put_past c.heap p m }) p)
unfolding leave
leave-yield lib c p m now inv st last fits =
    put_back-yield lib (set_cur (entry c) none) p now st
    ∙ requeue_last_lem lib (set_cur (entry c) none) p m inv last fits

-- Let thread p be in the state yield on a kernel thread whose run queue is well formed and does
-- not hold p, let the queue be q and then qs, at most 2147482 threads in all, let the virtual run
-- time of the last one plus one fit into 64 bits, and let the system calls of uthread_init
-- succeed. Then uthread_schedule sets the virtual run time of p to one more than that of the last
-- thread, and jumps to q as after a preemption, with qs and then p left queued.
pub schedule_yields :
    (lib : RbLibrary) (os : InitCalls) (clock : Clock) (c : Cpu lib.Tree) (p q : ℕ) (qs : List ℕ)
    → IsCpu lib c
    → c.k_ctx.krunqueue.cur_uthread ≡ some p
    → (c.heap p).uthread_state ≡ yield
    → ready_threads lib c ≡ q ∷ qs
    → (c.heap (last_from q qs)).vruntime + 1 < 2 ^ 64
    → CallsSucceed os
    → length (ready_threads lib c) + 1 ≤ max_sharing
    → Reaches lib os clock c (put_past c.heap p (last_from q qs)) q (qs ++ p ∷ [])
schedule_yields lib os clock c p q qs cpu cur st order fits good few =
    let h = put_past c.heap p (last_from q qs) in
    let before = record (set_cur (entry c) none) { heap = h } in
    let away = cpu.away p cur in
    let inv =
      same-IsRunqueue lib c.k_ctx.krunqueue.runqueue c.heap h (outside-same c.heap p _ _ away)
        cpu.kept in
    let sorted = subst (SortedBy (vruntime_of c.heap)) order cpu.kept.sorted in
    let last = yield-last c.heap p q qs sorted (subst (All (λ x. p ≢ x)) order away) in
    pass-requeue lib os clock c before p q (qs ++ p ∷ []) good
      (omega (arith, length-append qs (p ∷ []), subst (λ l. length l + 1 ≤ max_sharing) order few))
      inv away
      (ap (λ o. leave lib (entry c) o clock.leaving) cur
        ∙ leave-yield lib c p (last_from q qs) clock.leaving cpu.kept st (ap get_last? order) fits)
      (rw order last)
