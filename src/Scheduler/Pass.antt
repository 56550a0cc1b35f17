-- ===== src/Scheduler/Pass.antt =====
-- About one pass of uthread_schedule in gt_uthread.c, once it is known how the thread that ran is put away.
use cfs_userspace.Prelude.{
  some_inj, sym, ℕ, ◌+◌, ◌≡◌, ◌≢◌, ◌<◌, ◌^◌, ◌≤◌, ◌∙◌, List, ◌∷◌, some, ok, All, arith, subst,
  length, insert_by, SortedBy, All-imp,
}
use cfs_userspace.Uthread.{Uthread, Timeval, SavedContext, in_schedule, runnable}
use cfs_userspace.RbLibrary.{RbLibrary}
use cfs_userspace.CfsRunqueue.{vruntime_of}
use cfs_userspace.CfsRunqueue.Invariant.{IsRunqueue}
use cfs_userspace.KthreadRunqueue.{sched_find_best_uthread}
use cfs_userspace.Kthread.{Cpu}
use cfs_userspace.Accounting.Slices.{max_sharing, FairSlice}
use cfs_userspace.Scheduler.{
  InitCalls, Clock, to_uthread, disturb, set_timer, requeue, leave, next_or_idle, uthread_schedule,
}
use cfs_userspace.Scheduler.Queue.{queue_of, ready_threads}
use cfs_userspace.Scheduler.Requeue.{requeue_lem}
use cfs_userspace.Scheduler.Choosing.{Counters, CallsSucceed, choose_lem}
use cfs_userspace.Scheduler.Switch.{dispatch_lem, Switched}

-- Between the passes: the run queue is well formed, and the running thread is not in it.
pub record IsCpu (lib : RbLibrary) (c : Cpu lib.Tree) : Type 0 where
  pub kept : IsRunqueue lib (queue_of c)
  pub away :
      (p : ℕ) → c.k_ctx.krunqueue.cur_uthread ≡ some p → All (λ q. p ≢ q) (ready_threads lib c)

pub Switched-IsCpu :
    (lib : RbLibrary) (h : ℕ → Uthread) (q : ℕ) (rest : List ℕ) (now : Timeval) (e : Cpu lib.Tree)
    → Switched lib h q rest now e
    → IsCpu lib e
Switched-IsCpu lib h q rest now e sw = record {
  kept = sw.kept;
  away = λ p cur.
      let same : q ≡ p = some_inj.0 (sym sw.current ∙ cur) in
      subst (λ x. All (λ y. x ≢ y) (ready_threads lib e)) same
        (subst (All (λ y. q ≢ y)) (sym sw.queue) sw.away);
}

abbrev pub entry : {Tree : Type 0} → Cpu Tree → Cpu Tree
entry c = disturb (set_timer c 0) 1

-- A pass that ends at thread `q`.
unfoldable pub Reaches :
    (lib : RbLibrary) → InitCalls → Clock → Cpu lib.Tree → (ℕ → Uthread) → ℕ → List ℕ → Type 0
Reaches lib os clock c h q rest =
    (j : SavedContext) × (e : Cpu lib.Tree) × (uthread_schedule lib (sched_find_best_uthread lib) os
        clock c
      ≡ ok (to_uthread q j, e))
    × Switched lib h q rest clock.entering e

-- Once the thread that ran is put away, the head of the queue is next, and the only thread written.
pub pass_framed :
    (lib : RbLibrary) (os : InitCalls) (clock : Clock) (c left : Cpu lib.Tree) (q : ℕ)
    (rest : List ℕ)
    → CallsSucceed os
    → length rest + 1 ≤ max_sharing
    → leave lib (entry c) c.k_ctx.krunqueue.cur_uthread clock.leaving ≡ ok left
    → IsRunqueue lib (queue_of left)
    → ready_threads lib left ≡ q ∷ rest
    → (j : SavedContext) × (e : Cpu lib.Tree) × (uthread_schedule lib
          (sched_find_best_uthread lib)
          os
          clock
          c
        ≡ ok (to_uthread q j, e))
      × Switched lib left.heap q rest clock.entering e
      × ((p : ℕ) → q ≢ p → e.heap p ≡ left.heap p)
      × Counters left e
unfolding uthread_schedule next_or_idle
pass_framed lib os clock c left q rest good few away inv order =
    let (d, chose, w) = choose_lem lib left q rest inv order in
    let least = (subst (SortedBy (vruntime_of left.heap)) order inv.sorted).0 in
    let (j, e, run, sw, frame, counters) =
      dispatch_lem lib os left d q rest clock.entering good few w least in
    (j, e, rw (away, chose, run), sw, frame, counters)

pub pass :
    (lib : RbLibrary) (os : InitCalls) (clock : Clock) (c left : Cpu lib.Tree) (q : ℕ)
    (rest : List ℕ)
    → CallsSucceed os
    → length rest + 1 ≤ max_sharing
    → leave lib (entry c) c.k_ctx.krunqueue.cur_uthread clock.leaving ≡ ok left
    → IsRunqueue lib (queue_of left)
    → ready_threads lib left ≡ q ∷ rest
    → Reaches lib os clock c left.heap q rest
unfolding Reaches
pass lib os clock c left q rest good few away inv order =
    let (j, e, run, sw, frame, counters) =
      pass_framed lib os clock c left q rest good few away inv order in
    (j, e, run, sw)

-- The threads have the same virtual run time and nice value.
SameShare : (ℕ → Uthread) → (ℕ → Uthread) → Type 0
SameShare h h' = (p : ℕ) → ((h' p).vruntime ≡ (h p).vruntime) × ((h' p).nice ≡ (h p).nice)

Switched-same :
    (lib : RbLibrary) (h h' : ℕ → Uthread) (q : ℕ) (rest : List ℕ) (now : Timeval)
    (e : Cpu lib.Tree)
    → SameShare h h'
    → Switched lib h' q rest now e
    → Switched lib h q rest now e
unfolding SameShare
Switched-same lib h h' q rest now e same sw = record {
  queue = sw.queue;
  kept = sw.kept;
  away = sw.away;
  current = sw.current;
  state = sw.state;
  entered = sw.entered;
  undisturbed = sw.undisturbed;
  same = λ p. sw.same p ∙ (same p).0;
  same_nice = λ p. sw.same_nice p ∙ (same p).1;
  least = All-imp (λ p le. omega (arith, (same q).0, (same p).0)) rest sw.least;
  slice = sw.slice;
  fair = subst (λ nice. nice < 2 ^ 31 → FairSlice nice (length rest) sw.slice) (same q).1 sw.fair;
  timer = sw.timer;
  handled = sw.handled;
  let_in = sw.let_in;
}

-- The thread waits as uthread_schedule leaves a thread that it queues again: it is runnable, and
-- goes on behind the sigsetjmp there.
abbrev pub Resumable : Uthread → Type 0
Resumable u = (u.uthread_state ≡ runnable) × (u.uthread_env ≡ in_schedule)

-- A pass in which the thread that ran is queued again, and what becomes of it.
pub pass-requeue_framed :
    (lib : RbLibrary) (os : InitCalls) (clock : Clock) (c before : Cpu lib.Tree) (p q : ℕ)
    (rest : List ℕ)
    → CallsSucceed os
    → length rest + 1 ≤ max_sharing
    → IsRunqueue lib (queue_of before)
    → All (λ x. p ≢ x) (ready_threads lib before)
    → leave lib (entry c) c.k_ctx.krunqueue.cur_uthread clock.leaving ≡ ok (requeue lib before p)
    → insert_by (vruntime_of before.heap) p (ready_threads lib before) ≡ q ∷ rest
    → (j : SavedContext) × (e : Cpu lib.Tree) × (uthread_schedule lib
          (sched_find_best_uthread lib)
          os
          clock
          c
        ≡ ok (to_uthread q j, e))
      × Switched lib before.heap q rest clock.entering e
      × (q ≢ p → Resumable (e.heap p))
unfolding SameShare
pass-requeue_framed lib os clock c before p q rest good few inv new left order =
    let back = requeue_lem lib before p inv new in
    let again = requeue lib before p in
    let (j, e, run, sw, frame, counters) =
      pass_framed lib os clock c again q rest good few left back.kept (back.order ∙ order) in
    (
      j,
      e,
      run,
      Switched-same lib before.heap again.heap q rest clock.entering e back.same sw,
      λ ne. subst Resumable (sym (frame p ne)) (back.state, back.saved),
    )

-- A pass in which the thread that ran is queued again.
pub pass-requeue :
    (lib : RbLibrary) (os : InitCalls) (clock : Clock) (c before : Cpu lib.Tree) (p q : ℕ)
    (rest : List ℕ)
    → CallsSucceed os
    → length rest + 1 ≤ max_sharing
    → IsRunqueue lib (queue_of before)
    → All (λ x. p ≢ x) (ready_threads lib before)
    → leave lib (entry c) c.k_ctx.krunqueue.cur_uthread clock.leaving ≡ ok (requeue lib before p)
    → insert_by (vruntime_of before.heap) p (ready_threads lib before) ≡ q ∷ rest
    → Reaches lib os clock c before.heap q rest
unfolding Reaches
pass-requeue lib os clock c before p q rest good few inv new left order =
    let (j, e, run, sw, again) =
      pass-requeue_framed lib os clock c before p q rest good few inv new left order in
    (j, e, run, sw)
