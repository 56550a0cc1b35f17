-- ===== src/Scheduler/Switch.antt =====
-- From the choice of a thread to the switch: what uthread_schedule does with the head of the queue.
use cfs_userspace.Prelude.{
  ℕ, false, ◌+◌, ◌≡◌, ◌<◌, ◌≤◌, ◌%◌, ◌^◌, refl, sym, ap, ◌∙◌, List, some, ok, All, arith, store,
  store_self, store_other, subst, length, ◌≢◌,
}
use cfs_userspace.Uthread.{Uthread, Timeval, running, SavedContext}
use cfs_userspace.RbLibrary.{RbLibrary}
use cfs_userspace.CfsRunqueue.{threads}
use cfs_userspace.CfsRunqueue.Invariant.{IsRunqueue}
use cfs_userspace.Kthread.{Cpu, KthreadContext, one_shot}
use cfs_userspace.Signal.{sigvtalrm, kthread_install_sighandler}
use cfs_userspace.Accounting.{get_fair_slice}
use cfs_userspace.Accounting.Slices.{FairSlice, get_fair_slice-total, slice-FairSlice, max_sharing}
use cfs_userspace.Scheduler.{InitCalls, to_uthread, set_cur, initialize_uthread, dispatch}
use cfs_userspace.Scheduler.Queue.{
  queue_of, ready_threads, SameThread, same-IsRunqueue, All-same, write-same,
}
use cfs_userspace.Scheduler.Choosing.{
  SameSignals-trans, Counters, Counters-trans, Chosen, CallsSucceed, Prepared, initialize_lem,
}

-- The state in which uthread_schedule jumps to thread `q`, at time `now`, with `rest` left queued;
-- `h` is memory before the choice.
pub record Switched (lib : RbLibrary) (h : ℕ → Uthread) (q : ℕ) (rest : List ℕ) (now : Timeval)
    (e : Cpu lib.Tree) : Type 0 where
  pub queue : ready_threads lib e ≡ rest
  pub kept : IsRunqueue lib (queue_of e)
  pub away : All (λ p. q ≢ p) rest
  pub current : e.k_ctx.krunqueue.cur_uthread ≡ some q
  pub state : (e.heap q).uthread_state ≡ running
  pub entered : (e.heap q).entry_to_cpu ≡ now
  pub undisturbed : e.k_ctx.do_not_disturb ≡ 0
  pub same : (p : ℕ) → (e.heap p).vruntime ≡ (h p).vruntime
  pub same_nice : (p : ℕ) → (e.heap p).nice ≡ (h p).nice
  pub least : All (λ p. (h q).vruntime ≤ (h p).vruntime) rest
  pub slice : ℕ
  pub fair : (h q).nice < 2 ^ 31 → FairSlice (h q).nice (length rest) slice
  pub timer : e.vtalrm ≡ one_shot slice
  pub handled : e.signals.sa_handler sigvtalrm ≡ e.k_ctx.kthread_sched_timer
  pub let_in : e.signals.blocked sigvtalrm ≡ false

entered_same :
    (h : ℕ → Uthread) (q : ℕ) (now : Timeval) (p : ℕ)
    → SameThread h (store h q (record (h q) { uthread_state = running; entry_to_cpu = now })) p
entered_same h q now = write-same h q _ refl refl refl

length-mod : (n : ℕ) → n + 1 ≤ max_sharing → n % 2 ^ 32 ≡ n
length-mod n h = omega arith

module _ (lib : RbLibrary) (os : InitCalls) (c d : Cpu lib.Tree) (q : ℕ) (rest : List ℕ)
    (now : Timeval) (good : CallsSucceed os) (few : length rest + 1 ≤ max_sharing)
    (w : Chosen lib c q rest d)
    (least : All (λ p. (c.heap q).vruntime ≤ (c.heap p).vruntime) rest) where
  num_threads_lem : d.k_ctx.krunqueue.runqueue.num_threads ≡ length rest
  num_threads_lem = w.kept.counted ∙ rw w.queue (length-mod (length rest) few)

  module _ (e0 : Cpu lib.Tree) (prep : Prepared lib.Tree q (set_cur d (some q)) e0) where
    chosen_uthread : Uthread
    chosen_uthread = record (e0.heap q) { uthread_state = running }

    arrival : ℕ → Uthread
    arrival = store e0.heap q (record (e0.heap q) { uthread_state = running; entry_to_cpu = now })

    arrival_same : (p : ℕ) → SameThread d.heap arrival p
    unfolding arrival
    arrival_same p =
        let a = entered_same e0.heap q now p in
        let b = prep.same p in (a.0 ∙ b.0, a.1 ∙ b.1, a.2 ∙ b.2)

    count : e0.k_ctx.krunqueue.runqueue.num_threads ≡ length rest
    count =
        ap (λ (k : KthreadContext lib.Tree). k.krunqueue.runqueue.num_threads) prep.context
        ∙ num_threads_lem

    arrival-IsRunqueue :
        IsRunqueue lib (record { heap = arrival; rq = e0.k_ctx.krunqueue.runqueue })
    arrival-IsRunqueue =
        subst
          (λ (k : KthreadContext lib.Tree).
            IsRunqueue lib (record { heap = arrival; rq = k.krunqueue.runqueue }))
          (sym prep.context)
          (same-IsRunqueue lib d.k_ctx.krunqueue.runqueue d.heap arrival
            (All-same d.heap arrival _ arrival_same) w.kept)

    Arrived : Type 0
    Arrived =
        (e : Cpu lib.Tree) × (dispatch lib os d q now
          ≡ ok (to_uthread q (e0.heap q).uthread_env, e))
        × Switched lib c.heap q rest now e
        × ((p : ℕ) → q ≢ p → e.heap p ≡ c.heap p)
        × Counters c e

    arrived :
        (slice : ℕ)
        → initialize_uthread os (set_cur d (some q)) q ≡ ok e0
        → get_fair_slice chosen_uthread (length rest) ≡ ok slice
        → ((e0.heap q).nice < 2 ^ 31 → FairSlice (e0.heap q).nice (length rest) slice)
        → Arrived
    unfolding dispatch arrival chosen_uthread Arrived
    arrived slice ran ret fair = (
      record e0 {
        heap = arrival;
        k_ctx = record e0.k_ctx { do_not_disturb = 0 };
        vtalrm = one_shot slice;
        signals = kthread_install_sighandler e0.signals sigvtalrm e0.k_ctx.kthread_sched_timer;
      },
      rw (ran, count, ret),
      record {
        queue =
            ap (λ (k : KthreadContext lib.Tree). threads lib k.krunqueue.runqueue.tree) prep.context
            ∙ w.queue;
        kept = arrival-IsRunqueue;
        away = w.away;
        current = ap (λ (k : KthreadContext lib.Tree). k.krunqueue.cur_uthread) prep.context;
        state = ap (λ (v : Uthread). v.uthread_state) (store_self e0.heap q _);
        entered = ap (λ (v : Uthread). v.entry_to_cpu) (store_self e0.heap q _);
        undisturbed = refl;
        same = λ p. (arrival_same p).0 ∙ (w.same p).0;
        same_nice = λ p. (arrival_same p).2 ∙ (w.same p).1;
        least = least;
        slice = slice;
        fair =
            subst (λ nice. nice < 2 ^ 31 → FairSlice nice (length rest) slice)
              ((prep.same q).2 ∙ (w.same q).1) fair;
        timer = refl;
        handled = store_self e0.signals.sa_handler sigvtalrm _;
        let_in = store_self e0.signals.blocked sigvtalrm false;
      },
      λ p ne. store_other e0.heap q p _ ne ∙ prep.frame p ne ∙ w.frame p ne,
      Counters-trans w.counters (record {
        live = prep.counters.live;
        exits = prep.counters.exits;
        flags = prep.counters.flags;
        sched_timer = prep.counters.sched_timer;
        signals = SameSignals-trans d.signals e0.signals _ prep.counters.signals (record {
          handlers = λ n ne. store_other e0.signals.sa_handler sigvtalrm n _ ne;
          masks = λ n ne two. store_other e0.signals.blocked sigvtalrm n false ne;
        });
      }),
    )

  -- The switch writes to no other thread, and counts none.
  pub dispatch_lem :
      (j : SavedContext) × (e : Cpu lib.Tree) × (dispatch lib os d q now ≡ ok (to_uthread q j, e))
      × Switched lib c.heap q rest now e
      × ((p : ℕ) → q ≢ p → e.heap p ≡ c.heap p)
      × Counters c e
  unfolding Arrived chosen_uthread
  dispatch_lem =
      let (e0, ran, prep) = initialize_lem lib.Tree os (set_cur d (some q)) q good refl in
      let u = chosen_uthread e0 prep in
      let (slice, ret) = get_fair_slice-total u (length rest) few in
      let fair = slice-FairSlice u (length rest) slice few ret in
      let (e, run, sw, frame, counters) = arrived e0 prep slice ran ret fair in
      ((e0.heap q).uthread_env, e, run, sw, frame, counters)
