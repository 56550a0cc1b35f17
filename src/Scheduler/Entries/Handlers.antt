-- ===== src/Scheduler/Entries/Handlers.antt =====
-- About gt_yield, the timer handler and the end of a thread.
use cfs_userspace.Prelude.{
  none, null_dereference, ℕ, ◌+◌, ◌≡◌, ◌≢◌, ◌≤◌, ◌<◌, ◌^◌, refl, ap, ◌∙◌, List, [], ◌∷◌, ◌++◌,
  Option, some, none, Exec, ok, fault, assert_failed, ◌>>=◌, arith, store, store_self, length,
  insert_by, last_from, deref, false, inl,
}
use cfs_userspace.Uthread.{Uthread, UthreadState, running, yield, done, is_state, SavedContext}
use cfs_userspace.RbLibrary.{RbLibrary}
use cfs_userspace.CfsRunqueue.{vruntime_of}
use cfs_userspace.Kthread.{Cpu}
use cfs_userspace.Accounting.Slices.{max_sharing}
use cfs_userspace.Scheduler.{InitCalls, Clock, Jump, to_uthread, write_uthread, set_timer, disturb}
use cfs_userspace.Scheduler.Queue.{ready_threads, same-IsRunqueue, outside-same}
use cfs_userspace.Scheduler.Choosing.{CallsSucceed}
use cfs_userspace.Scheduler.Switch.{Switched}
use cfs_userspace.Scheduler.Pass.{IsCpu, Reaches}
use cfs_userspace.Scheduler.Passes.{charged, put_past, schedule_preempts, schedule_yields}
use cfs_userspace.Scheduler.Endings.{schedule_done}
use cfs_userspace.Scheduler.Entries.{gt_yield, yield_uthread, ksched_priority, context_func_finish}

-- The running thread with another state.
abbrev pub with_state : {Tree : Type 0} → Cpu Tree → ℕ → UthreadState → Cpu Tree
with_state c p st = write_uthread c p (record (c.heap p) { uthread_state = st })

pub with_state-IsCpu :
    (lib : RbLibrary) (c : Cpu lib.Tree) (p : ℕ) (st : UthreadState)
    → IsCpu lib c
    → c.k_ctx.krunqueue.cur_uthread ≡ some p
    → IsCpu lib (with_state c p st)
with_state-IsCpu lib c p st cpu cur = record {
  kept =
      same-IsRunqueue lib c.k_ctx.krunqueue.runqueue c.heap _
        (outside-same c.heap p _ _ (cpu.away p cur)) cpu.kept;
  away = cpu.away;
}

pub state_lem :
    (h : ℕ → Uthread) (p : ℕ) (u : Uthread) (st : UthreadState)
    → u.uthread_state ≡ st
    → (store h p u p).uthread_state ≡ st
state_lem h p u st e = ap (λ (v : Uthread). v.uthread_state) (store_self h p u) ∙ e

-- Let thread p run on a kernel thread whose run queue is well formed and does not hold p, let the
-- queue be q and then qs, at most 2147482 threads in all, let the virtual run time of the last one
-- plus one fit into 64 bits, and let the system calls of uthread_init succeed. Then gt_yield jumps
-- to q, with qs and then p left queued, p one past the virtual run time of the last thread.
pub gt_yield_lem :
    (lib : RbLibrary) (os : InitCalls) (clock : Clock) (c : Cpu lib.Tree) (p q : ℕ) (qs : List ℕ)
    → IsCpu lib c
    → c.k_ctx.krunqueue.cur_uthread ≡ some p
    → (c.heap p).uthread_state ≡ running
    → ready_threads lib c ≡ q ∷ qs
    → (c.heap (last_from q qs)).vruntime + 1 < 2 ^ 64
    → CallsSucceed os
    → length (ready_threads lib c) + 1 ≤ max_sharing
    → (j : SavedContext) × (e : Cpu lib.Tree) × (gt_yield lib os clock c ≡ ok (to_uthread q j, e))
      × Switched lib
          (put_past (with_state c p yield).heap p (last_from q qs))
          q
          (qs ++ p ∷ [])
          clock.entering
          e
unfolding gt_yield yield_uthread Reaches store
gt_yield_lem lib os clock c p q qs cpu cur st order fits good few =
    let (j, e, run, sw) =
      schedule_yields lib os clock (with_state c p yield) p q qs
        (with_state-IsCpu lib c p yield cpu cur) cur (state_lem c.heap p _ yield refl) order
        (ground (arith, fits)) good few in
    (j, e, ap (λ o. deref o >>= yield_uthread lib os clock c) cur ∙ rw st run, sw)

-- If the current thread is not in the state running, gt_yield fails its assertion.
pub gt_yield-assertion :
    (lib : RbLibrary) (os : InitCalls) (clock : Clock) (c : Cpu lib.Tree) (p : ℕ)
    → c.k_ctx.krunqueue.cur_uthread ≡ some p
    → is_state (c.heap p).uthread_state running ≡ false
    → gt_yield lib os clock c ≡ fault assert_failed
unfolding gt_yield yield_uthread
gt_yield-assertion lib os clock c p cur other = rw (cur, other)

pub gt_yield-null :
    (lib : RbLibrary) (os : InitCalls) (clock : Clock) (c : Cpu lib.Tree)
    → c.k_ctx.krunqueue.cur_uthread ≡ none
    → gt_yield lib os clock c ≡ fault null_dereference
unfolding gt_yield
gt_yield-null lib os clock c off = rw off

-- The end of the handler, with the result of the scheduler.
preempted : {Tree : Type 0} → Exec (Jump × Cpu Tree) → Exec (Option Jump × Cpu Tree)
preempted m = m >>= λ (jump, d). ok (some jump, d)

-- Let thread p run on a kernel thread whose run queue is well formed and does not hold p, with at
-- most 2147482 threads queued, and let the system calls of uthread_init succeed. If do_not_disturb
-- is set, ksched_priority returns and changes nothing. If it is 0, p is charged and inserted into
-- the queue by its virtual run time, and the handler jumps to the head of that queue, with the
-- others left queued.
pub ksched_priority_lem :
    (lib : RbLibrary) (os : InitCalls) (clock : Clock) (c : Cpu lib.Tree) (p : ℕ)
    → IsCpu lib c
    → c.k_ctx.krunqueue.cur_uthread ≡ some p
    → (c.heap p).uthread_state ≡ running
    → CallsSucceed os
    → length (ready_threads lib c) + 1 ≤ max_sharing
    → (c.k_ctx.do_not_disturb ≢ 0 → ksched_priority lib os clock c ≡ ok (none, c))
      × (c.k_ctx.do_not_disturb ≡ 0
          → (q : ℕ) × (rest : List ℕ) × (j : SavedContext) × (e : Cpu lib.Tree) × (insert_by
                (vruntime_of (charged c.heap p clock.leaving))
                p
                (ready_threads lib c)
              ≡ q ∷ rest)
            × (ksched_priority lib os clock c ≡ ok (some (to_uthread q j), e))
            × Switched lib (charged c.heap p clock.leaving) q rest clock.entering e)
unfolding ksched_priority Reaches preempted
ksched_priority_lem lib os clock c p cpu cur st good few =
    let entered = disturb (set_timer c 0) 1 in
    let (q, rest, order, j, e, run, sw, again) =
      schedule_preempts lib os clock entered p (record { kept = cpu.kept; away = cpu.away }) cur st
        good few in
    (λ busy. ground (arith, busy), λ idle. (q, rest, j, e, order, rw idle (ap preempted run), sw))

-- Let thread p be the current one on a kernel thread whose run queue is well formed and does not
-- hold p, let the queue be q and then rest, at most 2147482 threads in rest, and let the system
-- calls of uthread_init succeed. When the function of p has returned, uthread_context_func marks p
-- as done, charges it, and jumps to q, with rest left queued.
pub context_func_finish_lem :
    (lib : RbLibrary) (os : InitCalls) (clock : Clock) (c : Cpu lib.Tree) (p q : ℕ) (rest : List ℕ)
    → IsCpu lib c
    → c.k_ctx.krunqueue.cur_uthread ≡ some p
    → ready_threads lib c ≡ q ∷ rest
    → CallsSucceed os
    → length rest + 1 ≤ max_sharing
    → (j : SavedContext) × (e : Cpu lib.Tree) × (context_func_finish lib os clock c p
        ≡ ok (to_uthread q j, e))
      × Switched lib (charged (with_state c p done).heap p clock.leaving) q rest clock.entering e
unfolding context_func_finish Reaches
context_func_finish_lem lib os clock c p q rest cpu cur order good few =
    let d = with_state (disturb (set_timer c 0) 1) p done in
    let (j, e, run, sw) =
      schedule_done lib os clock d p
        (with_state-IsCpu lib (disturb (set_timer c 0) 1) p done
          (record { kept = cpu.kept; away = cpu.away }) cur)
        cur (inl (state_lem c.heap p _ done refl)) q rest order good few in
    (j, e, run, sw)
