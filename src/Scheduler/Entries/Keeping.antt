-- ===== src/Scheduler/Entries/Keeping.antt =====
-- About the ways into uthread_schedule: a kernel thread stays well formed, and to its own threads.
use cfs_userspace.Prelude.{
  ℕ, some_inj, false, In, ◌+◌, ◌≡◌, ◌≢◌, ◌≤◌, refl, sym, ap, ◌∙◌, subst, Option, none, some, Exec,
  ok, fault, length, deref, ◌>>=◌, Bool-cases, Option-cases, inl, inr,
}
use cfs_userspace.Uthread.{UthreadState, running, yield, done, is_state}
use cfs_userspace.RbLibrary.{RbLibrary}
use cfs_userspace.Kthread.{Cpu}
use cfs_userspace.Accounting.Slices.{max_sharing}
use cfs_userspace.Scheduler.{InitCalls, Clock, Jump, not_zero, write_uthread, disturb, set_timer}
use cfs_userspace.Scheduler.Queue.{ready_threads}
use cfs_userspace.Scheduler.Choosing.{CallsSucceed}
use cfs_userspace.Scheduler.Ownership.{Confined, size, Settled}
use cfs_userspace.Scheduler.Standing.{Standing}
use cfs_userspace.Scheduler.Pass.{IsCpu}
use cfs_userspace.Scheduler.Safety.{Safe, schedule_safe}
use cfs_userspace.Scheduler.Entries.{
  schedule, ksched_priority, gt_yield, yield_uthread, context_func_finish,
}
use cfs_userspace.Scheduler.Entries.Entered.{Entered, same-Entered, marked-Entered}

-- The result is well formed and confined, or there is none, and `Stuck` holds.
abbrev pub Keeps :
    {X : Type 0} (lib : RbLibrary)
    → Cpu lib.Tree
    → (Stuck : Type 0) → Exec (X × Cpu lib.Tree)
    → Type 0
Keeps lib b Stuck (ok (x, e)) =
    IsCpu lib e
    × Confined lib b.heap b.k_ctx e
    × Standing lib e.heap e.k_ctx.krunqueue
    × Settled (size lib b.k_ctx) b.shared.kthread_cur_uthreads (size lib e.k_ctx)
        e.shared.kthread_cur_uthreads
Keeps lib b Stuck (fault f) = Stuck

module _ (lib : RbLibrary) (os : InitCalls) (clock : Clock) (good : CallsSucceed os) (n : ℕ)
    (few : n + 2 ≤ max_sharing) (b : Cpu lib.Tree) (Stuck : Type 0) where
  pub schedule-Keeps :
      (d : Cpu lib.Tree) → Entered lib n b d → Keeps lib b Stuck (schedule lib os clock d)
  unfolding Safe
  schedule-Keeps d entered =
      let (jump, e, run, cpu, own, stands, settled) =
        schedule_safe lib os clock d entered.cpu good (rw entered.few few) in
      rw run (
        cpu,
        record {
          frame = λ x f. own.frame x (entered.own.foreign x f) ∙ entered.own.frame x f;
          foreign = λ x f. own.foreign x (entered.own.foreign x f);
          remains = λ x i. own.remains x (subst (In x) (sym entered.whole) i);
        },
        stands entered.waiting,
        subst
            (λ live.
              Settled (size lib b.k_ctx) live (size lib e.k_ctx) e.shared.kthread_cur_uthreads)
            entered.live
            (subst
              (λ n.
                Settled n d.shared.kthread_cur_uthreads (size lib e.k_ctx)
                  e.shared.kthread_cur_uthreads)
              (ap length entered.whole) settled),
      )

  -- So does the caller of it that notes the jump.
  pub noted-Keeps :
      (m : Exec (Jump × Cpu lib.Tree))
      → Keeps lib b Stuck m
      → Keeps lib b Stuck (m >>= λ (jump, d). ok (some jump, d))
  noted-Keeps (ok (j, e)) keeps = keeps
  noted-Keeps (fault f) keeps = keeps

module _ (lib : RbLibrary) (os : InitCalls) (clock : Clock) (good : CallsSucceed os)
    (c : Cpu lib.Tree) (few : length (ready_threads lib c) + 2 ≤ max_sharing) (cpu : IsCpu lib c)
    (stand : Standing lib c.heap c.k_ctx.krunqueue) (Stuck : Type 0) where
  abbrev n : ℕ
  n = length (ready_threads lib c)

  pub unchanged-Keeps : {X : Type 0} (x : X) → Keeps lib c Stuck (ok (x, c))
  unchanged-Keeps x = (
    cpu,
    record { frame = λ x f. refl; foreign = λ x f. f; remains = λ x i. inl i },
    stand,
    inl (refl, refl),
  )

  pub ksched_priority-Keeps : Keeps lib c Stuck (ksched_priority lib os clock c)
  unfolding ksched_priority
  ksched_priority-Keeps = elim (Bool-cases (not_zero c.k_ctx.do_not_disturb)) [
    | inl busy ↦ rw busy (unchanged-Keeps {X = Option Jump} none)
    | inr idle ↦ rw idle (
        noted-Keeps lib os clock good n few c Stuck _ (
          schedule-Keeps lib os clock good n few c Stuck (disturb (set_timer c 0) 1)
            (same-Entered lib c cpu stand (disturb (set_timer c 0) 1) refl refl refl)))
  ]

  yield_uthread-Keeps :
      (p : ℕ)
      → c.k_ctx.krunqueue.cur_uthread ≡ some p
      → ((c.heap p).uthread_state ≢ running → Stuck)
      → Keeps lib c Stuck (yield_uthread lib os clock c p)
  unfolding yield_uthread
  yield_uthread-Keeps p cur stuck = elim (Bool-cases (is_state (c.heap p).uthread_state running)) [
    | inl runs ↦ rw runs (
        schedule-Keeps lib os clock good n few c Stuck
          (write_uthread c p (record (c.heap p) { uthread_state = yield }))
          (marked-Entered lib c cpu stand p yield
            (write_uthread c p (record (c.heap p) { uthread_state = yield })) cur refl refl refl))
    | inr other ↦ rw other (stuck (λ st. idle_running (subst Idle st other)))
  ]
    where
      Idle : UthreadState → Type 0
      Idle st = is_state st running ≡ false

      idle_running : Idle running → ⊥
      idle_running e = cc

  pub finish-Keeps :
      (p : ℕ)
      → c.k_ctx.krunqueue.cur_uthread ≡ some p
      → Keeps lib c Stuck (context_func_finish lib os clock c p)
  unfolding context_func_finish
  finish-Keeps p cur =
      let d = disturb (set_timer c 0) 1 in
      schedule-Keeps lib os clock good n few c Stuck
        (write_uthread d p (record (d.heap p) { uthread_state = done }))
        (marked-Entered lib c cpu stand p done
          (write_uthread d p (record (d.heap p) { uthread_state = done })) cur refl refl refl)

  -- A call for the current thread, which fails if there is none.
  pub current-Keeps :
      (f : ℕ → Exec (Jump × Cpu lib.Tree))
      → ((p : ℕ) → c.k_ctx.krunqueue.cur_uthread ≡ some p → Keeps lib c Stuck (f p))
      → (c.k_ctx.krunqueue.cur_uthread ≡ none → Stuck)
      → Keeps lib c Stuck (deref c.k_ctx.krunqueue.cur_uthread >>= f)
  current-Keeps f keeps stuck = elim (Option-cases c.k_ctx.krunqueue.cur_uthread) [
    | inl off ↦ subst (λ o. Keeps lib c Stuck (deref o >>= f)) (sym off) (stuck off)
    | inr (p, cur) ↦ subst (λ o. Keeps lib c Stuck (deref o >>= f)) (sym cur) (keeps p cur)
  ]

  pub gt_yield-Keeps :
      (((p : ℕ) → c.k_ctx.krunqueue.cur_uthread ≡ some p → (c.heap p).uthread_state ≢ running)
        → Stuck)
      → Keeps lib c Stuck (gt_yield lib os clock c)
  unfolding gt_yield
  gt_yield-Keeps stuck =
      current-Keeps (yield_uthread lib os clock c)
        (λ p cur.
          yield_uthread-Keeps p cur
            (λ other. stuck (λ q now. subst Idles (some_inj.0 (sym cur ∙ now)) other)))
        (λ off. stuck (λ q now. absurd (none-some q (sym off ∙ now))))
    where
      Idles : ℕ → Type 0
      Idles q = (c.heap q).uthread_state ≢ running

      none-some : (q : ℕ) → none ≡ some q → ⊥
      none-some q e = cc
