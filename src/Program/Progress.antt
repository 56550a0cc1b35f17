-- ===== src/Program/Progress.antt =====
-- About the ways into uthread_schedule, in every state that the program reaches.
use cfs_userspace.Prelude.{
  none, ◌≢◌, ◌⊎◌, inl, inr, ap, true, false, Bool-cases, Option-cases, null_dereference,
  assert_failed, ℕ, ◌+◌, ◌≡◌, ◌≤◌, refl, Option, some, Exec, ok, fault, length,
}
use cfs_userspace.RbLibrary.{RbLibrary}
use cfs_userspace.Signal.{Signals}
use cfs_userspace.Kthread.{Cpu, World, KthreadContext, Itimerval}
use cfs_userspace.Accounting.Slices.{max_sharing}
use cfs_userspace.Scheduler.{InitCalls, Clock, Jump}
use cfs_userspace.Scheduler.Queue.{ready_threads}
use cfs_userspace.Scheduler.Choosing.{CallsSucceed}
use cfs_userspace.Scheduler.Entries.Keeping.{Keeps}
use cfs_userspace.Uthread.{UthreadState, is_state, init, runnable, running, cancelled, done, yield}
use cfs_userspace.Scheduler.Entries.Handlers.{gt_yield-assertion, gt_yield-null}
use cfs_userspace.Program.{
  on_yield, jumps, Entry, enter, Allowed, Ready, view, commit, Reach, next, Step,
}
use cfs_userspace.Program.Entering.{enter-Keeps}
use cfs_userspace.Program.Exclusion.{Reach-IsProgram}

-- A result that is there unless `Stuck` holds, where it does not.
result :
    {X : Type 0} (lib : RbLibrary) (b : Cpu lib.Tree) (Stuck : Type 0) (m : Exec (X × Cpu lib.Tree))
    → Keeps lib b Stuck m
    → ¬ Stuck
    → (x : X) × (e : Cpu lib.Tree) × (m ≡ ok (x, e))
result lib b Stuck (ok (x, e)) keeps free = (x, e, refl)
result lib b Stuck (fault f) keeps free = absurd (free keeps)

is_running : (s : UthreadState) → is_state s running ≡ true → s ≡ running
is_running init e = absurd (cc)
is_running runnable e = absurd (cc)
is_running running e = refl
is_running cancelled e = absurd (cc)
is_running done e = absurd (cc)
is_running yield e = absurd (cc)

not_running : (s : UthreadState) → is_state s running ≡ false → s ≢ running
not_running s e same = cc

module _ (lib : RbLibrary) (os : InitCalls) (clock : Clock) (timer : Itimerval) (signals : Signals)
    (w : World lib.Tree) (cpu : ℕ) (k : KthreadContext lib.Tree) (way : Entry) where
  -- The call of the scheduler by that way ends in a jump, or returns, in a state of the program.
  unfoldable pub GoesOn : Type 0
  GoesOn =
      (jump : Option Jump) × (e : Cpu lib.Tree) × (enter lib os clock way (view w k timer signals)
        ≡ ok (jump, e))
      × Reach lib (commit w cpu e)

  -- gt_yield was called where no thread is current, or where the current one is not running, such
  -- as by main before it was switched to for the first time.
  unfoldable pub Misused : Type 0
  Misused =
      (way ≡ on_yield)
      × (((k.krunqueue.cur_uthread ≡ none)
            × (enter lib os clock way (view w k timer signals) ≡ fault null_dereference))
          ⊎ ((p : ℕ) × (k.krunqueue.cur_uthread ≡ some p)
              × ((w.heap p).uthread_state ≢ running)
              × (enter lib os clock way (view w k timer signals) ≡ fault assert_failed)))

module _ (lib : RbLibrary) (os : InitCalls) (clock : Clock) (timer : Itimerval) (signals : Signals)
    (w : World lib.Tree) (cpu : ℕ) (k : KthreadContext lib.Tree) (reach : Reach lib w)
    (good : CallsSucceed os) (at_cpu : w.kthread_cpu_map cpu ≡ some k)
    (few : length (ready_threads lib (view w k timer signals)) + 2 ≤ max_sharing) where
  ready-GoesOn :
      (way : Entry)
      → Allowed way (view w k timer signals)
      → Ready way (view w k timer signals)
      → GoesOn lib os clock timer signals w cpu k way
  unfolding GoesOn
  ready-GoesOn way allowed ready =
      let (kept, away, stand) = (Reach-IsProgram lib w reach).each cpu k at_cpu in
      let keeps =
        enter-Keeps lib os clock good (view w k timer signals) few
          (record { kept = kept; away = away }) stand way allowed in
      let (jump, e, run) =
        result lib (view w k timer signals) (¬ (Ready way (view w k timer signals)))
          (enter lib os clock way (view w k timer signals)) keeps (λ stuck. stuck ready) in
      (
        jump,
        e,
        run,
        next reach (Step.enters os clock timer signals way cpu k good at_cpu few allowed run),
      )

  yields :
      GoesOn lib os clock timer signals w cpu k on_yield
      ⊎ Misused lib os clock timer signals w cpu k on_yield
  unfolding Misused enter jumps
  yields = elim (Option-cases k.krunqueue.cur_uthread) [
    | inl off ↦
        inr (refl, inl (off, ap jumps (gt_yield-null lib os clock (view w k timer signals) off)))
    | inr (p, cur) ↦ elim (Bool-cases (is_state (w.heap p).uthread_state running)) [
      | inl runs ↦ inl (ready-GoesOn on_yield tt (p, cur, is_running (w.heap p).uthread_state runs))
      | inr stands ↦ inr (
        refl,
        inr (
          p,
          cur,
          λ st. not_running (w.heap p).uthread_state stands st,
          ap jumps (gt_yield-assertion lib os clock (view w k timer signals) p cur stands),
        ),
      )
    ]
  ]
