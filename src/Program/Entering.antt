-- ===== src/Program/Entering.antt =====
-- About the ways into uthread_schedule, for the whole program.
use cfs_userspace.Prelude.{
  ℕ, ◌+◌, ◌≡◌, ◌≤◌, sym, ◌∙◌, Option, none, some, Exec, ok, fault, length, subst,
}
use cfs_userspace.RbLibrary.{RbLibrary}
use cfs_userspace.Signal.{Signals}
use cfs_userspace.Kthread.{Cpu, World, KthreadContext, Itimerval}
use cfs_userspace.Accounting.Slices.{max_sharing}
use cfs_userspace.Scheduler.{InitCalls, Clock, Jump}
use cfs_userspace.Scheduler.Queue.{ready_threads}
use cfs_userspace.Scheduler.Choosing.{CallsSucceed}
use cfs_userspace.Scheduler.Standing.{Standing}
use cfs_userspace.Scheduler.Pass.{IsCpu}
use cfs_userspace.Scheduler.Entries.{context_func_finish}
use cfs_userspace.Scheduler.Entries.Keeping.{
  Keeps, ksched_priority-Keeps, gt_yield-Keeps, finish-Keeps, current-Keeps,
}
use cfs_userspace.App.Rounds.{gtthread_app_start-Keeps, gtthread_app_exit-Keeps, exit_round-Keeps}
use cfs_userspace.Program.{
  Entry, on_signal, on_yield, on_return, on_round, on_exit, on_exit_round, jumps, enter, Allowed,
  Ready, view, commit,
}
use cfs_userspace.Program.Invariant.{IsProgram}
use cfs_userspace.Program.Fates.{Continues, commit-Continues}

jumps-Keeps :
    (lib : RbLibrary) (c : Cpu lib.Tree) (m : Exec (Jump × Cpu lib.Tree))
    → (Stuck : Type 0) → Keeps lib c Stuck m
    → Keeps lib c Stuck (jumps m)
unfolding jumps
jumps-Keeps lib c (ok (j, e)) Stuck keeps = keeps
jumps-Keeps lib c (fault f) Stuck keeps = keeps

none-some : (p : ℕ) → none ≡ some p → ⊥
none-some p e = cc

module _ (lib : RbLibrary) (os : InitCalls) (clock : Clock) (good : CallsSucceed os)
    (c : Cpu lib.Tree) (few : length (ready_threads lib c) + 2 ≤ max_sharing) (cpu : IsCpu lib c)
    (stand : Standing lib c.heap c.k_ctx.krunqueue) where
  pub enter-Keeps :
      (way : Entry) → Allowed way c → Keeps lib c (¬ (Ready way c)) (enter lib os clock way c)
  unfolding enter
  enter-Keeps on_signal a = ksched_priority-Keeps lib os clock good c few cpu stand _
  enter-Keeps on_yield a =
      jumps-Keeps lib c _ _
        (gt_yield-Keeps lib os clock good c few cpu stand _ (λ idles (p, cur, st). idles p cur st))
  enter-Keeps on_return a = jumps-Keeps lib c _ _ (
      current-Keeps lib os clock good c few cpu stand _ (context_func_finish lib os clock c)
        (finish-Keeps lib os clock good c few cpu stand _)
        (λ off (p, cur). none-some p (sym off ∙ cur)))
  enter-Keeps on_round a = gtthread_app_start-Keeps lib os clock good c few cpu stand _
  enter-Keeps on_exit a = gtthread_app_exit-Keeps lib os clock good c few cpu stand _ a
  enter-Keeps on_exit_round a = exit_round-Keeps lib os clock good c few cpu stand _ a

pub enter-Continues :
    (lib : RbLibrary) (w : World lib.Tree) (os : InitCalls) (clock : Clock) (timer : Itimerval)
    (signals : Signals) (way : Entry) (cpu : ℕ) (k : KthreadContext lib.Tree) (jump : Option Jump)
    (e : Cpu lib.Tree)
    → IsProgram lib w
    → CallsSucceed os
    → w.kthread_cpu_map cpu ≡ some k
    → length (ready_threads lib (view w k timer signals)) + 2 ≤ max_sharing
    → Allowed way (view w k timer signals)
    → enter lib os clock way (view w k timer signals) ≡ ok (jump, e)
    → Continues lib w (commit w cpu e)
enter-Continues lib w os clock timer signals way cpu k jump e inv good at_cpu few allowed run =
    let (kept, away, stand) = inv.each cpu k at_cpu in
    let keeps =
      enter-Keeps lib os clock good (view w k timer signals) few
        (record { kept = kept; away = away }) stand way allowed in
    let (cpu_ok, own, stands, settled) = subst (Keeps lib (view w k timer signals) _) run keeps in
    commit-Continues lib w inv cpu k at_cpu e cpu_ok own stands settled
