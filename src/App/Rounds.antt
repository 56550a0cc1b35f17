-- ===== src/App/Rounds.antt =====
-- About the loops of gtthread_app_start and gtthread_app_exit: one round of each.
use cfs_userspace.Prelude.{
  ℕ, ◌+◌, ◌≡◌, ◌≤◌, refl, sym, ap, ◌∙◌, subst, Option, none, some, Exec, ok, length, ◌>>=◌, Bool,
  true, false, Option-cases, inl, inr, if◌then◌else◌,
}
use cfs_userspace.Uthread.{done}
use cfs_userspace.RbLibrary.{RbLibrary}
use cfs_userspace.Kthread.{Cpu, is_done}
use cfs_userspace.Accounting.Slices.{max_sharing}
use cfs_userspace.Scheduler.{InitCalls, Clock, Jump}
use cfs_userspace.Scheduler.Queue.{ready_threads}
use cfs_userspace.Scheduler.Choosing.{CallsSucceed}
use cfs_userspace.Scheduler.Standing.{Standing}
use cfs_userspace.Scheduler.Pass.{IsCpu}
use cfs_userspace.Scheduler.Entries.{schedule}
use cfs_userspace.Scheduler.Entries.Entered.{Entered, same-Entered, marked-Entered}
use cfs_userspace.Scheduler.Entries.Keeping.{Keeps, schedule-Keeps, noted-Keeps}
use cfs_userspace.App.{
  gtthread_app_start, gtthread_app_exit, exit_round, finish_thread, finish_master, announce_exit,
}

finish_master-none :
    (lib : RbLibrary) (os : InitCalls) (clock : Clock) (c : Cpu lib.Tree)
    → c.k_ctx.master_thread ≡ none
    → finish_master lib os clock c ≡ c
unfolding finish_master
finish_master-none lib os clock c gone = ap (finish_thread lib os clock c) gone

announced_master :
    (lib : RbLibrary) (os : InitCalls) (clock : Clock) (c : Cpu lib.Tree)
    → (announce_exit lib os clock c).k_ctx.master_thread ≡ c.k_ctx.master_thread
unfolding announce_exit
announced_master lib os clock c = refl

module _ (lib : RbLibrary) (os : InitCalls) (clock : Clock) (good : CallsSucceed os)
    (c : Cpu lib.Tree) (few : length (ready_threads lib c) + 2 ≤ max_sharing) (cpu : IsCpu lib c)
    (stand : Standing lib c.heap c.k_ctx.krunqueue) (Stuck : Type 0) where
  abbrev Kept : Exec (Option Jump × Cpu lib.Tree) → Type 0
  Kept m = Keeps lib c Stuck m

  abbrev EnteredHere : Cpu lib.Tree → Type 0
  EnteredHere d = Entered lib (length (ready_threads lib c)) c d

  -- A round that leaves the loop, or schedules.
  round-Keeps :
      (b : Bool) (d f : Cpu lib.Tree)
      → EnteredHere d
      → EnteredHere f
      → Standing lib d.heap d.k_ctx.krunqueue
      → Kept
          (if b then ok (none, d) else (schedule lib os clock f >>= λ (jump, e). ok (some jump, e)))
  round-Keeps true d f ed ef st = (ed.cpu, ed.own, st, inl (ap length ed.whole, ed.live))
  round-Keeps false d f ed ef st =
      noted-Keeps lib os clock good (length (ready_threads lib c)) few c Stuck _
        (schedule-Keeps lib os clock good (length (ready_threads lib c)) few c Stuck f ef)

  pub gtthread_app_start-Keeps : Kept (gtthread_app_start lib os clock c)
  unfolding gtthread_app_start
  gtthread_app_start-Keeps =
      let here = same-Entered lib c cpu stand c refl refl refl in
      round-Keeps (is_done c.k_ctx.kthread_flags) c c here here stand

  -- Once the master thread is forgotten, a round leaves the state alone.
  pub exit_round-Keeps : c.k_ctx.master_thread ≡ none → Kept (exit_round lib os clock c)
  unfolding exit_round
  exit_round-Keeps gone =
      round-Keeps (is_done c.k_ctx.kthread_flags) c (finish_master lib os clock c)
        (same-Entered lib c cpu stand c refl refl refl)
        (same-Entered lib c cpu stand (finish_master lib os clock c)
          (ap (λ (d : Cpu lib.Tree). d.heap) same)
          (ap (λ (d : Cpu lib.Tree). d.k_ctx.krunqueue) same)
          (ap (λ (d : Cpu lib.Tree). d.shared.kthread_cur_uthreads) same))
        stand
    where
      same : finish_master lib os clock c ≡ c
      same = finish_master-none lib os clock c gone

  -- gtthread_app_exit ends the thread that runs.
  announced-Entered :
      (p : ℕ)
      → c.k_ctx.krunqueue.cur_uthread ≡ some p
      → c.k_ctx.master_thread ≡ some p
      → EnteredHere (finish_master lib os clock (announce_exit lib os clock c))
  unfolding finish_master announce_exit
  announced-Entered p cur master =
      let d = announce_exit lib os clock c in
      marked-Entered lib c cpu stand p done (finish_thread lib os clock d c.k_ctx.master_thread) cur
        (ap (λ o. (finish_thread lib os clock d o).heap) master)
        (ap (λ o. (finish_thread lib os clock d o).k_ctx.krunqueue) master ∙ refl)
        (ap (λ o. (finish_thread lib os clock d o).shared.kthread_cur_uthreads) master ∙ refl)

  announced-Standing :
      Standing lib
        (announce_exit lib os clock c).heap
        (announce_exit lib os clock c).k_ctx.krunqueue
  unfolding announce_exit
  announced-Standing = record { queue = stand.queue; current = stand.current }

  announced-idle : EnteredHere (announce_exit lib os clock c)
  unfolding announce_exit
  announced-idle = same-Entered lib c cpu stand (announce_exit lib os clock c) refl refl refl

  pub gtthread_app_exit-Keeps :
      c.k_ctx.master_thread ≡ c.k_ctx.krunqueue.cur_uthread
      → Kept (gtthread_app_exit lib os clock c)
  unfolding gtthread_app_exit exit_round
  gtthread_app_exit-Keeps master =
      let d = announce_exit lib os clock c in
      round-Keeps (is_done d.k_ctx.kthread_flags) d (finish_master lib os clock d) announced-idle
        (elim (Option-cases c.k_ctx.krunqueue.cur_uthread) [
          | inl off ↦
              subst EnteredHere
                (sym (
                  finish_master-none lib os clock d
                    (announced_master lib os clock c ∙ master ∙ off)))
                announced-idle
          | inr (p, cur) ↦ announced-Entered p cur (master ∙ cur)
        ])
        announced-Standing
