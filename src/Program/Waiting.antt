-- ===== src/Program/Waiting.antt =====
-- About the count of live threads, and the loop at the end of gtthread_app_exit that reads it.
use cfs_userspace.Prelude.{
  ℕ, ◌^◌, ◌≡◌, ◌<◌, refl, sym, ap, ◌∙◌, arith, List, [], ◌∷◌, length, some, ok, ◌↔◌, Option-cases,
  inl, inr,
}
use cfs_userspace.Uthread.{Uthread}
use cfs_userspace.RbLibrary.{RbLibrary}
use cfs_userspace.Kthread.{World, KthreadContext, KschedSharedInfo}
use cfs_userspace.Scheduler.Ownership.{owned}
use cfs_userspace.App.{wait_for_uthreads}
use cfs_userspace.Program.{Reach, here, start, size_at}
use cfs_userspace.Program.Counting.{total, IsCounted, total-unmapped, total_zero, total_none}
use cfs_userspace.App.Counting.{wait_once}
use cfs_userspace.Program.Exclusion.{Reach-IsProgram, Step-Continues}
use cfs_userspace.Program.Runs.{Runs, stop, more, Runs-Reach}

Runs-IsCounted :
    (lib : RbLibrary) (base : ℕ) (w v : World lib.Tree)
    → Reach lib w
    → Runs lib w v
    → IsCounted lib base w
    → IsCounted lib base v
Runs-IsCounted lib base w v reach stop count = count
Runs-IsCounted lib base w v reach (more {u} runs step) count =
    let inv = Reach-IsProgram lib u (Runs-Reach lib w u reach runs) in
    (Step-Continues lib u v inv step).counts base (Runs-IsCounted lib base w u reach runs count)

-- None of the kernel threads has threads.
abbrev pub NoThreads : (lib : RbLibrary) → World lib.Tree → Type 0
NoThreads lib w =
    (t : ℕ) (k : KthreadContext lib.Tree) → w.kthread_cpu_map t ≡ some k → owned lib k ≡ []

length_zero : (xs : List ℕ) → length xs ≡ 0 → xs ≡ []
length_zero [] e = refl
length_zero (x ∷ xs) e = absurd (omega (arith, e))

size_none :
    (lib : RbLibrary) (w : World lib.Tree)
    → NoThreads lib w
    → (t : ℕ) → size_at lib (w.kthread_cpu_map t) ≡ 0
size_none lib w free t = elim (Option-cases (w.kthread_cpu_map t)) [
  | inl off ↦ ap (size_at lib) off
  | inr (k, at_t) ↦ ap (size_at lib) at_t ∙ ap length (free t k at_t)
]

-- Let the program start with no thread counted, and let the kernel threads have fewer than 2^32
-- threads in all in a state that it reaches by any number of steps. Then kthread_cur_uthreads is
-- their number there, and a read of it ends the loop at the end of gtthread_app_exit just if no
-- kernel thread has a current or queued thread.
pub wait_for_uthreads_lem :
    (lib : RbLibrary) (heap : ℕ → Uthread) (shared : KschedSharedInfo) (w : World lib.Tree)
    → shared.kthread_cur_uthreads ≡ 0
    → Runs lib (start heap shared) w
    → total lib w.kthread_cpu_map 16 < 2 ^ 32
    → (w.shared.kthread_cur_uthreads ≡ total lib w.kthread_cpu_map 16)
      × ((wait_for_uthreads (w.shared.kthread_cur_uthreads ∷ []) ≡ ok tt) ↔ NoThreads lib w)
wait_for_uthreads_lem lib heap shared w none_yet runs few =
    let begins : Reach lib (start heap shared) = here heap shared in
    let counted =
      Runs-IsCounted lib 0 (start heap shared) w begins runs
        (omega (arith, none_yet, total-unmapped lib 16)) in
    let live : w.shared.kthread_cur_uthreads ≡ total lib w.kthread_cpu_map 16 =
      omega (arith, counted, few) in
    let inv = Reach-IsProgram lib w (Runs-Reach lib (start heap shared) w begins runs) in
    (
      live,
      (
        λ ended t k at_t.
            let over = (wait_once w.shared.kthread_cur_uthreads).0 ended in
            length_zero (owned lib k) (
              sym (ap (size_at lib) at_t)
              ∙ total_zero lib w.kthread_cpu_map 16 t (inv.inside t k at_t) (sym live ∙ over)),
        λ free.
            (wait_once w.shared.kthread_cur_uthreads).1
              (live ∙ total_none lib w.kthread_cpu_map 16 (size_none lib w free)),
      ),
    )
