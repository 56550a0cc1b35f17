-- ===== src/Program/Exclusion.antt =====
-- About every state that the program reaches.
use cfs_userspace.Prelude.{
  ℕ, ◌≡◌, ◌≢◌, refl, sym, some, none, Option, All-In, In, Distinct, ℕ_discrete, ◌++◌, Option-cases,
  inl, inr, subst,
}
use cfs_userspace.Uthread.{Uthread}
use cfs_userspace.RbLibrary.{RbLibrary}
use cfs_userspace.CfsRunqueue.{threads}
use cfs_userspace.Kthread.{World, KthreadContext, KschedSharedInfo}
use cfs_userspace.Scheduler.Ownership.{cur_list, owned, Foreign}
use cfs_userspace.Program.{Step, enters, creates, starts, masters, opens, Reach, here, next, start}
use cfs_userspace.Program.Invariant.{IsProgram}
use cfs_userspace.Program.Fates.{Continues}
use cfs_userspace.Program.Entering.{enter-Continues}
use cfs_userspace.Program.Creating.{uthread_create-Continues, relabelled-Continues}
use cfs_userspace.Program.Starting.{create_master_uthread-Continues, kthread_init-Continues}

pub Step-Continues :
    (lib : RbLibrary) (w v : World lib.Tree) → IsProgram lib w → Step lib w v → Continues lib w v
Step-Continues lib w v inv
      (enters os clock timer signals way cpu k {jump} {e} good at_cpu few allowed run) =
    enter-Continues lib w os clock timer signals way cpu k jump e inv good at_cpu few allowed run
Step-Continues lib w v inv
      (creates cpu k m r {made} at_cpu master range group block stack unused run) =
    (uthread_create-Continues lib w inv cpu k at_cpu m r made v master range group block stack
      unused run).0
Step-Continues lib w v inv (starts me zeroed free idle small range run) =
    kthread_init-Continues lib w inv me zeroed v free idle small range run
Step-Continues lib w v inv
      (masters cpu k p sp now {v = u} {k'} at_cpu idle block stack unused run) =
    create_master_uthread-Continues lib w inv cpu k at_cpu p sp now idle unused u k' block stack run
Step-Continues lib w v inv (opens cpu k at_cpu) =
    relabelled-Continues lib w v cpu k (record k { do_not_disturb = 0 }) inv at_cpu refl refl refl
      refl

start-IsProgram :
    (lib : RbLibrary) (heap : ℕ → Uthread) (shared : KschedSharedInfo)
    → IsProgram lib (start heap shared)
start-IsProgram lib heap shared = record {
  inside = λ t k e. absurd (unmapped k e);
  each = λ t k e. absurd (unmapped k e);
  apart = λ s t k k' e f ne. absurd (unmapped k e);
}
  where
    unmapped : (k : KthreadContext lib.Tree) → none ≡ some k → ⊥
    unmapped k e = cc

-- In every state that the program reaches by whole steps of its kernel threads (a way into
-- uthread_schedule, a call of uthread_create that gets memory, and the parts of gtthread_app_init,
-- within the limits that Step names), the run queue of each kernel thread is well formed and does
-- not hold the current thread, each queued thread has never run or is runnable, the current one is
-- running or runnable, two kernel threads have no thread in common, and the processors of kernel
-- threads are below 16.
pub Reach-IsProgram : (lib : RbLibrary) (w : World lib.Tree) → Reach lib w → IsProgram lib w
Reach-IsProgram lib w (here heap shared) = start-IsProgram lib heap shared
Reach-IsProgram lib w (next {w = u} r s) = (Step-Continues lib u w (Reach-IsProgram lib u r) s).kept

owned-Distinct :
    (lib : RbLibrary) (w : World lib.Tree) (s : ℕ) (k : KthreadContext lib.Tree)
    → IsProgram lib w
    → w.kthread_cpu_map s ≡ some k
    → Distinct (owned lib k)
owned-Distinct lib w s k inv at_s = elim (Option-cases k.krunqueue.cur_uthread) [
  | inl off ↦ subst Split (sym off) (inv.each s k at_s).0.distinct
  | inr (p, cur) ↦
      subst Split (sym cur) ((inv.each s k at_s).1 p cur, (inv.each s k at_s).0.distinct)
]
  where
    Split : Option ℕ → Type 0
    Split o = Distinct (cur_list o ++ threads lib k.krunqueue.runqueue.tree)

-- In every state that the program reaches by whole steps of its kernel threads (a way into
-- uthread_schedule, a call of uthread_create that gets memory, and the parts of gtthread_app_init,
-- within the limits that Step names), a thread that is current or queued on processors s and t has
-- s equal to t, and the current and queued threads of s are distinct.
pub exclusive :
    (lib : RbLibrary) (w : World lib.Tree) (s t p : ℕ) (k k' : KthreadContext lib.Tree)
    → Reach lib w
    → w.kthread_cpu_map s ≡ some k
    → w.kthread_cpu_map t ≡ some k'
    → In p (owned lib k)
    → In p (owned lib k')
    → (s ≡ t) × Distinct (owned lib k)
exclusive lib w s t p k k' reach at_s at_t mine yours = (
  elim (ℕ_discrete s t) [
    | yes same ↦ same
    | no other ↦ absurd (
        All-In (λ q. p ≢ q) p (owned lib k')
          (All-In (Foreign lib k') p (owned lib k)
            ((Reach-IsProgram lib w reach).apart s t k k' at_s at_t other) mine)
          yours refl)
  ],
  owned-Distinct lib w s k (Reach-IsProgram lib w reach) at_s,
)
