-- ===== src/Program/Runs.antt =====
-- About the threads of the program over any number of steps.
use cfs_userspace.Prelude.{
  ℕ, ◌≡◌, ◌≢◌, ◌<◌, sym, subst, some, ok, inl, inr, ◌⊎◌, ◌++◌, In, All-In, Option-cases,
}
use cfs_userspace.Uthread.{UthreadState, init, runnable, running, cancelled, done, yield}
use cfs_userspace.RbLibrary.{RbLibrary}
use cfs_userspace.CfsRunqueue.{threads}
use cfs_userspace.Scheduler.Ownership.{cur_list, Over}
use cfs_userspace.Scheduler.Standing.{Waits, Goes}
use cfs_userspace.Program.Invariant.{IsProgram}
use cfs_userspace.Kthread.{World, KthreadContext}
use cfs_userspace.Creation.{Request, Created, uthread_create}
use cfs_userspace.Program.{Step, Reach, next, Unused}
use cfs_userspace.Program.Fates.{Held, Ended, Fate}
use cfs_userspace.Program.Exclusion.{Reach-IsProgram, Step-Continues}
use cfs_userspace.Program.Creating.{uthread_create-Continues}

-- Any number of steps from one state to another.
pub data Runs (lib : RbLibrary) (w : World lib.Tree) : World lib.Tree → Type 0 where
  stop : Runs lib w w
  more : {u v : World lib.Tree} → Runs lib w u → Step lib u v → Runs lib w v

pub Runs-Reach : (lib : RbLibrary) (w v : World lib.Tree) → Reach lib w → Runs lib w v → Reach lib v
Runs-Reach lib w v reach stop = reach
Runs-Reach lib w v reach (more {u} runs step) = next (Runs-Reach lib w u reach runs) step

pub Runs-Fate :
    (lib : RbLibrary) (w v : World lib.Tree) (x : ℕ)
    → Reach lib w
    → Runs lib w v
    → Fate lib w x
    → Fate lib v x
Runs-Fate lib w v x reach stop fate = fate
Runs-Fate lib w v x reach (more {u} runs step) fate =
    let inv = Reach-IsProgram lib u (Runs-Reach lib w u reach runs) in
    (Step-Continues lib u v inv step).fates x (Runs-Fate lib w u x reach runs fate)

Waits-going : (s : UthreadState) → Waits s → ¬ (Over s)
Waits-going init w over = over
Waits-going runnable w over = over
Waits-going running w over = w
Waits-going cancelled w over = w
Waits-going done w over = w
Waits-going yield w over = w

Goes-going : (s : UthreadState) → Goes s → ¬ (Over s)
Goes-going init g over = g
Goes-going runnable g over = over
Goes-going running g over = over
Goes-going cancelled g over = g
Goes-going done g over = g
Goes-going yield g over = g

-- No processor has a thread that has ended.
Held-going :
    (lib : RbLibrary) (w : World lib.Tree) (x : ℕ)
    → IsProgram lib w
    → Held lib w x
    → ¬ (Over (w.heap x).uthread_state)
Held-going lib w x inv (t, held) =
    let stand = (inv.each t held.context held.at).2 in
    let queue = threads lib held.context.krunqueue.runqueue.tree in
    let queued : In x queue → ¬ (Over (w.heap x).uthread_state) = λ i.
      Waits-going (w.heap x).uthread_state
        (All-In (λ q. Waits (w.heap q).uthread_state) x queue stand.queue i) in
    elim (Option-cases held.context.krunqueue.cur_uthread) [
      | inl off ↦ queued (subst (λ o. In x (cur_list o ++ queue)) off held.has)
      | inr (p, cur) ↦ elim (subst (λ o. In x (cur_list o ++ queue)) cur held.has) [
        | inl same ↦
            Goes-going (w.heap x).uthread_state
              (subst (λ q. Goes (w.heap q).uthread_state) (sym same) (stand.current p cur))
        | inr i ↦ queued i
      ]
    ]

-- Let a call of uthread_create on a mapped processor with a master thread, in a state that the
-- program reaches, return with a thread at an address that no thread of the program has, within
-- the limits that Step names. After any number of further steps of the program, the new thread is
-- the current one or queued on some processor, and its state is neither done nor cancelled, or its
-- state is one of the two, and it is current or queued nowhere.
pub never_lost :
    (lib : RbLibrary) (w u v : World lib.Tree) (cpu m : ℕ) (k : KthreadContext lib.Tree)
    (r : Request) (made : Created)
    → Reach lib w
    → w.kthread_cpu_map cpu ≡ some k
    → k.master_thread ≡ some m
    → cpu < 16
    → r.u_gid < 32
    → r.u_new ≢ 0
    → r.ss_sp ≢ 0
    → Unused lib w r.u_new
    → uthread_create lib w cpu r ≡ ok (made, u)
    → Runs lib u v
    → (Held lib v r.u_new × ¬ (Over (v.heap r.u_new).uthread_state)) ⊎ Ended lib v r.u_new
never_lost lib w u v cpu m k r made reach at_cpu master range group block stack unused run runs =
    let (goes, held) =
      uthread_create-Continues lib w (Reach-IsProgram lib w reach) cpu k at_cpu m r made u master
        range group block stack unused run in
    let created : Reach lib u =
      next reach (Step.creates cpu k m r at_cpu master range group block stack unused run) in
    elim (Runs-Fate lib u v r.u_new created runs (inl held)) [
      | inl there ↦ inl (
        there,
        Held-going lib v r.u_new (Reach-IsProgram lib v (Runs-Reach lib u v created runs)) there,
      )
      | inr gone ↦ inr gone
    ]
