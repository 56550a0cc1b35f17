-- ===== src/Scheduler/Standing.antt =====
-- The states of the threads that a kernel thread has.
use cfs_userspace.Prelude.{ℕ, ◌≡◌, ◌≢◌, sym, List, [], ◌∷◌, some, All, subst}
use cfs_userspace.Uthread.{Uthread, UthreadState, init, runnable, running}
use cfs_userspace.RbLibrary.{RbLibrary}
use cfs_userspace.CfsRunqueue.{threads}
use cfs_userspace.KthreadRunqueue.{KthreadRunqueue}

-- A thread that is queued has never run, or can run on.
abbrev pub Waits : UthreadState → Type 0
Waits init = Unit
Waits runnable = Unit
Waits _ = ⊥

-- A thread that is current runs, or is the master thread before it first gives way.
abbrev pub Goes : UthreadState → Type 0
Goes running = Unit
Goes runnable = Unit
Goes _ = ⊥

abbrev pub Waiting : (ℕ → Uthread) → List ℕ → Type 0
Waiting h qs = All (λ q. Waits (h q).uthread_state) qs

pub record Standing (lib : RbLibrary) (h : ℕ → Uthread) (runq : KthreadRunqueue lib.Tree)
    : Type 0 where
  pub queue : Waiting h (threads lib runq.runqueue.tree)
  pub current : (p : ℕ) → runq.cur_uthread ≡ some p → Goes (h p).uthread_state

-- Memory changes at one thread only, which is not among them.
pub Waiting-frame :
    (h h' : ℕ → Uthread) (p : ℕ) (qs : List ℕ)
    → All (λ q. p ≢ q) qs
    → ((q : ℕ) → p ≢ q → h' q ≡ h q)
    → Waiting h qs
    → Waiting h' qs
Waiting-frame h h' p [] away frame w = tt
Waiting-frame h h' p (q ∷ qs) away frame w = (
  subst (λ (u : Uthread). Waits u.uthread_state) (sym (frame q away.0)) w.0,
  Waiting-frame h h' p qs away.1 frame w.1,
)

-- Memory changes at none of them.
pub Waiting-same :
    (h h' : ℕ → Uthread) (qs : List ℕ) → All (λ q. h' q ≡ h q) qs → Waiting h qs → Waiting h' qs
Waiting-same h h' [] same w = tt
Waiting-same h h' (q ∷ qs) same w = (
  subst (λ (u : Uthread). Waits u.uthread_state) (sym same.0) w.0,
  Waiting-same h h' qs same.1 w.1,
)
