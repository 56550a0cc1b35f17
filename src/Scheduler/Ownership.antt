-- ===== src/Scheduler/Ownership.antt =====
-- The threads that a kernel thread has, and operations that touch no others.
use cfs_userspace.Prelude.{
  ◌+◌, ◌-◌, ◌%◌, ◌^◌, length, ℕ, ◌≡◌, ◌≢◌, List, [], ◌∷◌, ◌++◌, Option, none, some, All, In, ◌⊎◌,
}
use cfs_userspace.Uthread.{Uthread, UthreadState, done, cancelled}
use cfs_userspace.RbLibrary.{RbLibrary}
use cfs_userspace.CfsRunqueue.{threads}
use cfs_userspace.Kthread.{Cpu, KthreadContext}

abbrev pub cur_list : Option ℕ → List ℕ
cur_list none = []
cur_list (some p) = p ∷ []

-- The thread that runs, and those that are queued.
abbrev pub owned : (lib : RbLibrary) → KthreadContext lib.Tree → List ℕ
owned lib k = cur_list k.krunqueue.cur_uthread ++ threads lib k.krunqueue.runqueue.tree

abbrev pub Foreign : (lib : RbLibrary) → KthreadContext lib.Tree → ℕ → Type 0
Foreign lib k x = All (λ p. x ≢ p) (owned lib k)

-- A thread that has ended.
abbrev pub Over : UthreadState → Type 0
Over done = Unit
Over cancelled = Unit
Over _ = ⊥

abbrev pub size : (lib : RbLibrary) → KthreadContext lib.Tree → ℕ
size lib k = length (owned lib k)

-- Of n threads and a count of live ones, none has gone, or one has, and is no longer counted.
abbrev pub Settled : (n live : ℕ) → (n' live' : ℕ) → Type 0
Settled n live n' live' =
    ((n' ≡ n) × (live' ≡ live)) ⊎ ((n' + 1 ≡ n) × (live' ≡ (live + 2 ^ 32 - 1) % 2 ^ 32))

-- From context `k` and memory `h` to state `e`, memory changes only at the own threads, no
-- other thread joins them, and each of them stays or has ended.
pub record Confined (lib : RbLibrary) (h : ℕ → Uthread) (k : KthreadContext lib.Tree)
    (e : Cpu lib.Tree) : Type 0 where
  pub frame : (x : ℕ) → Foreign lib k x → e.heap x ≡ h x
  pub foreign : (x : ℕ) → Foreign lib k x → Foreign lib e.k_ctx x
  pub remains :
      (x : ℕ) → In x (owned lib k) → In x (owned lib e.k_ctx) ⊎ Over (e.heap x).uthread_state
