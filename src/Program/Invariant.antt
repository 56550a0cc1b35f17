-- ===== src/Program/Invariant.antt =====
-- What holds of the whole program between the steps.
use cfs_userspace.Prelude.{
  ℕ, ◌<◌, ◌≡◌, ◌≢◌, sym, ap, ◌∙◌, subst, ◌++◌, some, some_inj, All, All-imp, All-right, All-apart,
  In, ◌⊎◌, ℕ_discrete,
}
use cfs_userspace.Uthread.{Uthread}
use cfs_userspace.RbLibrary.{RbLibrary}
use cfs_userspace.CfsRunqueue.{threads}
use cfs_userspace.CfsRunqueue.Invariant.{IsRunqueue}
use cfs_userspace.KthreadRunqueue.{KthreadRunqueue}
use cfs_userspace.Kthread.{World, KthreadContext}
use cfs_userspace.Scheduler.Queue.{same-IsRunqueue}
use cfs_userspace.Scheduler.Ownership.{cur_list, owned, Foreign, Over, size}
use cfs_userspace.Scheduler.Standing.{Goes, Standing, Waiting-same}
use cfs_userspace.Program.{Unused, size_at, Tally}

-- The kernel thread's run queue is well formed, and does not hold the thread that runs; each
-- queued thread has never run or is runnable, and the one that runs is running or runnable.
abbrev pub IsKthread : (lib : RbLibrary) → (ℕ → Uthread) → KthreadContext lib.Tree → Type 0
IsKthread lib h k =
    IsRunqueue lib (record { heap = h; rq = k.krunqueue.runqueue })
    × ((p : ℕ)
        → k.krunqueue.cur_uthread ≡ some p
        → All (λ q. p ≢ q) (threads lib k.krunqueue.runqueue.tree))
    × Standing lib h k.krunqueue

-- The processors are below 16, each kernel thread is well formed, and no two of them have a thread in common.
pub record IsProgram (lib : RbLibrary) (w : World lib.Tree) : Type 0 where
  pub inside : (t : ℕ) (k : KthreadContext lib.Tree) → w.kthread_cpu_map t ≡ some k → t < 16
  pub each :
      (t : ℕ) (k : KthreadContext lib.Tree) → w.kthread_cpu_map t ≡ some k → IsKthread lib w.heap k
  pub apart :
      (s t : ℕ) (k k' : KthreadContext lib.Tree)
      → w.kthread_cpu_map s ≡ some k
      → w.kthread_cpu_map t ≡ some k'
      → s ≢ t
      → All (Foreign lib k') (owned lib k)

-- A kernel thread is as it was when memory changes elsewhere.
pub elsewhere-IsKthread :
    (lib : RbLibrary) (h h' : ℕ → Uthread) (k : KthreadContext lib.Tree)
    → All (λ p. h' p ≡ h p) (owned lib k)
    → IsKthread lib h k
    → IsKthread lib h' k
elsewhere-IsKthread lib h h' k same (kept, away, stand) = (
  same-IsRunqueue lib k.krunqueue.runqueue h h'
      (All-imp
        (λ p e. (
          ap (λ (u : Uthread). u.vruntime) e,
          ap (λ (u : Uthread). u.node) e,
          ap (λ (u : Uthread). u.nice) e,
        ))
        _ (All-right (λ p. h' p ≡ h p) (cur_list k.krunqueue.cur_uthread) _ same))
      kept,
  away,
  record {
    queue =
        Waiting-same h h' _ (All-right (λ p. h' p ≡ h p) (cur_list k.krunqueue.cur_uthread) _ same)
          stand.queue;
    current = λ p cur.
        subst (λ (u : Uthread). Goes u.uthread_state)
          (sym (
            (subst
              (λ o. All (λ p. h' p ≡ h p) (cur_list o ++ threads lib k.krunqueue.runqueue.tree)) cur
              same).0))
          (stand.current p cur);
  },
)

-- The step of one kernel thread: it is well formed after it, it has none of the threads of the
-- others, and changes nothing of them; its own threads stay or have ended, and memory that no thread
-- uses changes only for a thread that joins; the threads are counted.
pub record Changed (lib : RbLibrary) (w v : World lib.Tree) (t : ℕ) : Type 0 where
  pub now : KthreadContext lib.Tree
  pub here : v.kthread_cpu_map t ≡ some now
  pub range : t < 16
  pub well : IsKthread lib v.heap now
  pub others :
      (s : ℕ) (b : KthreadContext lib.Tree)
      → v.kthread_cpu_map s ≡ some b
      → t ≢ s
      → (a : KthreadContext lib.Tree) × (w.kthread_cpu_map s ≡ some a) × (b.krunqueue ≡ a.krunqueue)
  pub stays :
      (s : ℕ) (a : KthreadContext lib.Tree)
      → w.kthread_cpu_map s ≡ some a
      → t ≢ s
      → (b : KthreadContext lib.Tree) × (v.kthread_cpu_map s ≡ some b)
  pub remains :
      (a : KthreadContext lib.Tree)
      → w.kthread_cpu_map t ≡ some a
      → (x : ℕ) → In x (owned lib a)
      → In x (owned lib now) ⊎ Over (v.heap x).uthread_state
  pub tally :
      Tally
        (size_at lib (w.kthread_cpu_map t))
        w.shared.kthread_cur_uthreads
        (size lib now)
        v.shared.kthread_cur_uthreads
  pub outside : (x : ℕ) → Unused lib w x → In x (owned lib now) ⊎ (v.heap x ≡ w.heap x)
  pub frame :
      (s : ℕ) (a : KthreadContext lib.Tree)
      → w.kthread_cpu_map s ≡ some a
      → t ≢ s
      → All (λ p. v.heap p ≡ w.heap p) (owned lib a)
  pub strange :
      (s : ℕ) (a : KthreadContext lib.Tree)
      → w.kthread_cpu_map s ≡ some a
      → t ≢ s
      → All (Foreign lib now) (owned lib a)

-- What a kernel thread has depends on its run queue only.
pub owned-same :
    (lib : RbLibrary) (a b : KthreadContext lib.Tree)
    → b.krunqueue ≡ a.krunqueue
    → owned lib a ≡ owned lib b
owned-same lib a b e =
    ap (λ (q : KthreadRunqueue lib.Tree). cur_list q.cur_uthread ++ threads lib q.runqueue.tree)
      (sym e)

module _ (lib : RbLibrary) (w v : World lib.Tree) (inv : IsProgram lib w) (t : ℕ)
    (change : Changed lib w v t) where
  changed-each :
      (s : ℕ) (k : KthreadContext lib.Tree) → v.kthread_cpu_map s ≡ some k → IsKthread lib v.heap k
  changed-each s k at_s = elim (ℕ_discrete t s) [
    | yes same ↦
        subst (IsKthread lib v.heap)
          (some_inj.0 (sym change.here ∙ subst (λ z. v.kthread_cpu_map z ≡ some k) (sym same) at_s))
          change.well
    | no other ↦
        let (a, was, same) = change.others s k at_s other in
        subst
          (λ (q : KthreadRunqueue lib.Tree).
            IsRunqueue lib (record { heap = v.heap; rq = q.runqueue })
            × ((p : ℕ) → q.cur_uthread ≡ some p → All (λ x. p ≢ x) (threads lib q.runqueue.tree))
            × Standing lib v.heap q)
          (sym same)
          (elsewhere-IsKthread lib w.heap v.heap a (change.frame s a was other) (inv.each s a was))
  ]

  changed-inside : (s : ℕ) (k : KthreadContext lib.Tree) → v.kthread_cpu_map s ≡ some k → s < 16
  changed-inside s k at_s = elim (ℕ_discrete t s) [
    | yes same ↦ subst (λ z. z < 16) same change.range
    | no other ↦ let (a, was, same) = change.others s k at_s other in inv.inside s a was
  ]

  changed-strange :
      (s : ℕ) (k k' : KthreadContext lib.Tree)
      → v.kthread_cpu_map s ≡ some k
      → v.kthread_cpu_map t ≡ some k'
      → t ≢ s
      → All (Foreign lib k') (owned lib k)
  changed-strange s k k' at_s at_t other =
      let (a, was, same) = change.others s k at_s other in
      subst (All (Foreign lib k')) (owned-same lib a k same) (
        subst (λ x. All (Foreign lib x) (owned lib a)) (some_inj.0 (sym change.here ∙ at_t))
          (change.strange s a was other))

  pub changed-IsProgram : IsProgram lib v
  changed-IsProgram = record {
    inside = changed-inside;
    each = changed-each;
    apart = λ s u k k' at_s at_u ne. elim (ℕ_discrete t s) [
      | yes here ↦ All-apart (owned lib k') (owned lib k) (
          changed-strange u k' k at_u (subst (λ z. v.kthread_cpu_map z ≡ some k) (sym here) at_s)
            (λ e. ne (sym here ∙ e)))
      | no other ↦ elim (ℕ_discrete t u) [
        | yes here ↦
            changed-strange s k k' at_s (subst (λ z. v.kthread_cpu_map z ≡ some k') (sym here) at_u)
              other
        | no further ↦
            let (a, was_a, same_a) = change.others s k at_s other in
            let (b, was_b, same_b) = change.others u k' at_u further in
            subst (λ ys. All (λ x. All (λ y. x ≢ y) ys) (owned lib k)) (owned-same lib b k' same_b)
              (subst (All (Foreign lib b)) (owned-same lib a k same_a)
                (inv.apart s u a b was_a was_b ne))
      ]
    ];
  }
