-- ===== src/Program/Fates.antt =====
-- What becomes of a thread over the steps of the program.
use cfs_userspace.Prelude.{
  ℕ, ◌≡◌, ◌≢◌, sym, ◌∙◌, subst, some, some_inj, All, All-In, In, In-or-apart, ◌⊎◌, inl, inr,
  ℕ_discrete, refl, All-imp, store_self, store_other,
}
use cfs_userspace.Uthread.{Uthread}
use cfs_userspace.RbLibrary.{RbLibrary}
use cfs_userspace.Kthread.{Cpu, World, KthreadContext}
use cfs_userspace.Scheduler.Ownership.{owned, Foreign, Over, Confined, size, Settled}
use cfs_userspace.Scheduler.Standing.{Standing}
use cfs_userspace.Scheduler.Pass.{IsCpu}
use cfs_userspace.Program.{Unused, commit, size_at, Tally}
use cfs_userspace.Program.Counting.{IsCounted, changed-IsCounted}
use cfs_userspace.Program.Invariant.{IsProgram, Changed, owned-same, changed-IsProgram}

-- A thread is current or queued on processor `t`.
pub record HeldAt (lib : RbLibrary) (w : World lib.Tree) (x t : ℕ) : Type 0 where
  pub context : KthreadContext lib.Tree
  pub at : w.kthread_cpu_map t ≡ some context
  pub has : In x (owned lib context)

-- A thread is current or queued on some processor.
abbrev pub Held : (lib : RbLibrary) → World lib.Tree → ℕ → Type 0
Held lib w x = (t : ℕ) × HeldAt lib w x t

-- A thread has ended, and is current or queued nowhere.
abbrev pub Ended : (lib : RbLibrary) → World lib.Tree → ℕ → Type 0
Ended lib w x = Unused lib w x × Over (w.heap x).uthread_state

-- A thread is current or queued somewhere, or it has ended.
abbrev pub Fate : (lib : RbLibrary) → World lib.Tree → ℕ → Type 0
Fate lib w x = Held lib w x ⊎ Ended lib w x

-- The program goes on, and with it the threads.
pub record Continues (lib : RbLibrary) (w v : World lib.Tree) : Type 0 where
  pub kept : IsProgram lib v
  pub fates : (x : ℕ) → Fate lib w x → Fate lib v x
  pub stays : (x t : ℕ) → HeldAt lib w x t → HeldAt lib v x t ⊎ Ended lib v x
  pub counts : (base : ℕ) → IsCounted lib base w → IsCounted lib base v

-- Two calls in a row, the first of which moves no thread.
pub Continues-trans :
    (lib : RbLibrary) (w u v : World lib.Tree)
    → Continues lib w u
    → ((x t : ℕ) → HeldAt lib w x t → HeldAt lib u x t)
    → Continues lib u v
    → Continues lib w v
Continues-trans lib w u v a still b = record {
  kept = b.kept;
  fates = λ x fate. b.fates x (a.fates x fate);
  stays = λ x t held. b.stays x t (still x t held);
  counts = λ base count. b.counts base (a.counts base count);
}

module _ (lib : RbLibrary) (w v : World lib.Tree) (inv : IsProgram lib w) (t : ℕ)
    (change : Changed lib w v t) where
  -- What none of the processors had before, and the one that moved has not, none has.
  changed-Unused :
      (x : ℕ)
      → Foreign lib change.now x
      → ((s : ℕ) (a : KthreadContext lib.Tree)
          → w.kthread_cpu_map s ≡ some a
          → t ≢ s
          → Foreign lib a x)
      → Unused lib v x
  changed-Unused x mine theirs s b at_s = elim (ℕ_discrete t s) [
    | yes same ↦
        subst (λ y. Foreign lib y x)
          (some_inj.0 (sym change.here ∙ subst (λ z. v.kthread_cpu_map z ≡ some b) (sym same) at_s))
          mine
    | no other ↦
        let (a, was, same) = change.others s b at_s other in
        subst (All (λ q. x ≢ q)) (owned-same lib a b same) (theirs s a was other)
  ]

  changed-Held : (x : ℕ) → In x (owned lib change.now) → HeldAt lib v x t
  changed-Held x i = record { context = change.now; at = change.here; has = i }

  -- A thread of the processor that moved.
  mover-HeldAt :
      (x : ℕ) (a : KthreadContext lib.Tree)
      → w.kthread_cpu_map t ≡ some a
      → In x (owned lib a)
      → HeldAt lib v x t ⊎ Ended lib v x
  mover-HeldAt x a at_t i = elim (In-or-apart x (owned lib change.now)) [
    | inl mine ↦ inl (changed-Held x mine)
    | inr gone ↦ elim (change.remains a at_t x i) [
      | inl mine ↦ inl (changed-Held x mine)
      | inr over ↦ inr (
        changed-Unused x gone (λ s b at_s ne.
            All-In (Foreign lib b) x (owned lib a) (inv.apart t s a b at_t at_s ne) i),
        over,
      )
    ]
  ]

  -- A thread of another processor.
  other-HeldAt :
      (x s : ℕ) (a : KthreadContext lib.Tree)
      → w.kthread_cpu_map s ≡ some a
      → t ≢ s
      → In x (owned lib a)
      → HeldAt lib v x s
  other-HeldAt x s a at_s ne i =
      let (b, at_b) = change.stays s a at_s ne in
      let (a', was, same) = change.others s b at_b ne in
      record {
        context = b;
        at = at_b;
        has =
            subst (In x) (owned-same lib a' b same)
              (subst (λ y. In x (owned lib y)) (some_inj.0 (sym at_s ∙ was)) i);
      }

  changed-HeldAt : (x s : ℕ) → HeldAt lib w x s → HeldAt lib v x s ⊎ Ended lib v x
  changed-HeldAt x s held = elim (ℕ_discrete t s) [
    | yes same ↦
        subst (λ z. HeldAt lib v x z ⊎ Ended lib v x) same
          (mover-HeldAt x held.context
            (subst (λ z. w.kthread_cpu_map z ≡ some held.context) (sym same) held.at) held.has)
    | no other ↦ inl (other-HeldAt x s held.context held.at other held.has)
  ]

  changed-Fate : (x : ℕ) → Fate lib w x → Fate lib v x
  changed-Fate x (inl (s, held)) = elim (changed-HeldAt x s held) [
    | inl there ↦ inl (s, there)
    | inr over ↦ inr over
  ]
  changed-Fate x (inr (free, over)) = elim (In-or-apart x (owned lib change.now)) [
    | inl mine ↦ inl (t, changed-Held x mine)
    | inr gone ↦ elim (change.outside x free) [
      | inl mine ↦ inl (t, changed-Held x mine)
      | inr same ↦ inr (
        changed-Unused x gone (λ s a at_s ne. free s a at_s),
        subst (λ (u : Uthread). Over u.uthread_state) (sym same) over,
      )
    ]
  ]

  pub changed-Continues : Continues lib w v
  changed-Continues = record {
    kept = changed-IsProgram lib w v inv t change;
    fates = changed-Fate;
    stays = changed-HeldAt;
    counts = changed-IsCounted lib w v t change;
  }

-- What one kernel thread does to its own threads keeps the program.
pub commit-Continues :
    (lib : RbLibrary) (w : World lib.Tree)
    → IsProgram lib w
    → (cpu : ℕ) (k : KthreadContext lib.Tree) → w.kthread_cpu_map cpu ≡ some k
    → (e : Cpu lib.Tree) → IsCpu lib e
    → Confined lib w.heap k e
    → Standing lib e.heap e.k_ctx.krunqueue
    → Settled
        (size lib k)
        w.shared.kthread_cur_uthreads
        (size lib e.k_ctx)
        e.shared.kthread_cur_uthreads
    → Continues lib w (commit w cpu e)
commit-Continues lib w inv cpu k at_cpu e ok_cpu own stands settled =
    let strangers : (s : ℕ) (a : KthreadContext lib.Tree)
        → w.kthread_cpu_map s ≡ some a
        → cpu ≢ s
        → All (Foreign lib k) (owned lib a) =
      λ s a at_s ne. inv.apart s cpu a k at_s at_cpu (λ f. ne (sym f)) in
    changed-Continues lib w (commit w cpu e) inv cpu (record {
      now = e.k_ctx;
      here = store_self w.kthread_cpu_map cpu (some e.k_ctx);
      well = (ok_cpu.kept, ok_cpu.away, stands);
      range = inv.inside cpu k at_cpu;
      tally =
          subst
            (λ o.
              Tally (size_at lib o) w.shared.kthread_cur_uthreads (size lib e.k_ctx)
                e.shared.kthread_cur_uthreads)
            (sym at_cpu) (inl settled);
      others = λ s b at_s ne.
          (b, sym (store_other w.kthread_cpu_map cpu s (some e.k_ctx) ne) ∙ at_s, refl);
      stays = λ s a at_s ne. (a, store_other w.kthread_cpu_map cpu s (some e.k_ctx) ne ∙ at_s);
      remains = λ a at_a x i.
          own.remains x (subst (λ y. In x (owned lib y)) (some_inj.0 (sym at_a ∙ at_cpu)) i);
      outside = λ x free. inr (own.frame x (free cpu k at_cpu));
      frame = λ s a at_s ne. All-imp own.frame _ (strangers s a at_s ne);
      strange = λ s a at_s ne. All-imp own.foreign _ (strangers s a at_s ne);
    })
