-- ===== src/Program/Posted.antt =====
-- About a thread that is posted to a processor, for the whole program.
use cfs_userspace.Prelude.{
  ◌+◌, ℕ_discrete, some_inj, ℕ, ◌≡◌, ◌≢◌, refl, sym, ◌∙◌, subst, some, All, All-imp, All-zip,
  All-left, All-right, All-append, All-insert_by, In, In-right, In-append-imp, In-insert_by,
  In-insert_by-old, inl, inr, ◌⊎◌, ◌++◌, arith, length, length-append, length-insert_by, insert_by,
}
use cfs_userspace.Uthread.{Uthread}
use cfs_userspace.RbLibrary.{RbLibrary}
use cfs_userspace.CfsRunqueue.{threads, vruntime_of}
use cfs_userspace.Kthread.{World, KthreadContext}
use cfs_userspace.Scheduler.Ownership.{cur_list, owned, Foreign, size}
use cfs_userspace.Scheduler.Standing.{Goes, Standing, Waits, Waiting, Waiting-frame}
use cfs_userspace.Scheduler.Entries.Entered.{not-Foreign}
use cfs_userspace.Creation.Queued.{IsFresh, QueuedOn}
use cfs_userspace.Program.{Unused, size_at, Tally}
use cfs_userspace.Program.Invariant.{IsProgram, owned-same}
use cfs_userspace.Program.Fates.{Continues, changed-Continues}

module _ (lib : RbLibrary) (w : World lib.Tree) (inv : IsProgram lib w) (p : ℕ)
    (unused : Unused lib w p) where
  pub unused-IsFresh : IsFresh lib w p
  unfolding IsFresh
  unused-IsFresh t k at_t = (
    (inv.each t k at_t).0,
    All-right (λ q. p ≢ q) (cur_list k.krunqueue.cur_uthread) _ (unused t k at_t),
  )

  module _ (v : World lib.Tree) (vruntime t : ℕ) (k : KthreadContext lib.Tree)
      (on : QueuedOn lib w v p vruntime t k) where
    -- What has none of the threads of the processor, and is not the new one, has none after it.
    queued-strange : (x : ℕ) → Foreign lib k x → p ≢ x → Foreign lib on.now x
    queued-strange x old new =
        All-append (λ q. x ≢ q) (cur_list on.now.krunqueue.cur_uthread)
          (threads lib on.now.krunqueue.runqueue.tree)
          (subst (λ o. All (λ q. x ≢ q) (cur_list o)) (sym on.current)
            (All-left (λ q. x ≢ q) (cur_list k.krunqueue.cur_uthread) _ old))
          (subst (All (λ q. x ≢ q)) (sym on.order) (
            All-insert_by (λ q. x ≢ q) (vruntime_of v.heap) p _ (λ e. new (sym e))
              (All-right (λ q. x ≢ q) (cur_list k.krunqueue.cur_uthread) _ old)))

    queued-away :
        (q : ℕ)
        → on.now.krunqueue.cur_uthread ≡ some q
        → All (λ x. q ≢ x) (threads lib on.now.krunqueue.runqueue.tree)
    queued-away q cur =
        let was : k.krunqueue.cur_uthread ≡ some q = sym on.current ∙ cur in
        subst (All (λ x. q ≢ x)) (sym on.order) (
          All-insert_by (λ x. q ≢ x) (vruntime_of v.heap) p _
            (not-Foreign lib k q was p (unused t k on.before)) ((inv.each t k on.before).1 q was))

    -- Nor does another unused address come into use.
    pub queued-Unused : (x : ℕ) → p ≢ x → Unused lib w x → Unused lib v x
    queued-Unused x new free s b at_s = elim (ℕ_discrete t s) [
      | yes here ↦
          subst (λ y. Foreign lib y x)
            (some_inj.0 (sym on.mapped ∙ subst (λ z. v.kthread_cpu_map z ≡ some b) (sym here) at_s))
            (queued-strange x (free t k on.before) new)
      | no other ↦
          let (a, was, same) = on.others s b at_s other in
          subst (All (λ q. x ≢ q)) (owned-same lib a b same) (free s a was)
    ]

    -- The threads that the processor had, and the new one.
    queued-remains : (x : ℕ) → In x (owned lib k) → In x (owned lib on.now)
    queued-remains x i =
        subst (λ o. In x (cur_list o ++ threads lib on.now.krunqueue.runqueue.tree))
          (sym on.current)
          (subst (λ ys. In x (cur_list k.krunqueue.cur_uthread ++ ys)) (sym on.order)
            (In-append-imp x (cur_list k.krunqueue.cur_uthread) _ _
              (In-insert_by-old (vruntime_of v.heap) p x _) i))

    pub queued-joins : In p (owned lib on.now)
    queued-joins =
        In-right p (cur_list on.now.krunqueue.cur_uthread) _
          (subst (In p) (sym on.order) (In-insert_by (vruntime_of v.heap) p _))

    queued-outside : (x : ℕ) → In x (owned lib on.now) ⊎ (v.heap x ≡ w.heap x)
    queued-outside x = elim (ℕ_discrete p x) [
      | yes same ↦ inl (subst (λ y. In y (owned lib on.now)) same queued-joins)
      | no other ↦ inr (on.frame x other)
    ]

    queued-Standing : Standing lib v.heap on.now.krunqueue
    queued-Standing =
        let old = unused t k on.before in
        let (kept, away, stand) = inv.each t k on.before in
        let queued = threads lib k.krunqueue.runqueue.tree in
        record {
          queue = subst (Waiting v.heap) (sym on.order) (
              All-insert_by (λ q. Waits (v.heap q).uthread_state) (vruntime_of v.heap) p queued
                (subst Waits (sym on.state) tt)
                (Waiting-frame w.heap v.heap p queued
                  (All-right (λ q. p ≢ q) (cur_list k.krunqueue.cur_uthread) queued old) on.frame
                  stand.queue));
          current = λ q cur.
              let was : k.krunqueue.cur_uthread ≡ some q = sym on.current ∙ cur in
              subst (λ (u : Uthread). Goes u.uthread_state)
                (sym (on.frame q (λ e. not-Foreign lib k q was p old (sym e))))
                (stand.current q was);
        }

    queued_size : size lib on.now ≡ size lib k + 1
    queued_size =
        let queued = threads lib k.krunqueue.runqueue.tree in
        let after = insert_by (vruntime_of v.heap) p queued in
        let current = cur_list k.krunqueue.cur_uthread in
        let grown : size lib on.now ≡ length (current ++ after) = rw (on.current, on.order) refl in
        omega (
          arith,
          grown,
          length-append current after,
          length-append current queued,
          length-insert_by (vruntime_of v.heap) p queued,
        )

    pub queued-Continues : Continues lib w v
    queued-Continues = changed-Continues lib w v inv t (record {
      now = on.now;
      here = on.mapped;
      well = (on.kept, queued-away, queued-Standing);
      range = inv.inside t k on.before;
      tally =
          subst
            (λ o.
              Tally (size_at lib o) w.shared.kthread_cur_uthreads (size lib on.now)
                v.shared.kthread_cur_uthreads)
            (sym on.before) (inr (queued_size, on.count));
      others = on.others;
      stays = λ s a at_s ne. let (b, at_b, same) = on.masters s a at_s in (b, at_b);
      remains = λ a at_a x i. inl (
          queued-remains x (subst (λ y. In x (owned lib y)) (some_inj.0 (sym at_a ∙ on.before)) i));
      outside = λ x free. queued-outside x;
      frame = λ s a at_s ne. All-imp (λ x new. on.frame x new) _ (unused s a at_s);
      strange = λ s a at_s ne.
          All-zip queued-strange (owned lib a) (inv.apart s t a k at_s on.before (λ e. ne (sym e)))
            (unused s a at_s);
    })
