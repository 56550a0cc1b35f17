-- ===== src/Program/Starting.antt =====
-- About the parts of gtthread_app_init, for the whole program.
use cfs_userspace.Prelude.{
  ℕ, ◌+◌, ◌%◌, arith, length, In, inl, inr, ℕ_discrete, ◌++◌, ◌^◌, ◌≡◌, ◌≢◌, ◌<◌, refl, sym, ap,
  ◌∙◌, subst, [], none, some, some_inj, Exec, ok, fault, All, All-imp, All-always, All-zip,
  All-right, store, store_self, store_other,
}
use cfs_userspace.Uthread.{Uthread, Timeval}
use cfs_userspace.RbLibrary.{RbLibrary}
use cfs_userspace.CfsRunqueue.{threads}
use cfs_userspace.CfsRunqueue.Invariant.{IsRunqueue}
use cfs_userspace.Kthread.{World, KthreadContext, KschedSharedInfo, put_context}
use cfs_userspace.Scheduler.Queue.{same-IsRunqueue, outside-same}
use cfs_userspace.Scheduler.Ownership.{cur_list, owned, size}
use cfs_userspace.Scheduler.Standing.{Goes, Waiting, Waiting-frame}
use cfs_userspace.Creation.{create_master_uthread}
use cfs_userspace.Creation.Master.{master_uthread, mastered, create_master_uthread_lem}
use cfs_userspace.App.{Served, Identity, kthread_init}
use cfs_userspace.App.Startup.{kthread_init_lem}
use cfs_userspace.Program.{Unused, size_at, Tally}
use cfs_userspace.Program.Invariant.{IsProgram, Changed}
use cfs_userspace.Program.Fates.{Continues, changed-Continues}

-- The master thread becomes the one that runs.
module _ (lib : RbLibrary) (w : World lib.Tree) (inv : IsProgram lib w) (cpu : ℕ)
    (k : KthreadContext lib.Tree) (at_cpu : w.kthread_cpu_map cpu ≡ some k) (p sp : ℕ)
    (now : Timeval) (idle : k.krunqueue.cur_uthread ≡ none) (unused : Unused lib w p) where
  abbrev master : Uthread
  master = master_uthread w.shared.kthread_tot_uthreads sp now

  queued_others : All (λ q. p ≢ q) (threads lib k.krunqueue.runqueue.tree)
  queued_others = All-right (λ q. p ≢ q) (cur_list k.krunqueue.cur_uthread) _ (unused cpu k at_cpu)

  mastered_size : size lib (mastered k p) ≡ size lib k + 1
  mastered_size =
      let none_current : size lib k ≡ length (threads lib k.krunqueue.runqueue.tree) =
        ap (λ o. length (cur_list o ++ threads lib k.krunqueue.runqueue.tree)) idle in
      omega (arith, none_current)

  mastered-Changed :
      (v : World lib.Tree)
      → v.heap ≡ store w.heap p master
      → v.kthread_cpu_map ≡ w.kthread_cpu_map
      → v.shared.kthread_cur_uthreads ≡ (w.shared.kthread_cur_uthreads + 1) % 2 ^ 32
      → Changed lib w (put_context v cpu (mastered k p)) cpu
  mastered-Changed v heap map live = record {
    now = mastered k p;
    here = store_self v.kthread_cpu_map cpu (some (mastered k p));
    range = inv.inside cpu k at_cpu;
    tally =
        subst
          (λ o.
            Tally (size_at lib o) w.shared.kthread_cur_uthreads (size lib (mastered k p))
              v.shared.kthread_cur_uthreads)
          (sym at_cpu) (inr (mastered_size, live));
    well = (
      subst (λ h. IsRunqueue lib (record { heap = h; rq = k.krunqueue.runqueue })) (sym heap)
          (same-IsRunqueue lib k.krunqueue.runqueue w.heap (store w.heap p master)
            (outside-same w.heap p master _ queued_others) (inv.each cpu k at_cpu).0),
      λ q cur.
          subst (λ x. All (λ y. x ≢ y) (threads lib k.krunqueue.runqueue.tree)) (some_inj.0 cur)
            queued_others,
      record {
        queue =
            subst (λ h. Waiting h (threads lib k.krunqueue.runqueue.tree)) (sym heap)
              (Waiting-frame w.heap (store w.heap p master) p _ queued_others
                (λ q ne. store_other w.heap p q master ne) (inv.each cpu k at_cpu).2.queue);
        current = λ q cur.
            subst (λ x. Goes (v.heap x).uthread_state) (some_inj.0 cur)
              (subst (λ (u : Uthread). Goes u.uthread_state)
                (sym (ap (λ f. f p) heap ∙ store_self w.heap p master)) tt);
      },
    );
    others = λ s b at_s ne. (
      b,
      ap (λ f. f s) (sym map) ∙ (sym (store_other v.kthread_cpu_map cpu s _ ne) ∙ at_s),
      refl,
    );
    stays =
        λ s a at_s ne. (a, store_other v.kthread_cpu_map cpu s _ ne ∙ (ap (λ f. f s) map ∙ at_s));
    remains = λ a at_a x i. inl (
        inr (
          subst (λ o. In x (cur_list o ++ threads lib k.krunqueue.runqueue.tree)) idle
            (subst (λ y. In x (owned lib y)) (some_inj.0 (sym at_a ∙ at_cpu)) i)));
    outside = λ x free. elim (ℕ_discrete p x) [
      | yes same ↦ inl (inl (sym same))
      | no other ↦ inr (ap (λ f. f x) heap ∙ store_other w.heap p x master other)
    ];
    frame = λ s a at_s ne.
        All-imp (λ x new. ap (λ f. f x) heap ∙ store_other w.heap p x master new) _
          (unused s a at_s);
    strange = λ s a at_s ne.
        All-zip
          (λ x old new.
            ((λ e. new (sym e)), All-right (λ q. x ≢ q) (cur_list k.krunqueue.cur_uthread) _ old))
          (owned lib a) (inv.apart s cpu a k at_s at_cpu (λ e. ne (sym e))) (unused s a at_s);
  }

  pub create_master_uthread-Continues :
      (v : World lib.Tree) (k' : KthreadContext lib.Tree)
      → p ≢ 0
      → sp ≢ 0
      → create_master_uthread lib w k p sp now ≡ ok (v, k')
      → Continues lib w (put_context v cpu k')
  create_master_uthread-Continues v k' block stack run =
      let (v', run', heap, map, count, total) =
        create_master_uthread_lem lib w k p sp now block stack in
      subst (λ (r : Exec (World lib.Tree × KthreadContext lib.Tree)). After r) (sym run' ∙ run)
        (changed-Continues lib w _ inv cpu (mastered-Changed v' heap map count))
    where
      After : Exec (World lib.Tree × KthreadContext lib.Tree) → Type 0
      After (ok (v, k')) = Continues lib w (put_context v cpu k')
      After (fault f) = Unit

-- No thread runs, and none is queued.
pub nothing-owned :
    (lib : RbLibrary) (k : KthreadContext lib.Tree)
    → k.krunqueue.cur_uthread ≡ none
    → threads lib k.krunqueue.runqueue.tree ≡ []
    → owned lib k ≡ []
nothing-owned lib k off empty = rw (off, empty) refl

module _ (lib : RbLibrary) (w : World lib.Tree) (inv : IsProgram lib w) (me : Identity)
    (zeroed : KthreadContext lib.Tree) where
  pub kthread_init-Continues :
      (v : World lib.Tree)
      → w.kthread_cpu_map me.apic_id ≡ none
      → zeroed.krunqueue.cur_uthread ≡ none
      → Served me
      → me.apic_id < 16
      → kthread_init lib me w zeroed ≡ ok v
      → Continues lib w v
  kthread_init-Continues v free idle small range run =
      let (v', k, run', here, started, others, heap, current, counters) =
        kthread_init_lem lib me w zeroed small range in
      subst After (sym run' ∙ run) (
        changed-Continues lib w v' inv me.apic_id (record {
          now = k;
          here = here;
          range = range;
          tally =
              subst
                (λ o.
                  Tally (size_at lib o) w.shared.kthread_cur_uthreads (size lib k)
                    v'.shared.kthread_cur_uthreads)
                (sym free)
                (inl (
                  inl (
                    ap length (nothing-owned lib k (current ∙ idle) started.empty),
                    ap (λ (i : KschedSharedInfo). i.kthread_cur_uthreads) counters,
                  )));
          well = (
            started.kept,
            λ p cur. subst (All (λ x. p ≢ x)) (sym started.empty) tt,
            record {
              queue = subst (Waiting v'.heap) (sym started.empty) tt;
              current = λ p cur. absurd (idle_none p (sym (current ∙ idle) ∙ cur));
            },
          );
          others = λ s b at_s ne. (b, sym (others s ne) ∙ at_s, refl);
          stays = λ s a at_s ne. (a, others s ne ∙ at_s);
          remains = λ a at_a x i. absurd (unmapped a (sym free ∙ at_a));
          outside = λ x unused. inr (ap (λ f. f x) heap);
          frame = λ s a at_s ne. All-always (λ x. ap (λ f. f x) heap) (owned lib a);
          strange = λ s a at_s ne.
              All-always
                (λ x.
                  subst (All (λ y. x ≢ y))
                    (sym (nothing-owned lib k (current ∙ idle) started.empty)) tt)
                (owned lib a);
        }))
    where
      After : Exec (World lib.Tree) → Type 0
      After (ok v) = Continues lib w v
      After (fault f) = Unit

      unmapped : (a : KthreadContext lib.Tree) → none ≡ some a → ⊥
      unmapped a e = cc

      idle_none : (p : ℕ) → none ≡ some p → ⊥
      idle_none p e = cc
