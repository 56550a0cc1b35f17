-- ===== src/Examples/Programs.antt =====
-- A program that starts a kernel thread on processor 0, with master thread 5, and creates thread 7.
use cfs_userspace.Prelude.{
  ℕ, suc, List, ◌∷◌, ◌↔◌, ok, success, length, ◌⊎◌, ◌≡◌, ◌≢◌, refl, sym, ap, ◌∙◌, subst, none, some,
  some_inj, arith, All, [], In, In-right, In-insert_by, Distinct, store_self, store_other,
  ℕ_discrete,
}
use cfs_userspace.Uthread.{runnable}
use cfs_userspace.RbLibrary.Spine.{Spine}
use cfs_userspace.RbLibrary.Spine.Library.{spines}
use cfs_userspace.CfsRunqueue.{threads, vruntime_of}
use cfs_userspace.Kthread.{World, KthreadContext, KschedSharedInfo, put_context}
use cfs_userspace.Scheduler.Ownership.{cur_list, owned, Foreign, Over}
use cfs_userspace.Creation.Master.{mastered, create_master_uthread_lem}
use cfs_userspace.Creation.Success.{uthread_create_lem}
use cfs_userspace.App.{Identity}
use cfs_userspace.App.Startup.{kthread_init_lem}
use cfs_userspace.Creation.{Created, uthread_create}
use cfs_userspace.Program.{
  size_at, Unused, Reach, here, next, starts, masters, creates, opens, start,
}
use cfs_userspace.Program.Fates.{HeldAt, Held, Ended}
use cfs_userspace.Program.Affinity.{EndedBetween, never_moved}
use cfs_userspace.Program.Runs.{Runs, Runs-Reach, more, stop, never_lost}
use cfs_userspace.Program.Counting.{total, total-change, total-unmapped}
use cfs_userspace.Program.Waiting.{NoThreads, wait_for_uthreads_lem}
use cfs_userspace.App.{wait_for_uthreads}
use cfs_userspace.Program.Invariant.{IsProgram}
use cfs_userspace.Program.Posted.{unused-IsFresh}
use cfs_userspace.Program.Exclusion.{Reach-IsProgram, exclusive}
use cfs_userspace.Examples.{memory, context, counters, none_queued}
use cfs_userspace.Examples.Creating.{request}

abbrev me : Identity
me = record { pid = 10; tid = 10; apic_id = 0; name_block = 20; runqueue_block = 21 }

abbrev pub zeroed : KthreadContext Spine
zeroed = record (context none_queued none) {
  krunqueue = record (context none_queued none).krunqueue { cur_uthread = none };
}

-- No thread is counted yet.
abbrev no_count : KschedSharedInfo
no_count = record counters { kthread_tot_uthreads = 0; kthread_cur_uthreads = 0 }

abbrev before : World Spine
before = start (memory runnable) no_count

before-Reach : (v : World Spine) → Runs spines before v → Reach spines v
before-Reach v runs = Runs-Reach spines before v (here (memory runnable) no_count) runs

-- The kernel thread has started.
booted :
    (v : World Spine) × (k : KthreadContext Spine) × Runs spines before v
    × (v.kthread_cpu_map 0 ≡ some k)
    × (k.krunqueue.cur_uthread ≡ none)
    × (threads spines k.krunqueue.runqueue.tree ≡ [])
    × ((cpu : ℕ) → 0 ≢ cpu → v.kthread_cpu_map cpu ≡ none)
booted =
    let (v, k, run, at, started, others, heap, cur, shared) =
      kthread_init_lem spines me before zeroed (omega arith, λ e. omega arith, λ e. omega arith)
        (omega arith) in
    (
      v,
      k,
      more stop (
          starts me zeroed refl refl (omega arith, λ e. omega arith, λ e. omega arith) (omega arith)
            run),
      at,
      cur,
      started.empty,
      others,
    )

-- Only processor 0 is mapped.
alone :
    (P : KthreadContext Spine → Type 0) (w : World Spine) (k : KthreadContext Spine)
    → w.kthread_cpu_map 0 ≡ some k
    → ((cpu : ℕ) → 0 ≢ cpu → w.kthread_cpu_map cpu ≡ none)
    → P k
    → (t : ℕ) (b : KthreadContext Spine) → w.kthread_cpu_map t ≡ some b
    → P b
alone P w k at others good t b at_t = elim (ℕ_discrete 0 t) [
  | yes same ↦
      subst P (some_inj.0 (sym at ∙ subst (λ z. w.kthread_cpu_map z ≡ some b) (sym same) at_t)) good
  | no other ↦ absurd (unmapped (sym (others t other) ∙ at_t))
]
  where
    unmapped : none ≡ some b → ⊥
    unmapped e = cc

-- The master thread is there.
ready :
    (w : World Spine) × (k : KthreadContext Spine) × Runs spines before w
    × (w.kthread_cpu_map 0 ≡ some (mastered k 5))
    × (threads spines k.krunqueue.runqueue.tree ≡ [])
    × ((cpu : ℕ) → 0 ≢ cpu → w.kthread_cpu_map cpu ≡ none)
ready =
    let (v, k, runs, at, cur, empty, others) = booted in
    let (u, run, heap, map, count, total) =
      create_master_uthread_lem spines v k 5 9 (record { tv_sec = 0; tv_usec = 0 })
        (λ e. omega arith) (λ e. omega arith) in
    let unused : Unused spines v 5 =
      alone (λ b. Foreign spines b 5) v k at others (rw (cur, empty) tt) in
    (
      put_context u 0 (mastered k 5),
      k,
      more runs (
          masters 0 k 5 9 (record { tv_sec = 0; tv_usec = 0 }) at cur (λ e. omega arith)
            (λ e. omega arith) unused run),
      store_self u.kthread_cpu_map 0 (some (mastered k 5)),
      empty,
      λ cpu ne. store_other u.kthread_cpu_map 0 cpu _ ne ∙ (ap (λ f. f cpu) map ∙ others cpu ne),
    )

ready-Reach : Reach spines ready.0
ready-Reach = before-Reach ready.0 ready.2

-- Address 7 is not in use yet.
ready-Unused : Unused spines ready.0 7
ready-Unused =
    alone (λ b. Foreign spines b 7) ready.0 (mastered ready.1 5) ready.3 ready.5
      ((λ e. omega arith), subst (All (λ q. 7 ≢ q)) (sym ready.4) tt)

-- The call that creates thread 7.
making :
    (made : Created) × (v : World Spine) × (t : ℕ) × (k : KthreadContext Spine) × (uthread_create
        spines ready.0 0 request
      ≡ ok (made, v))
    × (v.kthread_cpu_map t ≡ some k)
    × In 7 (owned spines k)
making =
    let (t, kt, v, run, new, on) =
      uthread_create_lem spines ready.0 0 (mastered ready.1 5) 5 request ready.3 refl (omega arith)
        (omega arith) (λ e. omega arith) (λ e. omega arith)
        (unused-IsFresh spines ready.0 (Reach-IsProgram spines ready.0 ready-Reach) 7
          ready-Unused) in
    (
      record {
        status = success;
        u_tid = some ready.0.shared.kthread_tot_uthreads;
        notified = some kt.tid;
      },
      v,
      t,
      on.now,
      run,
      on.mapped,
      In-right 7 (cur_list on.now.krunqueue.cur_uthread) _
          (subst (In 7) (sym on.order) (In-insert_by (vruntime_of v.heap) 7 _)),
    )

-- Thread 7 is created, and queued on some processor.
created :
    (v : World Spine) × (t : ℕ) × (k : KthreadContext Spine) × Reach spines v
    × (v.kthread_cpu_map t ≡ some k)
    × In 7 (owned spines k)
created = (
  making.1,
  making.2,
  making.3,
  next ready-Reach (
      creates 0 (mastered ready.1 5) 5 request ready.3 refl (omega arith) (omega arith)
        (λ e. omega arith) (λ e. omega arith) ready-Unused making.4),
  making.5,
  making.6,
)

Reach-IsProgram_example : IsProgram spines created.0
Reach-IsProgram_example = Reach-IsProgram spines created.0 created.3

exclusive_example : (created.1 ≡ created.1) × Distinct (owned spines created.2)
exclusive_example =
    exclusive spines created.0 created.1 created.1 7 created.2 created.2 created.3 created.4
      created.4 created.5 created.5

-- The processor of thread 7 is opened next.
abbrev opened : World Spine
opened = put_context making.1 making.2 (record making.3 { do_not_disturb = 0 })

never_lost_example :
    (Held spines opened 7 × ¬ (Over (opened.heap 7).uthread_state)) ⊎ Ended spines opened 7
never_lost_example =
    never_lost spines ready.0 making.1 opened 0 5 (mastered ready.1 5) request making.0 ready-Reach
      ready.3 refl (omega arith) (omega arith) (λ e. omega arith) (λ e. omega arith) ready-Unused
      making.4 (more stop (opens making.2 making.3 making.5))

-- The same, from a state that is known to be reached.
abbrev reopened : World Spine
reopened = put_context created.0 created.1 (record created.2 { do_not_disturb = 0 })

never_moved_example : HeldAt spines reopened 7 created.1 ⊎ EndedBetween spines created.0 reopened 7
never_moved_example =
    never_moved spines created.0 reopened 7 created.1 created.3
      (record { context = created.2; at = created.4; has = created.5 })
      (more stop (opens created.1 created.2 created.4))

ready_total : total spines ready.0.kthread_cpu_map 16 ≡ 1
ready_total =
    let change =
      total-change spines (λ _. none) ready.0.kthread_cpu_map 0 16 (omega arith)
        (λ t ne. ap (size_at spines) (ready.5 t ne)) in
    let main : size_at spines (ready.0.kthread_cpu_map 0) ≡ 1 =
      ap (size_at spines) ready.3 ∙ ap (λ (qs : List ℕ). suc (length qs)) ready.4 in
    omega (arith, change, main, total-unmapped spines 16)

wait_for_uthreads_example :
    (ready.0.shared.kthread_cur_uthreads ≡ total spines ready.0.kthread_cpu_map 16)
    × ((wait_for_uthreads (ready.0.shared.kthread_cur_uthreads ∷ []) ≡ ok tt)
        ↔ NoThreads spines ready.0)
wait_for_uthreads_example =
    wait_for_uthreads_lem spines (memory runnable) no_count ready.0 refl ready.2
      (omega (arith, ready_total))
