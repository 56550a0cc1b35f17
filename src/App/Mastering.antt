-- ===== src/App/Mastering.antt =====
-- About gtthread_app_init in gt_kthread.c up to create_master_uthread.
use cfs_userspace.Prelude.{
  ◌≤◌, length, ℕ, ◌+◌, ◌%◌, ◌^◌, All-right, ◌≡◌, ◌≢◌, ◌<◌, sym, ap, ◌∙◌, subst, List, ◌∷◌, map,
  none, some, ok, All, Distinct, arith, store_self, store_other,
}
use cfs_userspace.Signal.{timer_handler}
use cfs_userspace.RbLibrary.{RbLibrary}
use cfs_userspace.Kthread.{World, KthreadContext, KschedSharedInfo, put_context}
use cfs_userspace.Target.{is_some}
use cfs_userspace.Scheduler.Ownership.{cur_list, Foreign}
use cfs_userspace.Creation.Master.{mastered, create_master_uthread_lem}
use cfs_userspace.Creation.{create_master_uthread}
use cfs_userspace.App.{Served, Identity, kthread_init, Boot, Master, mapped}
use cfs_userspace.App.Startup.{kthread_init_lem}
use cfs_userspace.App.Counting.{mapped-none, mapped-put}
use cfs_userspace.App.Booting.{IsBoot, mapped-Unused, apic_of, present}
use cfs_userspace.Program.{Unused}
use cfs_userspace.Program.Invariant.{IsProgram}
use cfs_userspace.Program.Starting.{
  kthread_init-Continues, create_master_uthread-Continues, nothing-owned,
}

-- Before gtthread_app_init no kernel thread is mapped.
abbrev pub Unstarted : {Tree : Type 0} → World Tree → Type 0
Unstarted {Tree} w = (t : ℕ) → w.kthread_cpu_map t ≡ none

-- What gtthread_app_init needs: memory, and processors of their own for the kernel threads.
pub record IsInit {Tree : Type 0} (main : Boot Tree) (master : Master) (others : List (Boot Tree))
    : Type 0 where
  pub block : main.block ≢ 0
  pub small : Served main.me
  pub range : main.me.apic_id < 16
  pub idle : main.zeroed.krunqueue.cur_uthread ≡ none
  pub struct : master.u_new ≢ 0
  pub stack : master.ss_sp ≢ 0
  pub starting : All (λ s. mapped 16 s 0 ≤ length others + 1) master.starting
  pub boots : All IsBoot others
  pub distinct : Distinct (map apic_of (main ∷ others))

module _ (lib : RbLibrary) (w : World lib.Tree) (fresh : Unstarted w) where
  unmapped : (t : ℕ) (k : KthreadContext lib.Tree) → w.kthread_cpu_map t ≡ some k → ⊥
  unmapped t k e = none_some (sym (fresh t) ∙ e)
    where
      none_some : none ≡ some k → ⊥
      none_some f = cc

  unstarted-IsProgram : IsProgram lib w
  unstarted-IsProgram = record {
    inside = λ t k e. absurd (unmapped t k e);
    each = λ t k e. absurd (unmapped t k e);
    apart = λ s t k k' e f ne. absurd (unmapped s k e);
  }

-- The main kernel thread has started, and runs the master thread; no other one has started.
pub record IsMain (lib : RbLibrary) (w v : World lib.Tree) (id p : ℕ) (k : KthreadContext lib.Tree)
    : Type 0 where
  pub kept : IsProgram lib v
  pub at : v.kthread_cpu_map id ≡ some k
  pub scheduler : k.kthread_sched_timer ≡ timer_handler
  pub elsewhere : (t : ℕ) → id ≢ t → v.kthread_cpu_map t ≡ none
  pub one : mapped 16 (present v) 0 ≡ 1
  pub total : v.shared.kthread_tot_uthreads ≡ (w.shared.kthread_tot_uthreads + 1) % 2 ^ 32
  pub count : v.shared.kthread_cur_uthreads ≡ (w.shared.kthread_cur_uthreads + 1) % 2 ^ 32
  pub unused : (x : ℕ) → p ≢ x → Unused lib v x

-- The main kernel thread has started, and has no threads yet; no other one has started.
record IsBooted (lib : RbLibrary) (w v : World lib.Tree) (id : ℕ) (k : KthreadContext lib.Tree)
    : Type 0 where
  kept : IsProgram lib v
  at : v.kthread_cpu_map id ≡ some k
  scheduler : k.kthread_sched_timer ≡ timer_handler
  away : (t : ℕ) → id ≢ t → v.kthread_cpu_map t ≡ none
  idle : k.krunqueue.cur_uthread ≡ none
  owns : (x : ℕ) → Foreign lib k x
  free : (x : ℕ) → Unused lib v x
  shared : v.shared ≡ w.shared

boots-IsBooted :
    (lib : RbLibrary) (w : World lib.Tree) (me : Identity) (zeroed : KthreadContext lib.Tree)
    → Unstarted w
    → Served me
    → me.apic_id < 16
    → zeroed.krunqueue.cur_uthread ≡ none
    → (v : World lib.Tree) × (k : KthreadContext lib.Tree) × (kthread_init lib me w zeroed ≡ ok v)
      × IsBooted lib w v me.apic_id k
boots-IsBooted lib w me zeroed fresh small range idle =
    let (v, k, run, at, started, rest, heap, cur, shared) =
      kthread_init_lem lib me w zeroed small range in
    let owns : (x : ℕ) → Foreign lib k x =
      λ x. subst (All (λ q. x ≢ q)) (sym (nothing-owned lib k (cur ∙ idle) started.empty)) tt in
    (
      v,
      k,
      run,
      record {
        kept =
            (kthread_init-Continues lib w (unstarted-IsProgram lib w fresh) me zeroed v
              (fresh me.apic_id) idle small range run).kept;
        at = at;
        scheduler = started.scheduler;
        away = λ t ne. rest t ne ∙ fresh t;
        idle = cur ∙ idle;
        owns = owns;
        free = λ x.
            mapped-Unused lib w v me.apic_id k x at rest (owns x)
              (λ t b e. absurd (unmapped lib w fresh t b e));
        shared = shared;
      },
    )

pub starts-IsMain :
    (lib : RbLibrary) (w : World lib.Tree) (main : Boot lib.Tree) (master : Master)
    (others : List (Boot lib.Tree))
    → Unstarted w
    → IsInit main master others
    → (v u : World lib.Tree) × (k : KthreadContext lib.Tree) × (kthread_init lib main.me w
          (record main.zeroed { cpuid = 0 })
        ≡ ok v)
      × (v.kthread_cpu_map main.me.apic_id ≡ some k)
      × (create_master_uthread lib v k master.u_new master.ss_sp master.now
          ≡ ok (u, mastered k master.u_new))
      × IsMain lib w
          (put_context u main.me.apic_id (mastered k master.u_new))
          main.me.apic_id
          master.u_new
          (mastered k master.u_new)
starts-IsMain lib w main master others fresh good =
    let id = main.me.apic_id in
    let (v, k, run, booted) =
      boots-IsBooted lib w main.me (record main.zeroed { cpuid = 0 }) fresh good.small good.range
        good.idle in
    let (u, run_master, heap, map_u, count, total) =
      create_master_uthread_lem lib v k master.u_new master.ss_sp master.now good.struct
        good.stack in
    let k' = mastered k master.u_new in
    let at_id = store_self u.kthread_cpu_map id (some k') in
    let elsewhere : (t : ℕ)
        → id ≢ t
        → (put_context u id k').kthread_cpu_map t ≡ v.kthread_cpu_map t =
      λ t ne. store_other u.kthread_cpu_map id t (some k') ne ∙ ap (λ f. f t) map_u in
    (
      v,
      u,
      k,
      run,
      booted.at,
      run_master,
      record {
        kept =
            (create_master_uthread-Continues lib v booted.kept id k booted.at master.u_new
              master.ss_sp master.now booted.idle (booted.free master.u_new) u k' good.struct
              good.stack run_master).kept;
        at = at_id;
        scheduler = booted.scheduler;
        elsewhere = λ t ne. elsewhere t ne ∙ booted.away t ne;
        one =
            mapped-put 16 0 id (present w) (present (put_context u id k')) (omega arith)
              (omega (arith, good.range)) (ap is_some (fresh id)) (ap is_some at_id)
              (λ j ne. ap is_some (elsewhere j ne ∙ (booted.away j ne ∙ sym (fresh j))))
            ∙ ap (λ n. n + 1) (mapped-none 16 0 (present w) (λ j. ap is_some (fresh j)));
        total =
            total
            ∙ ap (λ (i : KschedSharedInfo). (i.kthread_tot_uthreads + 1) % 2 ^ 32) booted.shared;
        count =
            count
            ∙ ap (λ (i : KschedSharedInfo). (i.kthread_cur_uthreads + 1) % 2 ^ 32) booted.shared;
        unused = λ x ne.
            mapped-Unused lib v (put_context u id k') id k' x at_id elsewhere
              (
                λ e. ne (sym e),
                All-right (λ q. x ≢ q) (cur_list k.krunqueue.cur_uthread) _ (booted.owns x),
              )
              (booted.free x);
      },
    )
