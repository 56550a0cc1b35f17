-- ===== src/Target.antt =====
-- ksched_find_target in gt_kthread.c: the processor for a new thread, by turns within its group.
pub mod Turns
pub mod Service
use cfs_userspace.Prelude.{
  ℕ, zero, suc, ◌+◌, ◌%◌, Bool, true, false, Option, none, some, Exec, ok, fault, diverged,
  out_of_bounds, deref, ◌>>=◌, if◌then◌else◌, ltb, store,
}
use cfs_userspace.Kthread.{World, KthreadContext, gt_max_cores, max_uthread_groups, put_uthread}
use cfs_userspace.Spinlock.{acquired, released}

-- A pointer as a condition.
abbrev pub is_some {ℓ} : {A : Type ℓ} → Option A → Bool
is_some none = false
is_some (some a) = true

-- The `do … while` loop; 16 rounds see every processor.
pub next_target : ℕ → (ℕ → Bool) → ℕ → Exec ℕ
next_target zero present target_cpu = fault diverged
next_target (suc fuel) present target_cpu =
    let next = (target_cpu + 1) % gt_max_cores in
    let rest = next_target fuel present next in if present next then ok next else rest

-- The index of the chosen context, and the state with the choice noted.
pub ksched_find_target : {Tree : Type 0} → World Tree → ℕ → Exec (ℕ × World Tree)
ksched_find_target w u_obj =
    let u_gid = (w.heap u_obj).uthread_gid in
    if ltb u_gid max_uthread_groups
    then (do
      target_cpu ←
          next_target gt_max_cores (λ i. is_some (w.kthread_cpu_map i))
            (w.shared.last_ugroup_kthread u_gid)
      target ← deref (w.kthread_cpu_map target_cpu)
      let info = record w.shared {
        last_ugroup_kthread = store w.shared.last_ugroup_kthread u_gid target_cpu;
        ksched_lock = released (acquired w.shared.ksched_lock);
      }
      let u = record (w.heap u_obj) { cpu_id = target.cpuid; last_cpu_id = target.cpuid }
      ok (target_cpu, put_uthread (record w { shared = info }) u_obj u))
    else fault out_of_bounds
