-- ===== src/Examples/Parts.antt =====
-- The theorems about the other parts of the program, at concrete arguments.
use cfs_userspace.Prelude.{
  replicate, List, All, All-always, In, store_self, ℕ, ◌+◌, ◌-◌, ◌^◌, ◌≡◌, ◌≢◌, ◌≤◌, ◌<◌, ◌⊎◌, refl,
  ◌++◌, map, Option, none, some, ok, fault, diverged, failure, arith, store, ℕ_discrete, true,
  false, Bool, ◌==◌, ◌||◌,
}
use cfs_userspace.Uthread.{Uthread, runnable, running, Timeval}
use cfs_userspace.RbLibrary.Spine.{Spine}
use cfs_userspace.RbLibrary.Spine.Library.{spines}
use cfs_userspace.Kthread.{World, KthreadContext}
use cfs_userspace.Spinlock.Threads.{
  Move, unlock, System, Reach, here, next, pick, call_lock, free, won, call_unlock, held, holds,
  outside, reading, exchanging, critical, testing, writing, start, mutual_exclusion, unlock_frees,
  locked_by_someone,
}
use cfs_userspace.Accounting.{update_vruntime}
use cfs_userspace.Accounting.Runtime.{IsTime, update_vruntime_lem, update_vruntime_overflow}
use cfs_userspace.Target.Service.{find_targets, targets_served}
use cfs_userspace.Target.{next_target}
use cfs_userspace.Target.Turns.{next_target-diverges}
use cfs_userspace.Filename.{tid_to_filename}
use cfs_userspace.Filename.Digits.{digits_of, suffix, value_of, tid_to_filename_lem}
use cfs_userspace.Creation.{Request, uthread_create}
use cfs_userspace.Creation.Failures.{uthread_create-no_stack}
use cfs_userspace.App.{Identity, kthread_init}
use cfs_userspace.App.Startup.{Started, kthread_init_lem}
use cfs_userspace.Matrix.{num_threads, UthreadArg, main_arg, write_all_args}
use cfs_userspace.Matrix.Filling.{write_all_args_lem}
use cfs_userspace.Examples.{memory, thread_at, context, counters, none_queued}

-- Thread 3 takes the lock, and goes on to the write of gt_spin_unlock.
abbrev taken : System
taken = record { word = 1; pc = store (store (store start.pc 3 reading) 3 exchanging) 3 critical }

taken-Reach : Reach taken
unfolding store ℕ_discrete
taken-Reach = next (next (next here (pick 3 call_lock)) (pick 3 (free refl))) (pick 3 (won refl))

abbrev leaving_lock : System
leaving_lock = record { word = 1; pc = store (store taken.pc 3 testing) 3 writing }

leaving_lock-Reach : Reach leaving_lock
unfolding store ℕ_discrete
leaving_lock-Reach = next (next taken-Reach (pick 3 call_unlock)) (pick 3 (held (λ e. omega arith)))

leaving_lock_writing : leaving_lock.pc 3 ≡ writing
unfolding store ℕ_discrete
leaving_lock_writing = refl

leaving_lock_move : Move leaving_lock.word (leaving_lock.pc 3) 0 outside
unfolding store ℕ_discrete
leaving_lock_move = unlock

mutual_exclusion_example : ◌≡◌ {A = ℕ} 3 3
unfolding store ℕ_discrete
mutual_exclusion_example = mutual_exclusion taken taken-Reach 3 3 refl refl

unlock_frees_example :
    (leaving_lock.word ≡ 1)
    × (◌≡◌ {A = ℕ} 0 0)
    × (outside ≡ outside)
    × ((j : ℕ) → holds (store leaving_lock.pc 3 outside j) ≡ false)
unlock_frees_example =
    unlock_frees leaving_lock 3 0 outside leaving_lock-Reach leaving_lock_writing leaving_lock_move

locked_by_someone_example : (i : ℕ) × (holds (taken.pc i) ≡ true)
locked_by_someone_example = locked_by_someone taken taken-Reach (λ e. omega arith)

abbrev at : ℕ → Timeval
at seconds = record { tv_sec = seconds; tv_usec = 250 }

at-IsTime : (seconds : ℕ) → seconds < 2 ^ 63 → IsTime (at seconds)
at-IsTime seconds h = record { usec_range = omega arith; sec_range = h }

abbrev since : ℕ → ℕ → Uthread
since seconds vruntime = record (thread_at running 1) {
  vruntime = vruntime;
  entry_to_cpu = at seconds;
}

update_vruntime_example : (update_vruntime (since 4 70) (at 6)).vruntime ≡ 70 + 2_000_000
update_vruntime_example =
    update_vruntime_lem (since 4 70) (at 6) 2_000_000 (at-IsTime 4 (omega arith))
      (at-IsTime 6 (omega arith)) refl (omega arith) (omega arith)

update_vruntime_overflow_example :
    (update_vruntime (since 0 5_000_000_000) (at 3000)).vruntime + (2 ^ 32 - 3_000_000_000)
    ≡ 5_000_000_000
update_vruntime_overflow_example =
    update_vruntime_overflow (since 0 5_000_000_000) (at 3000) 3_000_000_000
      (at-IsTime 0 (omega arith)) (at-IsTime 3000 (omega arith)) refl (omega arith) (omega arith)
      (omega arith) (omega arith)

-- Processors 2 and 9.
abbrev two_present : ℕ → Bool
two_present i = i == 2 || i == 9

next_target-diverges_example : next_target 100 (λ i. false) 4 ≡ fault diverged
next_target-diverges_example = next_target-diverges (λ i. false) 100 4 (λ i. refl)

tid_to_filename_example :
    (size : ℕ) × (tid_to_filename 4711 ≡ ok (map some (digits_of size 4711 ++ suffix)))
    × (value_of 0 (digits_of size 4711) ≡ 4711)
    × ((size ≡ 1) ⊎ (10 ^ (size - 1) ≤ 4711))
tid_to_filename_example = tid_to_filename_lem 4711 (omega arith)

abbrev me : Identity
me = record { pid = 12; tid = 12; apic_id = 3; name_block = 20; runqueue_block = 21 }

-- Processor 0 alone has started, with or without a master thread.
abbrev world : Option ℕ → World Spine
world master = record {
  heap = memory runnable;
  kthread_cpu_map = store (λ i. none) 0 (some (context none_queued master));
  shared = counters;
}

sixteen : All (λ u. ((world none).heap u).uthread_gid ≡ 0) (replicate 16 5)
sixteen = All-always {P = λ (u : ℕ). ((world none).heap u).uthread_gid ≡ 0} same (replicate 16 5)
  where
    same : (u : ℕ) → ((world none).heap u).uthread_gid ≡ 0
    same u = refl

-- Threads in group 0, each created by main.
targets_served_example :
    (ts : List ℕ) × (find_targets (world none) (replicate 16 5) ≡ ok ts) × In 0 ts
targets_served_example =
    targets_served 0 0 (context none_queued none) (omega arith) (omega arith) (world none)
      (replicate 16 5) (store_self (λ i. none) 0 (some (context none_queued none))) sixteen
      (omega arith)

kthread_init_example :
    (v : World Spine) × (k : KthreadContext Spine) × (kthread_init spines me
        (world none)
        (context none_queued none)
      ≡ ok v)
    × (v.kthread_cpu_map 3 ≡ some k)
    × Started spines me v.heap k
    × ((cpu : ℕ) → 3 ≢ cpu → v.kthread_cpu_map cpu ≡ (world none).kthread_cpu_map cpu)
    × (v.heap ≡ (world none).heap)
    × (k.krunqueue.cur_uthread ≡ some 5)
    × (v.shared ≡ (world none).shared)
kthread_init_example =
    kthread_init_lem spines me (world none) (context none_queued none)
      (omega arith, λ e. omega arith, λ e. omega arith) (omega arith)

abbrev request : ℕ → Request
request ss_sp = record {
  u_func = 100;
  u_arg = 0;
  u_gid = 1;
  u_new = 7;
  ss_sp = ss_sp;
  now = record { tv_sec = 0; tv_usec = 0 };
}

uthread_create-no_stack_example :
    (v : World Spine) × (uthread_create spines (world (some 5)) 0 (request 0)
      ≡ ok (record { status = failure; u_tid = none; notified = none }, v))
    × (v.kthread_cpu_map 0 ≡ some (record (context none_queued (some 5)) { do_not_disturb = 1 }))
    × (v.shared.kthread_cur_uthreads ≡ 3)
unfolding store ℕ_discrete
uthread_create-no_stack_example =
    uthread_create-no_stack spines (world (some 5)) 0 (context none_queued (some 5)) (request 0)
      refl 5 refl (λ e. omega arith) refl

abbrev no_args : ℕ → UthreadArg
no_args n = record { tid = 0; gid = 0; start_row = 0; matrix_size = 0 }

write_all_args_example :
    (5 < num_threads → write_all_args 4 0 no_args 5 ≡ main_arg 3 5 256)
    × (num_threads ≤ 5 → write_all_args 4 0 no_args 5 ≡ no_args 5)
write_all_args_example = write_all_args_lem no_args 5
