-- ===== src/Accounting/Runtime.antt =====
-- About update_vruntime, get_time_delta and update_vruntime_to_max in gt_uthread.c.
use cfs_userspace.Prelude.{
  ℕ, ◌+◌, ◌*◌, ◌≤◌, ◌<◌, ◌≡◌, ◌^◌, ◌-◌, ◌%◌, arith, ap, refl, ok, some, get_last?,
}
use cfs_userspace.Uthread.{Uthread, Timeval}
use cfs_userspace.RbLibrary.{RbLibrary}
use cfs_userspace.CfsRunqueue.{Queued, threads}
use cfs_userspace.CfsRunqueue.Invariant.{IsRunqueue}
use cfs_userspace.CfsRunqueue.Choice.{get_max_uthread_lem}
use cfs_userspace.Accounting.{vruntime_past, update_vruntime, update_vruntime_to_max, elapsed_int}

-- A time in microseconds.
abbrev pub usecs_of : Timeval → ℕ
usecs_of t = t.tv_sec * 1_000_000 + t.tv_usec

-- What gettimeofday returns: less than a second of microseconds, and seconds that fit a long.
pub record IsTime (t : Timeval) : Type 0 where
  pub usec_range : t.tv_usec < 1_000_000
  pub sec_range : t.tv_sec < 2 ^ 63

elapsed_int-mod :
    (entry now : Timeval) (d : ℕ)
    → IsTime entry
    → IsTime now
    → usecs_of now ≡ usecs_of entry + d
    → elapsed_int entry now ≡ d % 2 ^ 32
unfolding elapsed_int
elapsed_int-mod entry now d e n h = omega arith

-- If both times are as gettimeofday gives them, thread u entered the CPU d microseconds ago, d
-- below 2^31, and its virtual run time plus d fits into 64 bits, update_vruntime adds exactly d to
-- it.
pub update_vruntime_lem :
    (u : Uthread) (now : Timeval) (d : ℕ)
    → IsTime u.entry_to_cpu
    → IsTime now
    → usecs_of now ≡ usecs_of u.entry_to_cpu + d
    → d < 2 ^ 31
    → u.vruntime + d < 2 ^ 64
    → (update_vruntime u now).vruntime ≡ u.vruntime + d
unfolding update_vruntime
update_vruntime_lem u now d e n h small room =
    rw (elapsed_int-mod u.entry_to_cpu now d e n h) (ground arith)

-- If both times are as gettimeofday gives them, thread u entered the CPU d microseconds ago, d
-- from 2^31 to 2^32 - 1, and its virtual run time is a number of 64 bits of at least 2^32 - d,
-- update_vruntime takes 2^32 - d off it.
pub update_vruntime_overflow :
    (u : Uthread) (now : Timeval) (d : ℕ)
    → IsTime u.entry_to_cpu
    → IsTime now
    → usecs_of now ≡ usecs_of u.entry_to_cpu + d
    → 2 ^ 31 ≤ d
    → d < 2 ^ 32
    → 2 ^ 32 ≤ u.vruntime + d
    → u.vruntime < 2 ^ 64
    → (update_vruntime u now).vruntime + (2 ^ 32 - d) ≡ u.vruntime
unfolding update_vruntime
update_vruntime_overflow u now d e n h large small room range =
    rw (elapsed_int-mod u.entry_to_cpu now d e n h) (ground arith)

-- On a well-formed run queue with the last thread m, whose virtual run time plus one fits into 64
-- bits, update_vruntime_to_max sets the virtual run time of u to that of m plus one.
pub update_vruntime_to_max_lem :
    (lib : RbLibrary) (s : Queued lib.Tree) (u : Uthread) (m : ℕ)
    → IsRunqueue lib s
    → get_last? (threads lib s.rq.tree) ≡ some m
    → (s.heap m).vruntime + 1 < 2 ^ 64
    → update_vruntime_to_max lib s.heap s.rq u
      ≡ ok (record u { vruntime = (s.heap m).vruntime + 1 })
unfolding update_vruntime_to_max
update_vruntime_to_max_lem lib s u m inv last fits =
    rw (get_max_uthread_lem lib s inv, last)
      (ap (λ v. ok (record u { vruntime = v })) (omega arith))

-- update_vruntime_to_max ends on a well-formed queue, and writes only the virtual run time.
pub update_vruntime_to_max-ok :
    (lib : RbLibrary) (s : Queued lib.Tree) (u : Uthread)
    → IsRunqueue lib s
    → (v : ℕ) × (update_vruntime_to_max lib s.heap s.rq u ≡ ok (record u { vruntime = v }))
unfolding update_vruntime_to_max
update_vruntime_to_max-ok lib s u inv = (
  vruntime_past s.heap (get_last? (threads lib s.rq.tree)) u.vruntime,
  rw (get_max_uthread_lem lib s inv),
)

-- The thread stays in its state.
pub update_vruntime_state :
    (u : Uthread) (now : Timeval) → (update_vruntime u now).uthread_state ≡ u.uthread_state
unfolding update_vruntime
update_vruntime_state u now = refl
