-- ===== src/Accounting.antt =====
-- The CFS accounting of gt_uthread.c: virtual run time and time slices.
-- An `int` is its 32-bit pattern, a `long` its 64-bit pattern; arithmetic wraps, as the compiled
-- code does.
pub mod Slices
pub mod Runtime
use cfs_userspace.Prelude.{
  ℕ, ◌+◌, ◌-◌, ◌*◌, ◌/◌, ◌%◌, ◌^◌, ◌≤◌, Option, none, some, Exec, ok, fault, division_by_zero,
  deref, ◌>>=◌, ltb, leb, ◌==◌, if◌then◌else◌, ◌||◌, ◌≡◌,
}
use cfs_userspace.Uthread.{Uthread, Timeval}
use cfs_userspace.RbLibrary.{RbLibrary}
use cfs_userspace.CfsRunqueue.{CfsRunqueue, get_max_uthread}

-- gt_signal.h
abbrev pub scheduler_min_granularity_usec : ℕ
scheduler_min_granularity_usec = 1000

abbrev pub scheduler_min_latency_usec : ℕ
scheduler_min_latency_usec = 5000

-- `a - b` of two longs
abbrev pub sub64 : ℕ → ℕ → ℕ
sub64 a b = (a + 2 ^ 64 - b) % 2 ^ 64

-- A long assigned to an int, and an int added to an unsigned long.
abbrev pub to_int : ℕ → ℕ
to_int w = w % 2 ^ 32

abbrev pub int_to_long : ℕ → ℕ
int_to_long w = if ltb w (2 ^ 31) then w else w + (2 ^ 64 - 2 ^ 32)

-- `secs * 1000000 + usecs` of update_vruntime, all ints
pub elapsed_int : Timeval → Timeval → ℕ
elapsed_int entry now =
    let secs = to_int (sub64 now.tv_sec entry.tv_sec) in
    let usecs = to_int (sub64 now.tv_usec entry.tv_usec) in (secs * 1_000_000 + usecs) % 2 ^ 32

-- The write to the thread; what is printed and logged is the int.
pub update_vruntime : Uthread → Timeval → Uthread
unfolding elapsed_int
update_vruntime u now = record u {
  vruntime = (u.vruntime + int_to_long (elapsed_int u.entry_to_cpu now)) % 2 ^ 64;
}

-- A null thread is followed all the same.
pub get_time_delta : Option Uthread → Timeval → Exec ℕ
get_time_delta uthread now = do
  u ← deref uthread
  let secs = sub64 now.tv_sec u.entry_to_cpu.tv_sec
  let usecs = sub64 now.tv_usec u.entry_to_cpu.tv_usec
  ok ((secs * 1_000_000 + usecs) % 2 ^ 64)

-- The assignment of update_vruntime_to_max, once the rightmost thread is known.
abbrev pub vruntime_past : (ℕ → Uthread) → Option ℕ → ℕ → ℕ
vruntime_past heap none old = old
vruntime_past heap (some m) old = ((heap m).vruntime + 1) % 2 ^ 64

pub update_vruntime_to_max :
    (lib : RbLibrary) → (ℕ → Uthread) → CfsRunqueue lib.Tree → Uthread → Exec Uthread
update_vruntime_to_max lib heap runqueue u = do
  rightmost ← get_max_uthread lib runqueue
  ok (record u { vruntime = vruntime_past heap rightmost u.vruntime })

-- `num_threads + 1` as an int
abbrev pub sharing : ℕ → ℕ
sharing num_threads = (num_threads + 1) % 2 ^ 32

-- A product that is negative as an int is below the minimum too.
pub get_fair_period : ℕ → ℕ
get_fair_period num_threads =
    let ideal_period = sharing num_threads * scheduler_min_granularity_usec % 2 ^ 32 in
    if leb (2 ^ 31) ideal_period || ltb ideal_period scheduler_min_latency_usec
    then scheduler_min_latency_usec
    else ideal_period

-- `a * n` of a long and an int.
abbrev pub mul_int : ℕ → ℕ → ℕ
mul_int a n = a * int_to_long n % 2 ^ 64

-- The magnitude of a long, and a long with its sign turned.
abbrev pub magnitude : ℕ → ℕ
magnitude a = if ltb a (2 ^ 63) then a else 2 ^ 64 - a

abbrev pub negate : ℕ → ℕ
negate a = (2 ^ 64 - a) % 2 ^ 64

-- `a / n` of two longs, which rounds towards 0.
abbrev pub div_long : ℕ → ℕ → Exec ℕ
div_long a n =
    if n == 0
    then fault division_by_zero
    else (let quotient = magnitude a / magnitude n in
        if ltb a (2 ^ 63)
        then ok (if ltb n (2 ^ 63) then quotient else negate quotient)
        else ok (if ltb n (2 ^ 63) then negate quotient else quotient % 2 ^ 64))

pub get_fair_slice : Uthread → ℕ → Exec ℕ
unfolding get_fair_period
get_fair_slice u num_threads =
    div_long (mul_int (get_fair_period num_threads) u.nice) (int_to_long (sharing num_threads))
