-- ===== src/Examples/Applications.antt =====
-- An application on two kernel threads, on processors 3 and 5.
use cfs_userspace.Prelude.{
  ◌==◌, ◌*◌, ◌≤◌, ◌<◌, ◌⊎◌, ℕ, ◌≡◌, ◌+◌, ◌%◌, ◌^◌, refl, [], ◌∷◌, ok, arith,
}
use cfs_userspace.Uthread.{Timeval, runnable}
use cfs_userspace.RbLibrary.Spine.{Spine}
use cfs_userspace.RbLibrary.Spine.Library.{spines}
use cfs_userspace.Signal.{Signals}
use cfs_userspace.Kthread.{World}
use cfs_userspace.App.{mapped, Boot, Master, gtthread_app_init, kthread_init_vtalrm}
use cfs_userspace.App.Booting.{IsBoot}
use cfs_userspace.App.Mastering.{IsInit}
use cfs_userspace.App.Init.{Handled, Initialized, gtthread_app_init_lem}
use cfs_userspace.Matrix.{Matrix, UthreadArg, uthread_mulmat, main_arg}
use cfs_userspace.Matrix.Main.{Arrays, Setup, init_matrices}
use cfs_userspace.Matrix.Main.Matrices.{uthread_mulmat-product}
use cfs_userspace.Program.{start}
use cfs_userspace.Examples.{memory, counters, handlers}
use cfs_userspace.Examples.Programs.{zeroed}

abbrev before : World Spine
before = start (memory runnable) counters

abbrev time_zero : Timeval
time_zero = record { tv_sec = 0; tv_usec = 0 }

abbrev boot : ℕ → Boot Spine
boot apic = record {
  block = 100;
  zeroed = zeroed;
  stack = 200;
  retval = 40;
  me = record { pid = 10; tid = 10 + apic; apic_id = apic; name_block = 20; runqueue_block = 21 };
}

abbrev master : Master
master = record { u_new = 5; ss_sp = 6; now = time_zero; starting = (λ t. t == 3) ∷ [] }

boot-IsBoot : IsBoot (boot 5)
boot-IsBoot = record {
  block = λ e. omega arith;
  stack = λ e. omega arith;
  cloned = omega arith;
  int = omega arith;
  small = (omega arith, λ e. omega arith, λ e. omega arith);
  range = omega arith;
  idle = refl;
}

-- Main reads the map once before the other kernel thread has started.
one_mapped : mapped 16 (λ t. t == 3) 0 ≤ 2
unfolding mapped
one_mapped = omega arith

two-IsInit : IsInit (boot 3) master (boot 5 ∷ [])
two-IsInit = record {
  block = λ e. omega arith;
  small = (omega arith, λ e. omega arith, λ e. omega arith);
  range = omega arith;
  idle = refl;
  struct = λ e. omega arith;
  stack = λ e. omega arith;
  starting = (one_mapped, tt);
  boots = (boot-IsBoot, tt);
  distinct = ((λ e. omega arith, tt), (tt, tt));
}

gtthread_app_init_example :
    (v : World Spine) × (s : Signals) × (gtthread_app_init spines before handlers
        (boot 3)
        master
        (boot 5 ∷ [])
      ≡ ok (v, kthread_init_vtalrm, s))
    × Handled handlers s
    × Initialized spines before v (boot 3) master 2
gtthread_app_init_example =
    gtthread_app_init_lem spines before handlers (boot 3) master (boot 5 ∷ []) (λ t. refl)
      two-IsInit

abbrev setup : Setup
setup = record {
  uthread_mulmat = 900;
  uarg_at = λ inx. 1000 + inx;
  supply = λ j. record { u_new = 2000 + j; ss_sp = 7; now = time_zero };
  cpu = 3;
}

abbrev no_matrix : Matrix
no_matrix = record { m = λ i j. 0; rows = 0; cols = 0 }

abbrev arrays : Arrays
arrays = record { a = λ i. no_matrix; b = λ i. no_matrix; c = λ i. no_matrix }

abbrev no_args : ℕ → UthreadArg
no_args n = record { tid = 0; gid = 0; start_row = 0; matrix_size = 0 }

-- Thread 20 of the matrices of size 64 has the rows 40 and 41.
uthread_mulmat-product_example :
    let m' = init_matrices 4 0 arrays in
    let c = uthread_mulmat (main_arg 1 20 64) (m'.a 1).m (m'.b 1).m (m'.c 1).m in
    ((20 * 2 ^ 1 ≤ 40) × (40 < 20 * 2 ^ 1 + 2 ^ 1) × (c 40 63 % 2 ^ 32 ≡ 64))
    ⊎ (((40 < 20 * 2 ^ 1) ⊎ (20 * 2 ^ 1 + 2 ^ 1 ≤ 40)) × (c 40 63 ≡ 0))
uthread_mulmat-product_example =
    uthread_mulmat-product arrays 1 20 40 63 (omega arith) (omega arith) (omega arith)
