-- ===== src/Matrix/Main.antt =====
-- main and init_matrices in gt_matrix.c, up to the call of gtthread_app_exit.
-- Nothing preempts main here, and no other kernel thread runs meanwhile.
pub mod Threads
pub mod Matrices
use cfs_userspace.Prelude.{ℕ, zero, suc, ◌+◌, List, Option, none, some, Exec, ok, ◌>>=◌, store}
use cfs_userspace.Uthread.{Timeval}
use cfs_userspace.RbLibrary.{RbLibrary}
use cfs_userspace.Signal.{Signals}
use cfs_userspace.Kthread.{World, Itimerval}
use cfs_userspace.Creation.{Request, Created, uthread_create}
use cfs_userspace.App.{Boot, Master, gtthread_app_init}
use cfs_userspace.Matrix.{Matrix, UthreadArg, generate_matrix, main_arg, num_threads, sizes}

-- The arrays `A`, `B` and `C`.
pub record Arrays : Type 0 where
  pub a : ℕ → Matrix
  pub b : ℕ → Matrix
  pub c : ℕ → Matrix

-- The loop of init_matrices, with the rounds that are left.
pub init_matrices : ℕ → (i : ℕ) → Arrays → Arrays
init_matrices zero i m = m
init_matrices (suc left) i m = init_matrices left (i + 1) (record {
  a = store m.a i (generate_matrix (m.a i) 1 (sizes i));
  b = store m.b i (generate_matrix (m.b i) 1 (sizes i));
  c = store m.c i (generate_matrix (m.c i) 0 (sizes i));
})

-- The blocks that malloc gives for a thread, and the time.
pub record Allocation : Type 0 where
  pub u_new : ℕ
  pub ss_sp : ℕ
  pub now : Timeval

-- The arrays `uargs` and `utids`, and the program.
pub record Driver (Tree : Type 0) : Type 0 where
  pub uargs : ℕ → UthreadArg
  pub utids : ℕ → ℕ
  pub world : World Tree

-- `*u_tid = tid`, which a call that fails does not do
abbrev pub write_tid : (ℕ → ℕ) → ℕ → Option ℕ → ℕ → ℕ
write_tid utids j none = utids
write_tid utids j (some tid) = store utids j tid

-- The addresses of uthread_mulmat and of the entries of `uargs`, what malloc gives for each thread,
-- and the processor that main runs on.
pub record Setup : Type 0 where
  pub uthread_mulmat : ℕ
  pub uarg_at : ℕ → ℕ
  pub supply : ℕ → Allocation
  pub cpu : ℕ

module _ (lib : RbLibrary) (s : Setup) where
  open lib use {Tree}

  abbrev pub thread_request : (i inx j : ℕ) → Request
  thread_request i inx j = record {
    u_func = s.uthread_mulmat;
    u_arg = s.uarg_at inx;
    u_gid = (main_arg i inx (sizes i)).gid;
    u_new = (s.supply j).u_new;
    ss_sp = (s.supply j).ss_sp;
    now = (s.supply j).now;
  }

  -- The body of the inner loop.
  pub create_thread : (i inx j : ℕ) → Driver Tree → Exec (Driver Tree)
  create_thread i inx j d = do
    let uargs = store d.uargs inx (main_arg i inx (sizes i))
    (made, v) ← uthread_create lib d.world s.cpu (thread_request i inx j)
    ok (record { uargs = uargs; utids = write_tid d.utids j made.u_tid; world = v })

  -- The inner loop, with the rounds that are left; `j` goes on through both loops.
  pub create_threads : ℕ → (i inx j : ℕ) → Driver Tree → Exec (Driver Tree)
  create_threads zero i inx j d = ok d
  create_threads (suc left) i inx j d =
      create_thread i inx j d >>= λ e. create_threads left i (inx + 1) (j + 1) e

  pub create_all : ℕ → (i j : ℕ) → Driver Tree → Exec (Driver Tree)
  create_all zero i j d = ok d
  create_all (suc left) i j d =
      create_threads num_threads i 0 j d >>= λ e. create_all left (i + 1) (j + num_threads) e

  pub main_threads :
      World Tree
      → Signals
      → Boot Tree
      → Master
      → List (Boot Tree)
      → Arrays
      → (ℕ → UthreadArg)
      → (ℕ → ℕ)
      → Exec (Arrays × Driver Tree × Itimerval × Signals)
  main_threads w signals main master others m uargs utids = do
    (started, timer, handled) ← gtthread_app_init lib w signals main master others
    d ← create_all 4 0 0 (record { uargs = uargs; utids = utids; world = started })
    ok (init_matrices 4 0 m, d, timer, handled)
