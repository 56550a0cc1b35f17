-- ===== src/Matrix.antt =====
-- gt_matrix.c: the application, a product of matrices by 32 threads for each matrix.
-- An entry is an int as its 32-bit pattern. A matrix is a function on its cells, all within the
-- 512 by 512 of `matrix_t`: an access beyond them is not in the model.
pub mod Product
pub mod Filling
pub mod Main
use cfs_userspace.Prelude.{ℕ, zero, suc, ◌+◌, ◌-◌, ◌*◌, ◌/◌, ◌%◌, ◌^◌, List, [], ◌∷◌, store}

-- Threads per matrix.
abbrev pub num_threads : ℕ
num_threads = 32

abbrev pub Cells : Type 0
Cells = ℕ → ℕ → ℕ

-- `matrix_t`
pub record Matrix : Type 0 where
  pub m : Cells
  pub rows : ℕ
  pub cols : ℕ

-- `m[i][j] = v`
unfoldable pub put : Cells → ℕ → ℕ → ℕ → Cells
put m i j v = store m i (store (m i) j v)

-- The inner loop of generate_matrix, with the rounds that are left.
pub fill_row : ℕ → ℕ → ℕ → ℕ → Cells → Cells
fill_row zero val i j m = m
fill_row (suc left) val i j m = fill_row left val i (j + 1) (put m i j val)

pub fill_rows : ℕ → ℕ → ℕ → ℕ → Cells → Cells
fill_rows zero cols val i m = m
fill_rows (suc left) cols val i m = fill_rows left cols val (i + 1) (fill_row cols val i 0 m)

pub generate_matrix : Matrix → ℕ → ℕ → Matrix
generate_matrix mat val size = record {
  m = fill_rows size size val 0 mat.m;
  rows = size;
  cols = size;
}

-- `uthread_arg_t`; the matrices are passed along with it.
pub record UthreadArg : Type 0 where
  pub tid : ℕ
  pub gid : ℕ
  pub start_row : ℕ
  pub matrix_size : ℕ

-- `C[i][j] += A[i][k] * B[k][j]`, from `k` on
pub add_products : ℕ → (a b : Cells) → (i j k : ℕ) → Cells → Cells
add_products zero a b i j k c = c
add_products (suc left) a b i j k c =
    add_products left a b i j (k + 1) (put c i j ((c i j + a i k * b k j) % 2 ^ 32))

-- The loop over the columns, from `j` on.
pub columns : ℕ → ℕ → (a b : Cells) → (i j : ℕ) → Cells → Cells
columns zero size a b i j c = c
columns (suc left) size a b i j c = columns left size a b i (j + 1) (add_products size a b i j 0 c)

pub rows_from : ℕ → ℕ → (a b : Cells) → (i : ℕ) → Cells → Cells
rows_from zero size a b i c = c
rows_from (suc left) size a b i c = rows_from left size a b (i + 1) (columns size size a b i 0 c)

-- Without GT_GROUP_SPLIT, a thread computes some rows, whole.
pub uthread_mulmat : UthreadArg → (a b c : Cells) → Cells
uthread_mulmat ptr a b c =
    rows_from (ptr.matrix_size / num_threads) ptr.matrix_size a b ptr.start_row c

-- What main writes to the arguments of thread `inx` of matrix `i`.
pub main_arg : (i inx size : ℕ) → UthreadArg
main_arg i inx size = record {
  tid = inx;
  gid = i;
  start_row = inx * size / num_threads;
  matrix_size = size;
}

-- `sizes`
abbrev pub sizes : ℕ → ℕ
sizes i = 32 * 2 ^ i

-- The inner loop of main: each thread is given the address `&uargs[inx]`, and `uargs[inx]` is
-- written for each matrix again.
pub write_args : ℕ → (i inx : ℕ) → (ℕ → UthreadArg) → ℕ → UthreadArg
write_args zero i inx uargs = uargs
write_args (suc left) i inx uargs =
    write_args left i (inx + 1) (store uargs inx (main_arg i inx (sizes i)))

-- The outer loop, over the matrices that are left, from `i` on.
pub write_all_args : ℕ → ℕ → (ℕ → UthreadArg) → ℕ → UthreadArg
write_all_args zero i uargs = uargs
write_all_args (suc left) i uargs = write_all_args left (i + 1) (write_args num_threads i 0 uargs)
