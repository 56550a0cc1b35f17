-- ===== src/Matrix/Filling.antt =====
-- About generate_matrix and main in gt_matrix.c.
use cfs_userspace.Prelude.{
  ℕ, zero, suc, ◌+◌, ◌≤◌, ◌<◌, ◌≡◌, ◌≢◌, ◌⊎◌, inl, inr, refl, ◌∙◌, arith, subst, store, dec_lt,
}
use cfs_userspace.Matrix.{
  Cells, Matrix, put, fill_row, fill_rows, generate_matrix, UthreadArg, main_arg, write_args,
  write_all_args, num_threads, sizes,
}
use cfs_userspace.Matrix.Product.{put_self, put_other}

fill_row_other :
    (left val i j : ℕ) (m : Cells) (x y : ℕ)
    → (i ≢ x) ⊎ ((y < j) ⊎ (j + left ≤ y))
    → fill_row left val i j m x y ≡ m x y
unfolding fill_row
fill_row_other zero val i j m x y h = refl
fill_row_other (suc left) val i j m x y h = elim h [
  | inl ne ↦ fill_row_other left val i (j + 1) _ x y (inl ne) ∙ put_other m i j val x y (inl ne)
  | inr out ↦
      fill_row_other left val i (j + 1) _ x y (inr (ground arith))
      ∙ put_other m i j val x y (inr (ground arith))
]

fill_row_lem :
    (left val i j : ℕ) (m : Cells) (y : ℕ)
    → j ≤ y
    → y < j + left
    → fill_row left val i j m i y ≡ val
unfolding fill_row
fill_row_lem zero val i j m y low high = absurd (omega arith)
fill_row_lem (suc left) val i j m y low high = elim (dec_lt j y) [
  | yes lt ↦ fill_row_lem left val i (j + 1) _ y (omega arith) (omega arith)
  | no ge ↦
      subst (λ z. fill_row left val i (j + 1) (put m i j val) i z ≡ val) (omega arith)
        (fill_row_other left val i (j + 1) _ i j (inr (inl (omega arith))) ∙ put_self m i j val)
]

fill_rows_other :
    (left cols val i : ℕ) (m : Cells) (x y : ℕ)
    → (cols ≤ y) ⊎ ((x < i) ⊎ (i + left ≤ x))
    → fill_rows left cols val i m x y ≡ m x y
unfolding fill_rows
fill_rows_other zero cols val i m x y h = refl
fill_rows_other (suc left) cols val i m x y h = elim h [
  | inl out ↦
      fill_rows_other left cols val (i + 1) _ x y (inl out)
      ∙ fill_row_other cols val i 0 m x y (inr (inr (omega arith)))
  | inr out ↦
      fill_rows_other left cols val (i + 1) _ x y (inr (ground arith))
      ∙ fill_row_other cols val i 0 m x y (inl (ground arith))
]

fill_rows_lem :
    (left cols val i : ℕ) (m : Cells) (x y : ℕ)
    → i ≤ x
    → x < i + left
    → y < cols
    → fill_rows left cols val i m x y ≡ val
unfolding fill_rows
fill_rows_lem zero cols val i m x y low high col = absurd (omega arith)
fill_rows_lem (suc left) cols val i m x y low high col = elim (dec_lt i x) [
  | yes lt ↦ fill_rows_lem left cols val (i + 1) _ x y (omega arith) (omega arith) col
  | no ge ↦
      subst (λ z. fill_rows left cols val (i + 1) (fill_row cols val i 0 m) z y ≡ val) (omega arith)
        (fill_rows_other left cols val (i + 1) _ i y (inr (inl (omega arith)))
          ∙ fill_row_lem cols val i 0 m y (omega arith) (omega arith))
]

-- generate_matrix writes the value to every cell of the first `size` rows and columns, and leaves
-- the cells beyond them.
pub generate_matrix_lem :
    (mat : Matrix) (val size x y : ℕ)
    → (x < size → y < size → (generate_matrix mat val size).m x y ≡ val)
      × ((size ≤ x) ⊎ (size ≤ y) → (generate_matrix mat val size).m x y ≡ mat.m x y)
unfolding generate_matrix
generate_matrix_lem mat val size x y = (
  λ row col. fill_rows_lem size size val 0 mat.m x y (omega arith) (omega arith) col,
  λ out. fill_rows_other size size val 0 mat.m x y (ground arith),
)

write_args_other :
    (left i inx : ℕ) (uargs : ℕ → UthreadArg) (n : ℕ)
    → (n < inx) ⊎ (inx + left ≤ n)
    → write_args left i inx uargs n ≡ uargs n
unfolding write_args store
write_args_other zero i inx uargs n h = refl
write_args_other (suc left) i inx uargs n h =
    write_args_other left i (inx + 1) _ n (ground arith) ∙ ground arith

write_args_lem :
    (left i inx : ℕ) (uargs : ℕ → UthreadArg) (n : ℕ)
    → inx ≤ n
    → n < inx + left
    → write_args left i inx uargs n ≡ main_arg i n (sizes i)
unfolding write_args store
write_args_lem zero i inx uargs n low high = absurd (omega arith)
write_args_lem (suc left) i inx uargs n low high = elim (dec_lt inx n) [
  | yes lt ↦ write_args_lem left i (inx + 1) _ n (omega arith) (omega arith)
  | no ge ↦
      let same : inx ≡ n = omega arith in
      subst
        (λ z.
          write_args left i (inx + 1) (store uargs inx (main_arg i inx (sizes i))) z
          ≡ main_arg i z (sizes i))
        same (write_args_other left i (inx + 1) _ inx (inl (omega arith)) ∙ ground arith)
]

-- Once main has written the arguments for all threads, the entries below 32 are those of the last
-- matrix, and the entries from 32 on are as they were.
pub write_all_args_lem :
    (uargs : ℕ → UthreadArg) (n : ℕ)
    → (n < num_threads → write_all_args 4 0 uargs n ≡ main_arg 3 n 256)
      × (num_threads ≤ n → write_all_args 4 0 uargs n ≡ uargs n)
unfolding write_all_args
write_all_args_lem uargs n = (
  λ low. write_args_lem 32 3 0 _ n (omega arith) low,
  λ high.
      write_args_other 32 3 0 _ n (inr high)
      ∙ write_args_other 32 2 0 _ n (inr high)
      ∙ write_args_other 32 1 0 _ n (inr high)
      ∙ write_args_other 32 0 0 uargs n (inr high),
)
