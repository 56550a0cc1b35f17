-- ===== src/Matrix/Main/Matrices.antt =====
-- About init_matrices in gt_matrix.c.
use cfs_userspace.Prelude.{
  ◌*◌, ◌⊎◌, inl, inr, ℕ, zero, suc, ◌+◌, ◌%◌, ◌^◌, ◌≡◌, ◌≢◌, ◌≤◌, ◌<◌, refl, ap, ◌∙◌, subst, arith,
  store_self, store_other, dec_lt,
}
use cfs_userspace.Matrix.{Matrix, Cells, generate_matrix, uthread_mulmat, main_arg, sizes}
use cfs_userspace.Matrix.Product.{dot, mulmat_row, mulmat_other}
use cfs_userspace.Matrix.Filling.{generate_matrix_lem}
use cfs_userspace.Matrix.Main.{Arrays, init_matrices}

-- The matrices number i of two states are the same.
abbrev Same : Arrays → Arrays → ℕ → Type 0
Same m m' i = (m'.a i ≡ m.a i) × (m'.b i ≡ m.b i) × (m'.c i ≡ m.c i)

-- The second state has the generated matrices number i.
abbrev pub Generated : Arrays → Arrays → ℕ → Type 0
Generated m m' i =
    (m'.a i ≡ generate_matrix (m.a i) 1 (sizes i))
    × (m'.b i ≡ generate_matrix (m.b i) 1 (sizes i))
    × (m'.c i ≡ generate_matrix (m.c i) 0 (sizes i))

init_matrices_other : (left i : ℕ) (m : Arrays) (n : ℕ) → n < i → Same m (init_matrices left i m) n
unfolding init_matrices
init_matrices_other zero i m n h = (refl, refl, refl)
init_matrices_other (suc left) i m n h =
    let ne : i ≢ n = λ e. omega arith in
    let (a, b, c) = init_matrices_other left (i + 1) _ n (omega arith) in
    (a ∙ store_other m.a i n _ ne, b ∙ store_other m.b i n _ ne, c ∙ store_other m.c i n _ ne)

init_matrices_at :
    (left i : ℕ) (m : Arrays) (n : ℕ)
    → i ≤ n
    → n < i + left
    → Generated m (init_matrices left i m) n
unfolding init_matrices
init_matrices_at zero i m n low high = absurd (omega arith)
init_matrices_at (suc left) i m n low high = elim (dec_lt i n) [
  | yes lt ↦
      let ne : i ≢ n = λ e. omega arith in
      let (a, b, c) = init_matrices_at left (i + 1) _ n (omega arith) (omega arith) in
      (
        a ∙ ap (λ x. generate_matrix x 1 (sizes n)) (store_other m.a i n _ ne),
        b ∙ ap (λ x. generate_matrix x 1 (sizes n)) (store_other m.b i n _ ne),
        c ∙ ap (λ x. generate_matrix x 0 (sizes n)) (store_other m.c i n _ ne),
      )
  | no ge ↦
      let (a, b, c) = init_matrices_other left (i + 1) _ i (omega arith) in
      subst (Generated m (init_matrices (suc left) i m)) (omega arith)
        (a ∙ store_self m.a i _, b ∙ store_self m.b i _, c ∙ store_self m.c i _)
]

-- The inner product of ones.
dot-ones :
    (left : ℕ) (a b : Cells) (i j k : ℕ)
    → ((n : ℕ) → n < k + left → a i n ≡ 1)
    → ((n : ℕ) → n < k + left → b n j ≡ 1)
    → dot left a b i j k ≡ left
unfolding dot
dot-ones zero a b i j k ha hb = refl
dot-ones (suc left) a b i j k ha hb =
    let rest =
      dot-ones left a b i j (k + 1) (λ n h. ha n (omega arith)) (λ n h. hb n (omega arith)) in
    rw (ha k (omega arith), hb k (omega arith), rest) (omega arith)

sizes_small : (i : ℕ) → i < 4 → sizes i < 2 ^ 32
sizes_small zero h = omega arith
sizes_small (suc zero) h = omega arith
sizes_small (suc (suc zero)) h = omega arith
sizes_small (suc (suc (suc zero))) h = omega arith
sizes_small (suc (suc (suc (suc i)))) h = absurd (omega arith)

-- Let uthread_mulmat run on one of the four matrices as init_matrices leaves them, with the
-- arguments that main writes for thread inx of that matrix. In each of its rows, 1, 2, 4 or 8 from
-- inx times as many on, each cell of the product is the size of the matrix, modulo 2^32; in every
-- other row of the matrix the cells are 0.
pub uthread_mulmat-product :
    (m : Arrays) (i inx x y : ℕ)
    → i < 4
    → x < sizes i
    → y < sizes i
    → let m' = init_matrices 4 0 m in
      let c = uthread_mulmat (main_arg i inx (sizes i)) (m'.a i).m (m'.b i).m (m'.c i).m in
      ((inx * 2 ^ i ≤ x) × (x < inx * 2 ^ i + 2 ^ i) × (c x y % 2 ^ 32 ≡ sizes i))
      ⊎ (((x < inx * 2 ^ i) ⊎ (inx * 2 ^ i + 2 ^ i ≤ x)) × (c x y ≡ 0))
uthread_mulmat-product m i inx x y small row col =
    let m' = init_matrices 4 0 m in
    let (a, b, c) = init_matrices_at 4 0 m i (omega arith) (omega (arith, small)) in
    let ones =
      dot-ones (sizes i) (m'.a i).m (m'.b i).m x y 0
        (λ n h.
          ap (λ (z : Matrix). z.m x n) a
          ∙ (generate_matrix_lem (m.a i) 1 (sizes i) x n).0 row (omega (arith, h)))
        (λ n h.
          ap (λ (z : Matrix). z.m n y) b
          ∙ (generate_matrix_lem (m.b i) 1 (sizes i) n y).0 (omega (arith, h)) col) in
    let none =
      ap (λ (z : Matrix). z.m x y) c ∙ (generate_matrix_lem (m.c i) 0 (sizes i) x y).0 row col in
    let other = mulmat_other (m'.a i).m (m'.b i).m i inx (2 ^ i) (m'.c i).m x y in
    elim (dec_lt x (inx * 2 ^ i)) [
      | yes below ↦ inr (inl below, other (inl below) ∙ none)
      | no above ↦ elim (dec_lt x (inx * 2 ^ i + 2 ^ i)) [
        | yes within ↦ inl (
          omega arith,
          within,
          mulmat_row (m'.a i).m (m'.b i).m i inx (2 ^ i) (m'.c i).m x y (omega arith) within col
              ∙ omega (arith, none, ones, sizes_small i small),
        )
        | no beyond ↦
            let past : inx * 2 ^ i + 2 ^ i ≤ x = omega arith in
            inr (inr past, other (inr past) ∙ none)
      ]
    ]
