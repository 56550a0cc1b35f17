-- ===== src/Matrix/Product.antt =====
-- About uthread_mulmat in gt_matrix.c.
use cfs_userspace.Prelude.{
  ℕ, zero, suc, ◌+◌, ◌*◌, ◌≤◌, ◌<◌, ◌≡◌, ◌%◌, ◌^◌, ◌≢◌, ◌⊎◌, refl, ◌∙◌, arith, store, inl, inr,
  dec_lt, subst, ap, ◌/◌,
}
use native.Mathlib.Nat.{mul_left_comm}
use cfs_userspace.Matrix.{
  Cells, put, add_products, columns, rows_from, num_threads, uthread_mulmat, main_arg,
}

-- The sum of the products of row `i` of `a` and column `j` of `b`, from `k` on.
unfoldable pub dot : ℕ → (a b : Cells) → (i j k : ℕ) → ℕ
dot zero a b i j k = 0
dot (suc left) a b i j k = a i k * b k j + dot left a b i j (k + 1)

pub put_self : (c : Cells) (i j v : ℕ) → put c i j v i j ≡ v
unfolding put store
put_self c i j v = ground arith

pub put_other : (c : Cells) (i j v x y : ℕ) → (i ≢ x) ⊎ (j ≢ y) → put c i j v x y ≡ c x y
unfolding put store
put_other c i j v x y h = ground arith

module _ (a b : Cells) where
  add_products_other :
      (left i j k : ℕ) (c : Cells) (x y : ℕ)
      → (i ≢ x) ⊎ (j ≢ y)
      → add_products left a b i j k c x y ≡ c x y
  unfolding add_products
  add_products_other zero i j k c x y h = refl
  add_products_other (suc left) i j k c x y h =
      add_products_other left i j (k + 1) _ x y h ∙ put_other c i j _ x y h

  add_products_lem :
      (left i j k : ℕ) (c : Cells)
      → add_products left a b i j k c i j % 2 ^ 32 ≡ (c i j + dot left a b i j k) % 2 ^ 32
  unfolding add_products dot
  add_products_lem zero i j k c = omega arith
  add_products_lem (suc left) i j k c =
      let v = (c i j + a i k * b k j) % 2 ^ 32 in
      omega (arith, add_products_lem left i j (k + 1) (put c i j v), put_self c i j v)

  columns_other :
      (left size i j : ℕ) (c : Cells) (x y : ℕ)
      → (i ≢ x) ⊎ (y < j)
      → columns left size a b i j c x y ≡ c x y
  unfolding columns
  columns_other zero size i j c x y h = refl
  columns_other (suc left) size i j c x y h = elim h [
    | inl ne ↦
        columns_other left size i (j + 1) _ x y (inl ne)
        ∙ add_products_other size i j 0 c x y (inl ne)
    | inr lt ↦
        columns_other left size i (j + 1) _ x y (inr (omega arith))
        ∙ add_products_other size i j 0 c x y (inr (omega arith))
  ]

  columns_lem :
      (left size i j : ℕ) (c : Cells) (y : ℕ)
      → j ≤ y
      → y < j + left
      → columns left size a b i j c i y % 2 ^ 32 ≡ (c i y + dot size a b i y 0) % 2 ^ 32
  unfolding columns
  columns_lem zero size i j c y low high = absurd (omega arith)
  columns_lem (suc left) size i j c y low high =
      let first = add_products size a b i j 0 c in
      elim (dec_lt j y) [
        | yes lt ↦ omega (
          arith,
          columns_lem left size i (j + 1) first y (omega arith) (omega arith),
          add_products_other size i j 0 c i y (inr (omega arith)),
        )
        | no ge ↦
            let same : j ≡ y = omega arith in
            subst
              (λ z.
                columns left size a b i (j + 1) first i z % 2 ^ 32
                ≡ (c i z + dot size a b i z 0) % 2 ^ 32)
              same
              (omega (
                arith,
                columns_other left size i (j + 1) first i j (inr (omega arith)),
                add_products_lem size i j 0 c,
              ))
      ]

  rows_from_other :
      (left size i : ℕ) (c : Cells) (x y : ℕ)
      → (x < i) ⊎ (i + left ≤ x)
      → rows_from left size a b i c x y ≡ c x y
  unfolding rows_from
  rows_from_other zero size i c x y h = refl
  rows_from_other (suc left) size i c x y h =
      rows_from_other left size (i + 1) _ x y (ground arith)
      ∙ columns_other size size i 0 c x y (inl (ground arith))

  rows_from_lem :
      (left size i : ℕ) (c : Cells) (x y : ℕ)
      → i ≤ x
      → x < i + left
      → y < size
      → rows_from left size a b i c x y % 2 ^ 32 ≡ (c x y + dot size a b x y 0) % 2 ^ 32
  unfolding rows_from
  rows_from_lem zero size i c x y low high col = absurd (omega arith)
  rows_from_lem (suc left) size i c x y low high col =
      let first = columns size size a b i 0 c in
      elim (dec_lt i x) [
        | yes lt ↦ omega (
          arith,
          rows_from_lem left size (i + 1) first x y (omega arith) (omega arith) col,
          columns_other size size i 0 c x y (inl (omega arith)),
        )
        | no ge ↦
            let same : i ≡ x = omega arith in
            subst
              (λ z.
                rows_from left size a b (i + 1) first z y % 2 ^ 32
                ≡ (c z y + dot size a b z y 0) % 2 ^ 32)
              same
              (omega (
                arith,
                rows_from_other left size (i + 1) first i y (inl (omega arith)),
                columns_lem size size i 0 c y (omega arith) (omega arith),
              ))
      ]

  -- Thread `inx` of a matrix of 32 * k rows computes the rows from inx * k on.
  thread_lem :
      (i inx k : ℕ) (c : Cells)
      → uthread_mulmat (main_arg i inx (32 * k)) a b c ≡ rows_from k (32 * k) a b (inx * k) c
  unfolding uthread_mulmat main_arg
  thread_lem i inx k c = rw (share, place)
    where
      share : 32 * k / num_threads ≡ k
      share = omega arith

      place : inx * (32 * k) / num_threads ≡ inx * k
      place = omega (arith, mul_left_comm inx 32 k)

  -- A thread adds to each cell of its rows the inner product, modulo 2^32.
  pub mulmat_row :
      (i inx k : ℕ) (c : Cells) (x y : ℕ)
      → inx * k ≤ x
      → x < inx * k + k
      → y < 32 * k
      → uthread_mulmat (main_arg i inx (32 * k)) a b c x y % 2 ^ 32
        ≡ (c x y + dot (32 * k) a b x y 0) % 2 ^ 32
  mulmat_row i inx k c x y low high col =
      ap (λ (m : Cells). m x y % 2 ^ 32) (thread_lem i inx k c)
      ∙ rows_from_lem k (32 * k) (inx * k) c x y low high col

  -- It leaves the cells of the other rows.
  pub mulmat_other :
      (i inx k : ℕ) (c : Cells) (x y : ℕ)
      → (x < inx * k) ⊎ (inx * k + k ≤ x)
      → uthread_mulmat (main_arg i inx (32 * k)) a b c x y ≡ c x y
  mulmat_other i inx k c x y away =
      ap (λ (m : Cells). m x y) (thread_lem i inx k c)
      ∙ rows_from_other k (32 * k) (inx * k) c x y away
