-- ===== src/Accounting/Slices.antt =====
-- About get_fair_period and get_fair_slice in gt_uthread.c, with the bounds of gt_signal.h.
use cfs_userspace.Prelude.{
  ltb, Bool-cases, inl, inr, subst, Exec, ◌-◌, ◌^◌, ℕ, ◌+◌, ◌*◌, ◌/◌, ◌≤◌, ◌<◌, ◌≡◌, ok, arith,
}
use native.Mathlib.Nat.{le-div_iff_mul-le, div-le_of_le-mul, mul-div-le}
use cfs_userspace.Uthread.{Uthread}
use cfs_userspace.Accounting.{
  get_fair_period, get_fair_slice, mul_int, magnitude, negate, scheduler_min_granularity_usec,
  scheduler_min_latency_usec,
}

-- Up to 2147482 queued threads the product does not overflow.
abbrev pub max_sharing : ℕ
max_sharing = 2_147_483

get_fair_period_lem :
    (n : ℕ)
    → n + 1 ≤ max_sharing
    → (5000 ≤ get_fair_period n)
      × ((n + 1) * 1000 ≤ get_fair_period n)
      × (get_fair_period n ≤ 5000 + n * 1000)
unfolding get_fair_period
get_fair_period_lem n h = ground arith

mul_mono : (a b k : ℕ) → a ≤ b → a * k ≤ b * k
mul_mono a b k h = grind arith

div_bounds :
    (p n k : ℕ)
    → 0 < n
    → n * 1000 ≤ p
    → p ≤ 5000 * n
    → (1000 * k ≤ p * k / n) × (p * k / n ≤ 5000 * k) × (n * (p * k / n) ≤ p * k)
div_bounds p n k h a b = (
  (le-div_iff_mul-le h).1 (omega (arith, mul_mono (n * 1000) p k a)),
  div-le_of_le-mul n (omega (arith, mul_mono p (5000 * n) k b)),
  mul-div-le (p * k) n,
)

-- A period of the scheduler, times a nice value that is not negative, fits into a long.
product_small : (n k : ℕ) → n + 1 ≤ max_sharing → k < 2 ^ 31 → get_fair_period n * k < 2 ^ 63
product_small n k few positive =
    let period = get_fair_period_lem n few in
    let less = mul_mono (get_fair_period n) (2 ^ 32 - 1) k (omega (arith, period.2)) in
    omega (arith, less, positive)

slice_lem :
    (u : Uthread) (n : ℕ)
    → n + 1 ≤ max_sharing
    → u.nice < 2 ^ 31
    → get_fair_slice u n ≡ ok (get_fair_period n * u.nice / (n + 1))
unfolding get_fair_slice
slice_lem u n h positive = ground (arith, product_small n u.nice h positive)

-- Whatever the nice value, a slice is computed: the divisor is not 0.
pub get_fair_slice-total :
    (u : Uthread) (n : ℕ) → n + 1 ≤ max_sharing → (slice : ℕ) × (get_fair_slice u n ≡ ok slice)
unfolding get_fair_slice
get_fair_slice-total u n h =
    let a = mul_int (get_fair_period n) u.nice in
    elim (Bool-cases (ltb a (2 ^ 63))) [
      | inl small ↦ (magnitude a / (n + 1), ground arith)
      | inr large ↦ (negate (magnitude a / (n + 1)), ground arith)
    ]

-- A slice that is a fair share: between the minimum granularity and the minimum latency for each
-- unit of the nice value, and such slices for all n + 1 threads fit into the weighted period.
pub record FairSlice (nice n slice : ℕ) : Type 0 where
  pub at_least : scheduler_min_granularity_usec * nice ≤ slice
  pub at_most : slice ≤ scheduler_min_latency_usec * nice
  pub shared : (n + 1) * slice ≤ get_fair_period n * nice

pub get_fair_slice_bounds :
    (u : Uthread) (n : ℕ)
    → n + 1 ≤ max_sharing
    → u.nice < 2 ^ 31
    → (slice : ℕ) × (get_fair_slice u n ≡ ok slice) × FairSlice u.nice n slice
get_fair_slice_bounds u n h positive =
    let period = get_fair_period_lem n h in
    let bounds =
      div_bounds (get_fair_period n) (n + 1) u.nice (omega arith) period.1 (omega arith) in
    (
      get_fair_period n * u.nice / (n + 1),
      slice_lem u n h positive,
      record { at_least = bounds.0; at_most = bounds.1; shared = bounds.2 },
    )

same_slice : (m : Exec ℕ) (a b : ℕ) → m ≡ ok a → m ≡ ok b → a ≡ b
same_slice m a b e f = cc

-- The slice that is returned is fair, if the nice value is not negative.
pub slice-FairSlice :
    (u : Uthread) (n slice : ℕ)
    → n + 1 ≤ max_sharing
    → get_fair_slice u n ≡ ok slice
    → u.nice < 2 ^ 31
    → FairSlice u.nice n slice
slice-FairSlice u n slice h run positive =
    let (s, ran, fair) = get_fair_slice_bounds u n h positive in
    subst (FairSlice u.nice n) (same_slice (get_fair_slice u n) s slice ran run) fair
