-- ===== src/Program/Counting.antt =====
-- How many threads the kernel threads have in all.
use cfs_userspace.Prelude.{
  ℕ, zero, suc, ◌+◌, ◌%◌, ◌^◌, ◌≡◌, ◌≢◌, ◌<◌, refl, sym, ap, ◌∙◌, subst, arith, Option, none, some,
  inl, inr, length, ℕ_discrete, Option-cases,
}
use cfs_userspace.RbLibrary.{RbLibrary}
use cfs_userspace.Kthread.{World, KthreadContext}
use cfs_userspace.Scheduler.Ownership.{size}
use cfs_userspace.Program.{size_at}
use cfs_userspace.Program.Invariant.{Changed, owned-same}

-- The threads of the kernel threads on the processors below n.
pub total : (lib : RbLibrary) → (ℕ → Option (KthreadContext lib.Tree)) → ℕ → ℕ
total lib map zero = 0
total lib map (suc n) = size_at lib (map n) + total lib map n

-- From the count `base` on, kthread_cur_uthreads counts them.
abbrev pub IsCounted : (lib : RbLibrary) → ℕ → World lib.Tree → Type 0
IsCounted lib base w =
    w.shared.kthread_cur_uthreads ≡ (base + total lib w.kthread_cpu_map 16) % 2 ^ 32

module _ (lib : RbLibrary) (map map' : ℕ → Option (KthreadContext lib.Tree)) where
  total-same :
      (n : ℕ)
      → ((s : ℕ) → s < n → size_at lib (map' s) ≡ size_at lib (map s))
      → total lib map' n ≡ total lib map n
  unfolding total
  total-same zero same = refl
  total-same (suc n) same =
      omega (arith, same n (omega arith), total-same n (λ s lt. same s (omega arith)))

  pub total-change :
      (t n : ℕ)
      → t < n
      → ((s : ℕ) → t ≢ s → size_at lib (map' s) ≡ size_at lib (map s))
      → total lib map' n + size_at lib (map t) ≡ total lib map n + size_at lib (map' t)
  unfolding total
  total-change t zero lt same = absurd (omega arith)
  total-change t (suc n) lt same = elim (ℕ_discrete t n) [
    | yes here ↦
        let rest = total-same n (λ s below. same s (λ e. omega arith)) in
        let old : size_at lib (map t) ≡ size_at lib (map n) = ap (λ x. size_at lib (map x)) here in
        let new : size_at lib (map' t) ≡ size_at lib (map' n) =
          ap (λ x. size_at lib (map' x)) here in
        omega (arith, rest, old, new)
    | no other ↦ omega (arith, same n other, total-change t n (omega arith) same)
  ]

module _ (lib : RbLibrary) (w v : World lib.Tree) (t : ℕ) (change : Changed lib w v t) where
  size_elsewhere :
      (s : ℕ) → t ≢ s → size_at lib (v.kthread_cpu_map s) ≡ size_at lib (w.kthread_cpu_map s)
  size_elsewhere s ne = elim (Option-cases (v.kthread_cpu_map s)) [
    | inr (b, at_b) ↦
        let (a, was, same) = change.others s b at_b ne in
        ap (size_at lib) at_b
        ∙ (ap length (sym (owned-same lib a b same)) ∙ sym (ap (size_at lib) was))
    | inl gone ↦ elim (Option-cases (w.kthread_cpu_map s)) [
      | inl free ↦ ap (size_at lib) (gone ∙ sym free)
      | inr (a, was) ↦
          let (b, at_b) = change.stays s a was ne in absurd (none_some b (sym gone ∙ at_b))
    ]
  ]
    where
      none_some : (b : KthreadContext lib.Tree) → none ≡ some b → ⊥
      none_some b e = cc

  pub changed-IsCounted : (base : ℕ) → IsCounted lib base w → IsCounted lib base v
  changed-IsCounted base count =
      let sum =
        total-change lib w.kthread_cpu_map v.kthread_cpu_map t 16 change.range size_elsewhere in
      let now : size_at lib (v.kthread_cpu_map t) ≡ size lib change.now =
        ap (size_at lib) change.here in
      elim change.tally [
        | inl settled ↦ elim settled [
          | inl (same, live) ↦ omega (arith, sum, now, count, same, live)
          | inr (less, live) ↦ omega (arith, sum, now, count, less, live)
        ]
        | inr (grown, live) ↦ omega (arith, sum, now, count, grown, live)
      ]

pub total-unmapped : (lib : RbLibrary) (n : ℕ) → total lib (λ _. none) n ≡ 0
unfolding total
total-unmapped lib zero = refl
total-unmapped lib (suc n) = omega (arith, total-unmapped lib n)

module _ (lib : RbLibrary) (map : ℕ → Option (KthreadContext lib.Tree)) where
  pub total_zero : (n t : ℕ) → t < n → total lib map n ≡ 0 → size_at lib (map t) ≡ 0
  unfolding total
  total_zero zero t lt e = absurd (omega arith)
  total_zero (suc n) t lt e = elim (ℕ_discrete n t) [
    | yes here ↦ subst (λ z. size_at lib (map z) ≡ 0) here (omega (arith, e))
    | no other ↦ total_zero n t (omega arith) (omega (arith, e))
  ]

  pub total_none : (n : ℕ) → ((t : ℕ) → size_at lib (map t) ≡ 0) → total lib map n ≡ 0
  unfolding total
  total_none zero free = refl
  total_none (suc n) free = omega (arith, free n, total_none n free)
