-- ===== src/Target/Service.antt =====
-- About ksched_find_target in gt_kthread.c, call after call: the processors are served in turn.
use cfs_userspace.Prelude.{
  ℕ, ◌≡◌, ◌≤◌, ◌<◌, refl, sym, ap, ◌∙◌, subst, List, [], ◌∷◌, length, All, All-imp, In, some, Exec,
  ok, ◌>>=◌, ◌⊎◌, inl, inr, arith, store, store_self, store_other, ℕ_discrete,
}
use cfs_userspace.Uthread.{Uthread}
use cfs_userspace.Kthread.{World, KthreadContext}
use cfs_userspace.Target.{ksched_find_target}
use cfs_userspace.Target.Turns.{distance, targeted, ksched_find_target_lem}

-- One call for each thread of a list: the processors that are chosen.
pub find_targets : {Tree : Type 0} → World Tree → List ℕ → Exec (List ℕ)
find_targets w [] = ok []
find_targets w (u ∷ us) = do (t, v) ← ksched_find_target w u; ts ← find_targets v us; ok (t ∷ ts)

-- The group in which thread x is.
abbrev group_of : {Tree : Type 0} → World Tree → ℕ → ℕ
group_of w x = (w.heap x).uthread_gid

targeted_group :
    {Tree : Type 0} (w : World Tree) (u t : ℕ) (k : KthreadContext Tree) (x : ℕ)
    → group_of (targeted w u t k) x ≡ group_of w x
targeted_group w u t k x = elim (ℕ_discrete u x) [
  | yes same ↦
      ap (λ (v : Uthread). v.uthread_gid)
        (subst
          (λ y.
            store w.heap u (record (w.heap u) { cpu_id = k.cpuid; last_cpu_id = k.cpuid }) y
            ≡ record (w.heap y) { cpu_id = k.cpuid; last_cpu_id = k.cpuid })
          same (store_self w.heap u _))
  | no other ↦ ap (λ (v : Uthread). v.uthread_gid) (store_other w.heap u x _ other)
]

module _ {Tree : Type 0} (g c : ℕ) (here : KthreadContext Tree) (group : g < 32)
    (range : c < 16) where
  -- Each call chooses c or comes closer to it.
  found :
      (w : World Tree) (us : List ℕ)
      → w.kthread_cpu_map c ≡ some here
      → All (λ u. group_of w u ≡ g) us
      → (ts : List ℕ) × (find_targets w us ≡ ok ts)
        × (distance (w.shared.last_ugroup_kthread g) c ≤ length us → In c ts)
  unfolding find_targets
  found w [] mapped all = ([], refl, λ le. absurd (omega (arith, le)))
  found w (u ∷ us) mapped (of_g, all) =
      let (t, k, at_t, run, near) =
        ksched_find_target_lem w u c here (subst (λ x. x < 32) (sym of_g) group) range mapped in
      let v = targeted w u t k in
      let last : v.shared.last_ugroup_kthread g ≡ t =
        subst (λ x. store w.shared.last_ugroup_kthread (group_of w u) t x ≡ t) of_g
          (store_self w.shared.last_ugroup_kthread (group_of w u) t) in
      let (ts, runs, then) =
        found v us mapped (All-imp (λ x e. targeted_group w u t k x ∙ e) us all) in
      let closer =
        subst (λ x. (t ≡ c) ⊎ (distance t c < distance (w.shared.last_ugroup_kthread x) c)) of_g
          near in
      (
        t ∷ ts,
        rw (run, runs) refl,
        λ le. elim closer [
          | inl chosen ↦ inl (sym chosen)
          | inr less ↦
              let from : distance (v.shared.last_ugroup_kthread g) c ≤ length us =
                subst (λ x. distance x c ≤ length us) (sym last) (omega (arith, le, less)) in
              inr (then from)
        ],
      )

  -- Let processor c, below 16, be mapped, and let ksched_find_target be called for at least 16
  -- threads of one group below 32, one after the other. The calls end, and one of them chooses c.
  pub targets_served :
      (w : World Tree) (us : List ℕ)
      → w.kthread_cpu_map c ≡ some here
      → All (λ u. group_of w u ≡ g) us
      → 16 ≤ length us
      → (ts : List ℕ) × (find_targets w us ≡ ok ts) × In c ts
  targets_served w us mapped all many =
      let (ts, run, seen) = found w us mapped all in (ts, run, seen (omega (arith, many)))
