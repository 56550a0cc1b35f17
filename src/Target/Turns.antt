-- ===== src/Target/Turns.antt =====
-- About ksched_find_target in gt_kthread.c, and the loop in it.
use cfs_userspace.Prelude.{
  ℕ, Option, some, none, ap, store, lt→ltb, zero, suc, ◌+◌, ◌-◌, ◌%◌, ◌≤◌, ◌<◌, ◌≡◌, ◌≢◌, refl, ◌⊎◌,
  inl, inr, Bool, true, false, ok, fault, diverged, arith, Bool-cases,
}
use cfs_userspace.Kthread.{World, KthreadContext, put_uthread}
use cfs_userspace.Spinlock.{acquired, released}
use cfs_userspace.Target.{next_target, is_some, ksched_find_target}

-- How many steps lead from one processor to another, from 1 to 16.
abbrev pub distance : ℕ → ℕ → ℕ
distance t c = (c + 15 - t % 16) % 16 + 1

-- A processor that is present and some steps away is reached, or one on the way.
record Turn (present : ℕ → Bool) (t c fuel : ℕ) : Type 0 where
  chosen : ℕ
  returned : next_target fuel present t ≡ ok chosen
  there : present chosen ≡ true
  in_range : chosen < 16
  progress : (chosen ≡ c) ⊎ (distance chosen c < distance t c)
  first : distance t chosen ≤ distance t c

true_ne_false : (present : ℕ → Bool) (a c : ℕ) → a ≡ c → present c ≡ true → present a ≡ false → ⊥
true_ne_false present a c q h e = cc

distance-step : (t c : ℕ) → (t + 1) % 16 ≢ c → c < 16 → distance t c ≡ distance ((t + 1) % 16) c + 1
distance-step t c ne range = omega arith

distance-le : (t c : ℕ) → distance t c ≤ distance ((t + 1) % 16) c + 1
distance-le t c = omega arith

turn :
    (present : ℕ → Bool) (fuel t c : ℕ)
    → present c ≡ true
    → c < 16
    → distance t c ≤ fuel
    → Turn present t c fuel
unfolding next_target
turn present zero t c here range f = absurd (omega arith)
turn present (suc fuel) t c here range f = elim (Bool-cases (present ((t + 1) % 16))) [
  | inl e ↦ record {
    chosen = (t + 1) % 16;
    returned = ground arith;
    there = e;
    in_range = omega arith;
    progress = omega arith;
    first = omega arith;
  }
  | inr e ↦
      let ne : (t + 1) % 16 ≢ c = λ q. true_ne_false present _ _ q here e in
      let closer = distance-step t c ne range in
      let w = turn present fuel ((t + 1) % 16) c here range (omega arith) in
      record {
        chosen = w.chosen;
        returned = ground (arith, w.returned);
        there = w.there;
        in_range = w.in_range;
        progress = omega (arith, w.progress);
        first = omega (arith, w.first, w.in_range, distance-le t w.chosen);
      }
]

-- If processor c, below 16, is present, the search from any t ends within 16 rounds, with a
-- processor below 16 that is present and no further from t than c is, and that is c itself or has
-- fewer steps to c than t has.
pub next_target_lem :
    (present : ℕ → Bool) (t c : ℕ)
    → present c ≡ true
    → c < 16
    → (chosen : ℕ) × (next_target 16 present t ≡ ok chosen)
      × (present chosen ≡ true)
      × (chosen < 16)
      × (distance t chosen ≤ distance t c)
      × ((chosen ≡ c) ⊎ (distance chosen c < distance t c))
next_target_lem present t c here range =
    let w = turn present 16 t c here range (omega arith) in
    (w.chosen, w.returned, w.there, w.in_range, w.first, w.progress)

-- If no processor is present, the search does not end on any fuel.
pub next_target-diverges :
    (present : ℕ → Bool) (fuel t : ℕ)
    → ((i : ℕ) → present i ≡ false)
    → next_target fuel present t ≡ fault diverged
unfolding next_target
next_target-diverges present zero t none_there = refl
next_target-diverges present (suc fuel) t none_there =
    ground (
      arith,
      none_there ((t + 1) % 16),
      next_target-diverges present fuel ((t + 1) % 16) none_there,
    )

some_there : {A : Type 0} (o : Option A) → is_some o ≡ true → (a : A) × (o ≡ some a)
some_there none e = absurd (cc)
some_there (some a) e = (a, refl)

-- The state that ksched_find_target leaves when it chooses processor t with context k.
abbrev pub targeted : {Tree : Type 0} → World Tree → ℕ → ℕ → KthreadContext Tree → World Tree
targeted w u_obj t k =
    put_uthread
      (record w {
        shared = record w.shared {
          last_ugroup_kthread = store w.shared.last_ugroup_kthread (w.heap u_obj).uthread_gid t;
          ksched_lock = released (acquired w.shared.ksched_lock);
        };
      })
      u_obj (record (w.heap u_obj) { cpu_id = k.cpuid; last_cpu_id = k.cpuid })

pub ksched_find_target_lem :
    {Tree : Type 0} (w : World Tree) (u_obj cpu : ℕ) (here : KthreadContext Tree)
    → (w.heap u_obj).uthread_gid < 32
    → cpu < 16
    → w.kthread_cpu_map cpu ≡ some here
    → (t : ℕ) × (k : KthreadContext Tree) × (w.kthread_cpu_map t ≡ some k)
      × (ksched_find_target w u_obj ≡ ok (t, targeted w u_obj t k))
      × ((t ≡ cpu)
          ⊎ (distance t cpu
              < distance (w.shared.last_ugroup_kthread (w.heap u_obj).uthread_gid) cpu))
unfolding ksched_find_target
ksched_find_target_lem w u_obj cpu here group range mapped =
    let present : ℕ → Bool = λ i. is_some (w.kthread_cpu_map i) in
    let start = w.shared.last_ugroup_kthread (w.heap u_obj).uthread_gid in
    let (t, run, there, bound, near, progress) =
      next_target_lem present start cpu (ap is_some mapped) range in
    let (k, at_t) = some_there (w.kthread_cpu_map t) there in
    (t, k, at_t, rw (lt→ltb _ _ group, run, at_t), progress)
