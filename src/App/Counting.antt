-- ===== src/App/Counting.antt =====
-- About the loops that wait for other kernel threads: at yield_again in gtthread_app_init, for how
-- many processors are mapped, and at the end of gtthread_app_exit, for the count of live threads.
use cfs_userspace.Prelude.{
  List, ◌++◌, All, ℕ, zero, suc, ◌+◌, ◌≡◌, ◌≢◌, ◌≤◌, ◌<◌, refl, sym, subst, ap, ◌∙◌, arith, Bool,
  true, false, Bool-cases, inl, inr, [], ◌∷◌, ok, fault, diverged, Exec, ◌↔◌, ℕ_discrete,
}
use cfs_userspace.Creation.Failures.{nonzero}
use cfs_userspace.App.{mapped, yield_again, wait_for_uthreads}

pub mapped-same :
    (left inx : ℕ) (f g : ℕ → Bool)
    → ((j : ℕ) → inx ≤ j → g j ≡ f j)
    → mapped left g inx ≡ mapped left f inx
unfolding mapped
mapped-same zero inx f g same = refl
mapped-same (suc left) inx f g same =
    let rest = mapped-same left (inx + 1) f g (λ j h. same j (omega arith)) in
    rw (same inx (omega arith), rest) refl

-- No processor is mapped.
pub mapped-none : (left inx : ℕ) (f : ℕ → Bool) → ((j : ℕ) → f j ≡ false) → mapped left f inx ≡ 0
unfolding mapped
mapped-none zero inx f off = refl
mapped-none (suc left) inx f off = rw (off inx) (mapped-none left (inx + 1) f off)

-- One processor more is mapped.
pub mapped-put :
    (left inx i : ℕ) (f g : ℕ → Bool)
    → inx ≤ i
    → i < inx + left
    → f i ≡ false
    → g i ≡ true
    → ((j : ℕ) → i ≢ j → g j ≡ f j)
    → mapped left g inx ≡ mapped left f inx + 1
unfolding mapped
mapped-put zero inx i f g low high off on same = absurd (omega arith)
mapped-put (suc left) inx i f g low high off on same = elim (ℕ_discrete i inx) [
  | yes e ↦
      let rest = mapped-same left (inx + 1) f g (λ j h. same j (λ q. omega arith)) in
      let off' : f inx ≡ false = ap f (sym e) ∙ off in
      let on' : g inx ≡ true = ap g (sym e) ∙ on in rw (off', on', rest) refl
  | no ne ↦
      let rest = mapped-put left (inx + 1) i f g (omega arith) (omega arith) off on same in
      elim (Bool-cases (f inx)) [
        | inl e ↦ rw (same inx ne, e, rest) refl
        | inr e ↦ rw (same inx ne, e, rest) refl
      ]
]

-- When no reading has more than the processors that there are, and the last one has them all, the
-- loop ends.
pub yield_again_lem :
    (n : ℕ) (earlier : List (ℕ → Bool)) (seen : ℕ → Bool)
    → All (λ s. mapped 16 s 0 ≤ n) earlier
    → mapped 16 seen 0 ≡ n
    → yield_again n (earlier ++ seen ∷ []) ≡ ok tt
unfolding yield_again
yield_again_lem n [] seen few e = rw e (ground arith)
yield_again_lem n (s ∷ earlier) seen (le, few) e =
    ground (arith, le, yield_again_lem n earlier seen few e)

Returns : Exec (Unit {0}) → Type 0
Returns (ok a) = Unit
Returns (fault f) = ⊥

Returns-diverged : (m : Exec (Unit {0})) → m ≡ fault diverged → m ≡ ok tt → ⊥
unfolding Returns
Returns-diverged m never ends = subst Returns (sym ends ∙ never) tt

-- A read of the count ends the loop of gtthread_app_exit just if it is 0.
pub wait_once : (n : ℕ) → (wait_for_uthreads (n ∷ []) ≡ ok tt) ↔ (n ≡ 0)
unfolding wait_for_uthreads
wait_once zero = (λ e. refl, λ e. refl)
wait_once (suc n) = (
  λ e. absurd (
      Returns-diverged (wait_for_uthreads (suc n ∷ []))
        (rw (nonzero (suc n) (λ z. omega (arith, z))) refl) e),
  λ e. absurd (omega (arith, e)),
)
