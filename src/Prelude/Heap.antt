-- ===== src/Prelude/Heap.antt =====
-- Memory as a function from addresses: a write at one address leaves the others.
use Prim.Native.Nat.{ℕ}
use mathlib.Core.Path.{◌≡◌, sym, subst, ◌∙◌}
use mathlib.Core.Option.{Option, some, some_inj}
use mathlib.Core.Logic.{◌≢◌, ite}
use native.Mathlib.Omega.{arith}
unfoldable use native.Mathlib.Decide.{ℕ_discrete}

unfoldable pub store {ℓ} : {A : Type ℓ} → (ℕ → A) → ℕ → A → ℕ → A
store f p a q = ite (ℕ_discrete p q) a (f q)

pub store_self {ℓ} : {A : Type ℓ} (f : ℕ → A) (p : ℕ) (a : A) → store f p a p ≡ a
unfolding store
store_self f p a = ground arith

pub store_other {ℓ} : {A : Type ℓ} (f : ℕ → A) (p q : ℕ) (a : A) → p ≢ q → store f p a q ≡ f q
unfolding store
store_other f p q a h = ground arith

-- After one write to a map: a property of what is mapped.
pub store_ind :
    {A : Type 0} (P : ℕ → A → Type 0) (map : ℕ → Option A) (cpu : ℕ) (a : A)
    → P cpu a
    → ((t : ℕ) (b : A) → cpu ≢ t → map t ≡ some b → P t b)
    → (t : ℕ) (b : A) → store map cpu (some a) t ≡ some b
    → P t b
store_ind P map cpu a here there t b e = elim (ℕ_discrete cpu t) [
  | yes same ↦
      let is_a : a ≡ b = some_inj.0 (
        sym (store_self map cpu (some a))
        ∙ subst (λ z. store map cpu (some a) z ≡ some b) (sym same) e) in
      subst (λ z. P z b) same (subst (P cpu) is_a here)
  | no other ↦ there t b other (sym (store_other map cpu t (some a) other) ∙ e)
]
