-- ===== src/Prelude/Faults.antt =====
-- The result of running a piece of C: a value, or the way in which it never returns.
use Prim.Native.Nat.{ℕ}
use cfs_userspace.Prelude.Tests.{◌==◌, if◌then◌else◌}
use mathlib.Core.Bool.{Bool, true, false}
use mathlib.Core.Option.{Option, none, some}

-- `diverged` is a loop that does not end, `exited` a call of `exit`.
pub data Fault : Type 0 where
  null_dereference assert_failed exited diverged division_by_zero out_of_bounds : Fault

-- The return codes 0 and -1.
pub data Status : Type 0 where
  success failure : Status

pub data Exec {ℓ} (A : Type ℓ) : Type ℓ where
  ok : A → Exec A
  fault : Fault → Exec A

infixl 5 ◌>>=◌ ◌>>◌
abbrev pub ◌>>=◌ {ℓ κ} : {A : Type ℓ} {B : Type κ} → Exec A → (A → Exec B) → Exec B
ok a >>= f = f a
fault e >>= f = fault e

abbrev pub ◌>>◌ {ℓ} : {B : Type ℓ} → Exec (Unit {0}) → Exec B → Exec B
m >> k = m >>= λ _. k

-- `assert(test)`
abbrev pub assert : Bool → Exec (Unit {0})
assert true = ok tt
assert false = fault assert_failed

-- A pointer that the code follows without a test.
abbrev pub deref {ℓ} : {A : Type ℓ} → Option A → Exec A
deref none = fault null_dereference
deref (some a) = ok a

-- A null pointer that is followed all the same.
abbrev pub check_pointer : ℕ → Exec (Unit {0})
check_pointer p = if p == 0 then fault null_dereference else ok tt
