-- ===== src/Scheduler/Entries/Starvation.antt =====
-- About ksched_priority, called by the timer again and again while a thread waits.
use cfs_userspace.Prelude.{ℕ, ◌+◌, ◌-◌, ◌≡◌, ◌<◌, List, [], ◌∷◌, some, ok, ◌⊎◌}
use cfs_userspace.Uthread.{Timeval, SavedContext}
use cfs_userspace.RbLibrary.{RbLibrary}
use cfs_userspace.Kthread.{Cpu}
use cfs_userspace.Accounting.Runtime.{usecs_of}
use cfs_userspace.Scheduler.{InitCalls, Clock, to_uthread}
use cfs_userspace.Scheduler.Entries.{ksched_priority}

-- By how much the threads are behind the virtual run time v plus one, in all.
ahead : ℕ → (ℕ → ℕ) → List ℕ → ℕ
ahead v rank [] = 0
ahead v rank (y ∷ ys) = v + 1 - rank y + ahead v rank ys

-- Each thread runs for at least a microsecond before the timer goes off.
abbrev pub Elapsed : Timeval → List Clock → Type 0
Elapsed t [] = Unit
Elapsed t (clock ∷ later) = (usecs_of t < usecs_of clock.leaving) × Elapsed clock.entering later

-- The calls of ksched_priority switch to threads, up to one that switches to x.
pub Served : (lib : RbLibrary) → InitCalls → ℕ → List Clock → Cpu lib.Tree → Type 0
Served lib os x [] c = ⊥
Served lib os x (clock ∷ later) c =
    (q : ℕ) × (j : SavedContext) × (e : Cpu lib.Tree) × (ksched_priority lib os clock c
      ≡ ok (some (to_uthread q j), e))
    × ((q ≡ x) ⊎ Served lib os x later e)
