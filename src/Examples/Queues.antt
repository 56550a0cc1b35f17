-- ===== src/Examples/Queues.antt =====
-- The theorems about the run queue, at a queue of threads 1 and 2 to which thread 5 is added.
use cfs_userspace.Prelude.{ℕ, ◌≡◌, ◌≢◌, refl, [], ◌∷◌, some, arith, insert_by, All}
use cfs_userspace.Uthread.{runnable}
use cfs_userspace.RbLibrary.Spine.{Spine}
use cfs_userspace.RbLibrary.Spine.Library.{spines}
use cfs_userspace.CfsRunqueue.{
  Queued, threads, vruntime_of, add_to_cfs_runqueue, remove_from_cfs_runqueue,
}
use cfs_userspace.CfsRunqueue.Invariant.{IsRunqueue}
use cfs_userspace.CfsRunqueue.Adding.{threads-add, add-IsRunqueue}
use cfs_userspace.CfsRunqueue.Removing.{threads-remove, remove-IsRunqueue}
use cfs_userspace.Examples.{two_queued, memory, two_queued-IsRunqueue}

abbrev queue : Queued Spine
queue = record { heap = memory runnable; rq = two_queued }

five_new : All (λ (q : ℕ). 5 ≢ q) (1 ∷ 2 ∷ [])
five_new = (λ e. omega arith, (λ e. omega arith, tt))

threads-add_example :
    threads spines (add_to_cfs_runqueue spines queue 5).rq.tree
    ≡ insert_by (vruntime_of (memory runnable)) 5 (1 ∷ 2 ∷ [])
threads-add_example = threads-add spines queue 5 (two_queued-IsRunqueue runnable) five_new

add-IsRunqueue_example : IsRunqueue spines (add_to_cfs_runqueue spines queue 5)
add-IsRunqueue_example = add-IsRunqueue spines queue 5 (two_queued-IsRunqueue runnable) five_new

threads-remove_example :
    threads spines (remove_from_cfs_runqueue spines queue (some 2)).rq.tree ≡ 1 ∷ []
threads-remove_example =
    threads-remove spines queue (1 ∷ []) 2 [] (two_queued-IsRunqueue runnable) refl

remove-IsRunqueue_example : IsRunqueue spines (remove_from_cfs_runqueue spines queue (some 2))
remove-IsRunqueue_example =
    remove-IsRunqueue spines queue (1 ∷ []) 2 [] (two_queued-IsRunqueue runnable) refl
