-- ===== src/KthreadRunqueue/Traces.antt =====
-- About any sequence of calls of add_to_runqueue and sched_find_best_uthread in gt_pq.c.
use cfs_userspace.Prelude.{
  ℕ, ◌≡◌, ◌≢◌, refl, sym, ap, ◌∙◌, subst, List, [], ◌∷◌, Option, none, some, Exec, ok, ◌>>=◌, All,
  insert_by,
}
use cfs_userspace.RbLibrary.{RbLibrary}
use cfs_userspace.CfsRunqueue.{threads, vruntime_of, vruntime_of-set_node, heap-add, heap-remove}
use cfs_userspace.CfsRunqueue.Invariant.{IsRunqueue}
use cfs_userspace.CfsRunqueue.Adding.{threads-add, add-IsRunqueue}
use cfs_userspace.CfsRunqueue.Removing.{threads-remove, remove-IsRunqueue}
use cfs_userspace.KthreadRunqueue.{
  Ready, add_to_runqueue, add_to_runqueue_lem, sched_find_best_uthread,
}
use cfs_userspace.KthreadRunqueue.Dispatch.{queued_of, after_search, find_best-none, find_best-some}

pub data Command : Type 0 where
  post : ℕ → Command
  pick : Command

pub posted : (lib : RbLibrary) → Ready lib.Tree → ℕ → Ready lib.Tree
posted lib r p =
    let (s, lock) = add_to_runqueue lib (queued_of r) r.runq.kthread_runqlock p in
    record { heap = s.heap; runq = record r.runq { runqueue = s.rq; kthread_runqlock = lock } }

-- The calls one after the other: the threads that the picks return, and the run queue at the end.
pub run :
    (lib : RbLibrary) → List Command → Ready lib.Tree → Exec (List (Option ℕ) × Ready lib.Tree)
run lib [] r = ok ([], r)
run lib (post p ∷ later) r = run lib later (posted lib r p)
run lib (pick ∷ later) r = sched_find_best_uthread lib r >>= λ (best, d).
    (run lib later d >>= λ (out, e). ok (best ∷ out, e))

-- The same on a sorted list of threads: what the picks return, and what is left.
module _ (rank : ℕ → ℕ) where
  pub picks : List Command → List ℕ → List (Option ℕ)
  picks [] q = []
  picks (post p ∷ later) q = picks later (insert_by rank p q)
  picks (pick ∷ later) [] = none ∷ picks later []
  picks (pick ∷ later) (x ∷ q) = some x ∷ picks later q

  pub remains : List Command → List ℕ → List ℕ
  remains [] q = q
  remains (post p ∷ later) q = remains later (insert_by rank p q)
  remains (pick ∷ later) [] = remains later []
  remains (pick ∷ later) (x ∷ q) = remains later q

  -- No thread is posted while it is queued.
  abbrev pub Fresh : List Command → List ℕ → Type 0
  Fresh [] q = Unit
  Fresh (post p ∷ later) q = All (λ x. p ≢ x) q × Fresh later (insert_by rank p q)
  Fresh (pick ∷ later) [] = Fresh later []
  Fresh (pick ∷ later) (x ∷ q) = Fresh later q

-- A run queue that stands for a list of threads with ranks.
pub record Stands (lib : RbLibrary) (rank : ℕ → ℕ) (r : Ready lib.Tree) (q : List ℕ) : Type 0 where
  pub kept : IsRunqueue lib (queued_of r)
  pub listed : threads lib r.runq.runqueue.tree ≡ q
  pub ranks : vruntime_of r.heap ≡ rank

module _ (lib : RbLibrary) (rank : ℕ → ℕ) where
  posted-Stands :
      (r : Ready lib.Tree) (q : List ℕ) (p : ℕ)
      → Stands lib rank r q
      → All (λ x. p ≢ x) q
      → Stands lib rank (posted lib r p) (insert_by rank p q)
  unfolding posted
  posted-Stands r q p stands new =
      let s = queued_of r in
      let away = subst (All (λ x. p ≢ x)) (sym stands.listed) new in
      rw (add_to_runqueue_lem lib s r.runq.kthread_runqlock p) (record {
        kept = add-IsRunqueue lib s p stands.kept away;
        listed =
            threads-add lib s p stands.kept away
            ∙ ap (λ l. insert_by (vruntime_of r.heap) p l) stands.listed
            ∙ ap (λ f. insert_by f p q) stands.ranks;
        ranks =
            ap vruntime_of (heap-add lib s p) ∙ (vruntime_of-set_node r.heap p _ ∙ stands.ranks);
      })

  picked-Stands :
      (r : Ready lib.Tree) (x : ℕ) (q : List ℕ)
      → Stands lib rank r (x ∷ q)
      → (d : Ready lib.Tree) × (sched_find_best_uthread lib r ≡ ok (some x, d))
        × Stands lib rank d q
  picked-Stands r x q stands = (
    _,
    find_best-some lib r x q stands.kept stands.listed,
    record {
      kept = remove-IsRunqueue lib (queued_of r) [] x q stands.kept stands.listed;
      listed = threads-remove lib (queued_of r) [] x q stands.kept stands.listed;
      ranks =
          ap vruntime_of (heap-remove lib (queued_of r) x)
          ∙ (vruntime_of-set_node r.heap x _ ∙ stands.ranks);
    },
  )

  nothing-Stands :
      (r : Ready lib.Tree)
      → Stands lib rank r []
      → (d : Ready lib.Tree) × (sched_find_best_uthread lib r ≡ ok (none, d)) × Stands lib rank d []
  nothing-Stands r stands = (
    record r { runq = record r.runq { kthread_runqlock = after_search r.runq.kthread_runqlock } },
    find_best-none lib r stands.kept stands.listed,
    record { kept = stands.kept; listed = stands.listed; ranks = stands.ranks },
  )

  -- From a run queue that stands for a list of threads, any calls of add_to_runqueue and
  -- sched_find_best_uthread, none of which posts a thread that is queued, end, return what they
  -- return on that list, and leave a run queue that stands for what is left of it.
  pub run_lem :
      (later : List Command) (r : Ready lib.Tree) (q : List ℕ)
      → Stands lib rank r q
      → Fresh rank later q
      → (e : Ready lib.Tree) × (run lib later r ≡ ok (picks rank later q, e))
        × Stands lib rank e (remains rank later q)
  unfolding run picks remains
  run_lem [] r q stands fresh = (r, refl, stands)
  run_lem (post p ∷ later) r q stands fresh =
      run_lem later (posted lib r p) (insert_by rank p q) (posted-Stands r q p stands fresh.0)
        fresh.1
  run_lem (pick ∷ later) r [] stands fresh =
      let (d, found, next) = nothing-Stands r stands in
      let (e, runs, end) = run_lem later d [] next fresh in (e, rw found (rw runs refl), end)
  run_lem (pick ∷ later) r (x ∷ q) stands fresh =
      let (d, found, next) = picked-Stands r x q stands in
      let (e, runs, end) = run_lem later d q next fresh in (e, rw found (rw runs refl), end)
