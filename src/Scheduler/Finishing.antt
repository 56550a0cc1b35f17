-- ===== src/Scheduler/Finishing.antt =====
-- About the two ends of a pass of uthread_schedule: idle, and the switch to a thread.
use cfs_userspace.Prelude.{
  ℕ, some_inj, In, ◌⊎◌, ℕ_discrete, ◌≡◌, ◌≢◌, refl, sym, ap, ◌∙◌, List, ◌∷◌, some, none, ok, All,
  subst, length, Bool-cases, inl, inr, ◌==◌,
}
use cfs_userspace.Uthread.{Uthread}
use cfs_userspace.RbLibrary.{RbLibrary}
use cfs_userspace.CfsRunqueue.Invariant.{IsRunqueue}
use cfs_userspace.Kthread.{Cpu}
use cfs_userspace.Scheduler.{to_kthread_env, idle}
use cfs_userspace.Scheduler.Queue.{queue_of, ready_threads}
use cfs_userspace.Scheduler.Pass.{IsCpu}
use cfs_userspace.Scheduler.Ownership.{owned, Foreign, Over, Confined, size, Settled}
use cfs_userspace.Scheduler.Standing.{Goes, Waiting, Standing, Waiting-frame}
use cfs_userspace.Scheduler.Switch.{Switched}
use cfs_userspace.Scheduler.Leaving.{Left}
use cfs_userspace.Uthread.{Timeval}

module _ (lib : RbLibrary) (c : Cpu lib.Tree) where
  none-some : (p : ℕ) → none ≡ some p → ⊥
  none-some p e = cc

  pub idle-IsCpu :
      (d : Cpu lib.Tree)
      → IsRunqueue lib (queue_of d)
      → d.k_ctx.krunqueue.cur_uthread ≡ none
      → IsCpu lib (idle lib d).1
  unfolding idle
  idle-IsCpu d kept off = elim (Bool-cases (d.shared.app_exit == 0)) [
    | inl on ↦ rw on (record { kept = kept; away = λ p cur. absurd (none-some p (sym off ∙ cur)) })
    | inr out ↦
        rw out (record { kept = kept; away = λ p cur. absurd (none-some p (sym off ∙ cur)) })
  ]

  pub idle-Settled :
      (d : Cpu lib.Tree)
      → d.k_ctx.krunqueue.cur_uthread ≡ none
      → Settled
          (size lib c.k_ctx)
          c.shared.kthread_cur_uthreads
          (length (ready_threads lib d))
          d.shared.kthread_cur_uthreads
      → Settled
          (size lib c.k_ctx)
          c.shared.kthread_cur_uthreads
          (size lib (idle lib d).1.k_ctx)
          (idle lib d).1.shared.kthread_cur_uthreads
  unfolding idle
  idle-Settled d off settled = elim (Bool-cases (d.shared.app_exit == 0)) [
    | inl on ↦ rw (on, off) settled
    | inr out ↦ rw (out, off) settled
  ]

  pub idle-Standing :
      (d : Cpu lib.Tree)
      → Waiting d.heap (ready_threads lib d)
      → d.k_ctx.krunqueue.cur_uthread ≡ none
      → Standing lib (idle lib d).1.heap (idle lib d).1.k_ctx.krunqueue
  unfolding idle
  idle-Standing d w off = elim (Bool-cases (d.shared.app_exit == 0)) [
    | inl on ↦ rw on (record { queue = w; current = λ p cur. absurd (none-some p (sym off ∙ cur)) })
    | inr out ↦
        rw out (record { queue = w; current = λ p cur. absurd (none-some p (sym off ∙ cur)) })
  ]

  pub Switched-Standing :
      (left e : Cpu lib.Tree) (q : ℕ) (rest : List ℕ) (now : Timeval)
      → Waiting left.heap (q ∷ rest)
      → Switched lib left.heap q rest now e
      → ((p : ℕ) → q ≢ p → e.heap p ≡ left.heap p)
      → Standing lib e.heap e.k_ctx.krunqueue
  Switched-Standing left e q rest now w sw frame = record {
    queue =
        subst (Waiting e.heap) (sym sw.queue)
          (Waiting-frame left.heap e.heap q rest sw.away frame w.1);
    current = λ p cur.
        subst (λ x. Goes (e.heap x).uthread_state) (some_inj.0 (sym sw.current ∙ cur))
          (subst Goes (sym sw.state) tt);
  }

  pub idle_jump : (d : Cpu lib.Tree) → ok (idle lib d) ≡ ok (to_kthread_env, (idle lib d).1)
  unfolding idle
  idle_jump d = refl

  pub idle-Confined :
      (left d : Cpu lib.Tree)
      → Left lib (ready_threads lib c) c.heap (owned lib c.k_ctx) c.shared.kthread_cur_uthreads left
      → d.heap ≡ left.heap
      → ready_threads lib d ≡ ready_threads lib left
      → d.k_ctx.krunqueue.cur_uthread ≡ none
      → Confined lib c.heap c.k_ctx (idle lib d).1
  unfolding idle
  idle-Confined left d l same queue off =
      let frame = λ (x : ℕ) (own : Foreign lib c.k_ctx x). ap (λ f. f x) same ∙ l.frame x own in
      let foreign : (x : ℕ) → Foreign lib c.k_ctx x → Foreign lib d.k_ctx x =
        λ x own. rw (off, queue) (l.foreign x own) in
      let remains : (x : ℕ)
          → In x (owned lib c.k_ctx)
          → In x (owned lib d.k_ctx) ⊎ Over (d.heap x).uthread_state =
        λ x i. rw (off, queue, same) (l.remains x i) in
      elim (Bool-cases (d.shared.app_exit == 0)) [
        | inl on ↦ rw on (record { frame = frame; foreign = foreign; remains = remains })
        | inr out ↦ rw out (record { frame = frame; foreign = foreign; remains = remains })
      ]

  pub size_switched :
      (e : Cpu lib.Tree) (q : ℕ) (rest : List ℕ)
      → e.k_ctx.krunqueue.cur_uthread ≡ some q
      → ready_threads lib e ≡ rest
      → size lib e.k_ctx ≡ length (q ∷ rest)
  size_switched e q rest cur queue = rw (cur, queue) refl

  switch_remains :
      (left e : Cpu lib.Tree) (q : ℕ) (rest : List ℕ)
      → ready_threads lib left ≡ q ∷ rest
      → ((p : ℕ) → q ≢ p → e.heap p ≡ left.heap p)
      → (x : ℕ) → In x (ready_threads lib left) ⊎ Over (left.heap x).uthread_state
      → In x (q ∷ rest) ⊎ Over (e.heap x).uthread_state
  switch_remains left e q rest order frame x (inl i) = inl (subst (In x) order i)
  switch_remains left e q rest order frame x (inr over) = elim (ℕ_discrete q x) [
    | yes same ↦ inl (inl (sym same))
    | no other ↦ inr (subst (λ (u : Uthread). Over u.uthread_state) (sym (frame x other)) over)
  ]

  pub Switched-Confined :
      (left e : Cpu lib.Tree) (q : ℕ) (rest : List ℕ)
      → Left lib (ready_threads lib c) c.heap (owned lib c.k_ctx) c.shared.kthread_cur_uthreads left
      → ready_threads lib left ≡ q ∷ rest
      → e.k_ctx.krunqueue.cur_uthread ≡ some q
      → ready_threads lib e ≡ rest
      → ((p : ℕ) → q ≢ p → e.heap p ≡ left.heap p)
      → Confined lib c.heap c.k_ctx e
  Switched-Confined left e q rest l order cur queue frame =
      let queued : (x : ℕ) → Foreign lib c.k_ctx x → All (λ p. x ≢ p) (q ∷ rest) =
        λ x own. subst (All (λ p. x ≢ p)) order (l.foreign x own) in
      record {
        frame = λ x own. frame x (λ f. (queued x own).0 (sym f)) ∙ l.frame x own;
        foreign = λ x own. rw (cur, queue) (queued x own);
        remains =
            λ x i. rw (cur, queue) (switch_remains left e q rest order frame x (l.remains x i));
      }
