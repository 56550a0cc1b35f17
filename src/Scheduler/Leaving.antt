-- ===== src/Scheduler/Leaving.antt =====
-- About the first half of uthread_schedule: putting the thread that ran away.
use cfs_userspace.Prelude.{
  ℕ, refl, store, store_other, store_self, In, In-insert_by, In-insert_by-old, ◌⊎◌, true,
  All-insert_by, ◌+◌, ◌≡◌, ◌≢◌, ◌≤◌, sym, ap, ◌∙◌, List, ◌∷◌, none, ok, All, arith, subst, length,
  insert_by, length-insert_by, Bool-cases, inl, inr, bit_or,
}
use cfs_userspace.Uthread.{
  Uthread, UthreadState, Timeval, init, runnable, running, flag, has_flag, done, cancelled, yield,
}
use cfs_userspace.RbLibrary.{RbLibrary}
use cfs_userspace.CfsRunqueue.{threads, vruntime_of}
use cfs_userspace.CfsRunqueue.Invariant.{IsRunqueue}
use cfs_userspace.KthreadRunqueue.{KthreadRunqueue}
use cfs_userspace.Kthread.{Cpu, KschedSharedInfo}
use cfs_userspace.Accounting.Runtime.{update_vruntime_to_max-ok, update_vruntime_state}
use cfs_userspace.Scheduler.Ownership.{Over, Settled}
use cfs_userspace.Scheduler.Standing.{Waits, Waiting, Waiting-frame}
use cfs_userspace.Scheduler.{write_uthread, charge, retire, requeue, requeue_last, put_back}
use cfs_userspace.Scheduler.Queue.{queue_of, ready_threads, same-IsRunqueue, outside-same}
use cfs_userspace.Scheduler.Requeue.{requeue_lem}

-- The state once the thread that ran is put away.
-- `queued` are the threads that were queued before, `own` all threads, and `h` is memory before.
pub record Left (lib : RbLibrary) (queued : List ℕ) (h : ℕ → Uthread) (own : List ℕ) (live : ℕ)
    (left : Cpu lib.Tree) : Type 0 where
  pub kept : IsRunqueue lib (queue_of left)
  pub current : left.k_ctx.krunqueue.cur_uthread ≡ none
  pub few : length (ready_threads lib left) ≤ length queued + 1
  pub frame : (x : ℕ) → All (λ q. x ≢ q) own → left.heap x ≡ h x
  pub foreign : (x : ℕ) → All (λ q. x ≢ q) own → All (λ q. x ≢ q) (ready_threads lib left)
  pub remains :
      (x : ℕ) → In x own → In x (ready_threads lib left) ⊎ Over (left.heap x).uthread_state
  pub waiting : Waiting h queued → Waiting left.heap (ready_threads lib left)
  pub settled :
      Settled (length own) live (length (ready_threads lib left)) left.shared.kthread_cur_uthreads

has_flag-Over :
    (s : UthreadState) → has_flag s (bit_or (flag done) (flag cancelled)) ≡ true → Over s
has_flag-Over init e = cc
has_flag-Over runnable e = cc
has_flag-Over running e = cc
has_flag-Over cancelled e = tt
has_flag-Over done e = tt
has_flag-Over yield e = cc

In-insert_by-member :
    (rank : ℕ → ℕ) (p : ℕ) (qs : List ℕ) (x : ℕ) → In x (p ∷ qs) → In x (insert_by rank p qs)
In-insert_by-member rank p qs x (inl same) =
    subst (λ y. In y (insert_by rank p qs)) (sym same) (In-insert_by rank p qs)
In-insert_by-member rank p qs x (inr i) = In-insert_by-old rank p x qs i

module _ (lib : RbLibrary) (c : Cpu lib.Tree) (p : ℕ) (kept : IsRunqueue lib (queue_of c))
    (away : All (λ q. p ≢ q) (ready_threads lib c))
    (off : c.k_ctx.krunqueue.cur_uthread ≡ none) where
  abbrev LeftHere : Cpu lib.Tree → Type 0
  LeftHere =
      Left lib (ready_threads lib c) c.heap (p ∷ ready_threads lib c) c.shared.kthread_cur_uthreads

  flip : (x : ℕ) → x ≢ p → p ≢ x
  flip x ne e = ne (sym e)

  -- The thread is queued again, after a write to it.
  requeued-Left :
      (before : Cpu lib.Tree) (u : Uthread)
      → before.heap ≡ store c.heap p u
      → before.k_ctx.krunqueue ≡ c.k_ctx.krunqueue
      → before.shared ≡ c.shared
      → LeftHere (requeue lib before p)
  requeued-Left before u heap runq shared =
      let same : ready_threads lib before ≡ ready_threads lib c =
        ap (λ (q : KthreadRunqueue lib.Tree). threads lib q.runqueue.tree) runq in
      let inv : IsRunqueue lib (queue_of before) =
        rw (heap, runq)
          (same-IsRunqueue lib c.k_ctx.krunqueue.runqueue c.heap (store c.heap p u)
            (outside-same c.heap p u _ away) kept) in
      let back = requeue_lem lib before p inv (rw same away) in
      let d = requeue lib before p in
      let order = back.order ∙ ap (insert_by (vruntime_of before.heap) p) same in
      let frame : (x : ℕ) → p ≢ x → d.heap x ≡ c.heap x =
        λ x ne. back.frame x ne ∙ (ap (λ f. f x) heap ∙ store_other c.heap p x u ne) in
      record {
        kept = back.kept;
        current = back.current ∙ (ap (λ (q : KthreadRunqueue lib.Tree). q.cur_uthread) runq ∙ off);
        few = omega (
          arith,
          ap length order,
          length-insert_by (vruntime_of before.heap) p (ready_threads lib c),
        );
        frame = λ x own. frame x (flip x own.0);
        foreign = λ x own.
            subst (All (λ q. x ≢ q)) (sym order)
              (All-insert_by (λ q. x ≢ q) (vruntime_of before.heap) p _ own.0 own.1);
        remains = λ x own. inl (
            subst (In x) (sym order)
              (In-insert_by-member (vruntime_of before.heap) p (ready_threads lib c) x own));
        waiting = λ w. subst (Waiting d.heap) (sym order) (
            All-insert_by (λ q. Waits (d.heap q).uthread_state) (vruntime_of before.heap) p _
              (subst Waits (sym back.state) tt)
              (Waiting-frame c.heap d.heap p (ready_threads lib c) away frame w));
        settled = inl (
          ap length order ∙ length-insert_by (vruntime_of before.heap) p (ready_threads lib c),
          ap (λ (i : KschedSharedInfo). i.kthread_cur_uthreads) (back.shared ∙ shared),
        );
      }

  requeue-Left : (u : Uthread) → LeftHere (requeue lib (write_uthread c p u) p)
  requeue-Left u = requeued-Left (write_uthread c p u) u refl refl refl

  charge-Left : (now : Timeval) → LeftHere (requeue lib (charge c p now) p)
  unfolding charge
  charge-Left now = requeued-Left (charge c p now) _ refl refl refl

  retired_state :
      (now : Timeval) → ((retire c p now).heap p).uthread_state ≡ (c.heap p).uthread_state
  unfolding retire charge
  retired_state now =
      ap (λ (u : Uthread). u.uthread_state) (store_self c.heap p _)
      ∙ update_vruntime_state (c.heap p) now

  retire-remains :
      (now : Timeval)
      → Over (c.heap p).uthread_state
      → (x : ℕ) → In x (p ∷ ready_threads lib c)
      → In x (ready_threads lib c) ⊎ Over ((retire c p now).heap x).uthread_state
  retire-remains now over x (inl same) = inr (
      subst (λ y. Over ((retire c p now).heap y).uthread_state) (sym same)
        (subst Over (sym (retired_state now)) over))
  retire-remains now over x (inr i) = inl i

  retire-Left : (now : Timeval) → Over (c.heap p).uthread_state → LeftHere (retire c p now)
  unfolding retire charge
  retire-Left now over = record {
    kept =
        same-IsRunqueue lib c.k_ctx.krunqueue.runqueue c.heap _ (outside-same c.heap p _ _ away)
          kept;
    current = off;
    few = omega arith;
    frame = λ x own. store_other c.heap p x _ (flip x own.0);
    foreign = λ x own. own.1;
    remains = retire-remains now over;
    waiting = λ w.
        Waiting-frame c.heap _ p (ready_threads lib c) away (λ x ne. store_other c.heap p x _ ne) w;
    settled = inr (omega arith, refl);
  }

  requeue_last-ok : (left : Cpu lib.Tree) × (requeue_last lib c p ≡ ok left) × LeftHere left
  unfolding requeue_last
  requeue_last-ok =
      let (v, run) = update_vruntime_to_max-ok lib (queue_of c) (c.heap p) kept in
      let u = record (c.heap p) { vruntime = v } in
      (requeue lib (write_uthread c p u) p, rw run, requeue-Left u)

  pub put_back-ok :
      (now : Timeval) → (left : Cpu lib.Tree) × (put_back lib c p now ≡ ok left) × LeftHere left
  unfolding put_back
  put_back-ok now =
      elim (Bool-cases (has_flag (c.heap p).uthread_state (bit_or (flag done) (flag cancelled)))) [
        | inl over ↦
            (retire c p now, rw over, retire-Left now (has_flag-Over (c.heap p).uthread_state over))
        | inr on ↦ elim (Bool-cases (has_flag (c.heap p).uthread_state (flag yield))) [
          | inl yields ↦ let (left, run, l) = requeue_last-ok in (left, rw (on, yields) run, l)
          | inr stays ↦ (requeue lib (charge c p now) p, rw (on, stays), charge-Left now)
        ]
      ]
