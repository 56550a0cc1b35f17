-- ===== src/Scheduler/Entries/Entered.antt =====
-- About the states from which gt_yield, ksched_priority and the others enter uthread_schedule.
use cfs_userspace.Prelude.{
  ℕ, ◌≡◌, ◌≢◌, refl, sym, ap, ◌∙◌, subst, ◌++◌, some, All, store, store_other, length, inl,
}
use cfs_userspace.Uthread.{UthreadState}
use cfs_userspace.RbLibrary.{RbLibrary}
use cfs_userspace.CfsRunqueue.{threads}
use cfs_userspace.Kthread.{Cpu, KthreadContext}
use cfs_userspace.Scheduler.Queue.{ready_threads, same-IsRunqueue, write-same, All-same}
use cfs_userspace.Scheduler.Ownership.{cur_list, owned, Foreign, Confined}
use cfs_userspace.Scheduler.Standing.{Waiting, Standing, Waiting-frame}
use cfs_userspace.Scheduler.Pass.{IsCpu}

-- A state from which the scheduler is entered.
pub record Entered (lib : RbLibrary) (n : ℕ) (b d : Cpu lib.Tree) : Type 0 where
  pub cpu : IsCpu lib d
  pub own : Confined lib b.heap b.k_ctx d
  pub few : length (ready_threads lib d) ≡ n
  pub whole : owned lib d.k_ctx ≡ owned lib b.k_ctx
  pub waiting : Waiting d.heap (ready_threads lib d)
  pub live : d.shared.kthread_cur_uthreads ≡ b.shared.kthread_cur_uthreads

-- The thread that runs is not foreign.
pub not-Foreign :
    (lib : RbLibrary) (k : KthreadContext lib.Tree) (p : ℕ)
    → k.krunqueue.cur_uthread ≡ some p
    → (x : ℕ) → Foreign lib k x
    → p ≢ x
not-Foreign lib k p cur x own same =
    (subst (λ o. All (λ q. x ≢ q) (cur_list o ++ threads lib k.krunqueue.runqueue.tree)) cur own).0
      (sym same)

module _ (lib : RbLibrary) (c : Cpu lib.Tree) (cpu : IsCpu lib c)
    (stand : Standing lib c.heap c.k_ctx.krunqueue) where
  -- Fields of the context outside the run queue, and the timer, do not matter.
  pub same-Entered :
      (d : Cpu lib.Tree)
      → d.heap ≡ c.heap
      → d.k_ctx.krunqueue ≡ c.k_ctx.krunqueue
      → d.shared.kthread_cur_uthreads ≡ c.shared.kthread_cur_uthreads
      → Entered lib (length (ready_threads lib c)) c d
  same-Entered d heap runq live = record {
    cpu = record { kept = rw (heap, runq) cpu.kept; away = rw runq cpu.away };
    own = record {
      frame = λ x own. ap (λ f. f x) heap;
      foreign = λ x own. rw runq own;
      remains = λ x i. inl (rw runq i);
    };
    few = rw runq;
    whole = rw runq;
    waiting = rw (heap, runq) stand.queue;
    live = live;
  }

  -- Neither does the state of the running thread.
  pub marked-Entered :
      (p : ℕ) (st : UthreadState) (d : Cpu lib.Tree)
      → c.k_ctx.krunqueue.cur_uthread ≡ some p
      → d.heap ≡ store c.heap p (record (c.heap p) { uthread_state = st })
      → d.k_ctx.krunqueue ≡ c.k_ctx.krunqueue
      → d.shared.kthread_cur_uthreads ≡ c.shared.kthread_cur_uthreads
      → Entered lib (length (ready_threads lib c)) c d
  marked-Entered p st d cur heap runq live =
      let u = record (c.heap p) { uthread_state = st } in
      record {
        cpu = record {
          kept =
              rw (heap, runq)
                (same-IsRunqueue lib c.k_ctx.krunqueue.runqueue c.heap (store c.heap p u)
                  (All-same c.heap (store c.heap p u) _ (write-same c.heap p u refl refl refl))
                  cpu.kept);
          away = rw runq cpu.away;
        };
        own = record {
          frame = λ x own.
              ap (λ f. f x) heap ∙ store_other c.heap p x u (not-Foreign lib c.k_ctx p cur x own);
          foreign = λ x own. rw runq own;
          remains = λ x i. inl (rw runq i);
        };
        few = rw runq;
        whole = rw runq;
        waiting =
            rw (heap, runq)
              (Waiting-frame c.heap (store c.heap p u) p (ready_threads lib c) (cpu.away p cur)
                (λ q ne. store_other c.heap p q u ne) stand.queue);
        live = live;
      }
