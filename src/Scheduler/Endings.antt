-- ===== src/Scheduler/Endings.antt =====
-- About uthread_schedule in gt_uthread.c, for a thread that is done or cancelled.
use cfs_userspace.Prelude.{
  ℕ, ◌+◌, ◌-◌, ◌≡◌, ◌≤◌, ◌%◌, ◌^◌, ◌∙◌, refl, List, [], ◌∷◌, some, none, ok, ◌⊎◌, inl, inr,
  Bool-cases, length, if◌then◌else◌, ◌==◌,
}
use cfs_userspace.Uthread.{done, cancelled, SavedContext}
use cfs_userspace.RbLibrary.{RbLibrary}
use cfs_userspace.CfsRunqueue.Invariant.{IsRunqueue}
use cfs_userspace.KthreadRunqueue.{sched_find_best_uthread}
use cfs_userspace.KthreadRunqueue.Dispatch.{find_best-none}
use cfs_userspace.Kthread.{Cpu, set_done}
use cfs_userspace.Accounting.Slices.{max_sharing}
use cfs_userspace.Scheduler.{
  InitCalls, Clock, to_uthread, to_kthread_env, set_cur, charge, retire, put_back, leave, choose,
  next_or_idle, idle, uthread_schedule,
}
use cfs_userspace.Scheduler.Queue.{queue_of, ready_threads, same-IsRunqueue, outside-same}
use cfs_userspace.Scheduler.Choosing.{CallsSucceed}
use cfs_userspace.Scheduler.Pass.{pass_framed, Switched-IsCpu, IsCpu, Reaches, entry, pass}
use cfs_userspace.Scheduler.Passes.{charged}

-- The threads that are done leave the queue as it is, and the number of live threads is one less.
retired : {Tree : Type 0} → Cpu Tree → ℕ → Clock → Cpu Tree
retired c p clock = retire (set_cur (entry c) none) p clock.leaving

-- The state after a pass that ends a thread and finds no other: the kernel thread is marked as done
-- if the application exits, and one live thread less is counted.
pub record Drained (Tree : Type 0) (c e : Cpu Tree) : Type 0 where
  pub flags :
      e.k_ctx.kthread_flags
      ≡ (if c.shared.app_exit == 0 then c.k_ctx.kthread_flags else set_done c.k_ctx.kthread_flags)
  pub count : e.shared.kthread_cur_uthreads ≡ (c.shared.kthread_cur_uthreads + 2 ^ 32 - 1) % 2 ^ 32
  pub current : e.k_ctx.krunqueue.cur_uthread ≡ none

module _ (lib : RbLibrary) (os : InitCalls) (clock : Clock) (c : Cpu lib.Tree) (p : ℕ)
    (cpu : IsCpu lib c) (cur : c.k_ctx.krunqueue.cur_uthread ≡ some p)
    (st : ((c.heap p).uthread_state ≡ done) ⊎ ((c.heap p).uthread_state ≡ cancelled)) where
  leave-retired :
      leave lib (entry c) c.k_ctx.krunqueue.cur_uthread clock.leaving ≡ ok (retired c p clock)
  unfolding leave put_back retired
  leave-retired = elim st [ inl d ↦ rw (cur, d) | inr d ↦ rw (cur, d) ]

  queue-retired : ready_threads lib (retired c p clock) ≡ ready_threads lib c
  unfolding retired retire charge
  queue-retired = refl

  retired-IsRunqueue : IsRunqueue lib (queue_of (retired c p clock))
  unfolding retired retire charge
  retired-IsRunqueue =
      same-IsRunqueue lib c.k_ctx.krunqueue.runqueue c.heap _
        (outside-same c.heap p _ _ (cpu.away p cur)) cpu.kept

  -- Let thread p be done or cancelled on a kernel thread whose run queue is well formed and does
  -- not hold p, let the queue be q and then rest, at most 2147482 threads in rest, and let the
  -- system calls of uthread_init succeed. Then uthread_schedule charges p, and jumps to q as after
  -- a preemption, with rest left queued.
  pub schedule_done :
      (q : ℕ) (rest : List ℕ)
      → ready_threads lib c ≡ q ∷ rest
      → CallsSucceed os
      → length rest + 1 ≤ max_sharing
      → Reaches lib os clock c (charged c.heap p clock.leaving) q rest
  unfolding retire charge retired
  schedule_done q rest order good few =
      pass lib os clock c (retired c p clock) q rest good few leave-retired retired-IsRunqueue order

  retired-Counters :
      ((retired c p clock).shared.kthread_cur_uthreads
        ≡ (c.shared.kthread_cur_uthreads + 2 ^ 32 - 1) % 2 ^ 32)
      × ((retired c p clock).shared.app_exit ≡ c.shared.app_exit)
      × ((retired c p clock).k_ctx.kthread_flags ≡ c.k_ctx.kthread_flags)
  unfolding retired retire charge
  retired-Counters = (refl, refl, refl)

  -- The same pass, with what is counted.
  pub schedule_ends :
      (q : ℕ) (rest : List ℕ)
      → ready_threads lib c ≡ q ∷ rest
      → CallsSucceed os
      → length rest + 1 ≤ max_sharing
      → (j : SavedContext) × (e : Cpu lib.Tree) × (uthread_schedule lib
            (sched_find_best_uthread lib)
            os
            clock
            c
          ≡ ok (to_uthread q j, e))
        × IsCpu lib e
        × (e.k_ctx.krunqueue.cur_uthread ≡ some q)
        × (ready_threads lib e ≡ rest)
        × (e.shared.kthread_cur_uthreads ≡ (c.shared.kthread_cur_uthreads + 2 ^ 32 - 1) % 2 ^ 32)
        × (e.shared.app_exit ≡ c.shared.app_exit)
        × (e.k_ctx.kthread_flags ≡ c.k_ctx.kthread_flags)
  schedule_ends q rest order good few =
      let (j, e, run, sw, frame, counters) =
        pass_framed lib os clock c (retired c p clock) q rest good few leave-retired
          retired-IsRunqueue (queue-retired ∙ order) in
      let (live, exits, flags) = retired-Counters in
      (
        j,
        e,
        run,
        Switched-IsCpu lib (retired c p clock).heap q rest clock.entering e sw,
        sw.current,
        sw.queue,
        counters.live ∙ live,
        counters.exits ∙ exits,
        counters.flags ∙ flags,
      )

  -- The state in which the search for a thread has found none.
  drained : Cpu lib.Tree
  drained =
      let left = retired c p clock in
      let k = left.k_ctx.krunqueue in
      let lock = record k.kthread_runqlock { locked = 0; holder = 0x04 } in
      record left { k_ctx = record left.k_ctx { krunqueue = record k { kthread_runqlock = lock } } }

  drained_lem : Drained lib.Tree c (idle lib drained).1
  unfolding idle drained retire charge retired
  drained_lem = elim (Bool-cases (c.shared.app_exit == 0)) [
    | inl on ↦ record { flags = rw on; count = rw on; current = rw on }
    | inr off ↦ record { flags = rw off; count = rw off; current = rw off }
  ]

  -- Let thread p be done or cancelled on a kernel thread with a well-formed, empty run queue. Then
  -- uthread_schedule jumps to `kthread_env`, with no thread current and one live thread less
  -- counted, and sets KTHREAD_DONE if the application exits and leaves the flags as they are if
  -- not.
  pub schedule_drains :
      ready_threads lib c ≡ []
      → (e : Cpu lib.Tree) × (uthread_schedule lib (sched_find_best_uthread lib) os clock c
          ≡ ok (to_kthread_env, e))
        × Drained lib.Tree c e
  unfolding uthread_schedule next_or_idle choose drained idle
  schedule_drains empty =
      let left = retired c p clock in
      let search =
        find_best-none lib (record { heap = left.heap; runq = left.k_ctx.krunqueue })
          retired-IsRunqueue (rw queue-retired empty) in
      ((idle lib drained).1, rw (leave-retired, search), drained_lem)
