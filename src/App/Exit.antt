-- ===== src/App/Exit.antt =====
-- About gtthread_app_exit in gt_kthread.c, called by the master thread.
use cfs_userspace.Prelude.{
  ℕ, ◌≤◌, ◌<◌, List, ◌∷◌, ◌++◌, map, length, ◌≡◌, ◌+◌, ◌-◌, ◌%◌, ◌^◌, refl, ap, ◌∙◌, [], ok, some,
  none, arith, store, store_self, inl, true, false, if◌then◌else◌, ◌==◌,
}
use cfs_userspace.Uthread.{Uthread, done, SavedContext}
use cfs_userspace.RbLibrary.{RbLibrary}
use cfs_userspace.Kthread.{Cpu, is_done, set_done, clear_done}
use cfs_userspace.Scheduler.{InitCalls, Clock, to_uthread, to_kthread_env}
use cfs_userspace.Scheduler.Queue.{ready_threads, same-IsRunqueue, outside-same}
use cfs_userspace.Scheduler.Pass.{IsCpu}
use cfs_userspace.Scheduler.Endings.{schedule_ends, schedule_drains}
use cfs_userspace.Scheduler.Entries.Drain.{finishes, drain}
use cfs_userspace.Scheduler.Choosing.{CallsSucceed}
use cfs_userspace.Accounting.Slices.{max_sharing}
use cfs_userspace.App.{gtthread_app_exit, exit_round, finish_master, announce_exit}

done_set : (flags : ℕ) → is_done (set_done flags) ≡ true
done_set flags = ground arith

done_clear : (flags : ℕ) → is_done (clear_done flags) ≡ false
done_clear flags = ground arith

module _ (lib : RbLibrary) (os : InitCalls) (clock : Clock) (c : Cpu lib.Tree) (p : ℕ)
    (cpu : IsCpu lib c) (cur : c.k_ctx.krunqueue.cur_uthread ≡ some p)
    (master : c.k_ctx.master_thread ≡ some p) where
  ended : Cpu lib.Tree
  unfolding announce_exit
  ended =
      let d = announce_exit lib os clock c in
      record d {
        heap = store c.heap p (record (c.heap p) { uthread_state = done });
        k_ctx = record d.k_ctx { master_thread = none };
      }

  ended_lem : finish_master lib os clock (announce_exit lib os clock c) ≡ ended
  unfolding ended finish_master announce_exit
  ended_lem = rw master

  ended-IsCpu : IsCpu lib ended
  unfolding ended announce_exit
  ended-IsCpu = record {
    kept =
        same-IsRunqueue lib c.k_ctx.krunqueue.runqueue c.heap _
          (outside-same c.heap p _ _ (cpu.away p cur)) cpu.kept;
    away = cpu.away;
  }

  ended-current : ended.k_ctx.krunqueue.cur_uthread ≡ some p
  unfolding ended announce_exit
  ended-current = cur

  ended-state : (ended.heap p).uthread_state ≡ done
  unfolding ended announce_exit
  ended-state = ap (λ (u : Uthread). u.uthread_state) (store_self c.heap p _)

  ended-queue : ready_threads lib ended ≡ ready_threads lib c
  unfolding ended announce_exit
  ended-queue = refl

  ended-exit : ended.shared.app_exit ≡ 1
  unfolding ended announce_exit
  ended-exit = refl

  ended-flags : is_done (announce_exit lib os clock c).k_ctx.kthread_flags ≡ false
  unfolding announce_exit
  ended-flags = done_clear c.k_ctx.kthread_flags

  ended-count :
      (ended.shared.kthread_cur_uthreads + 2 ^ 32 - 1) % 2 ^ 32
      ≡ (c.shared.kthread_cur_uthreads + 2 ^ 32 - 1) % 2 ^ 32
  unfolding ended announce_exit
  ended-count = refl

  -- Let the master thread p be the current one on a kernel thread with a well-formed, empty run
  -- queue. Then gtthread_app_exit comes back to `kthread_env`, one live thread less is counted,
  -- and the next round of its loop leaves the loop.
  pub gtthread_app_exit_lem :
      ready_threads lib c ≡ []
      → (e : Cpu lib.Tree) × (gtthread_app_exit lib os clock c ≡ ok (some to_kthread_env, e))
        × (e.shared.kthread_cur_uthreads ≡ (c.shared.kthread_cur_uthreads + 2 ^ 32 - 1) % 2 ^ 32)
        × (exit_round lib os clock e ≡ ok (none, e))
  unfolding gtthread_app_exit exit_round
  gtthread_app_exit_lem empty =
      let (e, run, drained) =
        schedule_drains lib os clock ended p ended-IsCpu ended-current (inl ended-state)
          (ended-queue ∙ empty) in
      (
        e,
        rw (ended_lem, ended-flags, run),
        drained.count ∙ ended-count,
        rw (drained.flags, ended-exit, done_set),
      )

  exit_round-done :
      (e : Cpu lib.Tree)
      → is_done e.k_ctx.kthread_flags ≡ true
      → exit_round lib os clock e ≡ ok (none, e)
  unfolding exit_round
  exit_round-done e over = rw over refl

  -- Let the master thread p be current on a well-formed kernel thread where q and then rest wait,
  -- at most 2147482 threads in rest, with fewer than 2^32 threads live on all kernel threads and
  -- system calls that succeed. Then gtthread_app_exit switches to q; if the function of each
  -- thread returns as soon as it runs, the threads of rest run in their order, and
  -- uthread_schedule jumps to `kthread_env` after the last one; p and those that waited are no
  -- longer counted as live, and the next round of the loop in gtthread_app_exit leaves it.
  pub exit_drains :
      (q : ℕ) (rest : List ℕ) (clocks : List Clock) (live : ℕ)
      → CallsSucceed os
      → ready_threads lib c ≡ q ∷ rest
      → length clocks ≡ length rest + 1
      → length rest + 1 ≤ max_sharing
      → live + length rest + 2 < 2 ^ 32
      → c.shared.kthread_cur_uthreads ≡ live + length rest + 2
      → (j : SavedContext) × (d e : Cpu lib.Tree) × (gtthread_app_exit lib os clock c
          ≡ ok (some (to_uthread q j), d))
        × (finishes lib os clocks d ≡ ok (map some rest ++ none ∷ [], e))
        × (e.shared.kthread_cur_uthreads ≡ live)
        × (exit_round lib os clock e ≡ ok (none, e))
  unfolding gtthread_app_exit exit_round
  exit_drains q rest clocks live good queue same few small count =
      let (j, d, run, cpu', cur', queue', count', exits, flags) =
        schedule_ends lib os clock ended p ended-IsCpu ended-current (inl ended-state) q rest
          (ended-queue ∙ queue) good few in
      let (e, runs, over) = drain lib os good rest clocks d q live same few (omega arith) (record {
        cpu = cpu';
        current = cur';
        queue = queue';
        count = omega (arith, count', ended-count, count);
      }) in
      (
        j,
        d,
        e,
        rw (ended_lem, ended-flags, run),
        runs,
        over.count,
        exit_round-done e (
            ap is_done over.flags
            ∙ (ap
                  (λ a.
                    is_done
                      (if a == 0 then d.k_ctx.kthread_flags else set_done d.k_ctx.kthread_flags))
                  (exits ∙ ended-exit)
                ∙ done_set d.k_ctx.kthread_flags)),
      )
