-- ===== src/Scheduler/Entries/Drain.antt =====
-- About uthread_context_func, when the threads of a kernel thread return one after the other.
use cfs_userspace.Prelude.{
  ℕ, suc, ◌+◌, ◌-◌, ◌%◌, ◌≡◌, ◌≤◌, ◌<◌, ◌^◌, ◌==◌, if◌then◌else◌, refl, ap, ◌∙◌, subst, arith, List,
  [], ◌∷◌, ◌++◌, map, length, Option, some, none, Exec, ok, deref, ◌>>=◌, inl,
}
use cfs_userspace.Uthread.{done, SavedContext}
use cfs_userspace.RbLibrary.{RbLibrary}
use cfs_userspace.Kthread.{Cpu, set_done}
use cfs_userspace.Accounting.Slices.{max_sharing}
use cfs_userspace.Scheduler.{InitCalls, Clock, Jump, to_uthread, to_kthread_env, disturb, set_timer}
use cfs_userspace.Scheduler.Queue.{ready_threads}
use cfs_userspace.Scheduler.Choosing.{CallsSucceed}
use cfs_userspace.Scheduler.Pass.{IsCpu}
use cfs_userspace.Scheduler.Endings.{schedule_ends, schedule_drains}
use cfs_userspace.Scheduler.Entries.{context_func_finish}
use cfs_userspace.Scheduler.Entries.Handlers.{with_state, with_state-IsCpu, state_lem}
use cfs_userspace.Scheduler.Entries.RoundRobin.{resumed}

-- The function of the thread that runs returns.
abbrev pub finish_current :
    (lib : RbLibrary) → InitCalls → Clock → Cpu lib.Tree → Exec (Jump × Cpu lib.Tree)
finish_current lib os clock c =
    deref c.k_ctx.krunqueue.cur_uthread >>= context_func_finish lib os clock c

-- Each thread returns as soon as it runs; what is resumed, one after the other.
pub finishes :
    (lib : RbLibrary)
    → InitCalls
    → List Clock
    → Cpu lib.Tree
    → Exec (List (Option ℕ) × Cpu lib.Tree)
finishes lib os [] c = ok ([], c)
finishes lib os (clock ∷ later) c = finish_current lib os clock c >>= λ (jump, d).
    (finishes lib os later d >>= λ (ran, e). ok (resumed jump ∷ ran, e))

-- Thread p runs, the others wait, and so many threads are live, on all kernel threads together.
pub record Runs (lib : RbLibrary) (c : Cpu lib.Tree) (p : ℕ) (waiting : List ℕ) (live : ℕ)
    : Type 0 where
  pub cpu : IsCpu lib c
  pub current : c.k_ctx.krunqueue.cur_uthread ≡ some p
  pub queue : ready_threads lib c ≡ waiting
  pub count : c.shared.kthread_cur_uthreads ≡ live

-- No thread runs, and the kernel thread is done if the application exits.
pub record Over (lib : RbLibrary) (c e : Cpu lib.Tree) (live : ℕ) : Type 0 where
  pub current : e.k_ctx.krunqueue.cur_uthread ≡ none
  pub count : e.shared.kthread_cur_uthreads ≡ live
  pub flags :
      e.k_ctx.kthread_flags
      ≡ (if c.shared.app_exit == 0 then c.k_ctx.kthread_flags else set_done c.k_ctx.kthread_flags)

one_less : (a b : ℕ) → a ≡ suc b → suc b < 2 ^ 32 → (a + 2 ^ 32 - 1) % 2 ^ 32 ≡ b
one_less a b e small = omega arith

module _ (lib : RbLibrary) (os : InitCalls) (good : CallsSucceed os) where
  -- The state in which uthread_context_func calls the scheduler.
  abbrev finished : Cpu lib.Tree → ℕ → Cpu lib.Tree
  finished c p = with_state (disturb (set_timer c 0) 1) p done

  finished-IsCpu :
      (c : Cpu lib.Tree) (p : ℕ)
      → IsCpu lib c
      → c.k_ctx.krunqueue.cur_uthread ≡ some p
      → IsCpu lib (finished c p)
  finished-IsCpu c p cpu cur =
      with_state-IsCpu lib (disturb (set_timer c 0) 1) p done
        (record { kept = cpu.kept; away = cpu.away }) cur

  finish_next :
      (clock : Clock) (c : Cpu lib.Tree) (p q : ℕ) (rest : List ℕ) (live : ℕ)
      → length rest + 1 ≤ max_sharing
      → suc live < 2 ^ 32
      → Runs lib c p (q ∷ rest) (suc live)
      → (j : SavedContext) × (e : Cpu lib.Tree) × (finish_current lib os clock c
          ≡ ok (to_uthread q j, e))
        × Runs lib e q rest live
        × (e.shared.app_exit ≡ c.shared.app_exit)
        × (e.k_ctx.kthread_flags ≡ c.k_ctx.kthread_flags)
  unfolding context_func_finish
  finish_next clock c p q rest live few small runs =
      let (j, e, run, cpu, cur, queue, count, exits, flags) =
        schedule_ends lib os clock (finished c p) p (finished-IsCpu c p runs.cpu runs.current)
          runs.current (inl (state_lem c.heap p _ done refl)) q rest runs.queue good few in
      (
        j,
        e,
        ap (λ o. deref o >>= context_func_finish lib os clock c) runs.current ∙ run,
        record {
          cpu = cpu;
          current = cur;
          queue = queue;
          count = count ∙ one_less c.shared.kthread_cur_uthreads live runs.count small;
        },
        exits,
        flags,
      )

  finish_last :
      (clock : Clock) (c : Cpu lib.Tree) (p live : ℕ)
      → suc live < 2 ^ 32
      → Runs lib c p [] (suc live)
      → (e : Cpu lib.Tree) × (finish_current lib os clock c ≡ ok (to_kthread_env, e))
        × Over lib c e live
  unfolding context_func_finish
  finish_last clock c p live small runs =
      let (e, run, over) =
        schedule_drains lib os clock (finished c p) p (finished-IsCpu c p runs.cpu runs.current)
          runs.current (inl (state_lem c.heap p _ done refl)) runs.queue in
      (
        e,
        ap (λ o. deref o >>= context_func_finish lib os clock c) runs.current ∙ run,
        record {
          current = over.current;
          count = over.count ∙ one_less c.shared.kthread_cur_uthreads live runs.count small;
          flags = over.flags;
        },
      )

  -- On a well-formed kernel thread where p runs and at most 2147482 threads wait, with fewer than
  -- 2^32 threads live on all kernel threads and system calls that succeed, let the function of
  -- each thread return as soon as it runs. Then the waiting threads run in their order, and
  -- uthread_schedule jumps to `kthread_env` after the last one; no thread is current, p and those
  -- that waited are no longer counted as live, and KTHREAD_DONE is set if the application exits
  -- and the flags are as they were if not.
  pub drain :
      (waiting : List ℕ) (clocks : List Clock) (c : Cpu lib.Tree) (p live : ℕ)
      → length clocks ≡ length waiting + 1
      → length waiting + 1 ≤ max_sharing
      → live + length waiting + 1 < 2 ^ 32
      → Runs lib c p waiting (live + length waiting + 1)
      → (e : Cpu lib.Tree) × (finishes lib os clocks c ≡ ok (map some waiting ++ none ∷ [], e))
        × Over lib c e live
  unfolding finishes
  drain waiting [] c p live same few small runs = absurd (omega arith)
  drain [] (clock ∷ b ∷ clocks) c p live same few small runs = absurd (omega arith)
  drain [] (clock ∷ []) c p live same few small runs =
      let (e, run, over) =
        finish_last clock c p live (omega arith) (subst (Runs lib c p []) (omega arith) runs) in
      (e, rw run refl, over)
  drain (q ∷ waiting) (clock ∷ clocks) c p live same few small runs =
      let (j, d, run, next, exits, flags) =
        finish_next clock c p q waiting (live + length waiting + 1) (omega arith) (omega arith)
          (subst (Runs lib c p (q ∷ waiting)) (omega arith) runs) in
      let (e, rest, over) =
        drain waiting clocks d q live (omega arith) (omega arith) (omega arith) next in
      (
        e,
        rw run (rw rest refl),
        record {
          current = over.current;
          count = over.count;
          flags = over.flags ∙ rw (exits, flags) refl;
        },
      )
