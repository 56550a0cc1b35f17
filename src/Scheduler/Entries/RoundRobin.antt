-- ===== src/Scheduler/Entries/RoundRobin.antt =====
-- About gt_yield, called in turn by the threads of one kernel thread.
use cfs_userspace.Prelude.{
  ℕ, suc, ◌+◌, ◌≡◌, ◌≢◌, ◌≤◌, ◌<◌, ◌^◌, refl, sym, ap, ◌∙◌, subst, arith, List, [], ◌∷◌, ◌++◌, map,
  length, length-append, Option, some, none, Exec, ok, ◌>>=◌, All, All-append, All-zip,
  All-last_from, last_from, store_self, store_other, append-nil,
}
use mathlib.Core.List.{append_assoc}
use cfs_userspace.Uthread.{Uthread, running, yield, SavedContext}
use cfs_userspace.RbLibrary.{RbLibrary}
use cfs_userspace.Kthread.{Cpu}
use cfs_userspace.Accounting.Slices.{max_sharing}
use cfs_userspace.Scheduler.{InitCalls, Clock, Jump, to_uthread, to_kthread_env}
use cfs_userspace.Scheduler.Queue.{ready_threads}
use cfs_userspace.Scheduler.Choosing.{CallsSucceed}
use cfs_userspace.Scheduler.Pass.{IsCpu}
use cfs_userspace.Scheduler.Passes.{put_past}
use cfs_userspace.Scheduler.Pass.{Switched-IsCpu}
use cfs_userspace.Scheduler.Entries.{gt_yield}
use cfs_userspace.Scheduler.Entries.Handlers.{with_state, gt_yield_lem}

-- The thread that a jump resumes.
abbrev pub resumed : Jump → Option ℕ
resumed (to_uthread p context) = some p
resumed to_kthread_env = none

-- Each thread calls gt_yield as soon as it runs; the threads that are resumed, one after the other.
pub yields :
    (lib : RbLibrary)
    → InitCalls
    → List Clock
    → Cpu lib.Tree
    → Exec (List (Option ℕ) × Cpu lib.Tree)
yields lib os [] c = ok ([], c)
yields lib os (clock ∷ later) c = gt_yield lib os clock c >>= λ (jump, d).
    (yields lib os later d >>= λ (ran, e). ok (resumed jump ∷ ran, e))

-- Thread p runs, the others wait, and there is room for n yields in their virtual run times.
pub record Turn (lib : RbLibrary) (n : ℕ) (c : Cpu lib.Tree) (p : ℕ) (waiting : List ℕ)
    : Type 0 where
  pub cpu : IsCpu lib c
  pub current : c.k_ctx.krunqueue.cur_uthread ≡ some p
  pub state : (c.heap p).uthread_state ≡ running
  pub queue : ready_threads lib c ≡ waiting
  pub room : All (λ x. (c.heap x).vruntime + n < 2 ^ 64) waiting

-- The list without its last member.
abbrev pub but_last : ℕ → List ℕ → List ℕ
but_last x [] = []
but_last x (y ∷ ys) = x ∷ but_last y ys

module _ (lib : RbLibrary) (os : InitCalls) (good : CallsSucceed os) where
  -- Virtual run times after a yield of p.
  moved :
      (c : Cpu lib.Tree) (p m x : ℕ)
      → p ≢ x
      → (put_past (with_state c p yield).heap p m x).vruntime ≡ (c.heap x).vruntime
  moved c p m x ne =
      ap (λ (u : Uthread). u.vruntime)
        (store_other (with_state c p yield).heap p x _ ne ∙ store_other c.heap p x _ ne)

  behind :
      (c : Cpu lib.Tree) (p m : ℕ)
      → p ≢ m
      → (put_past (with_state c p yield).heap p m p).vruntime ≡ (c.heap m).vruntime + 1
  behind c p m ne =
      ap (λ (u : Uthread). u.vruntime) (store_self (with_state c p yield).heap p _)
      ∙ ap (λ (u : Uthread). u.vruntime + 1) (store_other c.heap p m _ ne)

  yield-Turn :
      (clock : Clock) (n : ℕ) (c : Cpu lib.Tree) (p q : ℕ) (qs : List ℕ)
      → length (q ∷ qs) + 1 ≤ max_sharing
      → Turn lib (suc n) c p (q ∷ qs)
      → (j : SavedContext) × (e : Cpu lib.Tree) × (gt_yield lib os clock c ≡ ok (to_uthread q j, e))
        × Turn lib n e q (qs ++ p ∷ [])
  yield-Turn clock n c p q qs few turn =
      let m = last_from q qs in
      let away = subst (All (λ x. p ≢ x)) turn.queue (turn.cpu.away p turn.current) in
      let fits = All-last_from (λ x. (c.heap x).vruntime + suc n < 2 ^ 64) q qs turn.room in
      let h = put_past (with_state c p yield).heap p m in
      let (j, e, run, sw) =
        gt_yield_lem lib os clock c p q qs turn.cpu turn.current turn.state turn.queue
          (omega (arith, fits)) good
          (subst (λ l. length l + 1 ≤ max_sharing) (sym turn.queue) few) in
      (
        j,
        e,
        run,
        record {
          cpu = Switched-IsCpu lib h q (qs ++ p ∷ []) clock.entering e sw;
          current = sw.current;
          state = sw.state;
          queue = sw.queue;
          room =
              All-append (λ x. (e.heap x).vruntime + n < 2 ^ 64) qs (p ∷ [])
                (All-zip (λ x ne le. omega (arith, sw.same x, moved c p m x ne, le)) qs away.1
                  turn.room.1)
                (
                  omega
                      (arith, sw.same p, behind c p m (All-last_from (λ x. p ≢ x) q qs away), fits),
                  tt,
                );
        },
      )

  -- On a well-formed kernel thread where p runs and the threads of first and then later wait, at
  -- most 2147482 in all, with room for the yields in their virtual run times and system calls that
  -- succeed, let gt_yield be called once for each thread of first, each time by the thread that
  -- runs. Then the threads of first run in that order, and later, p, and first without its last
  -- thread wait in that order.
  pub round_robin :
      (clocks : List Clock) (c : Cpu lib.Tree) (p : ℕ) (first later : List ℕ)
      → length clocks ≡ length first
      → length (first ++ later) + 1 ≤ max_sharing
      → Turn lib (length first) c p (first ++ later)
      → (e : Cpu lib.Tree) × (yields lib os clocks c ≡ ok (map some first, e))
        × Turn lib 0 e (last_from p first) (later ++ but_last p first)
  unfolding yields
  round_robin [] c p [] later same few turn =
      (c, refl, subst (Turn lib 0 c p) (sym (append-nil later)) turn)
  round_robin (clock ∷ clocks) c p [] later same few turn = absurd (omega arith)
  round_robin [] c p (q ∷ first) later same few turn = absurd (omega arith)
  round_robin (clock ∷ clocks) c p (q ∷ first) later same few turn =
      let (j, d, run, next) = yield-Turn clock (length first) c p q (first ++ later) few turn in
      let order : (first ++ later) ++ p ∷ [] ≡ first ++ (later ++ p ∷ []) =
        append_assoc first later (p ∷ []) in
      let (e, runs, end) =
        round_robin clocks d q first (later ++ p ∷ []) (omega (arith, same))
          (subst (λ l. length l + 1 ≤ max_sharing) order
            (omega (arith, few, length-append (first ++ later) (p ∷ []))))
          (subst (Turn lib (length first) d q) order next) in
      (
        e,
        rw run (rw runs refl),
        subst (Turn lib 0 e (last_from q first)) (append_assoc later (p ∷ []) (but_last q first))
            end,
      )
