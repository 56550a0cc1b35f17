-- ===== src/Scheduler/Entries/Fairness.antt =====
-- About ksched_priority, called by the timer again and again on one kernel thread.
use cfs_userspace.Prelude.{
  ℕ, suc, ◌+◌, ◌*◌, ◌≡◌, ◌≢◌, ◌≤◌, ◌<◌, ◌^◌, refl, sym, ap, ◌∙◌, subst, arith, List, [], ◌∷◌,
  length, some, Exec, ok, ◌>>=◌, All, All-zip, All-imp, All-insert_by, insert_by, In, inl, inr,
  In-insert_by, In-insert_by-old, length-insert_by, store_self, store_other,
}
use native.Mathlib.Nat.{add-mul}
use cfs_userspace.Uthread.{Uthread, Timeval, running, SavedContext}
use cfs_userspace.RbLibrary.{RbLibrary}
use cfs_userspace.CfsRunqueue.{vruntime_of}
use cfs_userspace.Kthread.{Cpu}
use cfs_userspace.Accounting.{update_vruntime}
use cfs_userspace.Accounting.Runtime.{IsTime, usecs_of, update_vruntime_lem}
use cfs_userspace.Accounting.Slices.{max_sharing}
use cfs_userspace.Scheduler.{InitCalls, Clock, to_uthread}
use cfs_userspace.Scheduler.Queue.{ready_threads}
use cfs_userspace.Scheduler.Choosing.{CallsSucceed}
use cfs_userspace.Scheduler.Pass.{IsCpu}
use cfs_userspace.Scheduler.Passes.{charged}
use cfs_userspace.Scheduler.Pass.{Switched-IsCpu}
use cfs_userspace.Scheduler.Entries.{ksched_priority}
use cfs_userspace.Scheduler.Entries.Handlers.{ksched_priority_lem}

-- The timer goes off once for each clock.
pub ticks : (lib : RbLibrary) → InitCalls → List Clock → Cpu lib.Tree → Exec (Cpu lib.Tree)
ticks lib os [] c = ok c
ticks lib os (clock ∷ later) c =
    ksched_priority lib os clock c >>= λ (jump, d). ticks lib os later d

-- From time t on, each thread runs for at most d microseconds before the timer goes off.
abbrev pub Timed : ℕ → Timeval → List Clock → Type 0
Timed d t [] = Unit
Timed d t (clock ∷ later) =
    IsTime t
    × IsTime clock.leaving
    × ((ran : ℕ) × (usecs_of clock.leaving ≡ usecs_of t + ran) × (ran ≤ d))
    × Timed d clock.entering later

-- Thread p runs since time t, and the others wait: none of them has a lower virtual run time, and
-- none a virtual run time higher by more than d; there is room for n ticks.
pub record Fair (lib : RbLibrary) (d n : ℕ) (c : Cpu lib.Tree) (p : ℕ) (t : Timeval)
    (waiting : List ℕ) : Type 0 where
  pub cpu : IsCpu lib c
  pub current : c.k_ctx.krunqueue.cur_uthread ≡ some p
  pub state : (c.heap p).uthread_state ≡ running
  pub entered : (c.heap p).entry_to_cpu ≡ t
  pub undisturbed : c.k_ctx.do_not_disturb ≡ 0
  pub queue : ready_threads lib c ≡ waiting
  pub least : All (λ x. (c.heap p).vruntime ≤ (c.heap x).vruntime) waiting
  pub spread : All (λ x. (c.heap x).vruntime ≤ (c.heap p).vruntime + d) waiting
  pub room : (c.heap p).vruntime + n * d < 2 ^ 64

-- The same threads, in another order perhaps.
pub record Reordered (xs ys : List ℕ) : Type 0 where
  pub size : length ys ≡ length xs
  pub members : (x : ℕ) → In x xs → In x ys

-- What a tick does to the virtual run times: that of p rises by ran, and p is placed by it.
pub record Ticked {Tree : Type 0} (c : Cpu Tree) (p ran : ℕ) (waiting : List ℕ) (q : ℕ)
    (rest : List ℕ) (e : Cpu Tree) : Type 0 where
  pub rank : ℕ → ℕ
  pub placed : insert_by rank p waiting ≡ q ∷ rest
  pub ranks : (x : ℕ) → (e.heap x).vruntime ≡ rank x
  pub charge : rank p ≡ (c.heap p).vruntime + ran
  pub others : (x : ℕ) → p ≢ x → rank x ≡ (c.heap x).vruntime

module _ (lib : RbLibrary) (os : InitCalls) (good : CallsSucceed os) (d : ℕ)
    (short : d < 2 ^ 31) where
  -- What a thread is charged.
  charged_self :
      (h : ℕ → Uthread) (p ran : ℕ) (t now : Timeval)
      → (h p).entry_to_cpu ≡ t
      → IsTime t
      → IsTime now
      → usecs_of now ≡ usecs_of t + ran
      → ran ≤ d
      → (h p).vruntime + d < 2 ^ 64
      → (charged h p now p).vruntime ≡ (h p).vruntime + ran
  charged_self h p ran t now e is_t is_now took le room =
      ap (λ (u : Uthread). u.vruntime) (store_self h p _)
      ∙ update_vruntime_lem (h p) now ran (subst IsTime (sym e) is_t) is_now
          (took ∙ ap (λ z. usecs_of z + ran) (sym e)) (omega arith) (omega arith)

  -- The threads lie between the old virtual run time of p and that plus d.
  between :
      (c : Cpu lib.Tree) (p : ℕ) (now : Timeval) (waiting : List ℕ) (ran : ℕ)
      → All (λ x. p ≢ x) waiting
      → All (λ x. (c.heap p).vruntime ≤ (c.heap x).vruntime) waiting
      → All (λ x. (c.heap x).vruntime ≤ (c.heap p).vruntime + d) waiting
      → (charged c.heap p now p).vruntime ≡ (c.heap p).vruntime + ran
      → ran ≤ d
      → let h = charged c.heap p now in
        All
          (λ x. ((c.heap p).vruntime ≤ (h x).vruntime) × ((h x).vruntime ≤ (c.heap p).vruntime + d))
          (insert_by (vruntime_of h) p waiting)
  between c p now waiting ran away least spread self le =
      let h = charged c.heap p now in
      All-insert_by _ (vruntime_of h) p waiting (omega (arith, self), omega (arith, self))
        (All-zip
          {Q = λ x.
            ((c.heap p).vruntime ≤ (c.heap x).vruntime)
            × ((c.heap x).vruntime ≤ (c.heap p).vruntime + d)}
          (λ x ne both.
            let other =
              ap (λ (u : Uthread). u.vruntime)
                (store_other c.heap p x (update_vruntime (c.heap p) now) ne) in
            (omega (arith, other, both.0), omega (arith, other, both.1)))
          waiting away (All-zip (λ x a b. (a, b)) waiting least spread))

  pub tick :
      (clock : Clock) (n : ℕ) (c : Cpu lib.Tree) (p ran : ℕ) (t : Timeval) (waiting : List ℕ)
      → length waiting + 1 ≤ max_sharing
      → Fair lib d (suc n) c p t waiting
      → IsTime t
      → IsTime clock.leaving
      → usecs_of clock.leaving ≡ usecs_of t + ran
      → ran ≤ d
      → (q : ℕ) × (rest : List ℕ) × (j : SavedContext) × (e : Cpu lib.Tree) × (ksched_priority lib
            os clock c
          ≡ ok (some (to_uthread q j), e))
        × Fair lib d n e q clock.entering rest
        × Reordered (p ∷ waiting) (q ∷ rest)
        × Ticked c p ran waiting q rest e
  tick clock n c p ran t waiting few fair is_t is_now took le =
      let h = charged c.heap p clock.leaving in
      let self =
        charged_self c.heap p ran t clock.leaving fair.entered is_t is_now took le
          (omega (arith, fair.room, add-mul 1 n d)) in
      let away = subst (All (λ x. p ≢ x)) fair.queue (fair.cpu.away p fair.current) in
      let (q, rest, j, e, order, run, sw) =
        (ksched_priority_lem lib os clock c p fair.cpu fair.current fair.state good
            (subst (λ l. length l + 1 ≤ max_sharing) (sym fair.queue) few)).1
          fair.undisturbed in
      let order' : insert_by (vruntime_of h) p waiting ≡ q ∷ rest =
        ap (insert_by (vruntime_of h) p) (sym fair.queue) ∙ order in
      let bounds =
        subst (All _) order'
          (between c p clock.leaving waiting ran away fair.least fair.spread self le) in
      (
        q,
        rest,
        j,
        e,
        run,
        record {
          cpu = Switched-IsCpu lib h q rest clock.entering e sw;
          current = sw.current;
          state = sw.state;
          entered = sw.entered;
          undisturbed = sw.undisturbed;
          queue = sw.queue;
          least = All-imp (λ x lt. omega (arith, sw.same q, sw.same x, lt)) rest sw.least;
          spread =
              All-imp (λ x both. omega (arith, sw.same q, sw.same x, both.1, bounds.0.0)) rest
                bounds.1;
          room = omega (arith, sw.same q, bounds.0.1, fair.room, add-mul 1 n d);
        },
        record {
          size = sym (ap length order') ∙ length-insert_by (vruntime_of h) p waiting;
          members = λ x i. subst (In x) order' (elim i [
            | inl same ↦
                subst (λ z. In z (insert_by (vruntime_of h) p waiting)) (sym same)
                  (In-insert_by (vruntime_of h) p waiting)
            | inr old ↦ In-insert_by-old (vruntime_of h) p x waiting old
          ]);
        },
        record {
          rank = vruntime_of h;
          placed = order';
          ranks = sw.same;
          charge = self;
          others = λ x ne.
              ap (λ (u : Uthread). u.vruntime)
                (store_other c.heap p x (update_vruntime (c.heap p) clock.leaving) ne);
        },
      )

  -- On a well-formed kernel thread with do_not_disturb at 0, whose running thread has the least
  -- virtual run time, let no waiting thread be more than d ahead of it, d below 2^31, with at most
  -- 2147482 waiting threads, room for d more at each tick in 64 bits, and system calls that
  -- succeed. If the timer goes off any number of times, at most d microseconds after each switch
  -- by the times that gettimeofday gives, then the calls of ksched_priority end, the running
  -- thread has the least virtual run time again, no waiting thread is more than d ahead of it, and
  -- the threads are as many as before, with each of those before among them.
  pub ticks-Fair :
      (clocks : List Clock) (c : Cpu lib.Tree) (p : ℕ) (t : Timeval) (waiting : List ℕ)
      → length waiting + 1 ≤ max_sharing
      → Fair lib d (length clocks) c p t waiting
      → Timed d t clocks
      → (e : Cpu lib.Tree) × (q : ℕ) × (rest : List ℕ) × (t' : Timeval) × (ticks lib os clocks c
          ≡ ok e)
        × Fair lib d 0 e q t' rest
        × Reordered (p ∷ waiting) (q ∷ rest)
  unfolding ticks
  ticks-Fair [] c p t waiting few fair timed =
      (c, p, waiting, t, refl, fair, record { size = refl; members = λ x i. i })
  ticks-Fair (clock ∷ later) c p t waiting few fair timed =
      let (is_t, is_now, spent, rest_timed) = timed in
      let (ran, took, le) = spent in
      let (q, rest, j, f, run, next, order, ticked) =
        tick clock (length later) c p ran t waiting few fair is_t is_now took le in
      let (e, q', rest', t', runs, end, orders) =
        ticks-Fair later f q clock.entering rest (omega (arith, few, order.size)) next rest_timed in
      (
        e,
        q',
        rest',
        t',
        rw run runs,
        end,
        record {
          size = orders.size ∙ order.size;
          members = λ x i. orders.members x (order.members x i);
        },
      )
