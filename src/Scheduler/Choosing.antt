-- ===== src/Scheduler/Choosing.antt =====
-- From the end of a thread to the next one: the choice of it, and uthread_init in gt_uthread.c.
use cfs_userspace.Prelude.{
  ℕ, Bool, true, false, arith, ◌≡◌, refl, ap, ◌∙◌, List, [], ◌∷◌, some, ok, All, store, store_other,
  subst, Bool-cases, inl, inr, ◌≢◌, Distinct, Distinct-removed,
}
use cfs_userspace.Uthread.{init, runnable, is_state, in_context_func}
use cfs_userspace.RbLibrary.{RbLibrary}
use cfs_userspace.CfsRunqueue.{remove_from_cfs_runqueue, heap-remove, set_node_same, set_node_other}
use cfs_userspace.CfsRunqueue.Invariant.{IsRunqueue}
use cfs_userspace.CfsRunqueue.Removing.{threads-remove, remove-IsRunqueue}
use cfs_userspace.Signal.{Signals, Handler, stack_handler, sigusr2, sigvtalrm}
use cfs_userspace.Spinlock.{acquired, released}
use cfs_userspace.KthreadRunqueue.{Ready, sched_find_best_uthread}
use cfs_userspace.KthreadRunqueue.Dispatch.{find_best-some}
use cfs_userspace.Kthread.{Cpu}
use cfs_userspace.Scheduler.{InitCalls, uthread_init, initialize_uthread, choose}
use cfs_userspace.Scheduler.Queue.{queue_of, ready_threads, SameThread, write-same}

-- The signals but SIGVTALRM and the mask of SIGUSR2.
pub record SameSignals (s s' : Signals) : Type 0 where
  pub handlers : (n : ℕ) → sigvtalrm ≢ n → s'.sa_handler n ≡ s.sa_handler n
  pub masks : (n : ℕ) → sigvtalrm ≢ n → sigusr2 ≢ n → s'.blocked n ≡ s.blocked n

pub SameSignals-refl : (s : Signals) → SameSignals s s
SameSignals-refl s = record { handlers = λ n ne. refl; masks = λ n ne two. refl }

pub SameSignals-trans : (s t u : Signals) → SameSignals s t → SameSignals t u → SameSignals s u
SameSignals-trans s t u a b = record {
  handlers = λ n ne. b.handlers n ne ∙ a.handlers n ne;
  masks = λ n ne two. b.masks n ne two ∙ a.masks n ne two;
}

-- What a pass leaves alone: the number of live threads, app_exit, the flags of the kernel thread
-- and its handler of timers, and signals.
pub record Counters {Tree : Type 0} (c e : Cpu Tree) : Type 0 where
  pub live : e.shared.kthread_cur_uthreads ≡ c.shared.kthread_cur_uthreads
  pub exits : e.shared.app_exit ≡ c.shared.app_exit
  pub flags : e.k_ctx.kthread_flags ≡ c.k_ctx.kthread_flags
  pub sched_timer : e.k_ctx.kthread_sched_timer ≡ c.k_ctx.kthread_sched_timer
  pub signals : SameSignals c.signals e.signals

pub Counters-trans : {Tree : Type 0} {c d e : Cpu Tree} → Counters c d → Counters d e → Counters c e
Counters-trans {c = c} {d = d} {e = e} a b = record {
  live = b.live ∙ a.live;
  exits = b.exits ∙ a.exits;
  flags = b.flags ∙ a.flags;
  sched_timer = b.sched_timer ∙ a.sched_timer;
  signals = SameSignals-trans c.signals d.signals e.signals a.signals b.signals;
}

-- A handler that is put back.
revert_lem :
    (f : ℕ → Handler) (signo n : ℕ) (h : Handler) → store (store f signo h) signo (f signo) n ≡ f n
unfolding store
revert_lem f signo n h = ground arith

-- A mask that is set twice.
remask_lem :
    (f : ℕ → Bool) (signo n : ℕ) (a b : Bool) → signo ≢ n → store (store f signo a) signo b n ≡ f n
remask_lem f signo n a b ne =
    store_other (store f signo a) signo n b ne ∙ store_other f signo n a ne

-- The state after the choice of the head of the queue.
pub record Chosen (lib : RbLibrary) (c : Cpu lib.Tree) (q : ℕ) (rest : List ℕ) (d : Cpu lib.Tree)
    : Type 0 where
  pub queue : ready_threads lib d ≡ rest
  pub kept : IsRunqueue lib (queue_of d)
  pub same :
      (p : ℕ)
      → ((d.heap p).vruntime ≡ (c.heap p).vruntime)
        × ((d.heap p).nice ≡ (c.heap p).nice)
        × ((d.heap p).uthread_state ≡ (c.heap p).uthread_state)
  pub frame : (p : ℕ) → q ≢ p → d.heap p ≡ c.heap p
  pub counters : Counters c d
  pub away : All (λ p. q ≢ p) rest

pub choose_lem :
    (lib : RbLibrary) (c : Cpu lib.Tree) (q : ℕ) (rest : List ℕ)
    → IsRunqueue lib (queue_of c)
    → ready_threads lib c ≡ q ∷ rest
    → (d : Cpu lib.Tree) × (choose lib (sched_find_best_uthread lib) c ≡ ok (some q, d))
      × Chosen lib c q rest d
unfolding choose
choose_lem lib c q rest inv e =
    let r : Ready lib.Tree = record { heap = c.heap; runq = c.k_ctx.krunqueue } in
    let s = remove_from_cfs_runqueue lib (queue_of c) (some q) in
    let lock = record c.k_ctx.krunqueue.kthread_runqlock { locked = 0; holder = 0x04 } in
    let k = record c.k_ctx.krunqueue { runqueue = s.rq; kthread_runqlock = lock } in
    (
      record c { heap = s.heap; k_ctx = record c.k_ctx { krunqueue = k } },
      rw (find_best-some lib r q rest inv e) refl,
      record {
        queue = threads-remove lib (queue_of c) [] q rest inv e;
        kept = remove-IsRunqueue lib (queue_of c) [] q rest inv e;
        same = λ p. rw (heap-remove lib (queue_of c) q) (set_node_same c.heap q _ p);
        frame =
            λ p ne. ap (λ f. f p) (heap-remove lib (queue_of c) q) ∙ set_node_other c.heap q _ p ne;
        counters = record {
          live = refl;
          exits = refl;
          flags = refl;
          sched_timer = refl;
          signals = SameSignals-refl c.signals;
        };
        away = Distinct-removed q [] rest (subst Distinct e inv.distinct);
      },
    )

-- The system calls of uthread_init succeed.
pub record CallsSucceed (os : InitCalls) : Type 0 where
  pub sigaction_ok : os.sigaction ≡ 0
  pub sigaltstack_ok : os.sigaltstack ≡ 0
  pub sigaction_revert_ok : os.sigaction_revert ≡ 0
  pub sigaltstack_revert_ok : os.sigaltstack_revert ≡ 0

-- The state of a thread that is ready for the switch.
pub record Prepared (Tree : Type 0) (q : ℕ) (c d : Cpu Tree) : Type 0 where
  pub frame : (p : ℕ) → q ≢ p → d.heap p ≡ c.heap p
  pub same : (p : ℕ) → SameThread c.heap d.heap p
  pub context : d.k_ctx ≡ c.k_ctx
  pub timer : d.vtalrm ≡ c.vtalrm
  pub counters : Counters c d

pub initialize_lem :
    (Tree : Type 0) (os : InitCalls) (c : Cpu Tree) (q : ℕ)
    → CallsSucceed os
    → c.k_ctx.krunqueue.cur_uthread ≡ some q
    → (d : Cpu Tree) × (initialize_uthread os c q ≡ ok d) × Prepared Tree q c d
unfolding initialize_uthread uthread_init
initialize_lem Tree os c q good cur = elim (Bool-cases (is_state (c.heap q).uthread_state init)) [
  | inr old ↦ (
    c,
    rw old,
    record {
      frame = λ p ne. refl;
      same = λ p. (refl, refl, refl);
      context = refl;
      timer = refl;
      counters = record {
        live = refl;
        exits = refl;
        flags = refl;
        sched_timer = refl;
        signals = SameSignals-refl c.signals;
      };
    },
  )
  | inl new ↦
      let u1 = record (c.heap q) { uthread_env = in_context_func; uthread_state = runnable } in
      let h1 = store c.heap q u1 in
      let u = h1 q in
      let u2 = record u { uthread_stack = record u.uthread_stack { ss_flags = os.ss_disable } } in
      (
        record c {
          heap = store h1 q u2;
          shared = record c.shared {
            uthread_init_lock = released (acquired c.shared.uthread_init_lock);
          };
          signals = record {
            sa_handler =
                store (store c.signals.sa_handler sigusr2 stack_handler) sigusr2
                  (c.signals.sa_handler sigusr2);
            blocked = store (store c.signals.blocked sigusr2 false) sigusr2 true;
          };
        },
        rw (
          new, good.sigaction_ok, good.sigaltstack_ok, cur, new, good.sigaction_revert_ok,
          good.sigaltstack_revert_ok,
        ),
        record {
          frame = λ p ne. store_other h1 q p u2 ne ∙ store_other c.heap q p u1 ne;
          same = λ p.
              let a = write-same c.heap q u1 refl refl refl p in
              let b = write-same h1 q u2 refl refl refl p in (b.0 ∙ a.0, b.1 ∙ a.1, b.2 ∙ a.2);
          context = refl;
          timer = refl;
          counters = record {
            live = refl;
            exits = refl;
            flags = refl;
            sched_timer = refl;
            signals = record {
              handlers = λ n ne. revert_lem c.signals.sa_handler sigusr2 n stack_handler;
              masks = λ n ne two. remask_lem c.signals.blocked sigusr2 n false true two;
            };
          };
        },
      )
]
