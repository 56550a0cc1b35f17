-- ===== src/App/Init.antt =====
-- About gtthread_app_init in gt_kthread.c.
use cfs_userspace.Prelude.{
  ℕ, false, store, ◌+◌, ◌%◌, ◌^◌, ◌≡◌, ◌≢◌, refl, sym, ap, ◌∙◌, subst, List, some, ok, All, All-imp,
  All-of_map, length, arith, store_self, store_other, ℕ_discrete,
}
use cfs_userspace.RbLibrary.{RbLibrary}
use cfs_userspace.Signal.{
  Signals, Handler, timer_handler, sigusr1, sigvtalrm, kthread_install_sighandler,
}
use cfs_userspace.Kthread.{World, KthreadContext, malloc_safe, put_context}
use cfs_userspace.Target.{is_some}
use cfs_userspace.Creation.Failures.{nonzero}
use cfs_userspace.Creation.Master.{mastered}
use cfs_userspace.App.{
  Boot, Master, gtthread_app_init, kthread_init_vtalrm, ksched_info_init, mapped,
}
use cfs_userspace.App.Counting.{mapped-same, yield_again_lem}
use cfs_userspace.App.Booting.{Joining, mapped-Unused, apic_of, present, start_kthreads_lem}
use cfs_userspace.Program.{Unused}
use cfs_userspace.Program.Invariant.{IsProgram}
use cfs_userspace.Program.Creating.{relabelled-Continues}
use cfs_userspace.App.Mastering.{Unstarted, IsInit, IsMain, starts-IsMain}

-- The signals of the main kernel thread: ksched_priority handles SIGVTALRM and SIGUSR1, neither is
-- blocked, and the others are as before.
pub record Handled (s s' : Signals) : Type 0 where
  pub timers : s'.sa_handler sigvtalrm ≡ timer_handler
  pub notices : s'.sa_handler sigusr1 ≡ timer_handler
  pub timers_in : s'.blocked sigvtalrm ≡ false
  pub notices_in : s'.blocked sigusr1 ≡ false
  pub others :
      (n : ℕ)
      → sigvtalrm ≢ n
      → sigusr1 ≢ n
      → (s'.sa_handler n ≡ s.sa_handler n) × (s'.blocked n ≡ s.blocked n)

-- Two numbers take a new value, one after the other.
store_two :
    {A : Type 0} (f : ℕ → A) (m n : ℕ) (a b : A)
    → n ≢ m
    → (store (store f m a) n b m ≡ a)
      × (store (store f m a) n b n ≡ b)
      × ((x : ℕ) → m ≢ x → n ≢ x → store (store f m a) n b x ≡ f x)
store_two f m n a b ne = (
  store_other (store f m a) n m b ne ∙ store_self f m a,
  store_self (store f m a) n b,
  λ x nm nn. store_other (store f m a) n x b nn ∙ store_other f m x a nm,
)

installed-Handled :
    (s : Signals) (handler : Handler)
    → handler ≡ timer_handler
    → Handled s (
        kthread_install_sighandler (kthread_install_sighandler s sigvtalrm handler) sigusr1 handler)
installed-Handled s handler same =
    let handlers = store_two s.sa_handler sigvtalrm sigusr1 handler handler (λ e. omega arith) in
    let masks = store_two s.blocked sigvtalrm sigusr1 false false (λ e. omega arith) in
    record {
      timers = handlers.0 ∙ same;
      notices = handlers.1 ∙ same;
      timers_in = masks.0;
      notices_in = masks.1;
      others = λ n a b. (handlers.2 n a b, masks.2 n a b);
    }

-- The program as gtthread_app_init leaves it.
pub record Initialized (lib : RbLibrary) (w v : World lib.Tree) (main : Boot lib.Tree)
    (master : Master) (n : ℕ) : Type 0 where
  pub k : KthreadContext lib.Tree
  pub kept : IsProgram lib v
  pub at : v.kthread_cpu_map main.me.apic_id ≡ some k
  pub main_thread : k.master_thread ≡ some master.u_new
  pub current : k.krunqueue.cur_uthread ≡ some master.u_new
  pub opened : k.do_not_disturb ≡ 0
  pub all : mapped 16 (present v) 0 ≡ n
  pub total : v.shared.kthread_tot_uthreads ≡ (w.shared.kthread_tot_uthreads + 1) % 2 ^ 32
  pub count : v.shared.kthread_cur_uthreads ≡ (w.shared.kthread_cur_uthreads + 1) % 2 ^ 32
  pub unused : (x : ℕ) → master.u_new ≢ x → Unused lib v x

-- The same processors are mapped when a context is replaced.
present-same :
    {Tree : Type 0} (v : World Tree) (id : ℕ) (k k' : KthreadContext Tree)
    → v.kthread_cpu_map id ≡ some k
    → (j : ℕ) → present (put_context v id k') j ≡ present v j
present-same v id k k' at j = elim (ℕ_discrete id j) [
  | yes same ↦
      subst (λ z. present (put_context v id k') z ≡ present v z) same
        (ap is_some (store_self v.kthread_cpu_map id (some k')) ∙ sym (ap is_some at))
  | no other ↦ ap is_some (store_other v.kthread_cpu_map id j _ other)
]

-- The end of gtthread_app_init: the main kernel thread lets the timer in.
opened-Initialized :
    (lib : RbLibrary) (w informed v all : World lib.Tree) (main : Boot lib.Tree) (master : Master)
    (others : List (Boot lib.Tree)) (k : KthreadContext lib.Tree)
    → informed.shared.kthread_tot_uthreads ≡ w.shared.kthread_tot_uthreads
    → informed.shared.kthread_cur_uthreads ≡ w.shared.kthread_cur_uthreads
    → k ≡ mastered k master.u_new
    → IsMain lib informed v main.me.apic_id master.u_new k
    → Joining lib v all others
    → all.kthread_cpu_map main.me.apic_id ≡ some k
    → mapped 16 (present all) 0 ≡ length others + 1
    → Initialized lib w
        (put_context all main.me.apic_id (record k { do_not_disturb = 0 }))
        main
        master
        (length others + 1)
opened-Initialized lib w informed v all main master others k tot cur own ready joined at_main
      counted =
    let id = main.me.apic_id in
    let opened = record k { do_not_disturb = 0 } in
    let v' = put_context all id opened in
    let at_id = store_self all.kthread_cpu_map id (some opened) in
    record {
      k = opened;
      kept =
          (relabelled-Continues lib all v' id k opened joined.kept at_main refl refl refl
            refl).kept;
      at = at_id;
      main_thread = ap (λ (x : KthreadContext lib.Tree). x.master_thread) own;
      current = ap (λ (x : KthreadContext lib.Tree). x.krunqueue.cur_uthread) own;
      opened = refl;
      all =
          mapped-same 16 0 (present all) (present v')
            (λ j h. present-same all id k opened at_main j)
          ∙ counted;
      total = joined.counted.0 ∙ (ready.total ∙ ap (λ n. (n + 1) % 2 ^ 32) tot);
      count = joined.counted.1 ∙ (ready.count ∙ ap (λ n. (n + 1) % 2 ^ 32) cur);
      unused = λ x ne.
          mapped-Unused lib all v' id opened x at_id
            (λ t other. store_other all.kthread_cpu_map id t (some opened) other)
            (joined.unused x (ready.unused x ne) id k at_main)
            (joined.unused x (ready.unused x ne));
    }

-- If no kernel thread is mapped, malloc and clone succeed, the blocks of the contexts have no
-- current thread, no reading of the map while kernel threads are starting finds more of them than
-- there are processors, and the kernel threads run on different processors below 16 with ids below
-- 2^31, gtthread_app_init ends with the timer set: each of them is mapped and well formed, no two
-- have a thread in common, the master thread is current on the first one, which has do_not_disturb
-- at 0, it is counted, and no other thread is current or queued; ksched_priority handles SIGVTALRM
-- and SIGUSR1, both are let in on the first one, and the other signals are as before.
pub gtthread_app_init_lem :
    (lib : RbLibrary) (w : World lib.Tree) (signals : Signals) (main : Boot lib.Tree)
    (master : Master) (others : List (Boot lib.Tree))
    → Unstarted w
    → IsInit main master others
    → (v : World lib.Tree) × (s : Signals) × (gtthread_app_init lib w signals main master others
        ≡ ok (v, kthread_init_vtalrm, s))
      × Handled signals s
      × Initialized lib w v main master (length others + 1)
unfolding gtthread_app_init
gtthread_app_init_lem lib w signals main master others fresh good =
    let id = main.me.apic_id in
    let informed = malloc_safe (record w { shared = ksched_info_init w.shared }) in
    let (v, u, k, run, at, run_master, ready) =
      starts-IsMain lib informed main master others fresh good in
    let k' = mastered k master.u_new in
    let apart : All (λ b. id ≢ apic_of b) others =
      All-of_map (λ t. id ≢ t) apic_of others good.distinct.0 in
    let (all, runs, joined) =
      start_kthreads_lem lib others (put_context u id k') 1 ready.kept good.boots good.distinct.1
        (All-imp (λ b ne. ready.elsewhere (apic_of b) ne) others apart) in
    let at_main : all.kthread_cpu_map id ≡ some k' =
      joined.others id (All-imp (λ b ne e. ne (sym e)) others apart) ∙ ready.at in
    let counted : mapped 16 (present all) 0 ≡ length others + 1 =
      joined.count ∙ (ap (λ n. n + length others) ready.one ∙ omega arith) in
    (
      put_context all id (record k' { do_not_disturb = 0 }),
      kthread_install_sighandler
          (kthread_install_sighandler signals sigvtalrm k'.kthread_sched_timer) sigusr1
          k'.kthread_sched_timer,
      rw
          (
            nonzero main.block good.block,
            run,
            at,
            run_master,
            runs,
            yield_again_lem (length others + 1) master.starting (present all) good.starting counted,
            at_main,
          )
          refl,
      installed-Handled signals k'.kthread_sched_timer ready.scheduler,
      opened-Initialized lib w informed (put_context u id k') all main master others k' refl refl
          refl ready joined at_main counted,
    )
