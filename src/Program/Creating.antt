-- ===== src/Program/Creating.antt =====
-- About uthread_create, create_master_uthread and kthread_init, for the whole program.
use cfs_userspace.Prelude.{
  ◌+◌, ◌%◌, ◌^◌, ℕ_discrete, some_inj, success, ℕ, ◌≡◌, ◌≢◌, ◌<◌, refl, sym, ap, ◌∙◌, subst, some,
  Exec, ok, fault, All-always, In, inl, inr, length, store, store_self, store_other, store_ind,
}
use cfs_userspace.RbLibrary.{RbLibrary}
use cfs_userspace.Kthread.{World, KthreadContext}
use cfs_userspace.Scheduler.Ownership.{owned, Foreign, size}
use cfs_userspace.Creation.{Request, Created, uthread_create}
use cfs_userspace.Creation.Success.{prepared, uthread_create_lem}
use cfs_userspace.Creation.Queued.{IsCreated}
use cfs_userspace.Program.{Unused, size_at, Tally}
use cfs_userspace.Program.Invariant.{IsProgram, owned-same}
use cfs_userspace.Program.Fates.{HeldAt, Held, Continues, Continues-trans, changed-Continues}
use cfs_userspace.Program.Posted.{unused-IsFresh, queued-Unused, queued-joins, queued-Continues}

world_of : {A Tree : Type 0} → World Tree → Exec (A × World Tree) → World Tree
world_of w (ok (a, v)) = v
world_of w (fault f) = w

same_world :
    {A Tree : Type 0} (m : Exec (A × World Tree)) (a b : A) (v v' : World Tree)
    → m ≡ ok (a, v)
    → m ≡ ok (b, v')
    → v ≡ v'
unfolding world_of
same_world m a b v v' one two = ap (world_of v) (sym one ∙ two)

-- A context with the same run queue.
pub relabelled-Continues :
    (lib : RbLibrary) (w v : World lib.Tree) (cpu : ℕ) (k k' : KthreadContext lib.Tree)
    → IsProgram lib w
    → w.kthread_cpu_map cpu ≡ some k
    → k'.krunqueue ≡ k.krunqueue
    → v.heap ≡ w.heap
    → v.kthread_cpu_map ≡ store w.kthread_cpu_map cpu (some k')
    → v.shared.kthread_cur_uthreads ≡ w.shared.kthread_cur_uthreads
    → Continues lib w v
relabelled-Continues lib w v cpu k k' inv at_cpu same heap map live =
    changed-Continues lib w v inv cpu (record {
      now = k';
      here = ap (λ f. f cpu) map ∙ store_self w.kthread_cpu_map cpu (some k');
      range = inv.inside cpu k at_cpu;
      tally =
          subst
            (λ o.
              Tally (size_at lib o) w.shared.kthread_cur_uthreads (size lib k')
                v.shared.kthread_cur_uthreads)
            (sym at_cpu) (inl (inl (ap length (sym (owned-same lib k k' same)), live)));
      well = rw (heap, same) (inv.each cpu k at_cpu);
      others = λ s b at_s ne. (
        b,
        sym (store_other w.kthread_cpu_map cpu s (some k') ne) ∙ (sym (ap (λ f. f s) map) ∙ at_s),
        refl,
      );
      stays = λ s a at_s ne.
          (a, ap (λ f. f s) map ∙ (store_other w.kthread_cpu_map cpu s (some k') ne ∙ at_s));
      remains = λ a at_a x i. inl (
          subst (In x) (owned-same lib k k' same)
            (subst (λ y. In x (owned lib y)) (some_inj.0 (sym at_a ∙ at_cpu)) i));
      outside = λ x free. inr (ap (λ f. f x) heap);
      frame = λ s a at_s ne. All-always (λ p. ap (λ f. f p) heap) (owned lib a);
      strange = λ s a at_s ne. rw same (inv.apart s cpu a k at_s at_cpu (λ e. ne (sym e)));
    })

-- What a call of uthread_create on a processor leaves: one thread more, and its master thread m.
pub record Grown (lib : RbLibrary) (w v : World lib.Tree) (cpu m p : ℕ) : Type 0 where
  pub going : Continues lib w v
  pub joined : Held lib v p
  pub frame : (x : ℕ) → p ≢ x → v.heap x ≡ w.heap x
  pub caller : KthreadContext lib.Tree
  pub at : v.kthread_cpu_map cpu ≡ some caller
  pub main : caller.master_thread ≡ some m
  pub total : v.shared.kthread_tot_uthreads ≡ (w.shared.kthread_tot_uthreads + 1) % 2 ^ 32
  pub count : v.shared.kthread_cur_uthreads ≡ (w.shared.kthread_cur_uthreads + 1) % 2 ^ 32
  pub unused : (x : ℕ) → p ≢ x → Unused lib w x → Unused lib v x

-- The processor on which uthread_create is called is not interrupted from then on.
module _ (lib : RbLibrary) (w : World lib.Tree) (inv : IsProgram lib w) (cpu : ℕ)
    (k : KthreadContext lib.Tree) (at_cpu : w.kthread_cpu_map cpu ≡ some k) where
  prepared-Continues : Continues lib w (prepared w cpu k)
  prepared-Continues =
      relabelled-Continues lib w (prepared w cpu k) cpu k (record k { do_not_disturb = 1 }) inv
        at_cpu refl refl refl refl

  prepared-Unused : (p : ℕ) → Unused lib w p → Unused lib (prepared w cpu k) p
  prepared-Unused p unused =
      store_ind (λ t b. Foreign lib b p) w.kthread_cpu_map cpu (record k { do_not_disturb = 1 })
        (unused cpu k at_cpu) (λ t b other at_t. unused t b at_t)

  prepared-HeldAt : (x t : ℕ) → HeldAt lib w x t → HeldAt lib (prepared w cpu k) x t
  prepared-HeldAt x t held = elim (ℕ_discrete cpu t) [
    | yes same ↦
        let was : w.kthread_cpu_map cpu ≡ some held.context =
          subst (λ s. w.kthread_cpu_map s ≡ some held.context) (sym same) held.at in
        record {
          context = record k { do_not_disturb = 1 };
          at =
              subst
                (λ s. (prepared w cpu k).kthread_cpu_map s ≡ some (record k { do_not_disturb = 1 }))
                same (store_self w.kthread_cpu_map cpu _);
          has = subst (λ a. In x (owned lib a)) (some_inj.0 (sym was ∙ at_cpu)) held.has;
        }
    | no other ↦ record {
      context = held.context;
      at = store_other w.kthread_cpu_map cpu t _ other ∙ held.at;
      has = held.has;
    }
  ]

  pub uthread_create-Grown :
      (m : ℕ) (r : Request)
      → k.master_thread ≡ some m
      → cpu < 16
      → r.u_gid < 32
      → r.u_new ≢ 0
      → r.ss_sp ≢ 0
      → Unused lib w r.u_new
      → (notified : ℕ) × (v : World lib.Tree) × (uthread_create lib w cpu r
          ≡ ok (
            record {
              status = success;
              u_tid = some w.shared.kthread_tot_uthreads;
              notified = some notified;
            },
            v,
          ))
        × IsCreated r w.shared.kthread_tot_uthreads (v.heap r.u_new)
        × Grown lib w v cpu m r.u_new
  uthread_create-Grown m r master range group block stack unused =
      let (t, kt, v, run, made, on) =
        uthread_create_lem lib w cpu k m r at_cpu master range group block stack
          (unused-IsFresh lib w inv r.u_new unused) in
      let unused' = prepared-Unused r.u_new unused in
      let (b, at_b, same) =
        on.masters cpu (record k { do_not_disturb = 1 }) (store_self w.kthread_cpu_map cpu _) in
      (
        kt.tid,
        v,
        run,
        made,
        record {
          going = Continues-trans lib w (prepared w cpu k) v prepared-Continues prepared-HeldAt (
              queued-Continues lib (prepared w cpu k) prepared-Continues.kept r.u_new unused' v
                (w.heap m).vruntime t kt on);
          frame = on.frame;
          joined = (
            t,
            record {
              context = on.now;
              at = on.mapped;
              has =
                  queued-joins lib (prepared w cpu k) prepared-Continues.kept r.u_new unused' v
                    (w.heap m).vruntime t kt on;
            },
          );
          caller = b;
          at = at_b;
          main = same ∙ master;
          total = on.total;
          count = on.count;
          unused = λ x new free.
              queued-Unused lib (prepared w cpu k) prepared-Continues.kept r.u_new unused' v
                (w.heap m).vruntime t kt on x new (prepared-Unused x free);
        },
      )

  pub uthread_create-Continues :
      (m : ℕ) (r : Request) (made : Created) (v : World lib.Tree)
      → k.master_thread ≡ some m
      → cpu < 16
      → r.u_gid < 32
      → r.u_new ≢ 0
      → r.ss_sp ≢ 0
      → Unused lib w r.u_new
      → uthread_create lib w cpu r ≡ ok (made, v)
      → Continues lib w v × Held lib v r.u_new
  uthread_create-Continues m r made v master range group block stack unused run =
      let (notified, v', run', new, grown) =
        uthread_create-Grown m r master range group block stack unused in
      subst (λ u. Continues lib w u × Held lib u r.u_new)
        (same_world (uthread_create lib w cpu r) _ made v' v run' run) (grown.going, grown.joined)
