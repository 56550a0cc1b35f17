-- ===== src/App/Booting.antt =====
-- About the loop in gtthread_app_init that starts the other kernel threads.
use cfs_userspace.Prelude.{
  ℕ, ◌+◌, ◌^◌, ◌≡◌, ◌≢◌, ◌<◌, refl, sym, ap, subst, some_inj, ℕ_discrete, ◌∙◌, List, [], ◌∷◌, map,
  none, some, ok, All, All-zip, All-of_map, Distinct, Bool, length, arith, lt→ltb,
}
use cfs_userspace.RbLibrary.{RbLibrary}
use cfs_userspace.Kthread.{World, KthreadContext, KschedSharedInfo, malloc_safe}
use cfs_userspace.Scheduler.Ownership.{Foreign}
use cfs_userspace.Target.{is_some}
use cfs_userspace.Creation.Failures.{nonzero}
use cfs_userspace.App.{Served, Boot, kthread_create, start_kthread, start_kthreads, mapped}
use cfs_userspace.App.Startup.{kthread_init_lem}
use cfs_userspace.App.Counting.{mapped-put}
use cfs_userspace.Program.{Unused}
use cfs_userspace.Program.Invariant.{IsProgram}
use cfs_userspace.Program.Starting.{kthread_init-Continues, nothing-owned}

-- malloc and clone succeed, and the kernel thread runs on one of the 16 processors.
pub record IsBoot {Tree : Type 0} (b : Boot Tree) : Type 0 where
  pub block : b.block ≢ 0
  pub stack : b.stack ≢ 0
  pub cloned : 0 < b.retval
  pub int : b.retval < 2 ^ 31
  pub small : Served b.me
  pub range : b.me.apic_id < 16
  pub idle : b.zeroed.krunqueue.cur_uthread ≡ none

abbrev pub apic_of : {Tree : Type 0} → Boot Tree → ℕ
apic_of b = b.me.apic_id

-- Which processors are mapped.
abbrev pub present : {Tree : Type 0} → World Tree → ℕ → Bool
present w i = is_some (w.kthread_cpu_map i)

kthread_create-some :
    (stack retval : ℕ)
    → stack ≢ 0
    → 0 < retval
    → retval < 2 ^ 31
    → kthread_create stack retval ≡ some retval
unfolding kthread_create
kthread_create-some stack retval there pos small =
    rw (nonzero stack there, lt→ltb 0 retval pos, lt→ltb retval (2 ^ 31) small) refl

-- The counters of threads.
abbrev pub Counted : {Tree : Type 0} → World Tree → World Tree → Type 0
Counted v w =
    (v.shared.kthread_tot_uthreads ≡ w.shared.kthread_tot_uthreads)
    × (v.shared.kthread_cur_uthreads ≡ w.shared.kthread_cur_uthreads)

-- A kernel thread without threads.
pub mapped-Unused :
    (lib : RbLibrary) (w v : World lib.Tree) (cpu : ℕ) (k : KthreadContext lib.Tree) (x : ℕ)
    → v.kthread_cpu_map cpu ≡ some k
    → ((t : ℕ) → cpu ≢ t → v.kthread_cpu_map t ≡ w.kthread_cpu_map t)
    → Foreign lib k x
    → Unused lib w x
    → Unused lib v x
mapped-Unused lib w v cpu k x at others foreign unused t b at_t = elim (ℕ_discrete cpu t) [
  | yes same ↦
      subst (λ y. Foreign lib y x)
        (some_inj.0 (sym at ∙ subst (λ z. v.kthread_cpu_map z ≡ some b) (sym same) at_t)) foreign
  | no other ↦ unused t b (sym (others t other) ∙ at_t)
]

-- One kernel thread more.
record Joined (lib : RbLibrary) (w v : World lib.Tree) (cpu : ℕ) : Type 0 where
  kept : IsProgram lib v
  one_more : mapped 16 (present v) 0 ≡ mapped 16 (present w) 0 + 1
  others : (t : ℕ) → cpu ≢ t → v.kthread_cpu_map t ≡ w.kthread_cpu_map t
  heap : v.heap ≡ w.heap
  counted : Counted v w
  unused : (x : ℕ) → Unused lib w x → Unused lib v x

start_kthread_lem :
    (lib : RbLibrary) (w : World lib.Tree) (cpuid : ℕ) (b : Boot lib.Tree)
    → IsProgram lib w
    → IsBoot b
    → w.kthread_cpu_map b.me.apic_id ≡ none
    → (v : World lib.Tree) × (start_kthread lib w cpuid b ≡ ok v) × Joined lib w v b.me.apic_id
unfolding start_kthread
start_kthread_lem lib w cpuid b inv good free =
    let allocated = malloc_safe (malloc_safe w) in
    let same : IsProgram lib allocated = record {
      inside = inv.inside;
      each = inv.each;
      apart = inv.apart;
    } in
    let zeroed = record b.zeroed { cpuid = cpuid } in
    let (v, k, run, at, started, others, heap, cur, shared) =
      kthread_init_lem lib b.me allocated zeroed good.small good.range in
    (
      v,
      rw
          (
            nonzero b.block good.block,
            kthread_create-some b.stack b.retval good.stack good.cloned good.int,
          )
          run,
      record {
        kept =
            (kthread_init-Continues lib allocated same b.me zeroed v free good.idle good.small
              good.range run).kept;
        one_more =
            mapped-put 16 0 b.me.apic_id (present w) (present v) (omega arith)
              (omega (arith, good.range)) (ap is_some free) (ap is_some at)
              (λ j ne. ap is_some (others j ne));
        others = others;
        heap = heap;
        counted = (
          ap (λ (i : KschedSharedInfo). i.kthread_tot_uthreads) shared,
          ap (λ (i : KschedSharedInfo). i.kthread_cur_uthreads) shared,
        );
        unused = λ x free'.
            mapped-Unused lib w v b.me.apic_id k x at others
              (subst (All (λ q. x ≢ q)) (sym (nothing-owned lib k (cur ∙ good.idle) started.empty))
                tt)
              free';
      },
    )

-- The kernel threads that the loop starts.
pub record Joining (lib : RbLibrary) (w v : World lib.Tree) (bs : List (Boot lib.Tree))
    : Type 0 where
  pub kept : IsProgram lib v
  pub count : mapped 16 (present v) 0 ≡ mapped 16 (present w) 0 + length bs
  pub others : (t : ℕ) → All (λ b. apic_of b ≢ t) bs → v.kthread_cpu_map t ≡ w.kthread_cpu_map t
  pub heap : v.heap ≡ w.heap
  pub counted : Counted v w
  pub unused : (x : ℕ) → Unused lib w x → Unused lib v x

pub start_kthreads_lem :
    (lib : RbLibrary) (bs : List (Boot lib.Tree)) (w : World lib.Tree) (inx : ℕ)
    → IsProgram lib w
    → All IsBoot bs
    → Distinct (map apic_of bs)
    → All (λ b. w.kthread_cpu_map (apic_of b) ≡ none) bs
    → (v : World lib.Tree) × (start_kthreads lib w inx bs ≡ ok v) × Joining lib w v bs
unfolding start_kthreads
start_kthreads_lem lib [] w inx inv good distinct free = (
  w,
  refl,
  record {
    kept = inv;
    count = omega arith;
    others = λ t h. refl;
    heap = refl;
    counted = (refl, refl);
    unused = λ x h. h;
  },
)
start_kthreads_lem lib (b ∷ bs) w inx inv good distinct free =
    let (v, run, joined) = start_kthread_lem lib w inx b inv good.0 free.0 in
    let later : All (λ c. v.kthread_cpu_map (apic_of c) ≡ none) bs =
      All-zip (λ c ne off. joined.others (apic_of c) ne ∙ off) bs
        (All-of_map (λ t. apic_of b ≢ t) apic_of bs distinct.0) free.1 in
    let (u, runs, joining) =
      start_kthreads_lem lib bs v (inx + 1) joined.kept good.1 distinct.1 later in
    (
      u,
      rw run runs,
      record {
        kept = joining.kept;
        count = joining.count ∙ (ap (λ n. n + length bs) joined.one_more ∙ omega arith);
        others = λ t h. joining.others t h.1 ∙ joined.others t h.0;
        heap = joining.heap ∙ joined.heap;
        counted = (joining.counted.0 ∙ joined.counted.0, joining.counted.1 ∙ joined.counted.1);
        unused = λ x free'. joining.unused x (joined.unused x free');
      },
    )
