-- ===== src/App/Startup.antt =====
-- About kthread_init in gt_kthread.c.
use cfs_userspace.Prelude.{
  ℕ, ◌≡◌, ◌<◌, refl, [], ok, some, none, lt→ltb, store_self, ◌≢◌, store_other,
}
use cfs_userspace.Uthread.{Uthread}
use cfs_userspace.RbLibrary.{RbLibrary}
use cfs_userspace.Signal.{timer_handler}
use cfs_userspace.CfsRunqueue.{threads}
use cfs_userspace.CfsRunqueue.Invariant.{IsRunqueue}
use cfs_userspace.KthreadRunqueue.{reset_runqueue, kthread_init_runqueue}
use cfs_userspace.KthreadRunqueue.Dispatch.{
  init_runqueue-IsRunqueue, init_runqueue-empty, init_runqueue-current, reset_runqueue-unlocked,
}
use cfs_userspace.Kthread.{World, KthreadContext, put_context}
use cfs_userspace.Creation.Failures.{nonzero}
use cfs_userspace.Filename.Digits.{tid_to_filename_lem}
use cfs_userspace.App.{Served, Identity, kthread_init}

-- A kernel thread that has started: ready for threads, but not to be interrupted yet.
pub record Started (lib : RbLibrary) (me : Identity) (h : ℕ → Uthread) (k : KthreadContext lib.Tree)
    : Type 0 where
  pub kept : IsRunqueue lib (record { heap = h; rq = k.krunqueue.runqueue })
  pub empty : threads lib k.krunqueue.runqueue.tree ≡ []
  pub busy : k.do_not_disturb ≡ 1
  pub no_master : k.master_thread ≡ none
  pub named : k.tid ≡ me.tid
  pub scheduler : k.kthread_sched_timer ≡ timer_handler
  pub unlocked : k.krunqueue.kthread_runqlock.locked ≡ 0

-- kthread_init of a kernel thread with an id below 2^31, on a processor below 16, ends if malloc
-- gives the blocks for the file name and the run queue; it maps that processor to a context that
-- has an empty, well-formed run queue with a free lock, that id, ksched_priority as the handler of
-- timers, no master thread, the current thread that the block had, and do_not_disturb set; it
-- leaves what the other processors are mapped to, the threads in memory, and the shared counters.
pub kthread_init_lem :
    (lib : RbLibrary) (me : Identity) (w : World lib.Tree) (zeroed : KthreadContext lib.Tree)
    → Served me
    → me.apic_id < 16
    → (v : World lib.Tree) × (k : KthreadContext lib.Tree) × (kthread_init lib me w zeroed ≡ ok v)
      × (v.kthread_cpu_map me.apic_id ≡ some k)
      × Started lib me v.heap k
      × ((cpu : ℕ) → me.apic_id ≢ cpu → v.kthread_cpu_map cpu ≡ w.kthread_cpu_map cpu)
      × (v.heap ≡ w.heap)
      × (k.krunqueue.cur_uthread ≡ zeroed.krunqueue.cur_uthread)
      × (v.shared ≡ w.shared)
unfolding kthread_init kthread_init_runqueue
kthread_init_lem lib me w zeroed small there =
    let (size, name, value, least) = tid_to_filename_lem me.tid small.0 in
    let k = record zeroed {
      pid = me.pid;
      tid = me.tid;
      kthread_sched_timer = timer_handler;
      master_thread = none;
      do_not_disturb = 1;
      log = [];
      krunqueue = reset_runqueue lib zeroed.krunqueue;
      cpu_apic_id = me.apic_id;
    } in
    (
      put_context w me.apic_id k,
      k,
      rw (
        nonzero me.name_block small.1,
        nonzero me.runqueue_block small.2,
        name,
        lt→ltb me.apic_id 16 there,
      ),
      store_self w.kthread_cpu_map me.apic_id (some k),
      record {
        kept = init_runqueue-IsRunqueue lib w.heap zeroed.krunqueue;
        empty = init_runqueue-empty lib zeroed.krunqueue;
        busy = refl;
        no_master = refl;
        named = refl;
        scheduler = refl;
        unlocked = reset_runqueue-unlocked lib zeroed.krunqueue;
      },
      λ cpu ne. store_other w.kthread_cpu_map me.apic_id cpu (some k) ne,
      refl,
      init_runqueue-current lib zeroed.krunqueue,
      refl,
    )
