-- ===== src/Lib.antt =====
-- CFS-Userspace: a library of user threads in C, scheduled in the way of the Completely Fair
-- Scheduler of Linux. A program starts one kernel thread on each processor (gtthread_app_init),
-- creates user threads (uthread_create), and waits for them (gtthread_app_exit). Each kernel thread
-- keeps a run queue: a red-black tree of threads by virtual run time, with a cached minimum and a
-- count, behind a spin lock. A virtual timer (SIGVTALRM) and the arrival of a new thread (SIGUSR1)
-- call ksched_priority, which goes to uthread_schedule: the thread that ran is charged and queued
-- again, and the leftmost thread is switched to for a slice of the period.
--
-- Which file models which part:
--   RbLibrary        the interface of the tree library in rb/, which is a copy of third-party
--                    code: its operations and the laws that the run queue relies on, as a record.
--                    Nodes has the shape of a tree in memory; Spine is a simple tree that meets
--                    the laws.
--   Uthread          gt_uthread.h: uthread_struct_t and the states.
--   CfsRunqueue      cfs_runqueue.c, cfs_runqueue.h: the run queue over that interface. Invariant
--                    says when it is well formed: the tree is valid and sorted by virtual run
--                    time, no thread is in it twice, threads and nodes name each other, the count
--                    and the cached minimum are right. Descent, Adding, Removing and Choice are
--                    the proofs; Printing is print_all.
--   Spinlock         gt_spinlock.c, gt_spinlock.h: the functions as their caller sees them;
--                    Threads has the interleavings of the accesses to the lock word.
--   KthreadRunqueue  gt_pq.c, gt_pq.h: the run queue behind its lock.
--   Accounting       gt_uthread.c from update_vruntime to get_fair_slice, with the constants of
--                    gt_signal.h.
--   Kthread          gt_kthread.h: contexts, shared counters, and the timer value of gt_signal.c.
--   Scheduler        gt_uthread.c: uthread_init and uthread_schedule; Entries has gt_yield, the
--                    end of uthread_context_func, and ksched_priority of gt_kthread.c. The
--                    children follow a pass: Requeue, Choosing, Switch, Pass, Passes, Endings,
--                    Leaving, Finishing, Safety, and Arming for the timer; Ownership says which
--                    threads are a kernel thread's own, and Standing in which states they are.
--                    Fairness, Starvation, RoundRobin and Drain in Entries call the timer
--                    handler, gt_yield and the end of a thread again and again.
--   Target           gt_kthread.c: ksched_find_target. Turns is one search, Service one after the other.
--   Creation         gt_uthread.c: uthread_create; gt_kthread.c: create_master_uthread (Master).
--   Filename         gt_kthread.c: tid_to_filename; Test is test.c, which has a copy of it.
--   App              gt_kthread.c: kthread_create, kthread_init, gtthread_app_init,
--                    gtthread_app_start, gtthread_app_exit. Booting, Mastering, Counting and Init
--                    are about gtthread_app_init, Rounds and Exit about the two loops.
--   Program          the whole program: a step is a call on one kernel thread, and any kernel
--                    thread takes the next step. Invariant says what holds between the steps,
--                    Fates, Runs and Affinity what becomes of a thread, Progress that the steps
--                    can be taken, and Counting and Waiting how the count of live threads follows
--                    the steps.
--   Signal           gt_signal.c: handlers and the signal mask, which uthread_init, the switch
--                    and gtthread_app_init change.
--   Matrix           gt_matrix.c: the application that multiplies matrices; Main has its main.
--   Prelude          shared names, results, lists and memory. Examples applies the theorems.
--
-- How the code is modelled. A pointer to a thread is a number, NULL is `none` or 0, and memory is a
-- function from addresses to threads; the run queues hold addresses, so a thread that is written
-- through one pointer is seen through all. Code that can fail returns an Exec: a value, or the way
-- in which it does not return (a null pointer, an assertion, exit, a loop that does not end). A
-- function that ends in siglongjmp returns the jump. What the system answers (time, malloc, clone,
-- the signal calls) is an argument. An int and a long are their bit patterns of 32 and 64 bits, and
-- arithmetic wraps around.
--
-- Loops on fuel: the walks down the tree have as much fuel as the tree has nodes,
-- the search for a processor has 16 rounds, one for each processor, the count of digits 10, as many
-- as an int has. The loops that wait for other kernel threads take what they read as a list.
--
-- Not modelled: the code in rb/, gt_tailq.h and gt_bitops.h (copies, or unused), the instruction in
-- kthread_apic_id, output to the terminal, the opening and closing of log files, test_creation.c,
-- and the script that reads the logs. The kernel threads share memory; in Program they take turns
-- call by call, and only Spinlock.Threads takes a call apart. The printing and the reading of times
-- in gt_matrix.c, and code in comments or under #if 0, are left out. So are the flags of sigaction
-- and what the kernel blocks while a handler runs: a step begins with any signals and any timer.
-- fopen gives a file, and the tree library gets the memory that it asks for. In gtthread_app_init a
-- new kernel thread runs kthread_init when it is created; what main reads of the map before all have
-- started is an argument, and its context k_ctx_main is the one that the map has for its processor.
mod Prelude
pub mod RbLibrary
pub mod Uthread
pub mod CfsRunqueue
pub mod Spinlock
pub mod Accounting
pub mod KthreadRunqueue
pub mod Kthread
pub mod Scheduler
pub mod Target
pub mod Creation
pub mod Filename
pub mod App
pub mod Matrix
pub mod Signal
pub mod Examples
pub mod Program
