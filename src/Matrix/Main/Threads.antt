-- ===== src/Matrix/Main/Threads.antt =====
-- About the loops of main in gt_matrix.c that create the threads.
use cfs_userspace.Prelude.{
  ℕ, zero, suc, inl, inr, ◌/◌, ◌+◌, ◌*◌, ◌%◌, ◌^◌, ◌≡◌, ◌≢◌, ◌≤◌, ◌<◌, refl, sym, ap, ◌∙◌, subst,
  some, ok, arith, store, store_self, store_other, ℕ_discrete,
}
use cfs_userspace.RbLibrary.{RbLibrary}
use cfs_userspace.Kthread.{World, KthreadContext}
use cfs_userspace.Program.{Unused}
use cfs_userspace.Program.Invariant.{IsProgram}
use cfs_userspace.Program.Creating.{Grown, uthread_create-Grown}
use cfs_userspace.Program.Fates.{Held}
use cfs_userspace.Scheduler.Ownership.{Over}
use cfs_userspace.Creation.{Request}
use cfs_userspace.Creation.Queued.{IsCreated}
use cfs_userspace.Matrix.{write_args, write_all_args, main_arg, sizes}
use cfs_userspace.Matrix.Main.{
  Setup, Driver, create_thread, create_threads, create_all, thread_request,
}

-- malloc succeeds for the first n threads, and gives each its own struct.
pub record IsSetup (s : Setup) (n : ℕ) : Type 0 where
  pub range : s.cpu < 16
  pub struct : (j : ℕ) → j < n → (s.supply j).u_new ≢ 0
  pub stack : (j : ℕ) → j < n → (s.supply j).ss_sp ≢ 0
  pub apart : (i j : ℕ) → i < j → j < n → (s.supply i).u_new ≢ (s.supply j).u_new

-- What main wants of its i-th thread: to call uthread_mulmat with entry i % 32 of uargs, in group
-- i / 32.
abbrev pub wanted : Setup → ℕ → Request
wanted s i = record {
  u_func = s.uthread_mulmat;
  u_arg = s.uarg_at (i % 32);
  u_gid = i / 32;
  u_new = (s.supply i).u_new;
  ss_sp = (s.supply i).ss_sp;
  now = (s.supply i).now;
}

-- The i-th thread that main creates is there: it is thread i % 32 of matrix i / 32, calls
-- uthread_mulmat with that entry of uargs, and is current or queued on some processor.
pub record IsRunning (lib : RbLibrary) (s : Setup) (tot i : ℕ) (w : World lib.Tree) : Type 0 where
  pub held : Held lib w (s.supply i).u_new
  pub asked : IsCreated (wanted s i) ((tot + i) % 2 ^ 32) (w.heap (s.supply i).u_new)

-- The state after j threads were created, by main on its processor, from the counters tot and cur
-- on.
pub record Going (lib : RbLibrary) (s : Setup) (n m tot cur j : ℕ) (d : Driver lib.Tree)
    : Type 0 where
  pub kept : IsProgram lib d.world
  pub caller : KthreadContext lib.Tree
  pub at : d.world.kthread_cpu_map s.cpu ≡ some caller
  pub main : caller.master_thread ≡ some m
  pub total : d.world.shared.kthread_tot_uthreads ≡ (tot + j) % 2 ^ 32
  pub count : d.world.shared.kthread_cur_uthreads ≡ (cur + j) % 2 ^ 32
  pub unused : (i : ℕ) → j ≤ i → i < n → Unused lib d.world (s.supply i).u_new
  pub tids : (i : ℕ) → i < j → d.utids i ≡ (tot + i) % 2 ^ 32
  pub made : (i : ℕ) → i < j → IsRunning lib s tot i d.world

plus_mod : (a b j : ℕ) → a ≡ (b + j) % 2 ^ 32 → (a + 1) % 2 ^ 32 ≡ (b + suc j) % 2 ^ 32
plus_mod a b j e = omega arith

module _ (lib : RbLibrary) (s : Setup) (n m tot cur : ℕ) (good : IsSetup s n) where
  tids_step :
      (utids : ℕ → ℕ) (j t : ℕ)
      → ((i : ℕ) → i < j → utids i ≡ (tot + i) % 2 ^ 32)
      → t ≡ (tot + j) % 2 ^ 32
      → (i : ℕ) → i < suc j
      → store utids j t i ≡ (tot + i) % 2 ^ 32
  tids_step utids j t old new i small = elim (ℕ_discrete j i) [
    | yes e ↦ subst (λ z. store utids j t z ≡ (tot + z) % 2 ^ 32) e (store_self utids j t ∙ new)
    | no ne ↦ store_other utids j i t ne ∙ old i (omega arith)
  ]

  -- A thread that was there is there after another one was created.
  IsRunning-kept :
      (i j : ℕ) (w v : World lib.Tree)
      → (s.supply i).u_new ≢ (s.supply j).u_new
      → Grown lib w v s.cpu m (s.supply j).u_new
      → IsRunning lib s tot i w
      → IsRunning lib s tot i v
  IsRunning-kept i j w v ne grown old =
      let p = (s.supply i).u_new in
      let still : v.heap p ≡ w.heap p = grown.frame p (λ e. ne (sym e)) in
      let asked : IsCreated (wanted s i) ((tot + i) % 2 ^ 32) (v.heap p) =
        subst (IsCreated (wanted s i) ((tot + i) % 2 ^ 32)) (sym still) old.asked in
      record {
        held = elim (grown.going.fates p (inl old.held)) [
          | inl there ↦ there
          | inr ended ↦ absurd (subst Over asked.state ended.1)
        ];
        asked = asked;
      }

  made_step :
      (i inx j : ℕ) (w v : World lib.Tree)
      → j < n
      → j ≡ i * 32 + inx
      → inx < 32
      → w.shared.kthread_tot_uthreads ≡ (tot + j) % 2 ^ 32
      → IsCreated
          (thread_request lib s i inx j)
          w.shared.kthread_tot_uthreads
          (v.heap (s.supply j).u_new)
      → Grown lib w v s.cpu m (s.supply j).u_new
      → ((h : ℕ) → h < j → IsRunning lib s tot h w)
      → (h : ℕ) → h < suc j
      → IsRunning lib s tot h v
  unfolding main_arg
  made_step i inx j w v small place col total new grown old h below = elim (ℕ_discrete j h) [
    | yes e ↦
        let row : i ≡ j / 32 = omega arith in
        let column : inx ≡ j % 32 = omega arith in
        subst (λ x. IsRunning lib s tot x v) e
          (record {
            held = grown.joined;
            asked =
                subst (λ t. IsCreated (wanted s j) t (v.heap (s.supply j).u_new)) total
                  (subst
                    (λ x.
                      IsCreated (thread_request lib s x (j % 32) j) w.shared.kthread_tot_uthreads
                        (v.heap (s.supply j).u_new))
                    row
                    (subst
                      (λ x.
                        IsCreated (thread_request lib s i x j) w.shared.kthread_tot_uthreads
                          (v.heap (s.supply j).u_new))
                      column new));
          })
    | no ne ↦
        IsRunning-kept h j w v (good.apart h j (omega arith) small) grown (old h (omega arith))
  ]

  create_thread_lem :
      (i inx j : ℕ) (d : Driver lib.Tree)
      → i < 32
      → j < n
      → j ≡ i * 32 + inx
      → inx < 32
      → Going lib s n m tot cur j d
      → (e : Driver lib.Tree) × (create_thread lib s i inx j d ≡ ok e)
        × Going lib s n m tot cur (suc j) e
        × (e.uargs ≡ store d.uargs inx (main_arg i inx (sizes i)))
  unfolding create_thread main_arg
  create_thread_lem i inx j d group small place col going =
      let (notified, v, run, new, grown) =
        uthread_create-Grown lib d.world going.kept s.cpu going.caller going.at m
          (thread_request lib s i inx j) going.main good.range group (good.struct j small)
          (good.stack j small) (going.unused j (omega arith) small) in
      (
        record {
          uargs = store d.uargs inx (main_arg i inx (sizes i));
          utids = store d.utids j d.world.shared.kthread_tot_uthreads;
          world = v;
        },
        rw run refl,
        record {
          kept = grown.going.kept;
          caller = grown.caller;
          at = grown.at;
          main = grown.main;
          total = grown.total ∙ plus_mod _ tot j going.total;
          count = grown.count ∙ plus_mod _ cur j going.count;
          unused = λ i above below.
              grown.unused (s.supply i).u_new (good.apart j i (omega arith) below)
                (going.unused i (omega arith) below);
          made = made_step i inx j d.world v small place col going.total new grown going.made;
          tids = tids_step d.utids j d.world.shared.kthread_tot_uthreads going.tids going.total;
        },
        refl,
      )

  create_threads_lem :
      (left i inx j : ℕ) (d : Driver lib.Tree)
      → i < 32
      → j + left ≤ n
      → j ≡ i * 32 + inx
      → inx + left ≤ 32
      → Going lib s n m tot cur j d
      → (e : Driver lib.Tree) × (create_threads lib s left i inx j d ≡ ok e)
        × Going lib s n m tot cur (j + left) e
        × (e.uargs ≡ write_args left i inx d.uargs)
  unfolding create_threads write_args
  create_threads_lem zero i inx j d group small place cols going =
      (d, refl, subst (λ x. Going lib s n m tot cur x d) (omega arith) going, refl)
  create_threads_lem (suc left) i inx j d group small place cols going =
      let (e, run, gone, args) =
        create_thread_lem i inx j d group (omega arith) place (omega arith) going in
      let (f, runs, end, rest) =
        create_threads_lem left i (inx + 1) (j + 1) e group (omega arith) (omega arith)
          (omega arith) (subst (λ x. Going lib s n m tot cur x e) (omega arith) gone) in
      (
        f,
        rw run runs,
        subst (λ x. Going lib s n m tot cur x f) (omega arith) end,
        rest ∙ ap (λ u. write_args left i (inx + 1) u) args,
      )

  pub create_all_lem :
      (left i j : ℕ) (d : Driver lib.Tree)
      → i + left ≤ 32
      → j + left * 32 ≤ n
      → j ≡ i * 32
      → Going lib s n m tot cur j d
      → (e : Driver lib.Tree) × (create_all lib s left i j d ≡ ok e)
        × Going lib s n m tot cur (j + left * 32) e
        × (e.uargs ≡ write_all_args left i d.uargs)
  unfolding create_all write_all_args
  create_all_lem zero i j d group small place going =
      (d, refl, subst (λ x. Going lib s n m tot cur x d) (omega arith) going, refl)
  create_all_lem (suc left) i j d group small place going =
      let (e, run, gone, args) =
        create_threads_lem 32 i 0 j d (omega arith) (omega arith) (omega arith) (omega arith)
          going in
      let (f, runs, end, rest) =
        create_all_lem left (i + 1) (j + 32) e (omega arith) (omega arith) (omega arith) gone in
      (
        f,
        rw run runs,
        subst (λ x. Going lib s n m tot cur x f) (omega arith) end,
        rest ∙ ap (λ u. write_all_args left (i + 1) u) args,
      )
