-- ===== src/Program/Affinity.antt =====
-- About the processors of threads: there is no load balancing, so a thread runs where
-- uthread_create has posted it.
use cfs_userspace.Prelude.{ℕ, inl, inr, ◌⊎◌}
use cfs_userspace.RbLibrary.{RbLibrary}
use cfs_userspace.Kthread.{World}
use cfs_userspace.Program.{Reach}
use cfs_userspace.Program.Fates.{HeldAt, Ended}
use cfs_userspace.Program.Exclusion.{Reach-IsProgram, Step-Continues}
use cfs_userspace.Program.Runs.{Runs, stop, more, Runs-Reach}

-- On the way from one state to another the thread ended.
pub record EndedBetween (lib : RbLibrary) (w v : World lib.Tree) (x : ℕ) : Type 0 where
  pub between : World lib.Tree
  pub until : Runs lib w between
  pub after : Runs lib between v
  pub ended : Ended lib between x

-- Let a thread be the current one or queued on a processor, in a state that the program reaches.
-- After any number of further steps of the program, it is so on the same processor, or there was a
-- state on the way in which it was done or cancelled and current or queued nowhere.
pub never_moved :
    (lib : RbLibrary) (w v : World lib.Tree) (x t : ℕ)
    → Reach lib w
    → HeldAt lib w x t
    → Runs lib w v
    → HeldAt lib v x t ⊎ EndedBetween lib w v x
never_moved lib w v x t reach held stop = inl held
never_moved lib w v x t reach held (more {u} runs step) =
    let inv = Reach-IsProgram lib u (Runs-Reach lib w u reach runs) in
    elim (never_moved lib w u x t reach held runs) [
      | inl there ↦ elim ((Step-Continues lib u v inv step).stays x t there) [
        | inl still ↦ inl still
        | inr over ↦
            inr (record { between = v; until = more runs step; after = stop; ended = over })
      ]
      | inr gone ↦ inr (record {
        between = gone.between;
        until = gone.until;
        after = more gone.after step;
        ended = gone.ended;
      })
    ]
