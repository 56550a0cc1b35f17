-- ===== src/Examples/Waiting.antt =====
-- A thread that waits while the timer goes off every 20 microseconds.
use cfs_userspace.Prelude.{ℕ, zero, suc, ◌+◌, ◌*◌, List, [], ◌∷◌}
use cfs_userspace.Uthread.{Timeval}
use cfs_userspace.Scheduler.{Clock}

abbrev moment : ℕ → Timeval
moment i = record { tv_sec = 0; tv_usec = 20 * i }

abbrev steady : ℕ → ℕ → List Clock
steady zero i = []
steady (suc k) i = record { leaving = moment (i + 1); entering = moment (i + 1) } ∷ steady k (i + 1)
