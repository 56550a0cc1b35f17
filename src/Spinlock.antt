-- ===== src/Spinlock.antt =====
-- gt_spinlock.c and gt_spinlock.h: a spin lock on one word, as the holder's code sees it.
-- How threads wait for the lock is in the child module Threads.
pub mod Threads
use cfs_userspace.Prelude.{
  ℕ, Option, none, some, Status, success, failure, ◌==◌, ◌≡◌, refl, if◌then◌else◌,
}

-- `gt_spinlock_t`. `holder` is a note of the caller, which the lock does not read.
pub record Spinlock : Type 0 where
  pub locked : ℕ
  pub holder : ℕ

-- The functions take a pointer, and refuse NULL.
abbrev pub on_lock : (Spinlock → Spinlock) → Option Spinlock → Status × Option Spinlock
on_lock f none = (failure, none)
on_lock f (some l) = (success, some (f l))

pub initialized : Spinlock → Spinlock
initialized l = record l { locked = 0 }

-- The lock when `gt_actual_spinlock` returns, however long it has waited.
pub acquired : Spinlock → Spinlock
acquired l = record l { locked = 1 }

pub released : Spinlock → Spinlock
released l = if l.locked == 0 then l else record l { locked = 0 }

-- A lock that is taken, marked and given back.
pub released-acquired :
    (l : Spinlock) (h : ℕ)
    → released (record (acquired l) { holder = h }) ≡ record { locked = 0; holder = h }
unfolding released acquired
released-acquired l h = refl

pub released-acquired_self : (l : Spinlock) → released (acquired l) ≡ record l { locked = 0 }
unfolding released acquired
released-acquired_self l = refl

pub gt_spinlock_init : Option Spinlock → Status × Option Spinlock
unfolding initialized
gt_spinlock_init = on_lock initialized

pub gt_spin_lock : Option Spinlock → Status × Option Spinlock
unfolding acquired
gt_spin_lock = on_lock acquired

pub gt_spin_unlock : Option Spinlock → Status × Option Spinlock
unfolding released
gt_spin_unlock = on_lock released

-- A lock is free after its initialization.
pub initialized_lem : (l : Spinlock) → (initialized l).locked ≡ 0
unfolding initialized
initialized_lem l = refl
