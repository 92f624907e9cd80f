-- ===== src/Sleeplock.antt =====
-- kernel/sleeplock.c over the process table. The spin lock of a sleep lock is held from `acquire` to
-- the next `sleep` or `release`, so one such run is one step. `chan` is the lock's address and `me`
-- the process that calls.
pub mod Exclusive
mod Tests
use mit_lab.Base.{ℕ, Bool, true, false, ◌&&◌, Option, some, ◌==◌, if◌then◌else◌}
use mit_lab.Proc.{Chan, Table, wakeup, sleep_enter, sleep_leave}

-- `struct sleeplock`, but for its name and its spin lock.
pub record Sleeplock : Type 0 where
  pub locked : Bool
  pub pid : ℕ

abbrev pub initsleeplock : Sleeplock
initsleeplock = record { locked = false; pid = 0 }

-- A run of `acquiresleep`: the lock and the table after it, and whether the lock is taken; if not,
-- the process sleeps.
unfoldable pub acquiresleep : (me : ℕ) → Chan → Sleeplock → Table → Sleeplock × Table × Bool
acquiresleep me chan lk t =
    if lk.locked
    then (lk, sleep_enter me chan t, false)
    else (record { locked = true; pid = (t.procs me).pid }, t, true)

-- The run goes on after `sleep`.
unfoldable pub acquire_again : (me : ℕ) → Chan → Sleeplock → Table → Sleeplock × Table × Bool
unfolding acquiresleep
acquire_again me chan lk t = acquiresleep me chan lk (sleep_leave me t)

unfoldable pub releasesleep : (me : ℕ) → Chan → Sleeplock → Table → Sleeplock × Table
releasesleep me chan lk t = (record { locked = false; pid = 0 }, wakeup (some me) chan t)

unfoldable pub holdingsleep : (me : ℕ) → Sleeplock → Table → Bool
holdingsleep me lk t = lk.locked && (lk.pid == (t.procs me).pid)
