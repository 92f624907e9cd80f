-- ===== src/Spinlock.antt =====
-- kernel/spinlock.c: the nesting of `push_off` and `pop_off` on one cpu, and `acquire` and `release`
-- as the steps between which other cpus run.
pub mod Nesting
pub mod Exclusion
mod Tests
use mit_lab.Base.{
  ℕ, zero, suc, ◌+◌, ◌-◌, Bool, true, false, ◌&&◌, not, Option, none, some, Run, ok, panic, ◌>>=◌,
  ltb, ◌==◌, if◌then◌else◌,
}

-- What a cpu keeps: `intr` is its interrupt enable bit, `noff` and `intena` are those of
-- `struct cpu`. `noff` is never below 0: `pop_off` panics first.
pub record Cpu : Type 0 where
  pub intr : Bool
  pub noff : ℕ
  pub intena : Bool

pub push_off : Cpu → Cpu
push_off c = record {
  intr = false;
  noff = c.noff + 1;
  intena = if c.noff == 0 then c.intr else c.intena;
}

pub pop_off : Cpu → Run Cpu
pop_off c =
    if c.intr
    then panic
    else if ltb c.noff 1
    then panic
    else let left = c.noff - 1 in ok (record c { noff = left; intr = (left == 0) && c.intena })

-- `struct spinlock` without its name; `cpu` is the holder's number.
pub record Spinlock : Type 0 where
  pub locked : Bool
  pub cpu : Option ℕ

unfoldable pub initlock : Spinlock
initlock = record { locked = false; cpu = none }

is_cpu : Option ℕ → ℕ → Bool
is_cpu none i = false
is_cpu (some j) i = j == i

unfoldable pub holding : Spinlock → (me : ℕ) → Bool
unfolding is_cpu
holding lk me = lk.locked && is_cpu lk.cpu me

-- `acquire` up to its loop.
unfoldable pub acquire_enter : Spinlock → (me : ℕ) → Cpu → Run Cpu
acquire_enter lk me c = let c' = push_off c in if holding lk me then panic else ok c'

-- One `__sync_lock_test_and_set(&lk->locked, 1)`: the new lock, and whether the old value was not 0.
unfoldable pub test_and_set : Spinlock → Spinlock × Bool
test_and_set lk = (record lk { locked = true }, lk.locked)

-- `lk->cpu = mycpu()`
pub acquire_done : Spinlock → (me : ℕ) → Spinlock
acquire_done lk me = record lk { cpu = some me }

-- `release` up to `lk->cpu = 0`.
pub release_enter : Spinlock → (me : ℕ) → Run Spinlock
release_enter lk me = if holding lk me then ok (record lk { cpu = none }) else panic

-- `__sync_lock_release(&lk->locked)`; `pop_off` comes behind it.
pub lock_release : Spinlock → Spinlock
lock_release lk = record lk { locked = false }
