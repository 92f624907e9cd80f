-- ===== src/Sleeplock/Tests.antt =====
-- Two processes and a sleep lock.
use mit_lab.Base.{ℕ, ◌<◌, ◌≡◌, refl, true, false, none, []}
use mit_lab.Proc.{nproc, running, at_address, nowhere, Proc, Table, sleep_enter}
use mit_lab.Proc.Scan.{chan_eq_refl}
use mit_lab.Sleeplock.{holdingsleep, acquiresleep}
use mit_lab.Sleeplock.Exclusive.{
  World, is_asleep, entered, acquires, here, next, fresh_world, Reach-one_holder,
}

abbrev here_process : ℕ → Proc
here_process i = record {
  state = running;
  chan = nowhere;
  killed = false;
  xstate = 0;
  pid = i;
  parent = none;
  sz = 0;
  pagetable = 0;
  trapframe = 0;
  ofile = λ fd. 0;
  cwd = 0;
  name = [];
}

abbrev two_run : Table
two_run = record { procs = here_process; nextpid = 64; initproc = 1; freed = [] }

abbrev taken : World
taken =
    entered 1 (fresh_world two_run)
      (acquiresleep 1 (at_address 8) (fresh_world two_run).lock two_run)

abbrev waiting : World
waiting = entered 2 taken (acquiresleep 2 (at_address 8) taken.lock taken.table)

waiting_sleeps : is_asleep (at_address 8) 2 waiting.table ≡ true
unfolding acquiresleep sleep_enter
waiting_sleeps = chan_eq_refl (at_address 8)

second_runs : (taken.table.procs 2).state ≡ running
unfolding acquiresleep
second_runs = refl

Reach-one_holder_example :
    ((i j : ℕ) → waiting.inside i ≡ true → waiting.inside j ≡ true → i ≡ j)
    × ((i : ℕ) → waiting.inside i ≡ true → holdingsleep i waiting.lock waiting.table ≡ true)
    × ((i : ℕ)
        → holdingsleep i waiting.lock waiting.table ≡ true
        → (j : ℕ) × (waiting.inside j ≡ true)
          × ((waiting.table.procs j).pid ≡ (waiting.table.procs i).pid))
    × (waiting.lock.locked ≡ false
        → (i : ℕ) → i < nproc
        → is_asleep (at_address 8) i waiting.table ≡ false)
Reach-one_holder_example =
    Reach-one_holder {chan = at_address 8} {t = two_run} {s = waiting} (λ i lt. refl)
      (next (next here (acquires 1 refl)) (acquires 2 second_runs))
