-- ===== src/Proc/Tests.antt =====
-- The theorems about processes at concrete tables.
use mit_lab.Base.{
  ◌∷◌, ℕ, zero, suc, ◌<◌, ◌≡◌, refl, ◌≢◌, true, false, none, some, [], arith, ok, if◌then◌else◌,
}
use mit_lab.Proc.{
  nproc, unused, sleeping, runnable, running, zombie, nowhere, at_proc, is_zombie, is_unused, Proc,
  is_parent, Table, kill, fork, exit, wait, returned, freeproc,
}
use mit_lab.Proc.Signals.{kill-zero}
use mit_lab.Proc.Wakeups.{NoLost}
use mit_lab.Proc.Reach.{stay, step, forks, Reach-NoLost}
use mit_lab.Proc.Reap.{wait-reaps, exit-orphans, exit-wait}

abbrev empty_slot : Proc
empty_slot = record {
  state = unused;
  chan = nowhere;
  killed = false;
  xstate = 0;
  pid = 0;
  parent = none;
  sz = 0;
  pagetable = 0;
  trapframe = 0;
  ofile = λ fd. 0;
  cwd = 0;
  name = [];
}

-- init, process 0, sleeps in `wait`; its child, process 1, runs, and has a child, process 2, that is
-- a zombie.
abbrev family : ℕ → Proc
family zero = record empty_slot { state = sleeping; chan = at_proc 0; pid = 1 }
family (suc zero) = record empty_slot { state = running; pid = 2; parent = some 0 }
family (suc (suc zero)) = record empty_slot { state = zombie; pid = 3; parent = some 1 }
family _ = empty_slot

abbrev three : Table
three = record { procs = family; nextpid = 4; initproc = 0; freed = [] }

kill-zero_example :
    (t' : Table) × ((kill 0 three).1 ≡ true)
    × (fork 1 4096 8192 true (kill 0 three).0 ≡ (some 4, t'))
    × ((t'.procs 3).state ≡ runnable)
    × ((t'.procs 3).pid ≡ 4)
    × ((t'.procs 3).killed ≡ true)
kill-zero_example =
    kill-zero 1 3 4096 8192 three (omega arith) refl refl before (omega arith) (omega arith)
  where
    before : (k : ℕ) → k < 3 → (is_unused (three.procs k).state ≡ false) × ((three.procs k).pid ≢ 0)
    before zero h = (refl, omega arith)
    before (suc zero) h = (refl, omega arith)
    before (suc (suc zero)) h = (refl, omega arith)
    before (suc (suc (suc k))) h = absurd (omega arith)

wait-reaps_example :
    (i : ℕ) × (i < nproc)
    × (is_parent (three.procs i).parent 1 ≡ true)
    × (is_zombie (three.procs i).state ≡ true)
    × (wait 1 true true three ≡ returned (some (three.procs i).pid) (freeproc i three))
wait-reaps_example = wait-reaps 1 2 true true three (omega arith) refl refl refl

exit-orphans_example :
    (t' : Table) × (exit 1 7 three ≡ ok t')
    × ((t'.procs 1).state ≡ zombie)
    × ((t'.procs 1).xstate ≡ 7)
    × ((t'.procs 1).pid ≡ 2)
    × ((j : ℕ)
        → j < nproc
        → (t'.procs j).parent
          ≡ (if is_parent (three.procs j).parent 1 then some 0 else (three.procs j).parent))
exit-orphans_example = exit-orphans 1 7 three (omega arith) (omega arith)

exit-wait_example :
    (t' : Table) × (i : ℕ) × (t'' : Table) × (exit 1 7 three ≡ ok t')
    × (i < nproc)
    × (is_parent (t'.procs i).parent 0 ≡ true)
    × (is_zombie (t'.procs i).state ≡ true)
    × (wait 0 true true t' ≡ returned (some (t'.procs i).pid) t'')
    × ((t''.procs i).state ≡ unused)
    × ((t''.procs i).pid ≡ 0)
    × ((t''.procs i).parent ≡ none)
    × ((j : ℕ) → j ≢ i → t''.procs j ≡ t'.procs j)
    × (t''.freed ≡ ((t'.procs i).trapframe, (t'.procs i).pagetable, (t'.procs i).sz) ∷ t'.freed)
exit-wait_example =
    exit-wait 1 0 7 true true three (omega arith) (omega arith) (omega arith) refl refl

three-NoLost : NoLost three
unfolding NoLost
three-NoLost k zero lk lc par z = cc
three-NoLost k (suc zero) lk lc par z = cc
three-NoLost k (suc (suc zero)) lk lc par z = let q : 1 ≡ k = ground arith in rw (← q)
three-NoLost k (suc (suc (suc c))) lk lc par z = cc

Reach-NoLost_example : NoLost (fork 1 4096 8192 true three).1
Reach-NoLost_example = Reach-NoLost (step stay (forks 1 4096 8192 true)) three-NoLost
