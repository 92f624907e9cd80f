-- ===== src/Log/Tests.antt =====
-- The theorems about the log at concrete logs.
use mit_lab.Base.{
  ℕ, zero, suc, ◌+◌, ◌%◌, ◌^◌, ◌<◌, ◌≡◌, refl, ◌↔◌, inr, Bool, true, false, ◌&&◌, ◌||◌, none, some,
  List, [], ◌∷◌, All, ◌≢◌, arith, ok, panic, ltb, ◌==◌, if◌then◌else◌,
}
use mit_lab.Buffers.{Store, data_of, reboot, bpin}
use mit_lab.Log.{Log, begin_op, log_write, end_op, commit, initlog, find_slot}
use mit_lab.Log.Stages.{logged}
use mit_lab.Log.Crash.{Ready}
use mit_lab.Log.Atomic.{commit-atomic}
use mit_lab.Log.Space.{
  Sys, Reach, here, next, begin, IsReserved, sum, remove, log_write-safe, end_op-safe,
}
use mit_lab.Log.Absorb.{log_write-logged}
use mit_lab.Log.Short.{begin_three, write_all, Fresh, reservation-panic}

-- Blocks 40 and 41 are changed in the cache; the disk holds 7s, and the log at 2 is empty.
abbrev store : ℕ → Store
store power = record {
  disk = λ b w. if b == 2 then 0 else 7;
  buf = λ b. if b == 40 then some (λ w. 8) else if b == 41 then some (λ w. 9) else none;
  pins = λ b. 1;
  power = power;
}

abbrev two_blocks : ℕ → Log
two_blocks power = record {
  start = 2;
  size = 31;
  outstanding = 0;
  committing = true;
  n = 2;
  block = λ i. 40 + i;
  store = store power;
}

two_blocks-Ready : Ready (two_blocks 4)
two_blocks-Ready = record { fits = omega arith; apart = λ j a b. inr (omega arith); clean = refl }

-- The power fails after the header and one home block.
commit-atomic_example :
    (r : Log) × (initlog 2 31 (reboot 9 (commit (two_blocks 4)).store) ≡ ok r)
    × (r.n ≡ 0)
    × (r.store.disk 41 ≡ (
        if ltb 2 4 && logged (λ i. 40 + i) 0 2 41 then data_of (store 4) 41 else (store 4).disk 41))
commit-atomic_example =
    commit-atomic (two_blocks 4) 9 41 two_blocks-Ready (inr (omega arith)) (omega arith)

abbrev idle : ℕ → Log
idle size = record (two_blocks 4) { size = size; outstanding = 0; committing = false; n = 0 }

abbrev idle_sys : Sys
idle_sys = record { log = idle 30; ops = [] }

idle-IsReserved : IsReserved 9 idle_sys
unfolding sum
idle-IsReserved = record {
  counted = refl;
  room = omega arith;
  budget = tt;
  allowed = omega arith;
  alone = λ h. refl;
  large = omega arith;
}

abbrev one_op : Sys
one_op = record { log = record (idle 30) { outstanding = 1 }; ops = 9 ∷ [] }

Reach-one : Reach 9 idle_sys one_op
unfolding begin_op
Reach-one = next here (begin refl)

log_write-safe_example : (l : Log) × (log_write 40 one_op.log ≡ ok l)
log_write-safe_example = log_write-safe 0 8 40 idle-IsReserved Reach-one refl

end_op-safe_example :
    (out : Log × Bool) × (end_op one_op.log ≡ ok out) × ((out.1 ≡ true) ↔ (remove 0 (9 ∷ []) ≡ []))
end_op-safe_example = end_op-safe 0 9 idle-IsReserved Reach-one refl

abbrev written : Log
written = record (record (idle 30) { outstanding = 1 }) {
  n = 1;
  block = λ j. if j == 0 then 50 else 40 + j;
  store = bpin 50 (store 4);
}

write_50 : log_write 50 one_op.log ≡ ok written
unfolding log_write find_slot
write_50 = refl

log_write-logged_example :
    (logged written.block 0 1 50 ≡ (logged (λ i. 40 + i) 0 0 50 || (50 == 50)))
    × (1 ≡ (if logged (λ i. 40 + i) 0 0 50 then 0 else 0 + 1))
    × (written.store.pins 50 ≡ (
        if (50 == 50) && (if logged (λ i. 40 + i) 0 0 50 then false else true)
        then (1 + 1) % 2 ^ 32
        else 1))
log_write-logged_example = log_write-logged 50 50 one_op.log write_50

abbrev count_up : ℕ → ℕ → List ℕ
count_up zero b = []
count_up (suc k) b = b ∷ count_up k (b + 1)

count_up-ne : (k b c : ℕ) → b < c → All (λ d. d ≢ b) (count_up k c)
count_up-ne zero b c h = tt
count_up-ne (suc k) b c h = (omega arith, count_up-ne k b (c + 1) (omega arith))

count_up-Fresh : (k b : ℕ) → Fresh (idle 30) (count_up k b)
unfolding logged
count_up-Fresh zero b = tt
count_up-Fresh (suc k) b = (refl, count_up-ne k b (b + 1) (omega arith), count_up-Fresh k (b + 1))

reservation-panic_example :
    (m : Log) × (begin_three (idle 30) ≡ some m) × (write_all (count_up 30 100) m ≡ panic)
reservation-panic_example =
    reservation-panic (idle 30) (count_up 30 100) refl refl refl refl refl (count_up-Fresh 30 100)
