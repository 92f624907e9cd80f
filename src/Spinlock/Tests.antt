-- ===== src/Spinlock/Tests.antt =====
-- The theorems about spinlocks at concrete runs.
use mit_lab.Base.{panic, ℕ, ◌≡◌, refl, true, false, [], ◌∷◌, arith, ok, update}
use mit_lab.Spinlock.{
  Cpu, push_off, acquire_enter, Cpu, Spinlock, initlock, holding, test_and_set, acquire_done,
  release_enter,
}
use mit_lab.Spinlock.Nesting.{push, pop, run, run-restores}
use mit_lab.Spinlock.Exclusion.{
  Machine, outside, spinning, won, inside, Reach, here, next, enter, win, note, idle,
  Reach-exclusive,
}

abbrev enabled : Cpu
enabled = record { intr = true; noff = 0; intena = false }

run-restores_example :
    (end : Cpu) × (run (push ∷ push ∷ pop ∷ pop ∷ []) enabled ≡ ok end)
    × (end.noff ≡ 0)
    × (end.intr ≡ true)
run-restores_example =
    run-restores (push ∷ push ∷ pop ∷ pop ∷ []) enabled (λ h. absurd (omega arith)) refl

-- Cpu 3 gets the lock.
abbrev entered : Machine
entered = record idle { place = update (λ i. outside) 3 spinning }

abbrev took : Machine
took = record { lock = (test_and_set initlock).0; place = update entered.place 3 won }

abbrev locked_by_3 : Machine
locked_by_3 = record { lock = acquire_done took.lock 3; place = update took.place 3 inside }

locked_by_3-Reach : Reach idle locked_by_3
unfolding initlock holding test_and_set acquire_enter
locked_by_3-Reach =
    next
      (next (next here (enter 3 (record { intr = true; noff = 0; intena = false }) refl refl))
        (win 3 refl refl))
      (note 3 refl)

Reach-exclusive_example :
    ((i j : ℕ) → locked_by_3.place i ≡ inside → locked_by_3.place j ≡ inside → i ≡ j)
    × ((i : ℕ) (c : Cpu)
        → locked_by_3.place i ≡ outside
        → acquire_enter locked_by_3.lock i c ≡ ok (push_off c))
    × ((i : ℕ) (c : Cpu)
        → locked_by_3.place i ≡ inside
        → acquire_enter locked_by_3.lock i c ≡ panic)
    × ((i : ℕ)
        → locked_by_3.place i ≡ inside
        → (lk : Spinlock) × (release_enter locked_by_3.lock i ≡ ok lk))
Reach-exclusive_example = Reach-exclusive locked_by_3-Reach
