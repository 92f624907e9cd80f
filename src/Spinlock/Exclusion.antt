-- ===== src/Spinlock/Exclusion.antt =====
-- Any number of cpus that call `acquire` and `release` of one lock, one access to it at a time.
use mit_lab.Base.{
  ℕ, ◌≡◌, refl, ap, Bool, true, false, none, some, arith, ok, panic, update, Option-cases, inl, inr,
}
use mit_lab.Spinlock.{
  Spinlock, Cpu, push_off, acquire_enter, holding, initlock, test_and_set, acquire_done,
  release_enter, lock_release,
}

-- Where a cpu stands: outside, in the loop of `acquire`, past it with `lk->cpu` not yet written,
-- between `acquire` and `release`, and in `release` with `lk->cpu` cleared.
pub data Place : Type 0 where
  outside spinning won inside leaving : Place

pub record Machine : Type 0 where
  pub lock : Spinlock
  pub place : ℕ → Place

pub data Step (s : Machine) : Machine → Type 0 where
  enter :
      (me : ℕ) (c : Cpu) {c' : Cpu}
      → s.place me ≡ outside
      → acquire_enter s.lock me c ≡ ok c'
      → Step s (record s { place = update s.place me spinning })
  spin :
      (me : ℕ)
      → s.place me ≡ spinning
      → (test_and_set s.lock).1 ≡ true
      → Step s (record s { lock = (test_and_set s.lock).0 })
  win :
      (me : ℕ)
      → s.place me ≡ spinning
      → (test_and_set s.lock).1 ≡ false
      → Step s (record { lock = (test_and_set s.lock).0; place = update s.place me won })
  note :
      (me : ℕ)
      → s.place me ≡ won
      → Step s (record { lock = acquire_done s.lock me; place = update s.place me inside })
  leave :
      (me : ℕ) {lk : Spinlock}
      → s.place me ≡ inside
      → release_enter s.lock me ≡ ok lk
      → Step s (record { lock = lk; place = update s.place me leaving })
  unlock :
      (me : ℕ)
      → s.place me ≡ leaving
      → Step s (record { lock = lock_release s.lock; place = update s.place me outside })

pub data Reach (s : Machine) : Machine → Type 0 where
  here : Reach s s
  next : {t u : Machine} → Reach s t → Step t u → Reach s u

abbrev pub owns : Place → Bool
owns outside = false
owns spinning = false
owns won = true
owns inside = true
owns leaving = true

-- What holds of every cpu, and of every two.
record Guarded (s : Machine) : Type 0 where
  taken : (i : ℕ) → owns (s.place i) ≡ true → s.lock.locked ≡ true
  alone : (i j : ℕ) → owns (s.place i) ≡ true → owns (s.place j) ≡ true → i ≡ j
  noted : (i : ℕ) → s.place i ≡ inside → s.lock.cpu ≡ some i
  named : (i : ℕ) → s.lock.cpu ≡ some i → s.place i ≡ inside

start-Guarded :
    (lk : Spinlock) → lk ≡ initlock → Guarded (record { lock = lk; place = λ i. outside })
unfolding initlock
start-Guarded lk e = record {
  taken = λ i h. cc;
  alone = λ i j h k. cc;
  noted = λ i h. cc;
  named = λ i h. ground arith;
}

Step-Guarded : {s t : Machine} → Step s t → Guarded s → Guarded t
unfolding test_and_set acquire_done release_enter lock_release
Step-Guarded {s} (enter me c p h) g = record {
  taken = λ i o. ground (arith, g.taken i);
  alone = λ i j o q. ground (arith, g.alone i j);
  noted = λ i o. ground (arith, g.noted i);
  named = λ i o. ground (arith, g.named i);
}
Step-Guarded {s} (spin me p h) g = record {
  taken = λ i o. ground (arith, g.taken i);
  alone = g.alone;
  noted = g.noted;
  named = g.named;
}
Step-Guarded {s} (win me p h) g = record {
  taken = λ i o. ground arith;
  alone = λ i j o q. ground (arith, g.taken i, g.taken j);
  noted = λ i o. ground (arith, g.noted i);
  named = λ i o. ground (arith, g.named i);
}
Step-Guarded {s} (note me p) g = record {
  taken = λ i o. ground (arith, g.taken i, g.taken me);
  alone = λ i j o q. ground (arith, g.alone i j, g.alone i me, g.alone me j);
  noted = λ i o. ground (arith, g.noted i, g.alone i me);
  named = λ i o. ground (arith, g.named i);
}
Step-Guarded {s} (leave me p h) g = record {
  taken = λ i o. ground (arith, g.taken i, g.taken me);
  alone = λ i j o q. ground (arith, g.alone i j, g.alone i me, g.alone me j);
  noted = λ i o. ground (arith, g.noted i, g.alone i me);
  named = λ i o. ground (arith, g.named i);
}
Step-Guarded {s} (unlock me p) g = record {
  taken = λ i o. ground (arith, g.alone i me);
  alone = λ i j o q. ground (arith, g.alone i j);
  noted = λ i o. ground (arith, g.noted i);
  named = λ i o. ground (arith, g.named i);
}

Reach-Guarded : {s t : Machine} → Guarded s → Reach s t → Guarded t
Reach-Guarded g here = g
Reach-Guarded g (next r st) = Step-Guarded st (Reach-Guarded g r)

abbrev pub idle : Machine
idle = record { lock = initlock; place = λ i. outside }

-- From a lock that `initlock` set up, whatever steps any cpus take in any order: two cpus that are
-- both between their `acquire` and their `release` are the same cpu; `acquire` panics for no
-- cpu that is outside and for every cpu that is inside; and `release` panics for no cpu that is
-- inside.
pub Reach-exclusive :
    {s : Machine}
    → Reach idle s
    → ((i j : ℕ) → s.place i ≡ inside → s.place j ≡ inside → i ≡ j)
      × ((i : ℕ) (c : Cpu) → s.place i ≡ outside → acquire_enter s.lock i c ≡ ok (push_off c))
      × ((i : ℕ) (c : Cpu) → s.place i ≡ inside → acquire_enter s.lock i c ≡ panic)
      × ((i : ℕ) → s.place i ≡ inside → (lk : Spinlock) × (release_enter s.lock i ≡ ok lk))
unfolding holding release_enter acquire_enter
Reach-exclusive {s} r =
    let g = Reach-Guarded (start-Guarded initlock refl) r in
    (
      λ i j p q. g.alone i j (ap owns p) (ap owns q),
      λ i c p. elim (Option-cases s.lock.cpu) [
        | inl e ↦ ground (arith, e)
        | inr (j, e) ↦ ground (arith, e, g.named j e)
      ],
      λ i c p. ground (arith, g.noted i p, g.taken i (ap owns p)),
      λ i p. (record s.lock { cpu = none }, ground (arith, g.noted i p, g.taken i (ap owns p))),
    )
