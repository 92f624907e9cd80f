-- ===== src/Sleeplock/Exclusive.antt =====
-- One holder at a time, and no sleeper that nobody wakes.
use mit_lab.Base.{
  ℕ, ◌<◌, ◌≡◌, refl, sym, ap as cong, ◌∙◌, Bool, true, false, ◌&&◌, not, some, arith, update,
  Bool-cases, ==_iff, inl, inr, ◌==◌, ltb, if◌then◌else◌,
}
use mit_lab.Proc.{
  nproc, running, Chan, Proc, Table, is_sleeping, is_parent, chan_eq, wakeup, sleep_enter,
  sleep_leave,
}
use mit_lab.Proc.Scan.{wakeup_lem}
use mit_lab.Sleeplock.{
  Sleeplock, initsleeplock, acquiresleep, acquire_again, releasesleep, holdingsleep,
}

-- The lock, the processes, and which of them are between `acquiresleep` and `releasesleep`.
pub record World : Type 0 where
  pub lock : Sleeplock
  pub table : Table
  pub inside : ℕ → Bool

abbrev pub is_asleep : Chan → ℕ → Table → Bool
is_asleep chan i t = is_sleeping (t.procs i).state && chan_eq (t.procs i).chan chan

-- The world after a run of `acquiresleep`.
abbrev pub entered : ℕ → World → Sleeplock × Table × Bool → World
entered me s (lk, t, got) = record {
  lock = lk;
  table = t;
  inside = if got then update s.inside me true else s.inside;
}

-- A process that runs takes the lock or falls asleep, tries again when it runs again, or gives the
-- lock back that it holds. All else that changes the table puts nobody to sleep on this lock and
-- leaves the pid of a process that holds it.
pub data Step (chan : Chan) (s : World) : World → Type 0 where
  acquires :
      (me : ℕ)
      → (s.table.procs me).state ≡ running
      → Step chan s (entered me s (acquiresleep me chan s.lock s.table))
  tries_again :
      (me : ℕ)
      → (s.table.procs me).state ≡ running
      → Step chan s (entered me s (acquire_again me chan s.lock s.table))
  releases :
      (me : ℕ)
      → (s.table.procs me).state ≡ running
      → s.inside me ≡ true
      → Step chan s (record {
        lock = (releasesleep me chan s.lock s.table).0;
        table = (releasesleep me chan s.lock s.table).1;
        inside = update s.inside me false;
      })
  others :
      (t : Table)
      → ((i : ℕ) → is_asleep chan i t ≡ true → is_asleep chan i s.table ≡ true)
      → ((i : ℕ) → s.inside i ≡ true → (t.procs i).pid ≡ (s.table.procs i).pid)
      → Step chan s (record s { table = t })

pub data Reach (chan : Chan) (s : World) : World → Type 0 where
  here : Reach chan s s
  next : {t u : World} → Reach chan s t → Step chan t u → Reach chan s u

pub record IsGuarded (chan : Chan) (s : World) : Type 0 where
  pub one : (i j : ℕ) → s.inside i ≡ true → s.inside j ≡ true → i ≡ j
  pub locked : (i : ℕ) → s.inside i ≡ true → s.lock.locked ≡ true
  pub named : (i : ℕ) → s.inside i ≡ true → s.lock.pid ≡ (s.table.procs i).pid
  pub owned : s.lock.locked ≡ true → (j : ℕ) × (s.inside j ≡ true)
  pub awake : s.lock.locked ≡ false → (i : ℕ) → i < nproc → is_asleep chan i s.table ≡ false

-- A process that sleeps does not run.
running-awake :
    (chan : Chan) (i : ℕ) (t : Table) → (t.procs i).state ≡ running → is_asleep chan i t ≡ false
running-awake chan i t h = rw h refl

wakeup-awake :
    (me i : ℕ) (chan : Chan) (t : Table)
    → i < nproc
    → (t.procs me).state ≡ running
    → is_asleep chan i (wakeup (some me) chan t) ≡ false
wakeup-awake me i chan t lt h =
    let l : ltb i nproc ≡ true = ground (arith, lt) in
    rw (wakeup_lem (some me) chan i t, l)
      (elim (Bool-cases (me == i)) [
        | inl e ↦ rw e (rw (← (==_iff me i).0 e) (running-awake chan me t h))
        | inr e ↦
            rw e (elim (Bool-cases (is_asleep chan i t)) [ inl a ↦ rw a refl | inr a ↦ rw a a ])
      ])

wakeup-pid :
    (me i : ℕ) (chan : Chan) (t : Table) → ((wakeup (some me) chan t).procs i).pid ≡ (t.procs i).pid
wakeup-pid me i chan t =
    rw (wakeup_lem (some me) chan i t)
      (elim (Bool-cases (ltb i nproc && (not (is_parent (some me) i) && is_asleep chan i t))) [
        | inl e ↦ rw e refl
        | inr e ↦ rw e refl
      ])

-- A change of the state and of the channel leaves the pid.
set-pid :
    (procs : ℕ → Proc) (me i : ℕ) (p : Proc)
    → p.pid ≡ (procs me).pid
    → (update procs me p i).pid ≡ (procs i).pid
set-pid procs me i p h = elim (Bool-cases (i == me)) [
  | inl e ↦ rw e (rw ((==_iff i me).0 e) h)
  | inr e ↦ rw e refl
]

only_me :
    (inside : ℕ → Bool) (me i : ℕ)
    → ((i : ℕ) → inside i ≡ true → ⊥)
    → update inside me true i ≡ true
    → i ≡ me
only_me inside me i free h = elim (Bool-cases (i == me)) [
  | inl e ↦ (==_iff i me).0 e
  | inr e ↦ absurd (free i (rw e at h))
]

acquiresleep-IsGuarded :
    (chan : Chan) (me : ℕ) (s : World)
    → IsGuarded chan s
    → (s.table.procs me).state ≡ running
    → IsGuarded chan (entered me s (acquiresleep me chan s.lock s.table))
unfolding acquiresleep sleep_enter
acquiresleep-IsGuarded chan me s g run = elim (Bool-cases s.lock.locked) [
  | inl l ↦ rw l (record {
    one = g.one;
    locked = λ i h. refl;
    named = λ i h. g.named i h ∙ sym (set-pid s.table.procs me i _ refl);
    owned = λ e. g.owned l;
    awake = λ e. absurd (cc);
  })
  | inr l ↦
      let free : (i : ℕ) → s.inside i ≡ true → ⊥ = λ i h. absurd (cc (l, g.locked i h)) in
      rw l (record {
        one = λ i j h k. only_me s.inside me i free h ∙ sym (only_me s.inside me j free k);
        locked = λ i h. refl;
        named = λ i h. cong (λ j. (s.table.procs j).pid) (sym (only_me s.inside me i free h));
        owned = λ e. (me, let f : (me == me) ≡ true = ground arith in rw f refl);
        awake = λ e. absurd (cc);
      })
]

tries_again-IsGuarded :
    (chan : Chan) (me : ℕ) (s : World)
    → IsGuarded chan s
    → (s.table.procs me).state ≡ running
    → IsGuarded chan (entered me s (acquire_again me chan s.lock s.table))
unfolding acquire_again sleep_leave
tries_again-IsGuarded chan me s g run =
    acquiresleep-IsGuarded chan me (record s { table = sleep_leave me s.table })
      (record {
        one = g.one;
        locked = g.locked;
        owned = g.owned;
        named = λ i h. g.named i h ∙ sym (set-pid s.table.procs me i _ refl);
        awake = λ l i lt. elim (Bool-cases (i == me)) [
          | inl e ↦ rw (e, run) refl
          | inr e ↦ rw e (g.awake l i lt)
        ];
      })
      (ground (arith, run))

releasesleep-IsGuarded :
    (chan : Chan) (me : ℕ) (s : World)
    → IsGuarded chan s
    → (s.table.procs me).state ≡ running
    → s.inside me ≡ true
    → IsGuarded chan (record {
      lock = (releasesleep me chan s.lock s.table).0;
      table = (releasesleep me chan s.lock s.table).1;
      inside = update s.inside me false;
    })
unfolding releasesleep
releasesleep-IsGuarded chan me s g run h =
    let out : (i : ℕ) → update s.inside me false i ≡ true → ⊥ = λ i k. elim (Bool-cases (i == me)) [
      | inl e ↦ absurd (cc (rw e at k))
      | inr e ↦ absurd (ground (arith, e, g.one i me (rw e at k) h))
    ] in
    record {
      one = λ i j k l. absurd (out i k);
      locked = λ i k. absurd (out i k);
      named = λ i k. absurd (out i k);
      owned = λ e. absurd (cc);
      awake = λ l i lt. wakeup-awake me i chan s.table lt run;
    }

Step-IsGuarded : {chan : Chan} {s t : World} → Step chan s t → IsGuarded chan s → IsGuarded chan t
Step-IsGuarded {chan} {s} (acquires me run) g = acquiresleep-IsGuarded chan me s g run
Step-IsGuarded {chan} {s} (tries_again me run) g = tries_again-IsGuarded chan me s g run
Step-IsGuarded {chan} {s} (releases me run h) g = releasesleep-IsGuarded chan me s g run h
Step-IsGuarded {chan} {s} (others t quiet pids) g = record {
  one = g.one;
  locked = g.locked;
  named = λ i h. g.named i h ∙ sym (pids i h);
  owned = g.owned;
  awake = λ l i lt. elim (Bool-cases (is_asleep chan i t)) [
    | inl a ↦ absurd (cc (quiet i a, g.awake l i lt))
    | inr a ↦ a
  ];
}

Reach-IsGuarded : {chan : Chan} {s t : World} → Reach chan s t → IsGuarded chan s → IsGuarded chan t
Reach-IsGuarded here g = g
Reach-IsGuarded (next r step) g = Step-IsGuarded step (Reach-IsGuarded r g)

-- A lock after `initsleeplock`, on which nobody sleeps yet.
abbrev pub fresh_world : Table → World
fresh_world t = record { lock = initsleeplock; table = t; inside = λ i. false }

-- From a fresh lock on which nobody sleeps, after any steps: at most one process holds the lock, and
-- `holdingsleep` is true for the one that does, and only for a process with the pid of one that does;
-- and when the lock is free, no process of the table sleeps on it, so that no wakeup is lost.
pub Reach-one_holder :
    {chan : Chan} {t : Table} {s : World}
    → ((i : ℕ) → i < nproc → is_asleep chan i t ≡ false)
    → Reach chan (fresh_world t) s
    → ((i j : ℕ) → s.inside i ≡ true → s.inside j ≡ true → i ≡ j)
      × ((i : ℕ) → s.inside i ≡ true → holdingsleep i s.lock s.table ≡ true)
      × ((i : ℕ)
          → holdingsleep i s.lock s.table ≡ true
          → (j : ℕ) × (s.inside j ≡ true) × ((s.table.procs j).pid ≡ (s.table.procs i).pid))
      × (s.lock.locked ≡ false → (i : ℕ) → i < nproc → is_asleep chan i s.table ≡ false)
unfolding holdingsleep
Reach-one_holder {s = s} awake r =
    let g = Reach-IsGuarded r (record {
      one = λ i j h k. absurd (cc h);
      locked = λ i h. absurd (cc h);
      named = λ i h. absurd (cc h);
      owned = λ e. absurd (cc);
      awake = λ l i lt. awake i lt;
    }) in
    (
      g.one,
      λ i h. rw (g.locked i h, g.named i h) (ground arith),
      λ i h.
          let (j, inside_j) = g.owned (ground (arith, h)) in
          (j, inside_j, sym (g.named j inside_j) ∙ ground (arith, h)),
      g.awake,
    )
