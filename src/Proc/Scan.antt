-- ===== src/Proc/Scan.antt =====
-- The loops over the process table: what `find_proc` finds, what `wakeup` and `reparent` leave.
use mit_lab.Base.{
  ℕ, zero, suc, ◌+◌, ◌≤◌, ◌<◌, ◌≡◌, refl, ◌∙◌, ◌≢◌, ◌⊎◌, inl, inr, Bool, true, false, ◌&&◌, not,
  Option, none, some, arith, ltb, leb, ◌==◌, if◌then◌else◌, update, Bool-cases,
}
use mit_lab.Proc.{
  nproc, ProcState, sleeping, runnable, Chan, nowhere, at_proc, at_address, chan_eq, is_unused,
  is_sleeping, is_zombie, Proc, is_parent, Table, set_proc, wake_one, wake_loop, wakeup, find_proc,
}

pub find_proc-some :
    (test : Proc → Bool) (r i j : ℕ) (procs : ℕ → Proc)
    → find_proc test r i procs ≡ some j
    → (i ≤ j) × (j < i + r) × (test (procs j) ≡ true)
unfolding find_proc
find_proc-some test zero i j procs h = cc
find_proc-some test (suc r) i j procs h = elim (Bool-cases (test (procs i))) [
  | inl e ↦ ground arith
  | inr e ↦ ground (arith, find_proc-some test r (i + 1) j procs)
]

-- No process before the one found passes the test.
pub find_proc_first :
    (test : Proc → Bool) (r i j k : ℕ) (procs : ℕ → Proc)
    → find_proc test r i procs ≡ some j
    → i ≤ k
    → k < j
    → test (procs k) ≡ false
unfolding find_proc
find_proc_first test zero i j k procs h a b = cc
find_proc_first test (suc r) i j k procs h a b = elim (Bool-cases (test (procs i))) [
  | inl e ↦ absurd (ground arith)
  | inr e ↦ elim (Bool-cases (i == k)) [
    | inl q ↦ ground arith
    | inr q ↦ find_proc_first test r (i + 1) j k procs (ground arith) (ground arith) b
  ]
]

pub find_proc-none :
    (test : Proc → Bool) (r i k : ℕ) (procs : ℕ → Proc)
    → find_proc test r i procs ≡ none
    → i ≤ k
    → k < i + r
    → test (procs k) ≡ false
unfolding find_proc
find_proc-none test zero i k procs h a b = absurd (omega arith)
find_proc-none test (suc r) i k procs h a b = elim (Bool-cases (test (procs i))) [
  | inl e ↦ absurd (ground arith)
  | inr e ↦ elim (Bool-cases (i == k)) [
    | inl q ↦ ground arith
    | inr q ↦ find_proc-none test r (i + 1) k procs (ground arith) (ground arith) (omega arith)
  ]
]

wake_loop_lem :
    (me : Option ℕ) (chan : Chan) (r i j : ℕ) (procs : ℕ → Proc)
    → wake_loop me chan r i procs j
      ≡ (if leb i j && ltb j (i + r) then wake_one me chan j (procs j) else procs j)
unfolding wake_loop
wake_loop_lem me chan zero i j procs = ground arith
wake_loop_lem me chan (suc r) i j procs =
    ground
      (arith, wake_loop_lem me chan r (i + 1) j (update procs i (wake_one me chan i (procs i))))

-- `wakeup` makes runnable exactly the processes of the table that sleep on the channel, except the
-- caller, and changes nothing else.
pub wakeup_lem :
    (me : Option ℕ) (chan : Chan) (j : ℕ) (t : Table)
    → (wakeup me chan t).procs j ≡ (
        if ltb j nproc
          && (not (is_parent me j)
              && (is_sleeping (t.procs j).state && chan_eq (t.procs j).chan chan))
        then record (t.procs j) { state = runnable }
        else t.procs j)
unfolding wakeup wake_one
wakeup_lem me chan j t =
    let f : leb 0 j ≡ true = ground arith in
    rw (wake_loop_lem me chan nproc 0 j t.procs, f)
      (elim (Bool-cases (ltb j nproc)) [ inl e ↦ rw e | inr e ↦ rw e ])

-- Process `k` sleeps in `wait`.
abbrev pub in_wait : Table → ℕ → Bool
in_wait t k = is_sleeping (t.procs k).state && chan_eq (t.procs k).chan (at_proc k)

pub chan_eq_refl : (c : Chan) → chan_eq c c ≡ true
unfolding chan_eq
chan_eq_refl nowhere = refl
chan_eq_refl (at_proc i) = ground arith
chan_eq_refl (at_address a) = ground arith

-- What wakeups, and new parents, leave of a process `p`: `q` differs in no other field, and a state
-- changes only from sleeping to runnable.
pub record Woken (p q : Proc) : Type 0 where
  pub zombies : is_zombie q.state ≡ is_zombie p.state
  pub channel : q.chan ≡ p.chan
  pub sleepers : is_sleeping q.state ≡ true → is_sleeping p.state ≡ true
  pub pids : q.pid ≡ p.pid
  pub unuseds : is_unused q.state ≡ is_unused p.state

pub Woken-refl : (p : Proc) → Woken p p
Woken-refl p = record {
  zombies = refl;
  channel = refl;
  sleepers = λ h. h;
  pids = refl;
  unuseds = refl;
}

pub Woken-trans : {p q r : Proc} → Woken p q → Woken q r → Woken p r
Woken-trans a b = record {
  zombies = b.zombies ∙ a.zombies;
  channel = b.channel ∙ a.channel;
  sleepers = λ h. a.sleepers (b.sleepers h);
  pids = b.pids ∙ a.pids;
  unuseds = b.unuseds ∙ a.unuseds;
}

pub wakeup_cases :
    (me : Option ℕ) (chan : Chan) (j : ℕ) (t : Table)
    → ((wakeup me chan t).procs j ≡ t.procs j)
      ⊎ ((t.procs j).state ≡ sleeping)
        × ((wakeup me chan t).procs j ≡ record (t.procs j) { state = runnable })
wakeup_cases me chan j t =
    rw (wakeup_lem me chan j t)
      (elim (Bool-cases (
        ltb j nproc
        && (not (is_parent me j)
            && (is_sleeping (t.procs j).state && chan_eq (t.procs j).chan chan)))) [
              | inl e ↦ rw e (inr (sleeping_of (t.procs j).state (ground arith), refl))
              | inr e ↦ rw e (inl refl)
            ])
  where
    sleeping_of : (s : ProcState) → is_sleeping s ≡ true → s ≡ sleeping
    sleeping_of s h = ground arith

pub Woken-wakeup :
    (me : Option ℕ) (chan : Chan) (j : ℕ) (t : Table)
    → Woken (t.procs j) ((wakeup me chan t).procs j)
Woken-wakeup me chan j t = elim (wakeup_cases me chan j t) [
  | inl e ↦ rw e (Woken-refl (t.procs j))
  | inr (s, e) ↦
      rw e (record {
        zombies = rw s;
        channel = refl;
        sleepers = λ h. rw s;
        pids = refl;
        unuseds = rw s;
      })
]

pub parent-wakeup :
    (me : Option ℕ) (chan : Chan) (j : ℕ) (t : Table)
    → ((wakeup me chan t).procs j).parent ≡ (t.procs j).parent
parent-wakeup me chan j t = elim (wakeup_cases me chan j t) [ inl e ↦ rw e | inr (s, e) ↦ rw e ]

-- After a `wakeup` on a process of the table, by another one, that process is not in `wait`.
pub in_wait-wakeup :
    (me k : ℕ) (t : Table) → k < nproc → me ≢ k → in_wait (wakeup (some me) (at_proc k) t) k ≡ false
in_wait-wakeup me k t lt ne =
    let h = wakeup_lem (some me) (at_proc k) k t in
    elim (Bool-cases (in_wait t k)) [
      | inl e ↦
          let a : is_sleeping (t.procs k).state ≡ true = ground arith in
          let b : chan_eq (t.procs k).chan (at_proc k) ≡ true = ground arith in
          let c : ltb k nproc ≡ true = ground arith in
          let d : is_parent (some me) k ≡ false = ground arith in rw (rw (a, b, c, d) at h)
      | inr e ↦
          let w = Woken-wakeup (some me) (at_proc k) k t in
          let x = w.sleepers in rw w.channel (ground (arith, x))
    ]

-- What one round of `reparent` does to process `j`.
abbrev pub adopt : (me : ℕ) → (i : ℕ) → Table → Table
adopt me i t =
    if is_parent (t.procs i).parent me
    then wakeup (some me) (at_proc t.initproc)
        (set_proc i (record (t.procs i) { parent = some t.initproc }) t)
    else t

pub Woken-adopt : (me i j : ℕ) (t : Table) → Woken (t.procs j) ((adopt me i t).procs j)
Woken-adopt me i j t = elim (Bool-cases (is_parent (t.procs i).parent me)) [
  | inl e ↦
      let t' = set_proc i (record (t.procs i) { parent = some t.initproc }) t in
      rw e (
        Woken-trans (moved (Bool-cases (j == i)))
          (Woken-wakeup (some me) (at_proc t.initproc) j t'))
  | inr e ↦ rw e (Woken-refl (t.procs j))
]
  where
    moved :
        ((j == i) ≡ true) ⊎ ((j == i) ≡ false)
        → Woken
            (t.procs j)
            (if j == i then record (t.procs i) { parent = some t.initproc } else t.procs j)
    moved (inl e) =
        let q : j ≡ i = ground arith in
        rw e (
          rw q (record {
            zombies = refl;
            channel = refl;
            sleepers = λ h. h;
            pids = refl;
            unuseds = refl;
          }))
    moved (inr e) = rw e (Woken-refl (t.procs j))

pub parent-adopt :
    (me i j : ℕ) (t : Table)
    → ((adopt me i t).procs j).parent ≡ (
        if (i == j) && is_parent (t.procs j).parent me then some t.initproc else (t.procs j).parent)
parent-adopt me i j t = elim (Bool-cases (is_parent (t.procs i).parent me)) [
  | inl e ↦
      let t' = set_proc i (record (t.procs i) { parent = some t.initproc }) t in
      rw e (parent-wakeup (some me) (at_proc t.initproc) j t' ∙ moved e (Bool-cases (i == j)))
  | inr e ↦ rw e (kept e (Bool-cases (i == j)))
]
  where
    moved :
        is_parent (t.procs i).parent me ≡ true
        → ((i == j) ≡ true) ⊎ ((i == j) ≡ false)
        → (if j == i then record (t.procs i) { parent = some t.initproc } else t.procs j).parent ≡ (
            if (i == j) && is_parent (t.procs j).parent me
            then some t.initproc
            else (t.procs j).parent)
    moved e (inl q) =
        let same : i ≡ j = ground arith in
        rw (← same) (let c : (i == i) ≡ true = ground arith in rw (c, e))
    moved e (inr q) = let b : (j == i) ≡ false = ground arith in rw (q, b)

    kept :
        is_parent (t.procs i).parent me ≡ false
        → ((i == j) ≡ true) ⊎ ((i == j) ≡ false)
        → (t.procs j).parent ≡ (
            if (i == j) && is_parent (t.procs j).parent me
            then some t.initproc
            else (t.procs j).parent)
    kept e (inl q) = let same : i ≡ j = ground arith in rw q (rw (← same) (rw e))
    kept e (inr q) = rw q
