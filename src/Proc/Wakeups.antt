-- ===== src/Proc/Wakeups.antt =====
-- No wakeup is lost: a process that sleeps in `wait` has no child that has already exited. The steps
-- are those of the processes between two points where they give up the processor.
use mit_lab.Base.{
  ℕ, ◌<◌, ◌≡◌, refl, ◌⊎◌, inl, inr, Bool, true, false, ◌&&◌, not, Option, none, some, arith, ◌==◌,
  if◌then◌else◌, Bool-cases, Option-cases,
}
use mit_lab.Proc.{
  nproc, runnable, sleeping, Chan, at_proc, at_address, is_sleeping, is_unused, chan_eq, is_zombie,
  is_parent, Table, set_proc, wakeup, wait, WaitTurn, returned, asleep, fork, kill, freeproc,
  allocproc, fork_child, find_proc, dispatch, yield, sleep_enter, sleep_leave,
}
use mit_lab.Proc.Scan.{in_wait, Woken-wakeup, parent-wakeup, find_proc-none}

unfoldable pub NoLost : Table → Type 0
NoLost t =
    (k c : ℕ)
    → k < nproc
    → c < nproc
    → is_parent (t.procs c).parent k ≡ true
    → is_zombie (t.procs c).state ≡ true
    → in_wait t k ≡ false

-- Process `j` of the second table is a zombie only if it was one, with the same parent, and is in
-- `wait` only if it was.
pub record Kept (t t' : Table) (j : ℕ) : Type 0 where
  pub dead : is_zombie (t'.procs j).state ≡ true → is_zombie (t.procs j).state ≡ true
  pub child : is_zombie (t'.procs j).state ≡ true → (t'.procs j).parent ≡ (t.procs j).parent
  pub waiting : in_wait t' j ≡ true → in_wait t j ≡ true

Kept-NoLost : (t t' : Table) → ((j : ℕ) → Kept t t' j) → NoLost t → NoLost t'
unfolding NoLost
Kept-NoLost t t' kept nl k c lk lc par z =
    let a = kept c in
    let b = kept k in
    let w = b.waiting in
    let g = nl k c lk lc (rw (← (a.child z)) par) (a.dead z) in ground (arith, w)

-- A step that changes process `i` alone.
pub slot-NoLost :
    (i : ℕ) (t t' : Table)
    → ((j : ℕ) → (j == i) ≡ false → t'.procs j ≡ t.procs j)
    → Kept t t' i
    → NoLost t
    → NoLost t'
slot-NoLost i t t' off at = Kept-NoLost t t' (λ j. kept j (Bool-cases (j == i)))
  where
    kept : (j : ℕ) → ((j == i) ≡ true) ⊎ ((j == i) ≡ false) → Kept t t' j
    kept j (inl e) = let q : j ≡ i = ground arith in rw q at
    kept j (inr e) = record {
      dead = rw (off j e) (λ h. h);
      child = rw (off j e) (λ h. refl);
      waiting = rw (off j e) (λ h. h);
    }

pub wakeup-NoLost : (me : Option ℕ) (chan : Chan) (t : Table) → NoLost t → NoLost (wakeup me chan t)
wakeup-NoLost me chan t = Kept-NoLost t (wakeup me chan t) (λ j.
    let w = Woken-wakeup me chan j t in
    let s = w.sleepers in
    let c = w.channel in
    record {
      dead = λ h. rw (← w.zombies) h;
      child = λ h. parent-wakeup me chan j t;
      waiting = λ h. rw (← c) (ground (arith, s));
    })

pub kill-NoLost : (pid : ℕ) (t : Table) → NoLost t → NoLost (kill pid t).0
unfolding kill
kill-NoLost pid t nl = elim (Option-cases (find_proc (λ p. p.pid == pid) nproc 0 t.procs)) [
  | inl e ↦ rw (e, kill) nl
  | inr (i, e) ↦
      rw (e, kill)
        (slot-NoLost i t
          (set_proc i
            (record (t.procs i) {
              killed = true;
              state = if is_sleeping (t.procs i).state then runnable else (t.procs i).state;
            })
            t)
          (λ j o. ground arith)
          (record {
            dead = λ h. ground arith;
            child = λ h. ground arith;
            waiting = λ h. ground arith;
          })
          nl)
]

pub sleep_enter-NoLost : (i a : ℕ) (t : Table) → NoLost t → NoLost (sleep_enter i (at_address a) t)
unfolding sleep_enter chan_eq
sleep_enter-NoLost i a t =
    slot-NoLost i t (sleep_enter i (at_address a) t) (λ j o. ground arith)
      (record { dead = λ h. ground arith; child = λ h. ground arith; waiting = λ h. ground arith })

pub freeproc-NoLost : (i : ℕ) (t : Table) → NoLost t → NoLost (freeproc i t)
unfolding freeproc
freeproc-NoLost i t =
    slot-NoLost i t (freeproc i t) (λ j o. ground arith)
      (record { dead = λ h. ground arith; child = λ h. ground arith; waiting = λ h. ground arith })

pub allocproc-NoLost :
    (frame pagetable : ℕ) (t : Table) → NoLost t → NoLost (allocproc frame pagetable t).1
unfolding allocproc
allocproc-NoLost frame pagetable t nl =
    elim (Option-cases (find_proc (λ p. is_unused p.state) nproc 0 t.procs)) [
      | inl e ↦ rw (e, allocproc) nl
      | inr (i, e) ↦
          rw (e, allocproc)
            (elim (Bool-cases (frame == 0)) [
              | inl f ↦ rw f (
                  slot-NoLost i t _ (λ j o. ground (arith, freeproc))
                    (record {
                      dead = λ h. ground (arith, freeproc);
                      child = λ h. ground (arith, freeproc);
                      waiting = λ h. ground (arith, freeproc);
                    })
                    nl)
              | inr f ↦ rw f (elim (Bool-cases (pagetable == 0)) [
                | inl g ↦ rw g (
                    slot-NoLost i t _ (λ j o. ground (arith, freeproc))
                      (record {
                        dead = λ h. ground (arith, freeproc);
                        child = λ h. ground (arith, freeproc);
                        waiting = λ h. ground (arith, freeproc);
                      })
                      nl)
                | inr g ↦ rw g (
                    slot-NoLost i t _ (λ j o. ground arith)
                      (record {
                        dead = λ h. ground arith;
                        child = λ h. ground arith;
                        waiting = λ h. ground arith;
                      })
                      nl)
              ])
            ])
    ]

pub fork-NoLost :
    (me frame pagetable : ℕ) (copied : Bool) (t : Table)
    → NoLost t
    → NoLost (fork me frame pagetable copied t).1
unfolding fork
fork-NoLost me frame pagetable copied t nl =
    let t1 = (allocproc frame pagetable t).1 in
    let nl1 = allocproc-NoLost frame pagetable t nl in
    elim (Option-cases (allocproc frame pagetable t).0) [
      | inl e ↦ rw (e, fork) nl1
      | inr (i, e) ↦ elim (Bool-cases copied) [
        | inl c ↦
            rw (e, c, fork)
              (slot-NoLost i t1 (set_proc i (fork_child me (t1.procs me) (t1.procs i)) t1)
                (λ j o. ground arith)
                (record {
                  dead = λ h. ground (arith, fork_child);
                  child = λ h. ground (arith, fork_child);
                  waiting = λ h. ground (arith, fork_child);
                })
                nl1)
        | inr c ↦ rw (e, c, fork) (freeproc-NoLost i t1 nl1)
      ]
    ]

pub wait_table : WaitTurn → Table
wait_table (returned r t) = t
wait_table (asleep t) = t

-- A process that found no zombie child goes to sleep in `wait`.
pub asleep-NoLost :
    (me : ℕ) (t : Table)
    → find_proc (λ p. is_parent p.parent me && is_zombie p.state) nproc 0 t.procs ≡ none
    → NoLost t
    → NoLost (set_proc me (record (t.procs me) { chan = at_proc me; state = sleeping }) t)
unfolding NoLost
asleep-NoLost me t e nl k d lk ld par z =
    let old = nl k d lk ld in
    let x =
      find_proc-none (λ p. is_parent p.parent me && is_zombie p.state) nproc 0 d t.procs e
        (omega arith) (omega arith) in
    elim (Bool-cases (d == me)) [
      | inl f ↦ absurd (ground arith)
      | inr f ↦
          let par0 : is_parent (t.procs d).parent k ≡ true = ground arith in
          let z0 : is_zombie (t.procs d).state ≡ true = ground arith in
          elim (Bool-cases (k == me)) [
            | inl g ↦
                let q : k ≡ me = ground arith in
                let par1 : is_parent (t.procs d).parent me ≡ true = rw (← q) par0 in
                absurd (ground arith)
            | inr g ↦ rw g (old par0 z0)
          ]
    ]

pub wait-NoLost :
    (me : ℕ) (want copied : Bool) (t : Table)
    → NoLost t
    → NoLost (wait_table (wait me want copied t))
unfolding wait wait_table
wait-NoLost me want copied t nl =
    elim (Option-cases
      (find_proc (λ p. is_parent p.parent me && is_zombie p.state) nproc 0 t.procs)) [
        | inr (i, e) ↦
            rw (e, wait)
              (elim (Bool-cases (want && not copied)) [
                | inl c ↦ rw c nl
                | inr c ↦ rw c (freeproc-NoLost i t nl)
              ])
        | inl e ↦ elim (Option-cases (find_proc (λ p. is_parent p.parent me) nproc 0 t.procs)) [
          | inl g ↦ rw (e, g, wait) nl
          | inr (j, g) ↦
              rw (e, g, wait)
                (elim (Bool-cases (t.procs me).killed) [
                  | inl c ↦ rw c nl
                  | inr c ↦ let sleeps = asleep-NoLost me t e nl in rw c (rw c at sleeps)
                ])
        ]
      ]

pub dispatch-NoLost : (i : ℕ) (t t' : Table) → dispatch i t ≡ some t' → NoLost t → NoLost t'
unfolding dispatch
dispatch-NoLost i t t' h =
    slot-NoLost i t t' (λ j o. ground arith)
      (record { dead = λ z. ground arith; child = λ z. ground arith; waiting = λ z. ground arith })

pub yield-NoLost : (i : ℕ) (t : Table) → NoLost t → NoLost (yield i t)
unfolding yield
yield-NoLost i t =
    slot-NoLost i t (yield i t) (λ j o. ground arith)
      (record { dead = λ z. ground arith; child = λ z. ground arith; waiting = λ z. ground arith })

pub sleep_leave-NoLost : (i : ℕ) (t : Table) → NoLost t → NoLost (sleep_leave i t)
unfolding sleep_leave chan_eq
sleep_leave-NoLost i t =
    slot-NoLost i t (sleep_leave i t) (λ j o. ground arith)
      (record { dead = λ z. ground arith; child = λ z. ground arith; waiting = λ z. ground arith })
