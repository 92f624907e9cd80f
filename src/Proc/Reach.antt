-- ===== src/Proc/Reach.antt =====
-- `exit`, and the steps of the processes between two points where they give up the processor: a
-- process that sleeps in `wait` has no child that has already exited.
use mit_lab.Base.{
  ℕ, ◌+◌, ◌<◌, ◌≡◌, sym, ok_inj, ◌∙◌, ◌≢◌, inl, inr, Bool, true, false, ◌&&◌, Option, none, some,
  ok, panic, arith, ltb, leb, ◌==◌, Bool-cases,
}
use mit_lab.Proc.{
  nproc, zombie, Chan, at_proc, at_address, is_zombie, is_parent, Table, set_proc, wakeup, reparent,
  reparent_loop, parent_chan, exit, wait, fork, kill, dispatch, yield, sleep_enter, sleep_leave,
}
use mit_lab.Proc.Scan.{in_wait, Woken-wakeup, parent-wakeup, in_wait-wakeup}
use mit_lab.Proc.Life.{reparent_loop-Adopted, in_wait_down, in_wait_at}
use mit_lab.Proc.Wakeups.{
  NoLost, slot-NoLost, wakeup-NoLost, kill-NoLost, sleep_enter-NoLost, fork-NoLost, wait-NoLost,
  wait_table, dispatch-NoLost, yield-NoLost, sleep_leave-NoLost,
}

-- The table after the files of `me` are closed, after `reparent`, and after the parent is woken.
abbrev pub closed : ℕ → Table → Table
closed me t = set_proc me (record (t.procs me) { ofile = λ fd. 0; cwd = 0 }) t

abbrev pub adopted : ℕ → Table → Table
adopted me t = reparent_loop me nproc 0 (closed me t)

abbrev pub told : ℕ → Table → Table
told me t = wakeup (some me) (parent_chan ((adopted me t).procs me).parent) (adopted me t)

abbrev pub exited : (me status : ℕ) → Table → Table
exited me status t =
    set_proc me (record ((told me t).procs me) { xstate = status; state = zombie }) (told me t)

pub exit-exited :
    (me status : ℕ) (t : Table) → me ≢ t.initproc → exit me status t ≡ ok (exited me status t)
unfolding exit reparent
exit-exited me status t ne = let e : (me == t.initproc) ≡ false = ground arith in rw e

pub exit-panic : (me status : ℕ) (t : Table) → me ≡ t.initproc → exit me status t ≡ panic
unfolding exit
exit-panic me status t q = let e : (me == t.initproc) ≡ true = ground arith in rw e

closed-NoLost : (me : ℕ) (t : Table) → NoLost t → NoLost (closed me t)
closed-NoLost me t =
    slot-NoLost me t (closed me t) (λ j o. ground arith)
      (record { dead = λ z. ground arith; child = λ z. ground arith; waiting = λ z. ground arith })

parent_chan_at : (p : Option ℕ) (k : ℕ) → is_parent p k ≡ true → parent_chan p ≡ at_proc k
parent_chan_at none k h = cc
parent_chan_at (some j) k h = let e : j ≡ k = ground arith in rw e

-- The parent `k` of the exiting process `me` is not in `wait` any more.
told-in_wait :
    (me k : ℕ) (t : Table)
    → k < nproc
    → me ≢ k
    → is_parent ((told me t).procs me).parent k ≡ true
    → in_wait (told me t) k ≡ false
told-in_wait me k t lk ne par =
    let t2 = adopted me t in
    let p = (t2.procs me).parent in
    let q = parent_chan_at p k (rw (← (parent-wakeup (some me) (parent_chan p) me t2)) par) in
    rw q (in_wait-wakeup me k t2 lk ne)

exited-NoLost :
    (me status : ℕ) (t : Table) → me ≢ t.initproc → NoLost t → NoLost (exited me status t)
unfolding NoLost
exited-NoLost me status t ne nl k c lk lc par z =
    let t1 = closed me t in
    let t2 = adopted me t in
    let t3 = told me t in
    let chan = parent_chan (t2.procs me).parent in
    let a = reparent_loop-Adopted me nproc 0 t1 ne in
    let w = Woken-wakeup (some me) chan c t2 in
    let old = closed-NoLost me t nl k c lk lc in
    let still : in_wait t2 k ≡ false → in_wait t3 k ≡ false =
      in_wait_down k t2 t3 (Woken-wakeup (some me) chan k t2) in
    elim (Bool-cases (k == me)) [
      | inl e ↦ ground arith
      | inr e ↦ rw e (elim (Bool-cases (c == me)) [
        | inl f ↦ told-in_wait me k t lk (ground arith) (rw f at par)
        | inr f ↦
            let r : (leb 0 c && ltb c (0 + nproc)) ≡ true = ground arith in
            let z2 : is_zombie (t2.procs c).state ≡ true = rw (← w.zombies) (rw f at z) in
            let z1 : is_zombie (t1.procs c).state ≡ true = rw (← (a.woken c).zombies) z2 in
            let par2 : is_parent (t2.procs c).parent k ≡ true =
              rw (← (parent-wakeup (some me) chan c t2)) (rw f at par) in
            still (elim (Bool-cases (is_parent (t1.procs c).parent me)) [
              | inl g ↦
                  let p2 : (t2.procs c).parent ≡ some t.initproc = a.parents c ∙ rw (r, g) in
                  let u = rw p2 at par2 in
                  let q : t.initproc ≡ k = ground arith in
                  in_wait_at t2 q (a.told c (rw q lk) (omega arith) lc g)
              | inr g ↦
                  let p2 : (t2.procs c).parent ≡ (t1.procs c).parent = a.parents c ∙ rw (r, g) in
                  let par1 = rw p2 at par2 in in_wait_down k t1 t2 (a.woken k) (old par1 z1)
            ])
      ])
    ]

-- The steps; a `sleep` on an address is split in two by the scheduler.
pub data Step : Table → Table → Type 0 where
  forks :
      (me frame pagetable : ℕ) (copied : Bool) {t : Table}
      → Step t (fork me frame pagetable copied t).1
  exits : (me status : ℕ) {t t' : Table} → exit me status t ≡ ok t' → Step t t'
  waits : (me : ℕ) (want copied : Bool) {t : Table} → Step t (wait_table (wait me want copied t))
  kills : (pid : ℕ) {t : Table} → Step t (kill pid t).0
  wakes : (me : Option ℕ) (chan : Chan) {t : Table} → Step t (wakeup me chan t)
  dispatches : (i : ℕ) {t t' : Table} → dispatch i t ≡ some t' → Step t t'
  yields : (i : ℕ) {t : Table} → Step t (yield i t)
  sleeps : (i a : ℕ) {t : Table} → Step t (sleep_enter i (at_address a) t)
  resumes : (i : ℕ) {t : Table} → Step t (sleep_leave i t)

pub data Reach : Table → Table → Type 0 where
  stay : {t : Table} → Reach t t
  step : {t t' t'' : Table} → Reach t t' → Step t' t'' → Reach t t''

exit-NoLost : (me status : ℕ) (t t' : Table) → exit me status t ≡ ok t' → NoLost t → NoLost t'
exit-NoLost me status t t' h nl = elim (Bool-cases (me == t.initproc)) [
  | inl e ↦ let stopped = exit-panic me status t (ground arith) in absurd cc
  | inr e ↦
      let ne : me ≢ t.initproc = ground arith in
      let done = exit-exited me status t ne in
      let q : exited me status t ≡ t' = ok_inj (sym done ∙ h) in
      rw (← q) (exited-NoLost me status t ne nl)
]

Step-NoLost : {t t' : Table} → Step t t' → NoLost t → NoLost t'
Step-NoLost (forks me frame pagetable copied) nl = fork-NoLost me frame pagetable copied _ nl
Step-NoLost (exits me status h) nl = exit-NoLost me status _ _ h nl
Step-NoLost (waits me want copied) nl = wait-NoLost me want copied _ nl
Step-NoLost (kills pid) nl = kill-NoLost pid _ nl
Step-NoLost (wakes me chan) nl = wakeup-NoLost me chan _ nl
Step-NoLost (dispatches i h) nl = dispatch-NoLost i _ _ h nl
Step-NoLost (yields i) nl = yield-NoLost i _ nl
Step-NoLost (sleeps i a) nl = sleep_enter-NoLost i a _ nl
Step-NoLost (resumes i) nl = sleep_leave-NoLost i _ nl

-- From a table in which no process that sleeps in `wait` has a zombie child, no sequence of forks,
-- exits, rounds of wait, kills, wakeups, dispatches, yields and sleeps on other addresses reaches a
-- table in which one has: for every process `k` and every process `c` of the table, if `c` is a
-- zombie whose parent is `k`, then `k` is not asleep in `wait`.
pub Reach-NoLost : {t t' : Table} → Reach t t' → NoLost t → NoLost t'
Reach-NoLost stay nl = nl
Reach-NoLost (step r s) nl = Step-NoLost s (Reach-NoLost r nl)
