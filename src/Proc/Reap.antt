-- ===== src/Proc/Reap.antt =====
-- `exit` and `wait` together: what an exit leaves behind, and that the parent then finds it.
use mit_lab.Base.{
  ◌∷◌, none, ℕ, ◌+◌, ◌<◌, ◌≡◌, refl, ◌∙◌, ◌≢◌, ◌⊎◌, inl, inr, Bool, true, false, ◌&&◌, not, some,
  ok, arith, ltb, leb, ◌==◌, if◌then◌else◌, Bool-cases, Option-cases,
}
use mit_lab.Proc.{
  unused, nproc, zombie, is_zombie, Proc, is_parent, Table, find_proc, freeproc, exit, parent_chan,
  wait, returned,
}
use mit_lab.Proc.Scan.{find_proc-some, find_proc-none, parent-wakeup, Woken-wakeup}
use mit_lab.Proc.Life.{reparent_loop-Adopted}
use mit_lab.Proc.Reach.{exit-exited, exited, closed, adopted, told}

-- Unless the copy of the status fails, `wait` of a process with a zombie child in the table returns
-- the pid of a zombie child in the table and frees that child.
pub wait-reaps :
    (me c : ℕ) (want copied : Bool) (t : Table)
    → c < nproc
    → is_parent (t.procs c).parent me ≡ true
    → (t.procs c).state ≡ zombie
    → (want && not copied) ≡ false
    → (i : ℕ) × (i < nproc)
      × (is_parent (t.procs i).parent me ≡ true)
      × (is_zombie (t.procs i).state ≡ true)
      × (wait me want copied t ≡ returned (some (t.procs i).pid) (freeproc i t))
unfolding wait
wait-reaps me c want copied t lt par z w =
    let test = λ (p : Proc). is_parent p.parent me && is_zombie p.state in
    elim (Option-cases
      (find_proc (λ p. is_parent p.parent me && is_zombie p.state) nproc 0 t.procs)) [
        | inl e ↦
            let x = find_proc-none test nproc 0 c t.procs e (omega arith) (omega arith) in
            absurd (ground arith)
        | inr (i, e) ↦
            let (a, b, h) = find_proc-some test nproc 0 i t.procs e in
            (i, omega arith, ground arith, ground arith, rw (e, wait) (rw w))
      ]

closed_same :
    (me j : ℕ) (t : Table)
    → (((closed me t).procs j).parent ≡ (t.procs j).parent)
      × (((closed me t).procs j).pid ≡ (t.procs j).pid)
closed_same me j t = elim (Bool-cases (j == me)) [
  | inl e ↦ let q : j ≡ me = ground arith in rw e (rw q (refl, refl))
  | inr e ↦ rw e (refl, refl)
]

told_same :
    (me j : ℕ) (t : Table)
    → j < nproc
    → me ≢ t.initproc
    → (((told me t).procs j).parent
        ≡ (if is_parent (t.procs j).parent me then some t.initproc else (t.procs j).parent))
      × (((told me t).procs j).pid ≡ (t.procs j).pid)
told_same me j t lt ne =
    let t2 = adopted me t in
    let a = reparent_loop-Adopted me nproc 0 (closed me t) ne in
    let chan = parent_chan (t2.procs me).parent in
    let r : (leb 0 j && ltb j (0 + nproc)) ≡ true = ground arith in
    let (p, q) = closed_same me j t in
    let w = Woken-wakeup (some me) chan j t2 in
    let b = a.woken j in
    (parent-wakeup (some me) chan j t2 ∙ a.parents j ∙ rw (r, p), w.pids ∙ b.pids ∙ q)

-- A process other than init exits without a panic: it is a zombie with its status, no process of
-- the table has it as its parent any more, and each process that had it as its parent has init.
pub exit-orphans :
    (me status : ℕ) (t : Table)
    → me < nproc
    → me ≢ t.initproc
    → (t' : Table) × (exit me status t ≡ ok t')
      × ((t'.procs me).state ≡ zombie)
      × ((t'.procs me).xstate ≡ status)
      × ((t'.procs me).pid ≡ (t.procs me).pid)
      × ((j : ℕ)
          → j < nproc
          → (t'.procs j).parent
            ≡ (if is_parent (t.procs j).parent me then some t.initproc else (t.procs j).parent))
exit-orphans me status t lt ne =
    let h : (me == me) ≡ true = ground arith in
    (
      exited me status t,
      exit-exited me status t ne,
      rw h refl,
      rw h refl,
      rw h ((told_same me me t lt ne).1),
      λ j l. kept j l (Bool-cases (j == me)),
    )
  where
    kept :
        (j : ℕ)
        → j < nproc
        → ((j == me) ≡ true) ⊎ ((j == me) ≡ false)
        → ((exited me status t).procs j).parent
          ≡ (if is_parent (t.procs j).parent me then some t.initproc else (t.procs j).parent)
    kept j l (inl e) = let q : j ≡ me = ground arith in rw e (rw q ((told_same me me t lt ne).0))
    kept j l (inr e) = rw e ((told_same me j t l ne).0)

-- When a process other than init that has a parent other than itself exits, the parent's next
-- `wait`, unless the copy of the status fails, neither sleeps nor fails: it returns the pid of one of
-- its zombie children in the table and frees that child, its slot and what it held, and changes no
-- other slot.
pub exit-wait :
    (me parent status : ℕ) (want copied : Bool) (t : Table)
    → me < nproc
    → me ≢ t.initproc
    → me ≢ parent
    → (t.procs me).parent ≡ some parent
    → (want && not copied) ≡ false
    → (t' : Table) × (i : ℕ) × (t'' : Table) × (exit me status t ≡ ok t')
      × (i < nproc)
      × (is_parent (t'.procs i).parent parent ≡ true)
      × (is_zombie (t'.procs i).state ≡ true)
      × (wait parent want copied t' ≡ returned (some (t'.procs i).pid) t'')
      × ((t''.procs i).state ≡ unused)
      × ((t''.procs i).pid ≡ 0)
      × ((t''.procs i).parent ≡ none)
      × ((j : ℕ) → j ≢ i → t''.procs j ≡ t'.procs j)
      × (t''.freed ≡ ((t'.procs i).trapframe, (t'.procs i).pagetable, (t'.procs i).sz) ∷ t'.freed)
unfolding freeproc
exit-wait me parent status want copied t lt ne np par w =
    let (t', e, z, x, q, all) = exit-orphans me status t lt ne in
    let h : is_parent (some parent) me ≡ false = ground arith in
    let g : (t'.procs me).parent ≡ some parent = all me lt ∙ rw (par, h) in
    let f : is_parent (t'.procs me).parent parent ≡ true = rw g (ground arith) in
    let (i, a, b, c, d) = wait-reaps parent me want copied t' lt f z w in
    let same : (i == i) ≡ true = ground arith in
    (
      t',
      i,
      freeproc i t',
      e,
      a,
      b,
      c,
      d,
      rw (freeproc, same) refl,
      rw (freeproc, same) refl,
      rw (freeproc, same) refl,
      λ j ne. let other : (j == i) ≡ false = ground (arith, ne) in rw (freeproc, other) refl,
      refl,
    )
