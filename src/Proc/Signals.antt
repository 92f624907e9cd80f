-- ===== src/Proc/Signals.antt =====
-- `kill`, and what it does to a slot of the table that holds no process.
use mit_lab.Base.{
  ℕ, zero, suc, ◌+◌, ◌≤◌, ◌<◌, ◌≡◌, refl, ◌∙◌, ◌≢◌, inl, inr, Bool, true, false, some, arith, ◌==◌,
  if◌then◌else◌, Bool-cases,
}
use mit_lab.Proc.{
  nproc, unused, used, runnable, is_unused, is_sleeping, Proc, Table, set_proc, find_proc, kill,
  allocproc, fork, fork_child,
}

eq_same : (i : ℕ) → (i == i) ≡ true
eq_same i = ground arith

find_proc_at :
    (test : Proc → Bool) (r i j : ℕ) (procs : ℕ → Proc)
    → i ≤ j
    → j < i + r
    → test (procs j) ≡ true
    → ((k : ℕ) → i ≤ k → k < j → test (procs k) ≡ false)
    → find_proc test r i procs ≡ some j
unfolding find_proc
find_proc_at test zero i j procs a b h f = absurd (omega arith)
find_proc_at test (suc r) i j procs a b h f = elim (Bool-cases (i == j)) [
  | inl e ↦ let q : i ≡ j = ground arith in let g : test (procs i) ≡ true = rw q h in rw (g, q)
  | inr e ↦
      let g = f i (omega arith) (ground arith) in
      rw g (
        find_proc_at test r (i + 1) j procs (ground arith) (omega arith) h
          (λ k c d. f k (omega arith) d))
]

allocproc-some :
    (i frame pagetable : ℕ) (t : Table)
    → find_proc (λ p. is_unused p.state) nproc 0 t.procs ≡ some i
    → frame ≢ 0
    → pagetable ≢ 0
    → (t' : Table) × (allocproc frame pagetable t ≡ (some i, t'))
      × (t'.procs i ≡ record (t.procs i) {
        pid = t.nextpid;
        state = used;
        trapframe = frame;
        pagetable = pagetable;
      })
unfolding allocproc
allocproc-some i frame pagetable t e f0 g0 =
    let f : (frame == 0) ≡ false = ground arith in
    let g : (pagetable == 0) ≡ false = ground arith in
    let h = eq_same i in rw (e, allocproc) (rw (f, g) (_, refl, rw h refl))

-- `fork` does not set `killed` in the slot that it uses.
fork-some :
    (me i frame pagetable : ℕ) (t : Table)
    → find_proc (λ p. is_unused p.state) nproc 0 t.procs ≡ some i
    → frame ≢ 0
    → pagetable ≢ 0
    → (t' : Table) × (fork me frame pagetable true t ≡ (some t.nextpid, t'))
      × ((t'.procs i).state ≡ runnable)
      × ((t'.procs i).pid ≡ t.nextpid)
      × ((t'.procs i).killed ≡ (t.procs i).killed)
unfolding fork fork_child
fork-some me i frame pagetable t e f0 g0 =
    let (t1, q, slot) = allocproc-some i frame pagetable t e f0 g0 in
    let h = eq_same i in
    let t' = set_proc i (fork_child me (t1.procs me) (t1.procs i)) t1 in
    (t', rw (q, fork) (rw (q, slot)), rw h refl, rw (h, slot), rw (h, slot))

-- Let slot `i` be the first free one of the table, with the pid 0 that `freeproc` leaves there, and
-- let no slot before it have the pid 0. Then `kill(0)` succeeds though no process has that pid, and
-- the child that a `fork` without a failure puts in this slot afterwards is marked as killed from
-- the start.
pub kill-zero :
    (me i frame pagetable : ℕ) (t : Table)
    → i < nproc
    → (t.procs i).state ≡ unused
    → (t.procs i).pid ≡ 0
    → ((k : ℕ) → k < i → (is_unused (t.procs k).state ≡ false) × ((t.procs k).pid ≢ 0))
    → frame ≢ 0
    → pagetable ≢ 0
    → (t' : Table) × ((kill 0 t).1 ≡ true)
      × (fork me frame pagetable true (kill 0 t).0 ≡ (some t.nextpid, t'))
      × ((t'.procs i).state ≡ runnable)
      × ((t'.procs i).pid ≡ t.nextpid)
      × ((t'.procs i).killed ≡ true)
unfolding kill
kill-zero me i frame pagetable t lt un p0 before f0 g0 =
    let found : find_proc (λ p. p.pid == 0) nproc 0 t.procs ≡ some i =
      find_proc_at (λ p. p.pid == 0) nproc 0 i t.procs (omega arith) lt (ground arith)
        (λ k a b. let h = (before k b).1 in ground arith) in
    let marked = record (t.procs i) {
      killed = true;
      state = if is_sleeping (t.procs i).state then runnable else (t.procs i).state;
    } in
    let t0 = set_proc i marked t in
    let killed0 : kill 0 t ≡ (t0, true) = rw (found, kill) in
    let free : find_proc (λ p. is_unused p.state) nproc 0 t0.procs ≡ some i =
      find_proc_at (λ p. is_unused p.state) nproc 0 i t0.procs (omega arith) lt (ground arith)
        (λ k a b. let h = (before k b).0 in ground arith) in
    let (t', q, s, p, k) = fork-some me i frame pagetable t0 free f0 g0 in
    let h = eq_same i in (t', rw killed0, rw (killed0, q), s, p, k ∙ rw h refl)
