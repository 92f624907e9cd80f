-- ===== src/File/Counts.antt =====
-- The count of a file against the descriptors that point at it, and `sys_dup`.
use mit_lab.Base.{
  ℕ, ◌+◌, ◌≤◌, ◌<◌, ◌≡◌, refl, ap as cong, Option, none, some, some_inj, ok, arith, false,
  Bool-cases, ==_iff, Option-cases, ◌⊎◌, inl, inr, ltb, ◌==◌, update,
}
use mit_lab.Base.Int.{ℤ}
use mit_lab.Proc.{nproc}
use mit_lab.File.{
  nfile, nofile, fd_none, OpenFile, Files, set_file, set_fd, find_fd, argfd, fdalloc, filedup,
  sys_dup,
}
use mit_lab.File.Sums.{hit-same, hit-other}
use mit_lab.File.Effects.{
  descriptors, descriptors-set_fd, descriptors-pos, find_fd-some, argfd-some,
}

pub record IsCounted (fs : Files) : Type 0 where
  pub counted : (f : ℕ) → f < nfile → (fs.file f).ref ≡ descriptors f fs
  pub named : (me fd f : ℕ) → fs.ofile me fd ≡ some f → f < nfile
  pub unused : (f : ℕ) → (fs.file f).ref ≡ 0 → (fs.file f).ty ≡ fd_none

-- An assignment to a descriptor leaves every descriptor with a file of the table.
pub named-set_fd :
    (me fd : ℕ) (v : Option ℕ) (fs : Files)
    → ((me fd f : ℕ) → fs.ofile me fd ≡ some f → f < nfile)
    → ((f : ℕ) → v ≡ some f → f < nfile)
    → (p i f : ℕ) → (set_fd me fd v fs).ofile p i ≡ some f
    → f < nfile
named-set_fd me fd v fs n k p i f h = elim (Bool-cases (p == me)) [
  | inr e ↦ n p i f (rw e at h)
  | inl e ↦ elim (Bool-cases (i == fd)) [
    | inl q ↦ k f (rw (e, q) at h)
    | inr q ↦ n me i f (rw (e, q) at h)
  ]
]

-- The search for a free descriptor, with what it found.
pub fdalloc-cases :
    (me f : ℕ) (fs : Files)
    → (fdalloc me f fs ≡ (none, fs))
      ⊎ ((fd : ℕ) × (fd < nofile)
          × (fs.ofile me fd ≡ none)
          × (fdalloc me f fs ≡ (some fd, set_fd me fd (some f) fs)))
unfolding fdalloc
fdalloc-cases me f fs = elim (Option-cases (find_fd nofile 0 (fs.ofile me))) [
  | inl e ↦ inl (rw e refl)
  | inr (fd, e) ↦ let s = find_fd-some nofile 0 fd (fs.ofile me) e in inr (fd, s.0, s.1, rw e refl)
]

-- The counts after an assignment to one entry.
pub recount :
    (file : ℕ → OpenFile) (f : ℕ) (v : OpenFile) (count : ℕ → ℕ)
    → v.ref ≡ count f
    → ((g : ℕ) → g < nfile → (g == f) ≡ false → (file g).ref ≡ count g)
    → (g : ℕ) → g < nfile
    → (update file f v g).ref ≡ count g
recount file f v count h k g g_in = elim (Bool-cases (g == f)) [
  | inl q ↦ rw q (rw ((==_iff g f).0 q) h)
  | inr q ↦ rw q (k g g_in q)
]

-- The unused entries after an assignment to one entry.
pub keep_unused :
    (file : ℕ → OpenFile) (f : ℕ) (v : OpenFile)
    → ((g : ℕ) → (file g).ref ≡ 0 → (file g).ty ≡ fd_none)
    → (v.ref ≡ 0 → v.ty ≡ fd_none)
    → (g : ℕ) → (update file f v g).ref ≡ 0
    → (update file f v g).ty ≡ fd_none
keep_unused file f v h k g e = elim (Bool-cases (g == f)) [
  | inl q ↦ rw q (k (rw q at e))
  | inr q ↦ rw q (h g (rw q at e))
]

pub sys_dup-IsCounted :
    (me : ℕ) (arg : ℤ) (fs : Files)
    → me < nproc
    → IsCounted fs
    → (r : Option ℕ × Files) × (sys_dup me arg fs ≡ ok r) × IsCounted r.1
unfolding sys_dup filedup
sys_dup-IsCounted me arg fs lt c = elim (Option-cases (argfd me arg fs)) [
  | inl e ↦ ((none, fs), rw (sys_dup, e) refl, c)
  | inr ((fd, f), e) ↦
      let found = argfd-some me fd f arg fs e in
      let f_in = c.named me fd f found.1 in
      let pos_ref : 1 ≤ (fs.file f).ref =
        rw (c.counted f f_in) (descriptors-pos f me fd fs lt found.0 found.1) in
      elim (fdalloc-cases me f fs) [
        | inl a ↦ ((none, fs), rw (sys_dup, e, cong (λ q. q.0) a, cong (λ q. q.1) a) refl, c)
        | inr (new, new_in, free, a) ↦
            let fs1 = set_fd me new (some f) fs in
            let dup : ltb (fs.file f).ref 1 ≡ false = ground (arith, pos_ref) in
            (
              (some new, set_file f (record (fs.file f) { ref = (fs.file f).ref + 1 }) fs1),
              rw (sys_dup, e, cong (λ q. q.0) a, cong (λ q. q.1) a, dup) refl,
              record {
                counted =
                    let moved =
                      λ (g : ℕ). descriptors-set_fd g me new none (some f) fs lt new_in free in
                    recount fs.file f _ (λ g. descriptors g fs1)
                      (omega (arith, moved f, hit-same f, c.counted f f_in))
                      (λ g g_in q. omega (arith, moved g, hit-other f g q, c.counted g g_in));
                named = named-set_fd me new (some f) fs c.named (λ g q. rw (some_inj q) at f_in);
                unused = keep_unused fs.file f _ c.unused (λ z. absurd (omega (arith, z)));
              },
            )
      ]
]
