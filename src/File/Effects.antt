-- ===== src/File/Effects.antt =====
-- What the searches find, and how an assignment to a descriptor changes the number of descriptors of
-- a file.
use mit_lab.Base.{
  ℕ, zero, suc, ◌+◌, ◌≤◌, ◌<◌, ◌≡◌, ap as cong, Option, none, some, some_inj, arith, Bool-cases,
  Option-cases, inl, inr, ltb, ltb→lt, ◌==◌, update,
}
use mit_lab.Base.Int.{ℤ, pos, negsuc}
use mit_lab.Proc.{nproc}
use mit_lab.File.{nofile, OpenFile, Files, set_fd, find_file, find_fd, argfd}
use mit_lab.File.Sums.{hit, hit-same, total, sum-update, total-update}

-- The descriptors of all processes that point at file `f`.
abbrev pub descriptors : ℕ → Files → ℕ
descriptors f fs = total f nproc nofile fs.ofile

pub descriptors-set_fd :
    (f me fd : ℕ) (old v : Option ℕ) (fs : Files)
    → me < nproc
    → fd < nofile
    → fs.ofile me fd ≡ old
    → descriptors f (set_fd me fd v fs) + hit f old ≡ descriptors f fs + hit f v
descriptors-set_fd f me fd old v fs h k e =
    let a = total-update f nproc me nofile (update (fs.ofile me) fd v) fs.ofile h in
    let b = sum-update f nofile fd v (fs.ofile me) k in
    let c : hit f (fs.ofile me fd) ≡ hit f old = cong (hit f) e in omega (arith, a, b, c)

-- A file with a descriptor.
pub descriptors-pos :
    (f me fd : ℕ) (fs : Files)
    → me < nproc
    → fd < nofile
    → fs.ofile me fd ≡ some f
    → 1 ≤ descriptors f fs
descriptors-pos f me fd fs h k e =
    omega (arith, descriptors-set_fd f me fd (some f) none fs h k e, hit-same f)

pub find_file-some :
    (rounds f g : ℕ) (file : ℕ → OpenFile)
    → find_file rounds f file ≡ some g
    → (g < f + rounds) × ((file g).ref ≡ 0)
unfolding find_file
find_file-some zero f g file h = absurd (cc)
find_file-some (suc rounds) f g file h = elim (Bool-cases ((file f).ref == 0)) [
  | inl e ↦ ground arith
  | inr e ↦ ground (arith, find_file-some rounds (f + 1) g file)
]

pub find_fd-some :
    (rounds fd new : ℕ) (ofile : ℕ → Option ℕ)
    → find_fd rounds fd ofile ≡ some new
    → (new < fd + rounds) × (ofile new ≡ none)
unfolding find_fd
find_fd-some zero fd new ofile h = absurd (cc)
find_fd-some (suc rounds) fd new ofile h = elim (Option-cases (ofile fd)) [
  | inl e ↦ let q : fd ≡ new = some_inj (rw (e, find_fd) at h) in rw (← q) (omega arith, e)
  | inr (f, e) ↦
      let k = find_fd-some rounds (fd + 1) new ofile (rw (e, find_fd) at h) in
      (omega (arith, k.0), k.1)
]

pub argfd-some :
    (me fd f : ℕ) (arg : ℤ) (fs : Files)
    → argfd me arg fs ≡ some (fd, f)
    → (fd < nofile) × (fs.ofile me fd ≡ some f)
unfolding argfd
argfd-some me fd f (negsuc n) fs h = absurd (cc)
argfd-some me fd f (pos n) fs h = elim (Bool-cases (ltb n nofile)) [
  | inr e ↦ absurd (cc (rw e at h))
  | inl e ↦ elim (Option-cases (fs.ofile me n)) [
    | inl o ↦ absurd (cc (rw (e, o) at h))
    | inr (g, o) ↦
        let q = some_inj (rw (e, o) at h) in
        let same_fd : n ≡ fd = cong (λ p. p.0) q in
        let same_file : g ≡ f = cong (λ p. p.1) q in
        rw (← same_fd, ← same_file) (ltb→lt n nofile e, o)
  ]
]
