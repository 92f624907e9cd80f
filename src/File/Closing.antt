-- ===== src/File/Closing.antt =====
-- `fileclose` and `sys_close`.
use mit_lab.Base.{
  ℕ, ◌+◌, ◌-◌, ◌<◌, ◌≡◌, refl, none, some, ok, arith, Bool, true, false, Bool-cases, Option-cases,
  inl, inr, ltb, ◌==◌, if◌then◌else◌,
}
use mit_lab.Base.Int.{ℤ}
use mit_lab.Proc.{nproc}
use mit_lab.File.{
  nfile, fd_none, Files, Freed, nothing, set_file, set_fd, argfd, fileclose, freed, sys_close,
}
use mit_lab.File.Sums.{hit, hit-same, hit-other}
use mit_lab.File.Effects.{descriptors, descriptors-set_fd, argfd-some}
use mit_lab.File.Counts.{IsCounted, named-set_fd, recount, keep_unused}

-- A reference that no descriptor has any more, given back.
fileclose-dropped :
    (f : ℕ) (fs fs0 : Files)
    → IsCounted fs0
    → f < nfile
    → fs.file ≡ fs0.file
    → ((g : ℕ) → descriptors g fs + hit g (some f) ≡ descriptors g fs0)
    → ((p i g : ℕ) → fs.ofile p i ≡ some g → g < nfile)
    → (r : Files × Freed) × (fileclose f fs ≡ ok r)
      × IsCounted r.0
      × (r.0.ofile ≡ fs.ofile)
      × (r.1 ≡ (if descriptors f fs0 == 1 then freed (fs.file f) (fs.file f).ty else nothing))
unfolding fileclose
fileclose-dropped f fs fs0 c f_in same_files moved named =
    let m : descriptors f fs + 1 ≡ (fs.file f).ref =
      rw same_files (omega (arith, c.counted f f_in, moved f, hit-same f)) in
    let others : (g : ℕ) → g < nfile → (g == f) ≡ false → (fs.file g).ref ≡ descriptors g fs =
      λ g g_in q. rw same_files (omega (arith, c.counted g g_in, moved g, hit-other f g q)) in
    let n : descriptors f fs + 1 ≡ descriptors f fs0 = omega (arith, moved f, hit-same f) in
    let some_ref : ltb (fs.file f).ref 1 ≡ false = ground (arith, m) in
    elim (Bool-cases (ltb 0 ((fs.file f).ref - 1))) [
      | inl more ↦
          let many : (descriptors f fs0 == 1) ≡ false = ground (arith, m, n, more) in
          (
            (set_file f (record (fs.file f) { ref = (fs.file f).ref - 1 }) fs, nothing),
            rw (some_ref, more) refl,
            record {
              counted = recount fs.file f _ (λ g. descriptors g fs) (omega (arith, m)) others;
              named = named;
              unused =
                  keep_unused fs.file f _ (rw (← same_files) at c.unused)
                    (λ z. absurd (ground (arith, z, more)));
            },
            refl,
            rw many refl,
          )
      | inr last ↦
          let single : (descriptors f fs0 == 1) ≡ true = ground (arith, m, n, last) in
          (
            (
              set_file f (record (fs.file f) { ref = 0; ty = fd_none }) fs,
              freed (fs.file f) (fs.file f).ty,
            ),
            rw (some_ref, last) refl,
            record {
              counted =
                  recount fs.file f _ (λ g. descriptors g fs) (ground (arith, m, last)) others;
              named = named;
              unused = keep_unused fs.file f _ (rw (← same_files) at c.unused) (λ z. refl);
            },
            refl,
            rw single refl,
          )
    ]

-- A call of `sys_close` for an open descriptor.
pub sys_close-open :
    (me fd f : ℕ) (arg : ℤ) (fs : Files)
    → me < nproc
    → IsCounted fs
    → argfd me arg fs ≡ some (fd, f)
    → (fs' : Files) × (sys_close me arg fs
        ≡ ok (
          true,
          fs',
          if descriptors f fs == 1 then freed (fs.file f) (fs.file f).ty else nothing,
        ))
      × IsCounted fs'
unfolding sys_close
sys_close-open me fd f arg fs lt c e =
    let found = argfd-some me fd f arg fs e in
    let f_in = c.named me fd f found.1 in
    let fs1 = set_fd me fd none fs in
    let moved : (g : ℕ) → descriptors g fs1 + hit g (some f) ≡ descriptors g fs =
      λ g. omega (arith, descriptors-set_fd g me fd (some f) none fs lt found.0 found.1) in
    let (r, closed, counted, same, gone) =
      fileclose-dropped f fs1 fs c f_in refl moved
        (named-set_fd me fd none fs c.named (λ g q. absurd (cc))) in
    (r.0, rw (sys_close, e, closed, gone) refl, counted)

pub sys_close-IsCounted :
    (me : ℕ) (arg : ℤ) (fs : Files)
    → me < nproc
    → IsCounted fs
    → (r : Bool × Files × Freed) × (sys_close me arg fs ≡ ok r) × IsCounted r.1
unfolding sys_close
sys_close-IsCounted me arg fs lt c = elim (Option-cases (argfd me arg fs)) [
  | inl e ↦ ((false, fs, nothing), rw (sys_close, e) refl, c)
  | inr ((fd, f), e) ↦
      let (fs', closed, counted) = sys_close-open me fd f arg fs lt c e in (_, closed, counted)
]
