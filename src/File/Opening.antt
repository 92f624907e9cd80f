-- ===== src/File/Opening.antt =====
-- A file and its descriptor are made, or neither.
use mit_lab.Base.{
  ℕ, ◌<◌, ◌≡◌, refl, sym, ap as cong, ◌∙◌, Option, none, some, some_inj, ok, ◌>>=◌, arith, false,
  Option-cases, ◌⊎◌, inl, inr, ◌==◌,
}
use mit_lab.Proc.{nproc}
use mit_lab.File.{
  nfile, fd_none, OpenArgs, opened, Files, Freed, nothing, set_file, set_fd, find_file, filealloc,
  fileclose, open_file, place_file, fill,
}
use mit_lab.File.Sums.{==-same, hit-same, hit-other}
use mit_lab.File.Effects.{descriptors, descriptors-set_fd, find_file-some}
use mit_lab.File.Counts.{IsCounted, named-set_fd, fdalloc-cases, recount, keep_unused}

filealloc-cases :
    (fs : Files)
    → (filealloc fs ≡ (none, fs))
      ⊎ ((f : ℕ) × (f < nfile)
          × ((fs.file f).ref ≡ 0)
          × (filealloc fs ≡ (some f, set_file f (record (fs.file f) { ref = 1 }) fs)))
unfolding filealloc
filealloc-cases fs = elim (Option-cases (find_file nfile 0 fs.file)) [
  | inl e ↦ inl (rw (filealloc, e) refl)
  | inr (f, e) ↦
      let s = find_file-some nfile 0 f fs.file e in inr (f, s.0, s.1, rw (filealloc, e) refl)
]

-- The entry just allocated is closed again.
fileclose-fresh :
    (f : ℕ) (fs : Files)
    → (fs.file f).ref ≡ 1
    → (fs.file f).ty ≡ fd_none
    → fileclose f fs ≡ ok (set_file f (record (fs.file f) { ref = 0; ty = fd_none }) fs, nothing)
unfolding fileclose
fileclose-fresh f fs r t = rw (r, t) refl

-- A file is opened, in an entry that no descriptor points at.
pub open_file-IsCounted :
    (me : ℕ) (v : OpenArgs) (fs : Files)
    → me < nproc
    → IsCounted fs
    → (r : Option ℕ × Files × Freed) × (open_file me v fs ≡ ok r) × IsCounted r.1 × (r.2 ≡ nothing)
unfolding open_file
open_file-IsCounted me v fs lt c = elim (filealloc-cases fs) [
  | inl e ↦ ((none, fs, nothing), cong (place_file me v) e, c, refl)
  | inr (f, f_in, no_ref, e) ↦
      let fs1 = set_file f (record (fs.file f) { ref = 1 }) fs in
      let one : (fs1.file f).ref ≡ 1 = rw (==-same f) refl in
      let none_ty : (fs1.file f).ty ≡ fd_none = rw (==-same f) (c.unused f no_ref) in
      let other : (g : ℕ) → (g == f) ≡ false → fs1.file g ≡ fs.file g = λ g q. rw q refl in
      let unused1 =
        keep_unused fs.file f (record (fs.file f) { ref = 1 }) c.unused
          (λ z. absurd (omega (arith, z))) in
      elim (fdalloc-cases me f fs1) [
        | inl a ↦ (
          (none, set_file f (record (fs1.file f) { ref = 0; ty = fd_none }) fs1, nothing),
          cong (place_file me v) e
              ∙ cong (fill v f) a
              ∙ cong (λ r. r >>= λ (fs', gone). ok (none, fs', gone))
                  (fileclose-fresh f fs1 one none_ty),
          record {
            counted =
                recount fs1.file f _ (λ g. descriptors g fs) (sym no_ref ∙ c.counted f f_in)
                  (λ g g_in q. cong (λ w. w.ref) (other g q) ∙ c.counted g g_in);
            named = c.named;
            unused = keep_unused fs1.file f _ unused1 (λ z. refl);
          },
          refl,
        )
        | inr (fd, fd_in, free, a) ↦
            let fs2 = set_fd me fd (some f) fs1 in
            let moved = λ (g : ℕ). descriptors-set_fd g me fd none (some f) fs1 lt fd_in free in
            (
              (some fd, set_file f (opened v (fs2.file f)) fs2, nothing),
              cong (place_file me v) e ∙ cong (fill v f) a,
              record {
                counted =
                    recount fs1.file f _ (λ g. descriptors g fs2)
                      (omega (arith, one, moved f, hit-same f, no_ref, c.counted f f_in))
                      (λ g g_in q.
                        cong (λ w. w.ref) (other g q)
                        ∙ omega (arith, moved g, hit-other f g q, c.counted g g_in));
                named = named-set_fd me fd (some f) fs1 c.named (λ g q. rw (some_inj q) at f_in);
                unused = keep_unused fs1.file f _ unused1 (λ z. absurd (omega (arith, z, one)));
              },
              refl,
            )
      ]
]
