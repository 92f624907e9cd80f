-- ===== src/File/Sums.antt =====
-- The number of descriptors that point at a file.
use mit_lab.Base.{
  ℕ, zero, suc, ◌+◌, ◌<◌, ◌≡◌, refl, Option, none, some, true, false, arith, Bool-cases, ==_iff,
  inl, inr, subst, ◌==◌, if◌then◌else◌, update,
}

abbrev pub hit : ℕ → Option ℕ → ℕ
hit f none = 0
hit f (some g) = if g == f then 1 else 0

pub ==-same : (f : ℕ) → (f == f) ≡ true
==-same f = ground arith

pub hit-same : (f : ℕ) → hit f (some f) ≡ 1
hit-same f = ground arith

pub hit-other : (f g : ℕ) → (g == f) ≡ false → hit g (some f) ≡ 0
hit-other f g h = ground (arith, h)

-- Among the first `n` descriptors of a process, and among those of the first `n` processes.
pub sum : (f n : ℕ) → (ℕ → Option ℕ) → ℕ
sum f zero ofile = 0
sum f (suc n) ofile = hit f (ofile n) + sum f n ofile

pub total : (f n fds : ℕ) → (ℕ → ℕ → Option ℕ) → ℕ
total f zero fds ofile = 0
total f (suc n) fds ofile = sum f fds (ofile n) + total f n fds ofile

sum-beyond :
    (f n fd : ℕ) (v : Option ℕ) (ofile : ℕ → Option ℕ)
    → sum f n (update ofile (n + fd) v) ≡ sum f n ofile
unfolding sum
sum-beyond f zero fd v ofile = refl
sum-beyond f (suc n) fd v ofile =
    let e : suc n + fd ≡ n + suc fd = omega arith in
    rw e (ground (arith, sum-beyond f n (suc fd) v ofile))

pub sum-update :
    (f n fd : ℕ) (v : Option ℕ) (ofile : ℕ → Option ℕ)
    → fd < n
    → sum f n (update ofile fd v) + hit f (ofile fd) ≡ sum f n ofile + hit f v
unfolding sum
sum-update f zero fd v ofile h = absurd (omega arith)
sum-update f (suc n) fd v ofile h = elim (Bool-cases (n == fd)) [
  | inl e ↦
      let same = (==_iff n fd).0 e in
      let at_end : n + 0 ≡ fd = omega arith in
      let rest : sum f n (update ofile fd v) ≡ sum f n ofile =
        subst (λ k. sum f n (update ofile k v) ≡ sum f n ofile) at_end (sum-beyond f n 0 v ofile) in
      rw (e, rest, same) (omega arith)
  | inr e ↦ rw e (ground (arith, sum-update f n fd v ofile (ground arith)))
]

total-beyond :
    (f n me fds : ℕ) (v : ℕ → Option ℕ) (ofile : ℕ → ℕ → Option ℕ)
    → total f n fds (update ofile (n + me) v) ≡ total f n fds ofile
unfolding total
total-beyond f zero me fds v ofile = refl
total-beyond f (suc n) me fds v ofile =
    let e : suc n + me ≡ n + suc me = omega arith in
    rw e (ground (arith, total-beyond f n (suc me) fds v ofile))

pub total-update :
    (f n me fds : ℕ) (v : ℕ → Option ℕ) (ofile : ℕ → ℕ → Option ℕ)
    → me < n
    → total f n fds (update ofile me v) + sum f fds (ofile me) ≡ total f n fds ofile + sum f fds v
unfolding total
total-update f zero me fds v ofile h = absurd (omega arith)
total-update f (suc n) me fds v ofile h = elim (Bool-cases (n == me)) [
  | inl e ↦
      let same = (==_iff n me).0 e in
      let at_end : n + 0 ≡ me = omega arith in
      let rest : total f n fds (update ofile me v) ≡ total f n fds ofile =
        subst (λ k. total f n fds (update ofile k v) ≡ total f n fds ofile) at_end
          (total-beyond f n 0 fds v ofile) in
      rw (e, rest, same) (omega arith)
  | inr e ↦ rw e (ground (arith, total-update f n me fds v ofile (ground arith)))
]

sum-none : (f n : ℕ) (ofile : ℕ → Option ℕ) → ((fd : ℕ) → ofile fd ≡ none) → sum f n ofile ≡ 0
unfolding sum
sum-none f zero ofile h = refl
sum-none f (suc n) ofile h = rw (h n, sum-none f n ofile h) refl

pub total-none :
    (f n fds : ℕ) (ofile : ℕ → ℕ → Option ℕ)
    → ((me fd : ℕ) → ofile me fd ≡ none)
    → total f n fds ofile ≡ 0
unfolding total
total-none f zero fds ofile h = refl
total-none f (suc n) fds ofile h =
    rw (sum-none f fds (ofile n) (h n), total-none f n fds ofile h) refl
