-- ===== src/Fs/Map/Trunc.antt =====
-- `itrunc` frees every block of a file.
use mit_lab.Base.{
  ℕ, zero, suc, ◌+◌, ◌≤◌, ◌<◌, ◌≡◌, refl, sym, ap, ◌∙◌, ◌≢◌, ◌⊎◌, inl, inr, true, false, ◌&&◌, not,
  arith, ltb, leb, ◌==◌, if◌then◌else◌, Bool-cases, update, ok,
}
use mit_lab.Fs.{Fs, bblock, log_block}
use mit_lab.Fs.Alloc.{bit, set_bit, bfree}
use mit_lab.Fs.Alloc.First.{bit-set_bit}
use mit_lab.Fs.Map.{set_addr, trunc_direct, trunc_indirect}

-- The numbers `a t` from `j` on, `r` of them, are blocks in use and distinct, where they are not 0.
pub record Live (a : ℕ → ℕ) (j r : ℕ) (fs : Fs) : Type 0 where
  pub used : (t : ℕ) → j ≤ t → t < j + r → a t ≢ 0 → bit (a t) fs ≡ true
  pub distinct : (s t : ℕ) → j ≤ s → s < j + r → j ≤ t → t < j + r → a s ≢ 0 → a s ≡ a t → s ≡ t

-- These blocks, and no others, are freed.
pub record Freed (a : ℕ → ℕ) (j r : ℕ) (fs fs' : Fs) : Type 0 where
  pub gone : (t : ℕ) → j ≤ t → t < j + r → a t ≢ 0 → bit (a t) fs' ≡ false
  pub kept : (y : ℕ) → ((t : ℕ) → j ≤ t → t < j + r → a t ≡ y → y ≡ 0) → bit y fs' ≡ bit y fs

module _ (a : ℕ → ℕ) (j r : ℕ) (fs fs1 : Fs)
    (bits : (y : ℕ) → bit y fs1 ≡ (if (y == a j) && not (y == 0) then false else bit y fs)) where
  Live-next : Live a j (suc r) fs → Live a (j + 1) r fs1
  Live-next live = record {
    used = λ t l m nz.
        let u = live.used t (omega arith) (omega arith) nz in
        bits (a t) ∙ elim (Bool-cases (a t == a j)) [
          | inl e ↦
              let d =
                live.distinct t j (omega arith) (omega arith) (omega arith) (omega arith) nz
                  (ground arith) in
              absurd (omega arith)
          | inr e ↦ rw e u
        ];
    distinct = λ s t l m l' m' nz e.
        live.distinct s t (omega arith) (omega arith) (omega arith) (omega arith) nz e;
  }

  Freed-next :
      (fs' : Fs) → Freed a (j + 1) r fs1 fs' → Live a j (suc r) fs → Freed a j (suc r) fs fs'
  Freed-next fs' freed live = record {
    gone = λ t l m nz. elim (Bool-cases (t == j)) [
      | inl e ↦
          let q : t ≡ j = ground arith in
          let z : (a j == 0) ≡ false = (let n = rw q at nz in ground arith) in
          let same : (a j == a j) ≡ true = ground arith in
          rw q (
            freed.kept (a j) (λ u lu mu e'. absurd (alone u lu mu e' (rw q at nz)))
            ∙ bits (a j)
            ∙ rw (same, z))
      | inr e ↦ freed.gone t (ground arith) (omega arith) nz
    ];
    kept = λ y h.
        freed.kept y (λ t l m e. h t (omega arith) (omega arith) e)
        ∙ bits y
        ∙ untouched y (λ e. h j (omega arith) (omega arith) e) (Bool-cases (y == a j));
  }
    where
      alone : (u : ℕ) → j + 1 ≤ u → u < j + 1 + r → a u ≡ a j → a j ≢ 0 → ⊥
      alone u lu mu e nz =
          let d =
            live.distinct j u (omega arith) (omega arith) (omega arith) (omega arith) nz (sym e) in
          omega arith

      untouched :
          (y : ℕ)
          → (a j ≡ y → y ≡ 0)
          → ((y == a j) ≡ true) ⊎ ((y == a j) ≡ false)
          → (if (y == a j) && not (y == 0) then false else bit y fs) ≡ bit y fs
      untouched y h (inl e) =
          let z : y ≡ 0 = h (ground arith) in let n : (y == 0) ≡ true = ground arith in rw (e, n)
      untouched y h (inr e) = rw e

pub eq_same : (i : ℕ) → (i == i) ≡ true
eq_same i = ground arith

-- `bfree` of a block in use.
pub bfree_used :
    (b : ℕ) (fs : Fs)
    → bit b fs ≡ true
    → bfree b fs ≡ ok (log_block (bblock b fs) (set_bit b false fs))
unfolding bfree
bfree_used b fs u = rw u

pub trunc_indirect-Freed :
    (b r j : ℕ) (fs : Fs)
    → Live (fs.words b) j r fs
    → (fs' : Fs) × (trunc_indirect b r j fs ≡ ok fs')
      × Freed (fs.words b) j r fs fs'
      × (fs'.words ≡ fs.words)
      × (fs'.inodes ≡ fs.inodes)
unfolding trunc_indirect
trunc_indirect-Freed b zero j fs live =
    (fs, refl, record { gone = λ t l m nz. absurd (omega arith); kept = λ y h. refl }, refl, refl)
trunc_indirect-Freed b (suc r) j fs live = elim (Bool-cases (fs.words b j == 0)) [
  | inl e ↦
      let bits : (y : ℕ)
          → bit y fs ≡ (if (y == fs.words b j) && not (y == 0) then false else bit y fs) =
        λ y. ground arith in
      let (fs', q, freed, w, n) =
        trunc_indirect-Freed b r (j + 1) fs (Live-next (fs.words b) j r fs fs bits live) in
      (fs', rw (e, trunc_indirect) q, Freed-next (fs.words b) j r fs fs bits fs' freed live, w, n)
  | inr e ↦
      let fs1 = log_block (bblock (fs.words b j) fs) (set_bit (fs.words b j) false fs) in
      let u =
        bfree_used (fs.words b j) fs (live.used j (omega arith) (omega arith) (ground arith)) in
      let bits : (y : ℕ)
          → bit y fs1 ≡ (if (y == fs.words b j) && not (y == 0) then false else bit y fs) =
        λ y. bit-set_bit (fs.words b j) y false fs ∙ ground arith in
      let (fs', q, freed, w, n) =
        trunc_indirect-Freed b r (j + 1) fs1 (Live-next (fs.words b) j r fs fs1 bits live) in
      (
        fs',
        rw (e, u, trunc_indirect) q,
        Freed-next (fs.words b) j r fs fs1 bits fs' freed live,
        w,
        n,
      )
]

-- One more entry of `f` becomes 0.
zeros_next :
    (f : ℕ → ℕ) (k r t : ℕ)
    → (if leb (k + 1) t && ltb t (k + 1 + r) then 0 else update f k 0 t)
      ≡ (if leb k t && ltb t (k + suc r) then 0 else f t)
zeros_next f k r t = ground arith

zeros_skip :
    (f : ℕ → ℕ) (k r t : ℕ)
    → f k ≡ 0
    → (if leb (k + 1) t && ltb t (k + 1 + r) then 0 else f t)
      ≡ (if leb k t && ltb t (k + suc r) then 0 else f t)
zeros_skip f k r t z = elim (Bool-cases (k == t)) [
  | inl e ↦ let q : f t ≡ 0 = ap f (ground arith) ∙ z in rw q (ground arith)
  | inr e ↦ ground arith
]

pub trunc_direct-Freed :
    (i r k : ℕ) (a : ℕ → ℕ) (fs : Fs)
    → ((t : ℕ) → k ≤ t → (fs.inodes i).addrs t ≡ a t)
    → Live a k r fs
    → (fs' : Fs) × (trunc_direct i r k fs ≡ ok fs')
      × Freed a k r fs fs'
      × (fs'.words ≡ fs.words)
      × ((t : ℕ)
          → (fs'.inodes i).addrs t
            ≡ (if leb k t && ltb t (k + r) then 0 else (fs.inodes i).addrs t))
unfolding trunc_direct
trunc_direct-Freed i zero k a fs same live = (
  fs,
  refl,
  record { gone = λ t l m nz. absurd (omega arith); kept = λ y h. refl },
  refl,
  λ t. ground arith,
)
trunc_direct-Freed i (suc r) k a fs same live = elim (Bool-cases (a k == 0)) [
  | inl e ↦
      let z : (fs.inodes i).addrs k ≡ a k = same k (omega arith) in
      let g : ((fs.inodes i).addrs k == 0) ≡ true = rw z e in
      let bits : (y : ℕ) → bit y fs ≡ (if (y == a k) && not (y == 0) then false else bit y fs) =
        λ y. ground arith in
      let (fs', q, freed, w, n) =
        trunc_direct-Freed i r (k + 1) a fs (λ t l. same t (omega arith))
          (Live-next a k r fs fs bits live) in
      (
        fs',
        rw (g, trunc_direct) q,
        Freed-next a k r fs fs bits fs' freed live,
        w,
        λ t. n t ∙ zeros_skip (fs.inodes i).addrs k r t (z ∙ ground arith),
      )
  | inr e ↦
      let z : (fs.inodes i).addrs k ≡ a k = same k (omega arith) in
      let g : ((fs.inodes i).addrs k == 0) ≡ false = rw z e in
      let fs1 = set_addr i k 0 (log_block (bblock (a k) fs) (set_bit (a k) false fs)) in
      let u = bfree_used (a k) fs (live.used k (omega arith) (omega arith) (ground arith)) in
      let bits : (y : ℕ) → bit y fs1 ≡ (if (y == a k) && not (y == 0) then false else bit y fs) =
        λ y. bit-set_bit (a k) y false fs ∙ ground arith in
      let (fs', q, freed, w, n) =
        trunc_direct-Freed i r (k + 1) a fs1 (λ t l. ground (arith, same t))
          (Live-next a k r fs fs1 bits live) in
      (
        fs',
        rw (g, z, u, trunc_direct) q,
        Freed-next a k r fs fs1 bits fs' freed live,
        w,
        λ t. n t ∙ rw (eq_same i) (zeros_next (fs.inodes i).addrs k r t),
      )
]
