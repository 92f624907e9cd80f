-- ===== src/Fs/Map/Truncate.antt =====
-- `itrunc`, put together from its two loops.
use mit_lab.Base.{
  ℕ, ◌+◌, ◌≤◌, ◌<◌, ◌≡◌, refl, ◌∙◌, ◌≢◌, ◌⊎◌, inl, inr, true, false, ◌&&◌, arith, ltb, leb, ◌==◌,
  if◌then◌else◌, Bool-cases, ok, ◌>>=◌,
}
use mit_lab.Fs.{ndirect, Fs, bblock, log_block, set_inode}
use mit_lab.Fs.Alloc.{set_bit}
use mit_lab.Fs.Alloc.First.{bit-set_bit}
use mit_lab.Fs.Map.{set_addr, trunc_direct, trunc_last, iupdate, itrunc}
use mit_lab.Fs.Map.Slots.{slot_of, Sound}
use mit_lab.Fs.Map.Trunc.{Freed, bfree_used, trunc_direct-Freed, trunc_indirect-Freed, eq_same}
use mit_lab.Fs.Map.Empty.{
  Emptied, slot_front, Live-direct, Live-indirect, indirect_used, after_gone, after_kept,
}

slot_none : (i s : ℕ) (fs : Fs) → (fs.inodes i).addrs 12 ≡ 0 → 12 ≤ s → slot_of i s fs ≡ 0
slot_none i s fs z ge = ground arith

-- The entries after the first loop.
abbrev Zeros : (i : ℕ) (fs fs1 : Fs) → Type 0
Zeros i fs fs1 =
    (t : ℕ)
    → (fs1.inodes i).addrs t ≡ (if leb 0 t && ltb t (0 + 12) then 0 else (fs.inodes i).addrs t)

Emptied-direct :
    (i : ℕ) (fs fs1 : Fs)
    → (fs.inodes i).addrs 12 ≡ 0
    → Freed (fs.inodes i).addrs 0 12 fs fs1
    → Zeros i fs fs1
    → Emptied i fs fs1
Emptied-direct i fs fs1 z freed zeros = record {
  empty = λ t lt. zeros t ∙ ends t lt;
  gone = λ s lt nz.
      let few : s < 12 = early s nz in
      let q = slot_front i s fs (omega arith) in
      rw q (freed.gone s (omega arith) (omega arith) (rw q at nz));
  kept = λ y h. freed.kept y (λ t l m x. h t (omega arith) (slot_front i t fs (omega arith) ∙ x));
}
  where
    ends : (t : ℕ) → t < 13 → (if leb 0 t && ltb t (0 + 12) then 0 else (fs.inodes i).addrs t) ≡ 0
    ends t lt = elim (Bool-cases (t == 12)) [
      | inl e ↦ let q : t ≡ 12 = ground arith in rw q z
      | inr e ↦ ground arith
    ]

    early : (s : ℕ) → slot_of i s fs ≢ 0 → s < 12
    early s nz = elim (Bool-cases (ltb s 12)) [
      | inl e ↦ ground arith
      | inr e ↦ absurd (nz (slot_none i s fs z (ground arith)))
    ]

Emptied-indirect :
    (i : ℕ) (fs fs1 fs2 : Fs)
    → Sound i fs
    → (fs.inodes i).addrs 12 ≢ 0
    → Freed (fs.inodes i).addrs 0 12 fs fs1
    → Zeros i fs fs1
    → fs2.inodes ≡ fs1.inodes
    → Freed (fs.words ((fs.inodes i).addrs 12)) 0 256 fs1 fs2
    → Emptied i fs (
        set_addr i 12 0 (
          log_block
            (bblock ((fs.inodes i).addrs 12) fs2)
            (set_bit ((fs.inodes i).addrs 12) false fs2)))
Emptied-indirect i fs fs1 fs2 sound nz12 freed zeros n freed2 =
    let b = (fs.inodes i).addrs 12 in
    record {
      empty = λ t lt. rw (eq_same i, n) (ends t lt (Bool-cases (t == 12)));
      gone = λ s lt nz.
          bit-set_bit b (slot_of i s fs) false fs2
          ∙ after_gone i fs fs1 sound nz12 freed fs2 freed2 s lt nz;
      kept = λ y h. bit-set_bit b y false fs2 ∙ after_kept i fs fs1 sound nz12 freed fs2 freed2 y h;
    }
  where
    ends :
        (t : ℕ)
        → t < 13
        → ((t == 12) ≡ true) ⊎ ((t == 12) ≡ false)
        → (if t == 12 then 0 else (fs1.inodes i).addrs t) ≡ 0
    ends t lt (inl e) = rw e
    ends t lt (inr e) = rw e (zeros t ∙ ground arith)

-- The blocks after the loops.
cleared :
    (i : ℕ) (fs : Fs)
    → Sound i fs
    → (fs' : Fs) × ((trunc_direct i ndirect 0 fs >>= trunc_last i) ≡ ok fs') × Emptied i fs fs'
cleared i fs sound =
    let a = (fs.inodes i).addrs in
    let (fs1, q, freed, w, zeros) =
      trunc_direct-Freed i 12 0 a fs (λ t l. refl) (Live-direct i fs sound) in
    let at12 : (fs1.inodes i).addrs 12 ≡ a 12 = zeros 12 in
    elim (Bool-cases (a 12 == 0)) [
      | inl e ↦
          let z : ((fs1.inodes i).addrs 12 == 0) ≡ true = rw at12 e in
          (fs1, rw q (rw z refl), Emptied-direct i fs fs1 (ground arith) freed zeros)
      | inr e ↦
          let z : ((fs1.inodes i).addrs 12 == 0) ≡ false = rw at12 e in
          let nz12 : a 12 ≢ 0 = ground arith in
          let live = Live-indirect i fs fs1 sound nz12 freed in
          let (fs2, q2, freed2, w2, n2) = trunc_indirect-Freed (a 12) 256 0 fs1 (rw w live) in
          let used = indirect_used i fs fs1 sound nz12 freed fs2 (rw w at freed2) in
          let fs3 = log_block (bblock (a 12) fs2) (set_bit (a 12) false fs2) in
          (
            set_addr i 12 0 fs3,
            rw q (rw (z, at12, q2, bfree_used (a 12) fs2 used) refl),
            Emptied-indirect i fs fs1 fs2 sound nz12 freed zeros n2 (rw w at freed2),
          )
    ]

-- For an inode whose blocks are in use and distinct, `itrunc` does not panic. Afterwards the inode's
-- entries are all 0 and its size is 0, in memory and on the disk; every block that it held is free;
-- and no other block is freed or allocated.
pub itrunc-Emptied :
    (i : ℕ) (fs : Fs)
    → Sound i fs
    → (fs' : Fs) × (itrunc i fs ≡ ok fs')
      × Emptied i fs fs'
      × ((fs'.inodes i).size ≡ 0)
      × ((fs'.dinodes (fs'.inodes i).inum).size ≡ 0)
      × ((t : ℕ) → t < 13 → (fs'.dinodes (fs'.inodes i).inum).addrs t ≡ 0)
unfolding itrunc iupdate
itrunc-Emptied i fs sound =
    let (fs1, q, e) = cleared i fs sound in
    let fs' = iupdate i (set_inode i (record (fs1.inodes i) { size = 0 }) fs1) in
    let same = eq_same i in
    (
      fs',
      rw q refl,
      record { empty = λ t lt. rw same (e.empty t lt); gone = e.gone; kept = e.kept },
      rw same refl,
      rw (same, eq_same (fs1.inodes i).inum) refl,
      λ t lt. rw (same, eq_same (fs1.inodes i).inum) (e.empty t lt),
    )
