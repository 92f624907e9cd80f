-- ===== src/Fs/Map/Empty.antt =====
-- `itrunc` as a whole: the direct blocks, the indirect ones, and the indirect block itself.
use mit_lab.Base.{
  ℕ, ◌+◌, ◌-◌, ◌≤◌, ◌<◌, ◌≡◌, sym, ap, ◌∙◌, ◌≢◌, inl, inr, true, false, arith, ltb, ◌==◌,
  if◌then◌else◌, Bool-cases,
}
use mit_lab.Fs.{Fs}
use mit_lab.Fs.Alloc.{bit}
use mit_lab.Fs.Map.Slots.{nslots, slot_of, Sound}
use mit_lab.Fs.Map.Trunc.{Live, Freed}

-- What `itrunc` does to the inode's blocks.
pub record Emptied (i : ℕ) (fs fs' : Fs) : Type 0 where
  pub empty : (t : ℕ) → t < 13 → (fs'.inodes i).addrs t ≡ 0
  pub gone : (s : ℕ) → s < nslots → slot_of i s fs ≢ 0 → bit (slot_of i s fs) fs' ≡ false
  pub kept : (y : ℕ) → ((s : ℕ) → s < nslots → slot_of i s fs ≡ y → y ≡ 0) → bit y fs' ≡ bit y fs

pub slot_front : (i s : ℕ) (fs : Fs) → s < 13 → slot_of i s fs ≡ (fs.inodes i).addrs s
slot_front i s fs lt = ground arith

pub slot_behind :
    (i j : ℕ) (fs : Fs)
    → (fs.inodes i).addrs 12 ≢ 0
    → slot_of i (13 + j) fs ≡ fs.words ((fs.inodes i).addrs 12) j
slot_behind i j fs nz =
    let behind : ltb (13 + j) 13 ≡ false = ground arith in
    let some_block : ((fs.inodes i).addrs 12 == 0) ≡ false = ground arith in
    let at : 13 + j - 13 ≡ j = omega arith in rw (behind, some_block, at)

pub Live-direct : (i : ℕ) (fs : Fs) → Sound i fs → Live (fs.inodes i).addrs 0 12 fs
Live-direct i fs sound = record {
  used = λ t l m nz.
      let q = slot_front i t fs (omega arith) in rw (← q) (sound.used t (omega arith) (rw q nz));
  distinct = λ s t l m l' m' nz e.
      let q = slot_front i s fs (omega arith) in
      let q' = slot_front i t fs (omega arith) in
      sound.distinct s t (omega arith) (omega arith) (rw q nz) (q ∙ e ∙ sym q');
}

module _ (i : ℕ) (fs fs1 : Fs) (sound : Sound i fs) (nz12 : (fs.inodes i).addrs 12 ≢ 0)
    (freed : Freed (fs.inodes i).addrs 0 12 fs fs1) where
  -- The numbers behind the direct ones are untouched by the first loop.
  pub later_kept :
      (s : ℕ) → 12 ≤ s → s < nslots → slot_of i s fs ≢ 0 → bit (slot_of i s fs) fs1 ≡ true
  later_kept s ge lt nz =
      freed.kept (slot_of i s fs)
        (λ t l m e. absurd (apart t m (slot_front i t fs (omega arith) ∙ e)))
      ∙ sound.used s lt nz
    where
      apart : (t : ℕ) → t < 0 + 12 → slot_of i t fs ≡ slot_of i s fs → ⊥
      apart t m e = let d = sound.distinct s t lt (omega arith) nz (sym e) in omega arith

  pub Live-indirect : Live (fs.words ((fs.inodes i).addrs 12)) 0 256 fs1
  Live-indirect = record {
    used = λ t l m nz.
        let q = slot_behind i t fs nz12 in
        rw (← q) (later_kept (13 + t) (omega arith) (omega arith) (rw q nz));
    distinct = λ s t l m l' m' nz e.
        let q = slot_behind i s fs nz12 in
        let q' = slot_behind i t fs nz12 in
        let d =
          sound.distinct (13 + s) (13 + t) (omega arith) (omega arith) (rw q nz) (q ∙ e ∙ sym q') in
        omega arith;
  }

  -- The blocks that the indirect block lists, and the block itself, are freed too.
  module _ (fs2 : Fs) (freed2 : Freed (fs.words ((fs.inodes i).addrs 12)) 0 256 fs1 fs2) where
    pub indirect_used : bit ((fs.inodes i).addrs 12) fs2 ≡ true
    indirect_used =
        let q = slot_front i 12 fs (omega arith) in
        freed2.kept ((fs.inodes i).addrs 12) (λ t l m e. absurd (apart t m e))
        ∙ rw (← q) (later_kept 12 (omega arith) (omega arith) (rw q nz12))
      where
        apart :
            (t : ℕ) → t < 0 + 256 → fs.words ((fs.inodes i).addrs 12) t ≡ (fs.inodes i).addrs 12 → ⊥
        apart t m e =
            let q = slot_front i 12 fs (omega arith) in
            let d =
              sound.distinct 12 (13 + t) (omega arith) (omega arith) (rw q nz12)
                (q ∙ sym e ∙ sym (slot_behind i t fs nz12)) in
            omega arith

    pub after_gone :
        (s : ℕ)
        → s < nslots
        → slot_of i s fs ≢ 0
        → (if slot_of i s fs == (fs.inodes i).addrs 12 then false else bit (slot_of i s fs) fs2)
          ≡ false
    after_gone s lt nz = elim (Bool-cases (slot_of i s fs == (fs.inodes i).addrs 12)) [
      | inl e ↦ rw e
      | inr e ↦ rw e (elim (Bool-cases (ltb s 12)) [
        | inl f ↦ early (ground arith)
        | inr f ↦ late (ground arith) e
      ])
    ]
      where
        early : s < 12 → bit (slot_of i s fs) fs2 ≡ false
        early l =
            let q = slot_front i s fs (omega arith) in
            freed2.kept (slot_of i s fs) (λ t a m e. absurd (apart t m e))
            ∙ rw q (freed.gone s (omega arith) (omega arith) (rw q at nz))
          where
            apart : (t : ℕ) → t < 0 + 256 → fs.words ((fs.inodes i).addrs 12) t ≡ slot_of i s fs → ⊥
            apart t m e =
                let d =
                  sound.distinct s (13 + t) lt (omega arith) nz
                    (sym e ∙ sym (slot_behind i t fs nz12)) in
                omega arith

        late :
            12 ≤ s
            → (slot_of i s fs == (fs.inodes i).addrs 12) ≡ false
            → bit (slot_of i s fs) fs2 ≡ false
        late ge e = elim (Bool-cases (s == 12)) [
          | inl f ↦
              let s12 : s ≡ 12 = ground arith in
              let q : slot_of i s fs ≡ (fs.inodes i).addrs 12 =
                ap (λ u. slot_of i u fs) s12 ∙ slot_front i 12 fs (omega arith) in
              absurd (ground arith)
          | inr f ↦
              let g : 13 + (s - 13) ≡ s = ground arith in
              let q : slot_of i s fs ≡ fs.words ((fs.inodes i).addrs 12) (s - 13) =
                ap (λ u. slot_of i u fs) (sym g) ∙ slot_behind i (s - 13) fs nz12 in
              rw q (freed2.gone (s - 13) (omega arith) (omega arith) (rw q at nz))
        ]

    pub after_kept :
        (y : ℕ)
        → ((s : ℕ) → s < nslots → slot_of i s fs ≡ y → y ≡ 0)
        → (if y == (fs.inodes i).addrs 12 then false else bit y fs2) ≡ bit y fs
    after_kept y h = elim (Bool-cases (y == (fs.inodes i).addrs 12)) [
      | inl e ↦
          let q : (fs.inodes i).addrs 12 ≡ y = ground arith in
          let z = h 12 (omega arith) (slot_front i 12 fs (omega arith) ∙ q) in absurd (nz12 (q ∙ z))
      | inr e ↦ rw e (
          freed2.kept y (λ t l m x. h (13 + t) (omega arith) (slot_behind i t fs nz12 ∙ x))
          ∙ freed.kept y (λ t l m x. h t (omega arith) (slot_front i t fs (omega arith) ∙ x)))
    ]
