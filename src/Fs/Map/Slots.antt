-- ===== src/Fs/Map/Slots.antt =====
-- The block numbers that an inode holds, in one row: the direct ones, the indirect block, and its
-- entries.
use mit_lab.Base.{
  ℕ, ◌+◌, ◌-◌, ◌<◌, ◌≡◌, sym, ◌∙◌, ◌≢◌, ◌⊎◌, inl, inr, true, false, arith, ltb, ◌==◌, if◌then◌else◌,
  Bool-cases, update,
}
use mit_lab.Fs.{ndirect, Fs}
use mit_lab.Fs.Alloc.{bit}

-- How many numbers there are.
abbrev pub nslots : ℕ
nslots = 269

-- The number in place `s` for the entries `addrs` of an inode.
abbrev pub slot : (ℕ → ℕ) → (ℕ → ℕ → ℕ) → ℕ → ℕ
slot addrs words s =
    if ltb s 13 then addrs s else (if addrs 12 == 0 then 0 else words (addrs 12) (s - 13))

abbrev pub slot_of : (i s : ℕ) → Fs → ℕ
slot_of i s fs = slot (fs.inodes i).addrs fs.words s

-- The place of block `bn` of the file.
abbrev pub place : ℕ → ℕ
place bn = if ltb bn ndirect then bn else bn + 1

-- The boot block is in use, and the numbers that are not 0 are blocks in use, no two the same.
pub record Sound (i : ℕ) (fs : Fs) : Type 0 where
  pub boot : bit 0 fs ≡ true
  pub used : (s : ℕ) → s < nslots → slot_of i s fs ≢ 0 → bit (slot_of i s fs) fs ≡ true
  pub distinct :
      (s t : ℕ)
      → s < nslots
      → t < nslots
      → slot_of i s fs ≢ 0
      → slot_of i s fs ≡ slot_of i t fs
      → s ≡ t

-- A block that was free is put into a place.
pub Sound-add :
    (i s x : ℕ) (fs fs' : Fs)
    → Sound i fs
    → bit x fs ≡ false
    → ((t : ℕ) → t < nslots → slot_of i t fs' ≡ (if t == s then x else slot_of i t fs))
    → ((y : ℕ) → bit y fs' ≡ (if y == x then true else bit y fs))
    → Sound i fs'
Sound-add i s x fs fs' sound free slots bits = record {
  boot = bits 0 ∙ boots (Bool-cases (0 == x));
  used = λ t lt nz. (bits (slot_of i t fs') ∙ inside t lt nz (Bool-cases (t == s)));
  distinct = λ t u lt lu nz e.
      apart t u lt lu (rw (slots t lt) at nz) (sym (slots t lt) ∙ e ∙ slots u lu)
        (Bool-cases (t == s)) (Bool-cases (u == s));
}
  where
    boots : ((0 == x) ≡ true) ⊎ ((0 == x) ≡ false) → (if 0 == x then true else bit 0 fs) ≡ true
    boots (inl e) = rw e
    boots (inr e) = rw e sound.boot

    inside :
        (t : ℕ)
        → t < nslots
        → slot_of i t fs' ≢ 0
        → ((t == s) ≡ true) ⊎ ((t == s) ≡ false)
        → (if slot_of i t fs' == x then true else bit (slot_of i t fs') fs) ≡ true
    inside t lt nz (inl e) =
        let q : slot_of i t fs' ≡ x = slots t lt ∙ rw e in
        let r : (x == x) ≡ true = ground arith in rw q (rw r)
    inside t lt nz (inr e) =
        let q : slot_of i t fs' ≡ slot_of i t fs = slots t lt ∙ rw e in
        let u = sound.used t lt (rw q at nz) in
        rw q (elim (Bool-cases (slot_of i t fs == x)) [ inl g ↦ rw g | inr g ↦ rw g u ])

    fresh : (t : ℕ) → t < nslots → slot_of i t fs ≢ 0 → slot_of i t fs ≢ x
    fresh t lt nz e = let u = sound.used t lt nz in let v = rw e at u in absurd (cc)

    apart :
        (t u : ℕ)
        → t < nslots
        → u < nslots
        → (if t == s then x else slot_of i t fs) ≢ 0
        → (if t == s then x else slot_of i t fs) ≡ (if u == s then x else slot_of i u fs)
        → ((t == s) ≡ true) ⊎ ((t == s) ≡ false)
        → ((u == s) ≡ true) ⊎ ((u == s) ≡ false)
        → t ≡ u
    apart t u lt lu nz e (inl f) (inl g) = ground arith
    apart t u lt lu nz e (inl f) (inr g) =
        let e' : x ≡ slot_of i u fs = rw (f, g) at e in
        let nz' : x ≢ 0 = rw f at nz in absurd (fresh u lu (rw e' at nz') (sym e'))
    apart t u lt lu nz e (inr f) (inl g) = absurd (fresh t lt (rw f at nz) (rw (f, g) at e))
    apart t u lt lu nz e (inr f) (inr g) = sound.distinct t u lt lu (rw f at nz) (rw (f, g) at e)

-- An entry `k` that was 0 becomes `x`, a block that was filled with zeros.
pub slot-new_addr :
    (addrs : ℕ → ℕ) (words : ℕ → ℕ → ℕ) (x k t : ℕ)
    → k < 13
    → addrs k ≡ 0
    → (addrs 12 ≢ 0 → addrs 12 ≢ x)
    → slot (update addrs k x) (update words x (λ j. 0)) t
      ≡ (if t == k then x else slot addrs words t)
slot-new_addr addrs words x k t lt z fresh = ground arith

-- An entry `j` of the indirect block that was 0 becomes `x`.
pub slot-new_word :
    (addrs : ℕ → ℕ) (words : ℕ → ℕ → ℕ) (x j t : ℕ)
    → addrs 12 ≢ 0
    → addrs 12 ≢ x
    → slot addrs
        (update
          (update words x (λ i. 0))
          (addrs 12)
          (update (update words x (λ i. 0) (addrs 12)) j x))
        t
      ≡ (if t == 13 + j then x else slot addrs words t)
slot-new_word addrs words x j t nz fresh = ground arith
