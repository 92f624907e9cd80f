-- ===== src/Fs/Table/Calls.antt =====
-- All calls in any order: a pointer to an inode stays what it was obtained for.
use mit_lab.Base.{
  ℕ, ◌<◌, ◌≡◌, refl, sym, ◌∙◌, inl, inr, ◌||◌, not, none, some, ok, ok_inj, some_inj, ltb, ◌==◌,
  ◌≢◌, false, arith, Bool-cases, List, [], ◌∷◌,
}
use mit_lab.Fs.{ninode, Fs}
use mit_lab.Fs.Table.{
  iget, idup, ilock, iunlock, iput_free, iput_drop, is_none, is_holder, read_inode,
}
use mit_lab.Fs.Table.Entries.{Named, Named-set, Named-iput_free}
use mit_lab.Fs.Table.Pointers.{
  Ptr, Mem, Removed, Points, IsHeld, count, count-Mem, IsHeld-Named, iget-IsHeld, idup-IsHeld,
  iput_drop-IsHeld,
}

-- The calls, with the pointers before and after.
pub data Step : Fs → List Ptr → Fs → List Ptr → Type 0 where
  gets :
      (dev inum i : ℕ) {fs fs' : Fs} {ps : List Ptr}
      → iget dev inum fs ≡ ok (i, fs')
      → Step fs ps fs' (record { entry = i; dev = dev; inum = inum } ∷ ps)
  dups : (p : Ptr) {fs : Fs} {ps : List Ptr} → Mem p ps → Step fs ps (idup p.entry fs) (p ∷ ps)
  locks :
      (me i : ℕ) {fs fs' : Fs} {ps : List Ptr} → ilock me i fs ≡ ok (some fs') → Step fs ps fs' ps
  unlocks : (me i : ℕ) {fs fs' : Fs} {ps : List Ptr} → iunlock me i fs ≡ ok fs' → Step fs ps fs' ps
  frees : (i : ℕ) {fs fs' : Fs} {ps : List Ptr} → iput_free i fs ≡ ok (some fs') → Step fs ps fs' ps
  drops :
      (p : Ptr) {fs : Fs} {ps qs : List Ptr}
      → Removed p ps qs
      → Step fs ps (iput_drop p.entry fs) qs

pub data Reach (fs : Fs) (ps : List Ptr) : Fs → List Ptr → Type 0 where
  here : Reach fs ps fs ps
  next :
      {fs1 fs2 : Fs} {ps1 ps2 : List Ptr}
      → Reach fs ps fs1 ps1
      → Step fs1 ps1 fs2 ps2
      → Reach fs ps fs2 ps2

ilock-Named : (me i : ℕ) (fs fs' : Fs) → ilock me i fs ≡ ok (some fs') → Named fs fs'
unfolding ilock
ilock-Named me i fs fs' e =
    let ip = fs.inodes i in
    let locked = record ip { holder = some me } in
    let loaded = read_inode (fs.dinodes ip.inum) locked in
    elim (Bool-cases (ltb ip.ref 1)) [
      | inl a ↦ let x = rw (a, ilock) at e in absurd (cc)
      | inr a ↦ elim (Bool-cases (is_none ip.holder)) [
        | inr b ↦ let x = rw (a, b, ilock) at e in let y = ok_inj x in absurd (cc)
        | inl b ↦ elim (Bool-cases ip.valid) [
          | inl c ↦
              let x = rw (a, b, c, ilock) at e in
              let n = Named-set i locked fs refl refl refl in
              rw (← (some_inj (ok_inj x))) (rw c at n)
          | inr c ↦ elim (Bool-cases (loaded.ty == 0)) [
            | inl d ↦ let x = rw (a, b, c, d, ilock) at e in absurd (cc)
            | inr d ↦
                let x = rw (a, b, c, d, ilock) at e in
                rw (← (some_inj (ok_inj x))) (Named-set i loaded fs refl refl refl)
          ]
        ]
      ]
    ]

iunlock-Named : (me i : ℕ) (fs fs' : Fs) → iunlock me i fs ≡ ok fs' → Named fs fs'
unfolding iunlock
iunlock-Named me i fs fs' e =
    let ip = fs.inodes i in
    elim (Bool-cases (not (is_holder me ip.holder) || ltb ip.ref 1)) [
      | inl a ↦ let x = rw (a, iunlock) at e in absurd (cc)
      | inr a ↦
          let x = rw (a, iunlock) at e in
          rw (← (ok_inj x)) (Named-set i (record ip { holder = none }) fs refl refl refl)
    ]

Step-IsHeld : {fs fs' : Fs} {ps ps' : List Ptr} → Step fs ps fs' ps' → IsHeld fs ps → IsHeld fs' ps'
Step-IsHeld (gets dev inum i e) h = iget-IsHeld dev inum i _ _ _ e h
Step-IsHeld (dups p m) h = idup-IsHeld p _ _ m h
Step-IsHeld (locks me i e) h = IsHeld-Named (ilock-Named me i _ _ e) h
Step-IsHeld (unlocks me i e) h = IsHeld-Named (iunlock-Named me i _ _ e) h
Step-IsHeld (frees i e) h = IsHeld-Named (Named-iput_free i _ _ e) h
Step-IsHeld (drops p r) h = iput_drop-IsHeld p _ _ _ r h

Reach-IsHeld :
    {fs : Fs} {ps : List Ptr} {fs' : Fs} {ps' : List Ptr}
    → Reach fs ps fs' ps'
    → IsHeld fs ps
    → IsHeld fs' ps'
Reach-IsHeld here h = h
Reach-IsHeld (next r s) h = Step-IsHeld s (Reach-IsHeld r h)

-- From a table without pointers and with all counts 0, after calls of `iget`, `idup`, `ilock`,
-- `iunlock` and both parts of `iput` in any order: the entry of every pointer that is held is still
-- the inode that the pointer was obtained for; two pointers obtained for the same inode have the same
-- entry; the count of every entry is the number of pointers to it; and the first part of `iput` changes
-- nothing at an entry with any number of pointers but one, so that an inode that others hold is
-- neither truncated nor freed.
pub Reach-pointers :
    {fs fs' : Fs} {ps : List Ptr}
    → ((i : ℕ) → i < ninode → (fs.inodes i).ref ≡ 0)
    → Reach fs [] fs' ps
    → ((p : Ptr) → Mem p ps → Points fs' p)
      × ((p q : Ptr) → Mem p ps → Mem q ps → p.dev ≡ q.dev → p.inum ≡ q.inum → p.entry ≡ q.entry)
      × ((i : ℕ) → i < ninode → (fs'.inodes i).ref ≡ count i ps)
      × ((i : ℕ) → i < ninode → count i ps ≢ 1 → iput_free i fs' ≡ ok (some fs'))
unfolding iput_free
Reach-pointers {fs} {fs'} {ps} zero_refs r =
    let h = Reach-IsHeld r initial in
    (h.points, same h, h.counted, λ i l ne. alone i (λ e. ne (sym (h.counted i l) ∙ e)))
  where
    alone : (i : ℕ) → (fs'.inodes i).ref ≢ 1 → iput_free i fs' ≡ ok (some fs')
    alone i ne =
        let f : ((fs'.inodes i).ref == 1) ≡ false = ground (arith, ne) in rw (iput_free, f) refl

    initial : IsHeld fs []
    initial = record {
      points = λ p m. elim m [ ];
      counted = zero_refs;
      single = λ i j l m nz nz' e f. absurd (nz (zero_refs i l));
    }

    same :
        IsHeld fs' ps
        → (p q : Ptr) → Mem p ps
        → Mem q ps
        → p.dev ≡ q.dev
        → p.inum ≡ q.inum
        → p.entry ≡ q.entry
    same h p q m m' d n =
        let (l, pd, pn) = h.points p m in
        let (l', qd, qn) = h.points q m' in
        h.single p.entry q.entry l l' (rw (h.counted p.entry l) (count-Mem ps m))
          (rw (h.counted q.entry l') (count-Mem ps m')) (pd ∙ d ∙ sym qd) (pn ∙ n ∙ sym qn)
