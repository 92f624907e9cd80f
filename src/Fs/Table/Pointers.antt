-- ===== src/Fs/Table/Pointers.antt =====
-- The pointers to inodes that the kernel holds, against the table.
use mit_lab.Base.{
  ℕ, ◌+◌, ◌-◌, ◌<◌, ◌≡◌, refl, sym, ap, subst, ◌∙◌, ◌≢◌, ◌⊎◌, inl, inr, true, false, none, some,
  Run, ok, ok_inj, arith, ◌==◌, if◌then◌else◌, Bool-cases, List, [], ◌∷◌,
}
use mit_lab.Fs.{ninode, Inode, Fs, set_inode}
use mit_lab.Fs.Table.{Scan, hit, miss, scan, iget, idup, iput_drop, get_entry}
use mit_lab.Fs.Table.Entries.{is_entry_of, scan-hit, scan-miss, scan-free, IsFree, Named}

-- A pointer, with the inode that it was obtained for.
pub record Ptr : Type 0 where
  pub entry : ℕ
  pub dev : ℕ
  pub inum : ℕ

abbrev pub count : ℕ → List Ptr → ℕ
count i [] = 0
count i (p ∷ ps) = if p.entry == i then count i ps + 1 else count i ps

pub data Mem (p : Ptr) : List Ptr → Type 0 where
  first : {ps : List Ptr} → Mem p (p ∷ ps)
  later : (q : Ptr) {ps : List Ptr} → Mem p ps → Mem p (q ∷ ps)

-- The second list is the first without one `p`.
pub data Removed (p : Ptr) : List Ptr → List Ptr → Type 0 where
  first : {ps : List Ptr} → Removed p (p ∷ ps) ps
  later : (q : Ptr) {ps qs : List Ptr} → Removed p ps qs → Removed p (q ∷ ps) (q ∷ qs)

-- The pointer's entry is still the inode that it was obtained for.
abbrev pub Points : Fs → Ptr → Type 0
Points fs p =
    (p.entry < ninode) × ((fs.inodes p.entry).dev ≡ p.dev) × ((fs.inodes p.entry).inum ≡ p.inum)

pub record IsHeld (fs : Fs) (ps : List Ptr) : Type 0 where
  pub points : (p : Ptr) → Mem p ps → Points fs p
  pub counted : (i : ℕ) → i < ninode → (fs.inodes i).ref ≡ count i ps
  pub single :
      (i j : ℕ)
      → i < ninode
      → j < ninode
      → (fs.inodes i).ref ≢ 0
      → (fs.inodes j).ref ≢ 0
      → (fs.inodes i).dev ≡ (fs.inodes j).dev
      → (fs.inodes i).inum ≡ (fs.inodes j).inum
      → i ≡ j

pub count-Mem : {p : Ptr} (ps : List Ptr) → Mem p ps → count p.entry ps ≢ 0
count-Mem [] m = elim m [ ]
count-Mem (q ∷ ps) first = ground arith
count-Mem (q ∷ ps) (later q' m) = let h = count-Mem ps m in ground arith

pub count-Removed :
    {p : Ptr} {ps qs : List Ptr} (i : ℕ)
    → Removed p ps qs
    → count i ps ≡ (if p.entry == i then count i qs + 1 else count i qs)
count-Removed i first = refl
count-Removed i (later q r) = let h = count-Removed i r in ground arith

pub Mem-Removed : {p x : Ptr} {ps qs : List Ptr} → Removed p ps qs → Mem x qs → Mem x ps
Mem-Removed first m = later _ m
Mem-Removed (later q r) first = first
Mem-Removed (later q r) (later q' m) = later q (Mem-Removed r m)

pub IsHeld-Named : {fs fs' : Fs} {ps : List Ptr} → Named fs fs' → IsHeld fs ps → IsHeld fs' ps
unfolding Named
IsHeld-Named n h = record {
  points = λ p m. let (a, b, c) = h.points p m in let (d, e, r) = n p.entry in (a, d ∙ b, e ∙ c);
  counted = λ i l. let (d, e, r) = n i in r ∙ h.counted i l;
  single = λ i j l m nz nz' e f.
      let (d, k, r) = n i in
      let (d', k', r') = n j in
      h.single i j l m (rw r at nz) (rw r' at nz') (sym d ∙ e ∙ d') (sym k ∙ f ∙ k');
}

-- A new pointer to an entry of the table, whose count goes up.
IsHeld-more :
    (p : Ptr) (ip : Inode) {fs : Fs} {ps : List Ptr}
    → IsHeld fs ps
    → p.entry < ninode
    → (ip.dev ≡ p.dev) × (ip.inum ≡ p.inum)
    → ip.ref ≡ (fs.inodes p.entry).ref + 1
    → ((fs.inodes p.entry).ref ≢ 0
        → ((fs.inodes p.entry).dev ≡ p.dev) × ((fs.inodes p.entry).inum ≡ p.inum))
    → ((j : ℕ)
        → j < ninode
        → (fs.inodes j).ref ≢ 0
        → (fs.inodes j).dev ≡ p.dev
        → (fs.inodes j).inum ≡ p.inum
        → j ≡ p.entry)
    → IsHeld (set_inode p.entry ip fs) (p ∷ ps)
IsHeld-more p ip {fs} {ps} h lt (d, n) r old alone = record {
  points = λ q m. pointed q m;
  counted = λ i l. counts i l (Bool-cases (i == p.entry));
  single = λ i j l m. apart i j l m (Bool-cases (i == p.entry)) (Bool-cases (j == p.entry));
}
  where
    fs' : Fs
    fs' = set_inode p.entry ip fs

    here : (q : Ptr) → q.entry ≡ p.entry → q.dev ≡ p.dev → q.inum ≡ p.inum → Points fs' q
    here q e a b =
        let g : (q.entry == p.entry) ≡ true = ground arith in
        rw g (subst (λ k. k < ninode) (sym e) lt, d ∙ sym a, n ∙ sym b)

    held :
        (q : Ptr)
        → Mem q ps
        → ((q.entry == p.entry) ≡ true) ⊎ ((q.entry == p.entry) ≡ false)
        → Points fs' q
    held q m (inr e) = rw e (h.points q m)
    held q m (inl e) =
        let (a, b, c) = h.points q m in
        let s : q.entry ≡ p.entry = ground arith in
        let nz = count-Mem ps m in
        let r0 = h.counted q.entry a in
        let nz0 : (fs.inodes q.entry).ref ≢ 0 = rw r0 nz in
        let (od, on) = old (subst (λ k. (fs.inodes k).ref ≢ 0) s nz0) in
        here q s (sym b ∙ (ap (λ k. (fs.inodes k).dev) s ∙ od))
          (sym c ∙ (ap (λ k. (fs.inodes k).inum) s ∙ on))

    pointed : (q : Ptr) → Mem q (p ∷ ps) → Points fs' q
    pointed q first = here q refl refl refl
    pointed q (later x m) = held q m (Bool-cases (q.entry == p.entry))

    counts :
        (i : ℕ)
        → i < ninode
        → ((i == p.entry) ≡ true) ⊎ ((i == p.entry) ≡ false)
        → (fs'.inodes i).ref ≡ count i (p ∷ ps)
    counts i l (inl e) =
        let s : i ≡ p.entry = ground arith in
        let g : (p.entry == i) ≡ true = ground arith in
        rw (e, g) (r ∙ ap (λ k. (fs.inodes k).ref + 1) (sym s) ∙ ap (λ k. k + 1) (h.counted i l))
    counts i l (inr e) = let g : (p.entry == i) ≡ false = ground arith in rw (e, g) (h.counted i l)

    apart :
        (i j : ℕ)
        → i < ninode
        → j < ninode
        → ((i == p.entry) ≡ true) ⊎ ((i == p.entry) ≡ false)
        → ((j == p.entry) ≡ true) ⊎ ((j == p.entry) ≡ false)
        → (fs'.inodes i).ref ≢ 0
        → (fs'.inodes j).ref ≢ 0
        → (fs'.inodes i).dev ≡ (fs'.inodes j).dev
        → (fs'.inodes i).inum ≡ (fs'.inodes j).inum
        → i ≡ j
    apart i j l m (inl e) (inl f) = rw (e, f) (λ a b c k. ground arith)
    apart i j l m (inl e) (inr f) =
        rw (e, f) (λ a b c k. let x = alone j m b (sym c ∙ d) (sym k ∙ n) in ground arith)
    apart i j l m (inr e) (inl f) =
        rw (e, f) (λ a b c k. let x = alone i l a (c ∙ d) (k ∙ n) in ground arith)
    apart i j l m (inr e) (inr f) = rw (e, f) (h.single i j l m)

pub iget-IsHeld :
    (dev inum i : ℕ) (fs fs' : Fs) (ps : List Ptr)
    → iget dev inum fs ≡ ok (i, fs')
    → IsHeld fs ps
    → IsHeld fs' (record { entry = i; dev = dev; inum = inum } ∷ ps)
unfolding iget IsFree
iget-IsHeld dev inum i fs fs' ps e h = got (scan dev inum ninode 0 none fs.inodes) refl e
  where
    new : (k : ℕ) → Ptr
    new k = record { entry = k; dev = dev; inum = inum }

    moved :
        (k : ℕ) (ip : Inode)
        → ◌≡◌ {A = Run (ℕ × Fs)} (ok (k, set_inode k ip fs)) (ok (i, fs'))
        → IsHeld (set_inode k ip fs) (new k ∷ ps)
        → IsHeld fs' (new i ∷ ps)
    moved k ip e x = subst (λ y. IsHeld y.1 (new y.0 ∷ ps)) (ok_inj e) x

    got :
        (s : Scan)
        → scan dev inum ninode 0 none fs.inodes ≡ s
        → get_entry dev inum fs s ≡ ok (i, fs')
        → IsHeld fs' (new i ∷ ps)
    got (hit k) q e =
        let (l, m) = scan-hit dev inum ninode 0 k none fs.inodes q in
        let nz : (fs.inodes k).ref ≢ 0 = ground arith in
        let d : (fs.inodes k).dev ≡ dev = ground arith in
        let n : (fs.inodes k).inum ≡ inum = ground arith in
        let ip = record (fs.inodes k) { ref = (fs.inodes k).ref + 1 } in
        moved k ip e (
          IsHeld-more (new k) ip h (omega arith) (d, n) refl (λ z. (d, n))
            (λ j lj zj dj nj. h.single j k lj (omega arith) zj nz (dj ∙ sym d) (nj ∙ sym n)))
    got (miss none) q e = cc
    got (miss (some k)) q e =
        let (l, z) = scan-free dev inum ninode 0 none (some k) fs.inodes q tt in
        let ip = record (fs.inodes k) { dev = dev; inum = inum; ref = 1; valid = false } in
        moved k ip e (
          IsHeld-more (new k) ip h (omega arith) (refl, refl) (omega arith) (λ nz. absurd (nz z))
            (λ j lj zj dj nj.
              let x =
                scan-miss dev inum ninode 0 j none (some k) fs.inodes q (omega arith)
                  (omega arith) in
              let y = is_entry_of dev inum (fs.inodes j) zj dj nj in absurd (cc)))

pub idup-IsHeld :
    (p : Ptr) (fs : Fs) (ps : List Ptr)
    → Mem p ps
    → IsHeld fs ps
    → IsHeld (idup p.entry fs) (p ∷ ps)
unfolding idup
idup-IsHeld p fs ps m h =
    let (l, d, n) = h.points p m in
    let nz : (fs.inodes p.entry).ref ≢ 0 = rw (h.counted p.entry l) (count-Mem ps m) in
    IsHeld-more p (record (fs.inodes p.entry) { ref = (fs.inodes p.entry).ref + 1 }) h l (d, n) refl
      (λ z. (d, n)) (λ j lj zj dj nj. h.single j p.entry lj l zj nz (dj ∙ sym d) (nj ∙ sym n))

pub iput_drop-IsHeld :
    (p : Ptr) (fs : Fs) (ps qs : List Ptr)
    → Removed p ps qs
    → IsHeld fs ps
    → IsHeld (iput_drop p.entry fs) qs
unfolding iput_drop
iput_drop-IsHeld p fs ps qs r h = record {
  points = λ q m.
      let (l, d, n) = h.points q (Mem-Removed r m) in
      let (d', n', w) = same q.entry in (l, d' ∙ d, n' ∙ n);
  counted = λ i l. counts i l (Bool-cases (i == p.entry));
  single = λ i j l m nz nz' e f.
      let (d, n, w) = same i in
      let (d', n', w') = same j in
      h.single i j l m (w nz) (w' nz') (sym d ∙ e ∙ d') (sym n ∙ f ∙ n');
}
  where
    fs' : Fs
    fs' = iput_drop p.entry fs

    same :
        (i : ℕ)
        → ((fs'.inodes i).dev ≡ (fs.inodes i).dev)
          × ((fs'.inodes i).inum ≡ (fs.inodes i).inum)
          × ((fs'.inodes i).ref ≢ 0 → (fs.inodes i).ref ≢ 0)
    same i = elim (Bool-cases (i == p.entry)) [
      | inl e ↦
          let s : p.entry ≡ i = ground arith in
          rw e (
            ap (λ k. (fs.inodes k).dev) s,
            ap (λ k. (fs.inodes k).inum) s,
            λ nz z. nz (ap (λ k. (fs.inodes k).ref - 1) s ∙ ap (λ k. k - 1) z),
          )
      | inr e ↦ rw e (refl, refl, λ nz. nz)
    ]

    counts :
        (i : ℕ)
        → i < ninode
        → ((i == p.entry) ≡ true) ⊎ ((i == p.entry) ≡ false)
        → (fs'.inodes i).ref ≡ count i qs
    counts i l (inl e) =
        let s : p.entry ≡ i = ground arith in
        let g : (p.entry == i) ≡ true = ground arith in
        let c = count-Removed i r in
        let t : count i ps ≡ count i qs + 1 = c ∙ rw g in
        let u = h.counted i l in rw e (ap (λ k. (fs.inodes k).ref - 1) s ∙ omega arith)
    counts i l (inr e) =
        let g : (p.entry == i) ≡ false = ground arith in
        let c = count-Removed i r in rw e (h.counted i l ∙ (c ∙ rw g))
