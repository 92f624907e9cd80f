-- ===== src/Fs/Map/Fill.antt =====
-- `bmap`: what it allocates, and that the map of the file keeps its other entries.
use mit_lab.Base.{
  ℕ, ◌+◌, ◌-◌, ◌≤◌, ◌<◌, ◌≡◌, refl, sym, ap, ◌∙◌, ◌≢◌, ◌⊎◌, inl, inr, true, false, arith, ltb, ◌==◌,
  if◌then◌else◌, Bool-cases, length, ok,
}
use mit_lab.Fs.{ndirect, nindirect, Fs, bblock, log_block}
use mit_lab.Fs.Alloc.{bit, set_bit, bzero}
use mit_lab.Fs.Alloc.First.{alloc_cases, bit-set_bit}
use mit_lab.Fs.Map.{get_addr, get_word, from_indirect, bmap, set_addr, set_word}
use mit_lab.Fs.Map.Slots.{nslots, slot_of, place, Sound, Sound-add, slot-new_addr, slot-new_word}

-- What a step that fills place `s` makes of the state: the number there, or 0 with all blocks in use.
pub record Filled (i s : ℕ) (fs : Fs) (r : ℕ × Fs) : Type 0 where
  pub sound : Sound i r.1
  pub slots :
      r.0 ≢ 0 → (t : ℕ) → t < nslots → slot_of i t r.1 ≡ (if t == s then r.0 else slot_of i t fs)
  pub failed : r.0 ≡ 0 → (r.1 ≡ fs) × ((k : ℕ) → k < fs.size → bit k fs ≡ true)
  pub kept : slot_of i s fs ≢ 0 → r ≡ (slot_of i s fs, fs)
  pub grows : length r.1.logged ≤ length fs.logged + 3

-- The number was there.
Filled-old :
    (i s : ℕ) (fs : Fs) → Sound i fs → slot_of i s fs ≢ 0 → Filled i s fs (slot_of i s fs, fs)
Filled-old i s fs sound nz = record {
  sound = sound;
  slots = λ h t lt. here t (Bool-cases (t == s));
  failed = λ h. absurd (nz h);
  kept = λ h. refl;
  grows = omega arith;
}
  where
    here :
        (t : ℕ)
        → ((t == s) ≡ true) ⊎ ((t == s) ≡ false)
        → slot_of i t fs ≡ (if t == s then slot_of i s fs else slot_of i t fs)
    here t (inl e) = let q : t ≡ s = ground arith in rw e (ap (λ u. slot_of i u fs) q)
    here t (inr e) = rw e

Filled-full :
    (i s : ℕ) (fs : Fs)
    → Sound i fs
    → slot_of i s fs ≡ 0
    → ((k : ℕ) → k < fs.size → bit k fs ≡ true)
    → Filled i s fs (0, fs)
Filled-full i s fs sound z all = record {
  sound = sound;
  slots = λ h t lt. absurd (h refl);
  failed = λ h. (refl, all);
  kept = λ h. absurd (h z);
  grows = omega arith;
}

-- A free block `x` that was filled with zeros is put into place `s`.
Filled-new :
    (i s x : ℕ) (fs fs' : Fs)
    → Sound i fs
    → bit x fs ≡ false
    → x ≢ 0
    → slot_of i s fs ≡ 0
    → ((t : ℕ) → t < nslots → slot_of i t fs' ≡ (if t == s then x else slot_of i t fs))
    → ((y : ℕ) → bit y fs' ≡ (if y == x then true else bit y fs))
    → length fs'.logged ≤ length fs.logged + 3
    → Filled i s fs (x, fs')
Filled-new i s x fs fs' sound f nz z slots bits l = record {
  sound = Sound-add i s x fs fs' sound f slots bits;
  slots = λ h. slots;
  failed = λ h. absurd (nz h);
  kept = λ h. absurd (h z);
  grows = l;
}

-- A free block is not the boot block, nor one that the inode holds.
fresh_of :
    (i x : ℕ) (fs : Fs)
    → Sound i fs
    → bit x fs ≡ false
    → (x ≢ 0) × ((s : ℕ) → s < nslots → slot_of i s fs ≢ 0 → slot_of i s fs ≢ x)
fresh_of i x fs sound f = (
  λ e. let b = sound.boot in let v = rw e at f in absurd (cc),
  λ s lt nz e. let u = sound.used s lt nz in let v = rw e at u in absurd (cc),
)

get_addr-Filled : (i k : ℕ) (fs : Fs) → Sound i fs → k < 13 → Filled i k fs (get_addr i k fs)
unfolding get_addr
get_addr-Filled i k fs sound lt = elim (Bool-cases ((fs.inodes i).addrs k == 0)) [
  | inr e ↦
      let in_front : ltb k 13 ≡ true = ground arith in
      let q : slot_of i k fs ≡ (fs.inodes i).addrs k = rw in_front in
      let old = Filled-old i k fs sound (rw q (ground arith)) in rw (e, get_addr) (rw q at old)
  | inl e ↦
      let in_front : ltb k 13 ≡ true = ground arith in
      let q : slot_of i k fs ≡ (fs.inodes i).addrs k = rw in_front in
      let none_there : slot_of i k fs ≡ 0 = q ∙ ground arith in
      elim (alloc_cases fs) [
        | inl (b, all) ↦ rw (e, b, get_addr) (Filled-full i k fs sound none_there all)
        | inr (x, b, l, f) ↦
            let fs' = bzero x (log_block (bblock x fs) (set_bit x true fs)) in
            let (nz, new) = fresh_of i x fs sound f in
            let z : (x == 0) ≡ false = ground arith in
            let same : (i == i) ≡ true = ground arith in
            let k0 : (fs.inodes i).addrs k ≡ 0 = ground arith in
            rw (e, b, z, get_addr)
              (Filled-new i k x fs (set_addr i k x fs') sound f nz none_there
                (λ t tl.
                  rw same
                    (slot-new_addr (fs.inodes i).addrs fs.words x k t lt k0 (new 12 (omega arith))))
                (λ y. bit-set_bit x y true fs) (omega arith))
      ]
]

get_word-Filled :
    (i j : ℕ) (fs : Fs)
    → Sound i fs
    → (fs.inodes i).addrs 12 ≢ 0
    → j < nindirect
    → Filled i (13 + j) fs (get_word ((fs.inodes i).addrs 12) j fs)
unfolding get_word
get_word-Filled i j fs sound nz12 lt =
    let b = (fs.inodes i).addrs 12 in
    let behind : ltb (13 + j) 13 ≡ false = ground arith in
    let some_block : (b == 0) ≡ false = ground arith in
    let at : 13 + j - 13 ≡ j = omega arith in
    let q : slot_of i (13 + j) fs ≡ fs.words b j = rw (behind, some_block, at) in
    elim (Bool-cases (fs.words b j == 0)) [
      | inr e ↦
          let old = Filled-old i (13 + j) fs sound (rw q (ground arith)) in
          rw (e, get_word) (rw q at old)
      | inl e ↦
          let none_there : slot_of i (13 + j) fs ≡ 0 = q ∙ ground arith in
          elim (alloc_cases fs) [
            | inl (a, all) ↦ rw (e, a, get_word) (Filled-full i (13 + j) fs sound none_there all)
            | inr (x, a, l, f) ↦
                let fs' = bzero x (log_block (bblock x fs) (set_bit x true fs)) in
                let (nz, new) = fresh_of i x fs sound f in
                let z : (x == 0) ≡ false = ground arith in
                rw (e, a, z, get_word)
                  (Filled-new i (13 + j) x fs (log_block b (set_word b j x fs')) sound f nz
                    none_there
                    (λ t tl.
                      slot-new_word (fs.inodes i).addrs fs.words x j t nz12
                        (new 12 (omega arith) nz12))
                    (λ y. bit-set_bit x y true fs) (omega arith))
          ]
    ]

-- What `bmap` for block `bn` makes of the state.
pub record Mapped (i bn : ℕ) (fs : Fs) (r : ℕ × Fs) : Type 0 where
  pub sound : Sound i r.1
  pub here : r.0 ≢ 0 → slot_of i (place bn) r.1 ≡ r.0
  pub others : (t : ℕ) → t < nslots → t ≢ place bn → t ≢ 12 → slot_of i t r.1 ≡ slot_of i t fs
  pub failed : r.0 ≡ 0 → (k : ℕ) → k < r.1.size → bit k r.1 ≡ true
  pub kept : slot_of i (place bn) fs ≢ 0 → r ≡ (slot_of i (place bn) fs, fs)
  pub index : slot_of i 12 fs ≢ 0 → slot_of i 12 r.1 ≡ slot_of i 12 fs
  pub grows : length r.1.logged ≤ length fs.logged + 6

Filled-others :
    (i s t : ℕ) (fs : Fs) (r : ℕ × Fs)
    → Filled i s fs r
    → t < nslots
    → t ≢ s
    → slot_of i t r.1 ≡ slot_of i t fs
Filled-others i s t fs r fill lt ne = elim (Bool-cases (r.0 == 0)) [
  | inl e ↦ let q = (fill.failed (ground arith)).0 in ap (slot_of i t) q
  | inr e ↦
      let f : (t == s) ≡ false = ground arith in let x = fill.slots (ground arith) t lt in rw f at x
]

Filled-here :
    (i s : ℕ) (fs : Fs) (r : ℕ × Fs)
    → Filled i s fs r
    → s < nslots
    → r.0 ≢ 0
    → slot_of i s r.1 ≡ r.0
Filled-here i s fs r fill lt nz =
    let f : (s == s) ≡ true = ground arith in let x = fill.slots nz s lt in rw f at x

Filled-full_after :
    (i s : ℕ) (fs : Fs) (r : ℕ × Fs)
    → Filled i s fs r
    → r.0 ≡ 0
    → (k : ℕ) → k < r.1.size
    → bit k r.1 ≡ true
Filled-full_after i s fs r fill z k lt =
    let (q, all) = fill.failed z in ap (bit k) q ∙ all k (rw (ap (λ x. x.size) q) at lt)

-- One place was filled.
Mapped-once :
    (i bn s : ℕ) (fs : Fs) (r : ℕ × Fs)
    → s < nslots
    → (slot_of i 12 fs ≡ 0 → place bn ≢ s → slot_of i (place bn) fs ≡ 0)
    → (place bn ≡ s) ⊎ (s ≡ 12) × (r.0 ≡ 0)
    → Filled i s fs r
    → Mapped i bn fs r
Mapped-once i bn s fs r lt behind at fill = record {
  sound = fill.sound;
  here = λ nz. placed nz at;
  others = λ t tl ne ne12. Filled-others i s t fs r fill tl (apart t ne ne12 at);
  failed = Filled-full_after i s fs r fill;
  kept = λ nz. there nz at;
  index = λ nz. elim (Bool-cases (s == 12)) [
    | inl e ↦
        let q : s ≡ 12 = ground arith in
        ap (λ u. slot_of i 12 u.1) (fill.kept (λ z. nz (ap (λ u. slot_of i u fs) (sym q) ∙ z)))
    | inr e ↦ Filled-others i s 12 fs r fill (omega arith) (ground arith)
  ];
  grows = let g = fill.grows in omega arith;
}
  where
    placed : r.0 ≢ 0 → (place bn ≡ s) ⊎ (s ≡ 12) × (r.0 ≡ 0) → slot_of i (place bn) r.1 ≡ r.0
    placed nz (inl q) = rw q (Filled-here i s fs r fill lt nz)
    placed nz (inr (q, z)) = absurd (nz z)

    there :
        slot_of i (place bn) fs ≢ 0
        → (place bn ≡ s) ⊎ (s ≡ 12) × (r.0 ≡ 0)
        → r ≡ (slot_of i (place bn) fs, fs)
    there nz (inl q) = rw q (fill.kept (rw q at nz))
    there nz (inr (q, z)) = elim (Bool-cases (slot_of i 12 fs == 0)) [
      | inl e ↦ absurd (elim (Bool-cases (place bn == s)) [
        | inl f ↦
            let g : place bn ≡ 12 = ground arith in nz (ap (λ u. slot_of i u fs) g ∙ ground arith)
        | inr f ↦ nz (behind (ground arith) (ground arith))
      ])
      | inr e ↦
          let full : slot_of i s fs ≢ 0 = rw q (ground arith) in
          let f : r.0 ≡ slot_of i s fs = ap (λ u. u.0) (fill.kept full) in absurd (full (sym f ∙ z))
    ]

    apart : (t : ℕ) → t ≢ place bn → t ≢ 12 → (place bn ≡ s) ⊎ (s ≡ 12) × (r.0 ≡ 0) → t ≢ s
    apart t ne ne12 (inl q) = rw q at ne
    apart t ne ne12 (inr (q, z)) = omega arith

-- The indirect block, and then a place of it.
Mapped-twice :
    (i bn s : ℕ) (fs : Fs) (r r' : ℕ × Fs)
    → place bn ≡ s
    → s < nslots
    → 12 < s
    → (slot_of i 12 fs ≡ 0 → slot_of i s fs ≡ 0)
    → r.0 ≢ 0
    → Filled i 12 fs r
    → Filled i s r.1 r'
    → Mapped i bn fs r'
Mapped-twice i bn s fs r r' q lt late behind nz fill fill' = record {
  sound = fill'.sound;
  here = λ nz'. rw q (Filled-here i s r.1 r' fill' lt nz');
  others = λ t tl ne ne12.
      Filled-others i s t r.1 r' fill' tl (rw q at ne) ∙ Filled-others i 12 t fs r fill tl ne12;
  failed = Filled-full_after i s r.1 r' fill';
  kept = λ full.
      let full' : slot_of i s fs ≢ 0 = rw q at full in
      let e = fill.kept (λ z. full' (behind z)) in
      let same : r.1 ≡ fs = ap (λ u. u.1) e in
      let f = fill'.kept (λ z. full' (ap (slot_of i s) (sym same) ∙ z)) in
      rw q (f ∙ ap (λ u. (slot_of i s u, u)) same);
  index = λ full.
      Filled-others i s 12 r.1 r' fill' (omega arith) (omega arith)
      ∙ ap (λ u. slot_of i 12 u.1) (fill.kept full);
  grows = let g = fill.grows in let g' = fill'.grows in omega arith;
}

second_level :
    (i bn : ℕ) (fs : Fs) (r : ℕ × Fs)
    → bn < ndirect + nindirect
    → ndirect ≤ bn
    → Filled i 12 fs r
    → Mapped i bn fs (from_indirect (bn - ndirect) r)
second_level i bn fs (addr, fs1) lt ge fill =
    let late : ltb bn ndirect ≡ false = ground arith in
    let q : place bn ≡ 13 + (bn - ndirect) = rw late (omega arith) in
    let beyond : ltb (13 + (bn - ndirect)) 13 ≡ false = ground arith in
    let no_block : slot_of i 12 fs ≡ 0 → slot_of i (13 + (bn - ndirect)) fs ≡ 0 = λ z.
      let f : ((fs.inodes i).addrs 12 == 0) ≡ true = ground (arith, z) in rw (beyond, f) refl in
    elim (Bool-cases (addr == 0)) [
      | inl e ↦
          let z : addr ≡ 0 = ground arith in
          rw e (
            Mapped-once i bn 12 fs (0, fs1) (omega arith)
              (λ none_there ne. rw q (no_block none_there)) (inr (refl, refl)) (rw z at fill))
      | inr e ↦
          let nz : addr ≢ 0 = ground arith in
          let at : (fs1.inodes i).addrs 12 ≡ addr =
            Filled-here i 12 fs (addr, fs1) fill (omega arith) nz in
          let word = get_word-Filled i (bn - ndirect) fs1 fill.sound (rw at nz) (omega arith) in
          rw e (
            Mapped-twice i bn (13 + (bn - ndirect)) fs (addr, fs1)
              (get_word addr (bn - ndirect) fs1) q (omega arith) (omega arith) no_block nz fill
              (rw at at word))
    ]

-- For a block number in range `bmap` does not panic. It keeps the inode's blocks in use and distinct.
-- It returns the number that the map of the file holds then for this block, or 0, and then every
-- block of the disk is in use. A number that the map held already it returns, and changes nothing.
-- The numbers of all other blocks of the file stay as they were, and at most 6 blocks are given to
-- `log_write`.
pub bmap-Mapped :
    (i bn : ℕ) (fs : Fs)
    → Sound i fs
    → bn < ndirect + nindirect
    → (r : ℕ × Fs) × (bmap i bn fs ≡ ok r) × Mapped i bn fs r
unfolding bmap
bmap-Mapped i bn fs sound lt = elim (Bool-cases (ltb bn ndirect)) [
  | inl e ↦
      let q : place bn ≡ bn = rw e in
      let fill = get_addr-Filled i bn fs sound (ground arith) in
      (
        get_addr i bn fs,
        rw e refl,
        Mapped-once i bn bn fs (get_addr i bn fs) (ground arith) (λ z ne. absurd (ne q)) (inl q)
            fill,
      )
  | inr e ↦
      let ge : ndirect ≤ bn = ground arith in
      let inside : ltb (bn - ndirect) nindirect ≡ true = ground arith in
      (
        from_indirect (bn - ndirect) (get_addr i ndirect fs),
        rw (e, inside) refl,
        second_level i bn fs (get_addr i ndirect fs) lt ge
            (get_addr-Filled i 12 fs sound (omega arith)),
      )
]
