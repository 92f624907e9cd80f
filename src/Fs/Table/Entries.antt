-- ===== src/Fs/Table/Entries.antt =====
-- What `iget` finds, and that the other operations leave the names of the entries alone.
use mit_lab.Base.{
  ℕ, zero, suc, ◌+◌, ◌≤◌, ◌<◌, ◌≡◌, refl, sym, ap, subst, ◌∙◌, ◌≢◌, inl, inr, true, false, ◌&&◌,
  Option, none, some, ok, ok_inj, some_inj, arith, ◌==◌, Bool-cases, Run-cases, update,
}
use mit_lab.Fs.{Inode, Fs, set_inode}
use mit_lab.Fs.Alloc.{bfree}
use mit_lab.Fs.Map.{trunc_direct, trunc_indirect, trunc_last, iupdate, itrunc, set_addr}
use mit_lab.Fs.Table.{is_entry, hit, miss, or_here, scan, iput_free, is_none}

pub is_entry_of :
    (dev inum : ℕ) (ip : Inode)
    → ip.ref ≢ 0
    → ip.dev ≡ dev
    → ip.inum ≡ inum
    → is_entry dev inum ip ≡ true
is_entry_of dev inum ip r d n = ground arith

-- An entry found.
pub scan-hit :
    (dev inum r i j : ℕ) (free : Option ℕ) (inodes : ℕ → Inode)
    → scan dev inum r i free inodes ≡ hit j
    → (j < i + r) × (is_entry dev inum (inodes j) ≡ true)
unfolding scan
scan-hit dev inum zero i j free inodes h = cc
scan-hit dev inum (suc r) i j free inodes h = elim (Bool-cases (is_entry dev inum (inodes i))) [
  | inl e ↦ ground arith
  | inr e ↦ ground (arith, scan-hit dev inum r (i + 1) j (or_here free i (inodes i).ref) inodes)
]

-- No entry found.
pub scan-miss :
    (dev inum r i k : ℕ) (free o : Option ℕ) (inodes : ℕ → Inode)
    → scan dev inum r i free inodes ≡ miss o
    → i ≤ k
    → k < i + r
    → is_entry dev inum (inodes k) ≡ false
unfolding scan
scan-miss dev inum zero i k free o inodes h a b = absurd (omega arith)
scan-miss dev inum (suc r) i k free o inodes h a b =
    elim (Bool-cases (is_entry dev inum (inodes i))) [
      | inl e ↦ absurd (ground arith)
      | inr e ↦ elim (Bool-cases (i == k)) [
        | inl q ↦ let s : i ≡ k = ground arith in rw (← s) e
        | inr q ↦
            scan-miss dev inum r (i + 1) k (or_here free i (inodes i).ref) o inodes (ground arith)
              (ground arith) (omega arith)
      ]
    ]

-- The entry that is free.
unfoldable pub IsFree : (i : ℕ) → (ℕ → Inode) → Option ℕ → Type 0
IsFree i inodes none = Unit
IsFree i inodes (some e) = (e < i) × ((inodes e).ref ≡ 0)

IsFree-or_here :
    (i : ℕ) (inodes : ℕ → Inode) (free : Option ℕ)
    → IsFree i inodes free
    → IsFree (i + 1) inodes (or_here free i (inodes i).ref)
unfolding IsFree
IsFree-or_here i inodes (some e) (l, z) = (omega arith, z)
IsFree-or_here i inodes none f = elim (Bool-cases ((inodes i).ref == 0)) [
  | inl e ↦ rw e (omega arith, ground arith)
  | inr e ↦ rw e tt
]

pub scan-free :
    (dev inum r i : ℕ) (free o : Option ℕ) (inodes : ℕ → Inode)
    → scan dev inum r i free inodes ≡ miss o
    → IsFree i inodes free
    → IsFree (i + r) inodes o
unfolding scan IsFree
scan-free dev inum zero i free none inodes h f = tt
scan-free dev inum zero i none (some e) inodes h f = cc
scan-free dev inum zero i (some e') (some e) inodes h f = ground arith
scan-free dev inum (suc r) i free o inodes h f = elim (Bool-cases (is_entry dev inum (inodes i))) [
  | inl e ↦ absurd (ground arith)
  | inr e ↦
      let x =
        scan-free dev inum r (i + 1) (or_here free i (inodes i).ref) o inodes (ground arith)
          (IsFree-or_here i inodes free f) in
      subst (λ n. IsFree n inodes o) (omega arith) x
]

-- Every entry keeps its device, its number and its count.
unfoldable pub Named : Fs → Fs → Type 0
Named fs fs' =
    (j : ℕ)
    → ((fs'.inodes j).dev ≡ (fs.inodes j).dev)
      × ((fs'.inodes j).inum ≡ (fs.inodes j).inum)
      × ((fs'.inodes j).ref ≡ (fs.inodes j).ref)

Named-same : (fs fs' : Fs) → fs'.inodes ≡ fs.inodes → Named fs fs'
unfolding Named
Named-same fs fs' e j = (ap (λ n. (n j).dev) e, ap (λ n. (n j).inum) e, ap (λ n. (n j).ref) e)

Named-trans : (a b c : Fs) → Named a b → Named b c → Named a c
unfolding Named
Named-trans a b c p q j = let (d, n, r) = p j in let (d', n', r') = q j in (d' ∙ d, n' ∙ n, r' ∙ r)

-- A change of other fields.
pub Named-set :
    (i : ℕ) (ip : Inode) (fs : Fs)
    → ip.dev ≡ (fs.inodes i).dev
    → ip.inum ≡ (fs.inodes i).inum
    → ip.ref ≡ (fs.inodes i).ref
    → Named fs (set_inode i ip fs)
unfolding Named
Named-set i ip fs d n r j = elim (Bool-cases (j == i)) [
  | inl e ↦ let q : j ≡ i = ground arith in rw (e, q) (d, n, r)
  | inr e ↦ rw e (refl, refl, refl)
]

inodes-bfree : (b : ℕ) (fs fs' : Fs) → bfree b fs ≡ ok fs' → fs'.inodes ≡ fs.inodes
unfolding bfree
inodes-bfree b fs fs' h = ground arith

inodes-trunc_indirect :
    (b r j : ℕ) (fs fs' : Fs) → trunc_indirect b r j fs ≡ ok fs' → fs'.inodes ≡ fs.inodes
unfolding trunc_indirect
inodes-trunc_indirect b zero j fs fs' h = ap (λ x. x.inodes) (sym (ok_inj h))
inodes-trunc_indirect b (suc r) j fs fs' h = elim (Bool-cases (fs.words b j == 0)) [
  | inl e ↦ inodes-trunc_indirect b r (j + 1) fs fs' (rw (e, trunc_indirect) at h)
  | inr e ↦ elim (Run-cases (bfree (fs.words b j) fs)) [
    | inl p ↦ let x = rw (e, p, trunc_indirect) at h in absurd (cc)
    | inr (fs1, q) ↦
        inodes-trunc_indirect b r (j + 1) fs1 fs' (rw (e, q, trunc_indirect) at h)
        ∙ inodes-bfree (fs.words b j) fs fs1 q
  ]
]

Named-trunc_direct : (i r k : ℕ) (fs fs' : Fs) → trunc_direct i r k fs ≡ ok fs' → Named fs fs'
unfolding trunc_direct
Named-trunc_direct i zero k fs fs' h = Named-same fs fs' (ap (λ x. x.inodes) (sym (ok_inj h)))
Named-trunc_direct i (suc r) k fs fs' h = elim (Bool-cases ((fs.inodes i).addrs k == 0)) [
  | inl e ↦ Named-trunc_direct i r (k + 1) fs fs' (rw (e, trunc_direct) at h)
  | inr e ↦ elim (Run-cases (bfree ((fs.inodes i).addrs k) fs)) [
    | inl p ↦ let x = rw (e, p, trunc_direct) at h in absurd (cc)
    | inr (fs1, q) ↦
        let fs2 = set_addr i k 0 fs1 in
        Named-trans fs fs1 fs' (Named-same fs fs1 (inodes-bfree ((fs.inodes i).addrs k) fs fs1 q)) (
          Named-trans fs1 fs2 fs'
            (Named-set i (record (fs1.inodes i) { addrs = update (fs1.inodes i).addrs k 0 }) fs1
              refl refl refl)
            (Named-trunc_direct i r (k + 1) fs2 fs' (rw (e, q, trunc_direct) at h)))
  ]
]

Named-trunc_last : (i : ℕ) (fs fs' : Fs) → trunc_last i fs ≡ ok fs' → Named fs fs'
Named-trunc_last i fs fs' h =
    let b = (fs.inodes i).addrs 12 in
    elim (Bool-cases (b == 0)) [
      | inl e ↦ Named-same fs fs' (ap (λ x. x.inodes) (sym (ok_inj (rw e at h))))
      | inr e ↦ elim (Run-cases (trunc_indirect b 256 0 fs)) [
        | inl p ↦ let x = rw (e, p) at h in absurd (cc)
        | inr (fs1, q) ↦ elim (Run-cases (bfree b fs1)) [
          | inl p ↦ let x = rw (e, q, p) at h in absurd (cc)
          | inr (fs2, q2) ↦
              let x = rw (e, q, q2) at h in
              let n1 = Named-same fs fs1 (inodes-trunc_indirect b 256 0 fs fs1 q) in
              let n2 = Named-same fs1 fs2 (inodes-bfree b fs1 fs2 q2) in
              let n3 =
                Named-set i (record (fs2.inodes i) { addrs = update (fs2.inodes i).addrs 12 0 }) fs2
                  refl refl refl in
              rw (← (ok_inj x))
                (Named-trans fs fs2 (set_addr i 12 0 fs2) (Named-trans fs fs1 fs2 n1 n2) n3)
        ]
      ]
    ]

-- `itrunc` keeps the names of all entries.
pub Named-itrunc : (i : ℕ) (fs fs' : Fs) → itrunc i fs ≡ ok fs' → Named fs fs'
unfolding itrunc iupdate Named
Named-itrunc i fs fs' h = elim (Run-cases (trunc_direct i 12 0 fs)) [
  | inl p ↦ let x = rw p at h in absurd (cc)
  | inr (fs1, q) ↦ elim (Run-cases (trunc_last i fs1)) [
    | inl p ↦ let x = rw (q, p) at h in absurd (cc)
    | inr (fs2, q2) ↦
        let x = rw (q, q2) at h in
        let fs3 = set_inode i (record (fs2.inodes i) { size = 0 }) fs2 in
        rw (← (ok_inj x)) (
          Named-trans fs fs2 fs3
            (Named-trans fs fs1 fs2 (Named-trunc_direct i 12 0 fs fs1 q)
              (Named-trunc_last i fs1 fs2 q2))
            (Named-set i (record (fs2.inodes i) { size = 0 }) fs2 refl refl refl))
  ]
]

-- So does the freeing part of `iput`.
pub Named-iput_free : (i : ℕ) (fs fs' : Fs) → iput_free i fs ≡ ok (some fs') → Named fs fs'
unfolding iput_free iupdate Named
Named-iput_free i fs fs' h =
    let ip = fs.inodes i in
    elim (Bool-cases ((ip.ref == 1) && (ip.valid && (ip.nlink == 0)))) [
      | inr e ↦
          let x = rw (e, iput_free) at h in
          Named-same fs fs' (ap (λ y. y.inodes) (sym (some_inj (ok_inj x))))
      | inl e ↦ elim (Bool-cases (is_none ip.holder)) [
        | inr g ↦ let x = rw (e, g, iput_free) at h in let y = ok_inj x in absurd (cc)
        | inl g ↦ elim (Run-cases (itrunc i fs)) [
          | inl p ↦ let x = rw (e, g, p, iput_free) at h in absurd (cc)
          | inr (fs1, q) ↦
              let x = rw (e, g, q, iput_free) at h in
              let fs2 = set_inode i (record (fs1.inodes i) { ty = 0 }) fs1 in
              let fs3 = set_inode i (record (fs2.inodes i) { valid = false; holder = none }) fs2 in
              rw (← (some_inj (ok_inj x))) (
                Named-trans fs fs1 fs3 (Named-itrunc i fs fs1 q) (
                  Named-trans fs1 fs2 fs3
                    (Named-set i (record (fs1.inodes i) { ty = 0 }) fs1 refl refl refl)
                    (Named-set i (record (fs2.inodes i) { valid = false; holder = none }) fs2 refl
                      refl refl)))
        ]
      ]
    ]
