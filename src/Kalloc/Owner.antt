-- ===== src/Kalloc/Owner.antt =====
-- Who holds which page: any sequence of `kalloc` and of `kfree` of pages that were handed out.
use mit_lab.Base.{
  ℕ, ◌+◌, ◌≤◌, ◌⊎◌, ◌<◌, ◌≡◌, ap, ◌≢◌, inl, inr, Bool, true, false, List, [], ◌∷◌, All, arith, ok,
  ◌==◌, update, Bool-cases,
}
use mit_lab.Kalloc.{pgsize, Kmem, kfree, kalloc}
use mit_lab.Kalloc.Chain.{Chain-frame, IsPage, IsFree, kfree_lem, kalloc-cons, kalloc-nil}

-- The allocator, and the pages that callers hold.
pub record Sys : Type 0 where
  pub k : Kmem
  pub held : ℕ → Bool

module _ (kernel_end : ℕ) where
  -- `kalloc`, `kfree` of a held page, and a holder that writes to its page as it likes.
  pub data Step (s : Sys) : Sys → Type 0 where
    alloc :
        (kalloc s.k).0 ≢ 0
        → Step s (record { k = (kalloc s.k).1; held = update s.held (kalloc s.k).0 true })
    free :
        (pa : ℕ) {k : Kmem}
        → s.held pa ≡ true
        → kfree kernel_end pa s.k ≡ ok k
        → Step s (record { k = k; held = update s.held pa false })
    write :
        (pa : ℕ) (mem : ℕ → ℕ)
        → s.held pa ≡ true
        → ((a : ℕ) → (a < pa) ⊎ (pa + pgsize ≤ a) → mem a ≡ s.k.mem a)
        → Step s (record s { k = record s.k { mem = mem } })

  pub data Reach (s : Sys) : Sys → Type 0 where
    here : Reach s s
    next : {t u : Sys} → Reach s t → Step t u → Reach s u

  pub record Apart (s : Sys) : Type 0 where
    pub xs : List ℕ
    pub is_free : IsFree kernel_end s.k xs
    pub unheld : All (λ x. s.held x ≡ false) xs
    pub pages : (pa : ℕ) → s.held pa ≡ true → IsPage kernel_end pa

  unheld-ne :
      (s : Sys) (pa : ℕ) (xs : List ℕ)
      → s.held pa ≡ true
      → All (λ x. s.held x ≡ false) xs
      → All (λ x. x ≢ pa) xs
  unheld-ne s pa [] h a = tt
  unheld-ne s pa (x ∷ xs) h a = (ground (arith, a.0), unheld-ne s pa xs h a.1)

  unheld-update :
      (held : ℕ → Bool) (pa : ℕ) (b : Bool) (xs : List ℕ)
      → All (λ x. x ≢ pa) xs
      → All (λ x. held x ≡ false) xs
      → All (λ x. update held pa b x ≡ false) xs
  unheld-update held pa b [] ne a = tt
  unheld-update held pa b (x ∷ xs) ne a =
      (ground (arith, ne.0, a.0), unheld-update held pa b xs ne.1 a.1)

  alloc-Apart :
      (s : Sys)
      → (kalloc s.k).0 ≢ 0
      → (xs : List ℕ) → IsFree kernel_end s.k xs
      → All (λ x. s.held x ≡ false) xs
      → ((pa : ℕ) → s.held pa ≡ true → IsPage kernel_end pa)
      → Apart (record { k = (kalloc s.k).1; held = update s.held (kalloc s.k).0 true })
        × (s.held (kalloc s.k).0 ≡ false)
        × IsPage kernel_end (kalloc s.k).0
  alloc-Apart s got [] is_free unheld pages =
      absurd (got (ap (λ r. r.0) (kalloc-nil kernel_end s.k is_free)))
  alloc-Apart s got (x ∷ xs) is_free unheld pages =
      let (at, rest, same) = kalloc-cons kernel_end s.k x xs is_free in
      let page : IsPage kernel_end (kalloc s.k).0 = rw at is_free.pages.0 in
      (
        record {
          xs = xs;
          is_free = rest;
          unheld = rw at (unheld-update s.held x true xs is_free.distinct.0 unheld.1);
          pages = λ pa h. elim (Bool-cases (pa == (kalloc s.k).0)) [
            | inl e ↦ let q : pa ≡ (kalloc s.k).0 = ground arith in rw q page
            | inr e ↦ pages pa (ground arith)
          ];
        },
        rw at unheld.0,
        page,
      )

  module _ (nonzero : 0 < kernel_end) where
    free-Apart :
        (s : Sys) (pa : ℕ) (k : Kmem)
        → s.held pa ≡ true
        → kfree kernel_end pa s.k ≡ ok k
        → Apart s
        → Apart (record { k = k; held = update s.held pa false })
    free-Apart s pa k h e a =
        let others = unheld-ne s pa a.xs h a.unheld in
        let (k', e', free', same) =
          kfree_lem kernel_end pa s.k a.xs nonzero (a.pages pa h) others a.is_free in
        let q : k' ≡ k = ground (arith, e, e') in
        record {
          xs = pa ∷ a.xs;
          is_free = rw q at free';
          unheld = (ground arith, unheld-update s.held pa false a.xs others a.unheld);
          pages = λ b hb. a.pages b (ground arith);
        }

    Step-Apart : {s t : Sys} → Step s t → Apart s → Apart t
    Step-Apart {s} (alloc got) a = (alloc-Apart s got a.xs a.is_free a.unheld a.pages).0
    Step-Apart {s} (free pa {k} h e) a = free-Apart s pa k h e a
    Step-Apart {s} (write pa mem h same) a = record {
      xs = a.xs;
      is_free = record {
        chain =
            Chain-frame kernel_end pa s.k.freelist a.xs s.k.mem mem (a.pages pa h).0 same
              a.is_free.pages (unheld-ne s pa a.xs h a.unheld) a.is_free.chain;
        pages = a.is_free.pages;
        distinct = a.is_free.distinct;
      };
      unheld = a.unheld;
      pages = a.pages;
    }

    Reach-Apart : {s t : Sys} → Apart s → Reach s t → Apart t
    Reach-Apart a here = a
    Reach-Apart a (next r st) = Step-Apart st (Reach-Apart a r)

    -- From a state in which no free page is held, after any sequence of `kalloc`s, of `kfree`s of
    -- held pages and of writes of holders to their pages: what `kalloc` returns is 0 or a page of the
    -- allocator's range that nobody holds, and `kfree` of a held page does not panic.
    pub kalloc-unheld :
        {s t : Sys}
        → Apart s
        → Reach s t
        → (((kalloc t.k).0 ≢ 0)
            → (t.held (kalloc t.k).0 ≡ false) × IsPage kernel_end (kalloc t.k).0)
          × ((pa : ℕ) → t.held pa ≡ true → (k : Kmem) × (kfree kernel_end pa t.k ≡ ok k))
    kalloc-unheld {t} start r =
        let a = Reach-Apart start r in
        (
          λ got. let (b, c, d) = alloc-Apart t got a.xs a.is_free a.unheld a.pages in (c, d),
          λ pa h.
              let (k, e, f, g) =
                kfree_lem kernel_end pa t.k a.xs nonzero (a.pages pa h)
                  (unheld-ne t pa a.xs h a.unheld) a.is_free in
              (k, e),
        )
