-- ===== src/Kalloc/Chain.antt =====
-- The free list as a list of pages, and what `kfree` and `kalloc` do to it.
use mit_lab.Base.{
  ℕ, ◌+◌, ◌%◌, ◌≤◌, ◌<◌, ◌≡◌, refl, ◌≢◌, ◌⊎◌, inl, inr, false, ◌||◌, not, List, [], ◌∷◌, All, arith,
  ok, panic, ltb, leb, ◌==◌, update, Bool-cases,
}
use mit_lab.Kalloc.{pgsize, phystop, Kmem, fill_page, kfree, kalloc}

-- A page that the allocator may hold.
abbrev pub IsPage : (kernel_end pa : ℕ) → Type 0
IsPage kernel_end pa = (pa % pgsize ≡ 0) × (kernel_end ≤ pa) × (pa < phystop)

-- From `p` the `next` pointers lead through the pages `xs` to the null pointer.
abbrev pub Chain : (ℕ → ℕ) → ℕ → List ℕ → Type 0
Chain mem p [] = p ≡ 0
Chain mem p (x ∷ xs) = (p ≡ x) × (x ≢ 0) × Chain mem (mem x) xs

abbrev pub Distinct : List ℕ → Type 0
Distinct [] = Unit
Distinct (x ∷ xs) = All (λ y. y ≢ x) xs × Distinct xs

-- The free pages are `xs`, in the order of the list, none of them twice.
pub record IsFree (kernel_end : ℕ) (k : Kmem) (xs : List ℕ) : Type 0 where
  pub chain : Chain k.mem k.freelist xs
  pub pages : All (IsPage kernel_end) xs
  pub distinct : Distinct xs

-- Writes into page `pa` leave a list of other pages as it is.
pub Chain-frame :
    (kernel_end pa p : ℕ) (xs : List ℕ) (mem mem' : ℕ → ℕ)
    → pa % pgsize ≡ 0
    → ((a : ℕ) → (a < pa) ⊎ (pa + pgsize ≤ a) → mem' a ≡ mem a)
    → All (IsPage kernel_end) xs
    → All (λ y. y ≢ pa) xs
    → Chain mem p xs
    → Chain mem' p xs
Chain-frame kernel_end pa p [] mem mem' al same pages others c = c
Chain-frame kernel_end pa p (x ∷ xs) mem mem' al same pages others c =
    let e : mem' x ≡ mem x = same x (apart (pages.0.0) others.0) in
    (c.0, c.1, rw e (Chain-frame kernel_end pa (mem x) xs mem mem' al same pages.1 others.1 c.2))
  where
    apart : x % pgsize ≡ 0 → x ≢ pa → (x < pa) ⊎ (pa + pgsize ≤ x)
    apart h ne = omega arith

module _ (kernel_end : ℕ) where
  -- `kfree` of a page that is not free puts it in front of the free pages; it changes no memory
  -- outside the page.
  pub kfree_lem :
      (pa : ℕ) (k : Kmem) (xs : List ℕ)
      → 0 < kernel_end
      → IsPage kernel_end pa
      → All (λ y. y ≢ pa) xs
      → IsFree kernel_end k xs
      → (k' : Kmem) × (kfree kernel_end pa k ≡ ok k')
        × IsFree kernel_end k' (pa ∷ xs)
        × ((a : ℕ) → (a < pa) ⊎ (pa + pgsize ≤ a) → k'.mem a ≡ k.mem a)
  unfolding kfree
  kfree_lem pa k xs nonzero page others free =
      let mem' : ℕ → ℕ = update (fill_page pa 0x0101010101010101 k.mem) pa k.freelist in
      let same : (a : ℕ) → (a < pa) ⊎ (pa + pgsize ≤ a) → mem' a ≡ k.mem a =
        λ a out. ground arith in
      let head : mem' pa ≡ k.freelist = ground arith in
      (
        record { freelist = pa; mem = mem' },
        ground (arith, page.0, page.1, page.2),
        record {
          chain = (
            refl,
            omega (arith, page.1),
            rw head (
                Chain-frame kernel_end pa k.freelist xs k.mem mem' page.0 same free.pages others
                  free.chain),
          );
          pages = (page, free.pages);
          distinct = (others, free.distinct);
        },
        same,
      )

  -- `kfree` of any other address panics.
  pub kfree-panic : (pa : ℕ) (k : Kmem) → ¬ IsPage kernel_end pa → kfree kernel_end pa k ≡ panic
  unfolding kfree
  kfree-panic pa k h =
      elim (Bool-cases (not (pa % pgsize == 0) || ltb pa kernel_end || leb phystop pa)) [
        | inl bad ↦ rw bad
        | inr fine ↦ absurd (h (ground arith, ground arith, ground arith))
      ]

  -- `kalloc` takes the first free page, and changes no memory outside it.
  pub kalloc-cons :
      (k : Kmem) (x : ℕ) (xs : List ℕ)
      → IsFree kernel_end k (x ∷ xs)
      → ((kalloc k).0 ≡ x)
        × IsFree kernel_end (kalloc k).1 xs
        × ((a : ℕ) → (a < x) ⊎ (x + pgsize ≤ a) → (kalloc k).1.mem a ≡ k.mem a)
  unfolding kalloc
  kalloc-cons k x xs free =
      let at : k.freelist ≡ x = free.chain.0 in
      let some_page : (k.freelist == 0) ≡ false = ground (arith, free.chain.1) in
      let mem' : ℕ → ℕ = fill_page x 0x0505050505050505 k.mem in
      let same : (a : ℕ) → (a < x) ⊎ (x + pgsize ≤ a) → mem' a ≡ k.mem a = λ a out. ground arith in
      rw (some_page, at)
        (
          refl,
          record {
            chain =
                Chain-frame kernel_end x (k.mem x) xs k.mem mem' free.pages.0.0 same free.pages.1
                  free.distinct.0 free.chain.2;
            pages = free.pages.1;
            distinct = free.distinct.1;
          },
          same,
        )

  -- With no free page `kalloc` returns 0 and changes nothing.
  pub kalloc-nil : (k : Kmem) → IsFree kernel_end k [] → kalloc k ≡ (0, k)
  unfolding kalloc
  kalloc-nil k free = ground (arith, free.chain)
