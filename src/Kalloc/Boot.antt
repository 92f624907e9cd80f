-- ===== src/Kalloc/Boot.antt =====
-- `kinit`: which pages are free after the start.
use mit_lab.Base.{
  ℕ, zero, suc, ◌+◌, ◌*◌, ◌/◌, ◌%◌, ◌≤◌, ◌<◌, ◌≡◌, refl, ◌≢◌, inl, inr, ◌↔◌, Bool, true, false,
  ◌&&◌, ◌||◌, List, [], ◌∷◌, All, arith, Run, ok, leb, ◌==◌, Bool-cases,
}
use mit_lab.Kalloc.{pgsize, phystop, pground_up, Kmem, freerange_loop, freerange, kinit}
use mit_lab.Kalloc.Chain.{IsPage, IsFree, kfree_lem}

abbrev pub has : ℕ → List ℕ → Bool
has y [] = false
has y (x ∷ xs) = (x == y) || has y xs

All-has :
    {P : ℕ → Type 0} (y : ℕ) (xs : List ℕ)
    → ((a b : ℕ) → a ≡ b → P a → P b)
    → All P xs
    → has y xs ≡ true
    → P y
All-has y [] move h e = cc
All-has y (x ∷ xs) move h e = elim (Bool-cases (x == y)) [
  | inl q ↦ move x y (ground arith) h.0
  | inr q ↦ All-has y xs move h.1 (ground arith)
]

below-ne : (p : ℕ) (xs : List ℕ) → All (λ x. x < p) xs → All (λ x. x ≢ p) xs
below-ne p [] h = tt
below-ne p (x ∷ xs) h = (omega (arith, h.0), below-ne p xs h.1)

below_up : (p q : ℕ) (xs : List ℕ) → p ≤ q → All (λ x. x < p) xs → All (λ x. x < q) xs
below_up p q [] le h = tt
below_up p q (x ∷ xs) le h = (omega (arith, h.0), below_up p q xs le h.1)

-- The pages that a loop from `p` has added to `xs` when it is done.
record Added (kernel_end p pa_end : ℕ) (xs : List ℕ) (r : Run Kmem) : Type 0 where
  k : Kmem
  pages : List ℕ
  returns : r ≡ ok k
  free : IsFree kernel_end k pages
  exactly :
      (y : ℕ) → y % pgsize ≡ 0 → has y pages ≡ (has y xs || (leb p y && leb (y + pgsize) pa_end))

module _ (kernel_end pa_end : ℕ) (nonzero : 0 < kernel_end) (top : pa_end ≤ phystop) where
  freerange_loop-Added :
      (fuel p : ℕ) (k : Kmem) (xs : List ℕ)
      → p % pgsize ≡ 0
      → kernel_end ≤ p
      → pa_end < p + (fuel + 1) * pgsize
      → IsFree kernel_end k xs
      → All (λ x. x < p) xs
      → Added kernel_end p pa_end xs (freerange_loop kernel_end fuel p pa_end k)
  unfolding freerange_loop
  freerange_loop-Added zero p k xs al lo enough free below = record {
    k = k;
    pages = xs;
    returns = refl;
    free = free;
    exactly = λ y ya. ground arith;
  }
  freerange_loop-Added (suc fuel) p k xs al lo enough free below =
      elim (Bool-cases (leb (p + pgsize) pa_end)) [
        | inl room ↦
            let page : IsPage kernel_end p = (al, lo, ground arith) in
            let (k', e, free', same) =
              kfree_lem kernel_end p k xs nonzero page (below-ne p xs below) free in
            let rest =
              freerange_loop-Added fuel (p + pgsize) k' (p ∷ xs) (omega arith) (omega arith)
                (omega arith) free' (omega arith, below_up p (p + pgsize) xs (omega arith) below) in
            rw (room, freerange_loop, e)
              (record {
                k = rest.k;
                pages = rest.pages;
                returns = rest.returns;
                free = rest.free;
                exactly = λ y ya. ground (arith, rest.exactly y ya);
              })
        | inr full ↦
            rw (full, freerange_loop)
              (record {
                k = k;
                pages = xs;
                returns = refl;
                free = free;
                exactly = λ y ya. ground arith;
              })
      ]

-- `kinit` does not panic, and afterwards the free pages are exactly the page-aligned addresses from
-- the end of the kernel to PHYSTOP, each of them once.
pub kinit-exactly :
    (kernel_end : ℕ) (mem : ℕ → ℕ)
    → 0 < kernel_end
    → (k : Kmem) × (pages : List ℕ) × (kinit kernel_end mem ≡ ok k)
      × IsFree kernel_end k pages
      × ((y : ℕ) → (has y pages ≡ true) ↔ IsPage kernel_end y)
unfolding kinit freerange
kinit-exactly kernel_end mem nonzero =
    let start : IsFree kernel_end (record { freelist = 0; mem = mem }) [] = record {
      chain = refl;
      pages = tt;
      distinct = tt;
    } in
    let r =
      freerange_loop-Added kernel_end phystop nonzero (omega arith) (phystop / pgsize)
        (pground_up kernel_end) (record { freelist = 0; mem = mem }) [] (omega arith) (omega arith)
        (omega arith) start tt in
    (
      r.k,
      r.pages,
      r.returns,
      r.free,
      λ y. (
        All-has y r.pages (λ a b e p. rw (← e) p) r.free.pages,
        λ p. ground (arith, r.exactly y p.0, p.0, p.1, p.2),
      ),
    )
