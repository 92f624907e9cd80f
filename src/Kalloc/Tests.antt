-- ===== src/Kalloc/Tests.antt =====
-- The theorems about the page allocator at concrete memories.
use mit_lab.Base.{ℕ, ◌-◌, ◌≡◌, refl, ◌≢◌, ◌↔◌, true, false, List, [], ◌∷◌, arith, ok, update}
use mit_lab.Kalloc.{pgsize, phystop, Kmem, kfree, kalloc, kinit}
use mit_lab.Kalloc.Chain.{IsPage, IsFree}
use mit_lab.Kalloc.Boot.{has, kinit-exactly}
use mit_lab.Kalloc.Owner.{Sys, here, next, alloc, Apart, kalloc-unheld}

-- A kernel that leaves the last two pages and a part of one.
kinit-exactly_example :
    (k : Kmem) × (pages : List ℕ) × (kinit (phystop - 9000) (λ a. 7) ≡ ok k)
    × IsFree (phystop - 9000) k pages
    × ((y : ℕ) → (has y pages ≡ true) ↔ IsPage (phystop - 9000) y)
kinit-exactly_example = kinit-exactly (phystop - 9000) (λ a. 7) (omega arith)

abbrev last_page : ℕ
last_page = phystop - pgsize

abbrev one_free : Sys
one_free = record { k = record { freelist = last_page; mem = λ a. 0 }; held = λ a. false }

one_free-Apart : Apart 4096 one_free
one_free-Apart = record {
  xs = last_page ∷ [];
  is_free = record {
    chain = (refl, omega arith, refl);
    pages = (omega arith, tt);
    distinct = (tt, tt);
  };
  unheld = (refl, tt);
  pages = λ pa h. ground arith;
}

abbrev handed_out : Sys
handed_out = record {
  k = (kalloc one_free.k).1;
  held = update (λ a. false) (kalloc one_free.k).0 true;
}

got_page : (kalloc one_free.k).0 ≢ 0
unfolding kalloc
got_page = omega arith

kalloc-unheld_example :
    (((kalloc handed_out.k).0 ≢ 0)
      → (handed_out.held (kalloc handed_out.k).0 ≡ false) × IsPage 4096 (kalloc handed_out.k).0)
    × ((pa : ℕ) → handed_out.held pa ≡ true → (k : Kmem) × (kfree 4096 pa handed_out.k ≡ ok k))
kalloc-unheld_example = kalloc-unheld 4096 (omega arith) one_free-Apart (next here (alloc got_page))
