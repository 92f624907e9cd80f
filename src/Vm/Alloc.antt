-- ===== src/Vm/Alloc.antt =====
-- `uvmalloc`: the user pages grow, or stay as they were.
use mit_lab.Base.{Run, ok, ℕ, ◌*◌, ◌<◌, ◌≤◌, ◌≡◌, ap as cong, ◌⊎◌, length}
use mit_lab.Kalloc.{Kmem}
use mit_lab.Vm.{pte2pa, maxva, uvmdealloc}
use mit_lab.Vm.Tables.{Owned, Apart, translate}
use mit_lab.Vm.Space.{Space}
use mit_lab.Vm.Unmap.{Regains}
use mit_lab.Vm.Round.{Perms, below}

module _ (kernel_end root limit : ℕ) where
  -- The translations outside the pages from `n` to `m`.
  abbrev pub Outside : (n m : ℕ) (mem mem' : ℕ → ℕ) → Type 0
  Outside n m mem mem' =
      (va : ℕ)
      → va < maxva
      → (va < 4096 * n) ⊎ (4096 * m ≤ va)
      → translate root va mem' ≡ translate root va mem

  -- The page `y` is free or a table, or one of the user pages from `lo` to `m` is mapped to it.
  abbrev pub Held : (lo m : ℕ) (k : Kmem) → Apart kernel_end root k → ℕ → Type 0
  Held lo m k a y =
      Owned kernel_end root a y
      ⊎ (i : ℕ) × (lo ≤ i) × (i < m) × (pte2pa (translate root (4096 * i) k.mem) ≡ y)

  -- From `n` user pages to `m`, of which those below `lo` are there. It failed: for page `t` there was
  -- no memory, no page was lost and at most one was free, and `uvmdealloc` freed the user pages above
  -- `n`.
  pub data Grown (n lo m newsz xperm : ℕ) (k : Kmem) (s : Space kernel_end root limit (below lo) k)
      : Run (ℕ × Kmem) → Type 0 where
    grown :
        {k' : Kmem} (s' : Space kernel_end root limit (below m) k')
        → Outside lo m k.mem k'.mem
        → ((i : ℕ) → lo ≤ i → i < m → Perms xperm (translate root (4096 * i) k'.mem))
        → ((y : ℕ) → Owned kernel_end root s.apart y → Held lo m k' s'.apart y)
        → Grown n lo m newsz xperm k s (ok (newsz, k'))
    failed :
        {t : ℕ} {k1 k' : Kmem} (s1 : Space kernel_end root limit (below t) k1)
        (s' : Space kernel_end root limit (below n) k')
        → lo ≤ t
        → t < m
        → length s1.apart.free ≤ 1
        → ((i : ℕ) → i < lo → translate root (4096 * i) k1.mem ≡ translate root (4096 * i) k.mem)
        → ((y : ℕ) → Owned kernel_end root s.apart y → Held lo t k1 s1.apart y)
        → uvmdealloc kernel_end root (4096 * t) (4096 * n) k1 ≡ ok (4096 * n, k')
        → Regains kernel_end root n t s1.apart s'.apart
        → Outside n m k.mem k'.mem
        → Grown n lo m newsz xperm k s (ok (0, k'))
