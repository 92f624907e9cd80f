-- ===== src/Vm/Tables.antt =====
-- Page tables in memory: the role of every page, and what a table translates.
use mit_lab.Base.{
  ◌⊎◌, [], ◌∷◌, ℕ, ◌+◌, ◌*◌, ◌<◌, ◌≡◌, ◌≢◌, true, Option, none, some, List, All, if◌then◌else◌,
}
use mit_lab.Kalloc.{Kmem}
use mit_lab.Kalloc.Chain.{IsPage, IsFree}
use mit_lab.Vm.{is_valid, pte2pa, px}

-- What a page is in a page table: the root, the table behind entry `i` of the root, or the table
-- behind entry `j` of that one.
pub data Role : Type 0 where
  top : Role
  mid : (i : ℕ) → Role
  leaf : (i j : ℕ) → Role

-- What the page behind entry `i` is.
abbrev pub next : Role → ℕ → Option Role
next top i = some (mid i)
next (mid i) j = some (leaf i j)
next (leaf i j) l = none

pub record IsTable (kernel_end root : ℕ) (role : ℕ → Option Role) (mem : ℕ → ℕ) : Type 0 where
  pub root_role : role root ≡ some top
  pub pages : (p : ℕ) (r : Role) → role p ≡ some r → IsPage kernel_end p
  pub inner :
      (p x : ℕ) (r c : Role)
      → role p ≡ some r
      → next r x ≡ some c
      → x < 512
      → is_valid (mem (p + 8 * x)) ≡ true
      → role (pte2pa (mem (p + 8 * x))) ≡ some c

-- A page table and the free pages, apart from each other.
pub record Apart (kernel_end root : ℕ) (k : Kmem) : Type 0 where
  pub role : ℕ → Option Role
  pub table : IsTable kernel_end root role k.mem
  pub free : List ℕ
  pub is_free : IsFree kernel_end k free
  pub no_role : All (λ x. role x ≡ none) free

-- The table behind an entry.
abbrev pub child : (ℕ → ℕ) → ℕ → Option ℕ
child mem slot = if is_valid (mem slot) then some (pte2pa (mem slot)) else none

abbrev pub behind : (mem : ℕ → ℕ) (i : ℕ) → Option ℕ → Option ℕ
behind mem i none = none
behind mem i (some table) = child mem (table + 8 * i)

-- The last table on the way of an address, by the three indices.
abbrev pub leaf_table : (root : ℕ) (mem : ℕ → ℕ) (i j : ℕ) → Option ℕ
leaf_table root mem i j = behind mem j (behind mem i (some root))

abbrev pub entry_of : (mem : ℕ → ℕ) (l : ℕ) → Option ℕ → ℕ
entry_of mem l none = 0
entry_of mem l (some table) = mem (table + 8 * l)

-- The entry for an address, 0 where there is none.
abbrev pub translate : (root va : ℕ) → (ℕ → ℕ) → ℕ
translate root va mem = entry_of mem (px 0 va) (leaf_table root mem (px 2 va) (px 1 va))

abbrev pub In : ℕ → List ℕ → Type 0
In y [] = ⊥
In y (x ∷ xs) = (y ≡ x) ⊎ In y xs

-- A page that is free or a table.
abbrev pub Owned : (kernel_end root : ℕ) {k : Kmem} → Apart kernel_end root k → ℕ → Type 0
Owned kernel_end root a y = In y a.free ⊎ (r : Role) × (a.role y ≡ some r)

-- No page is lost: one that was free or a table is one of them afterwards.
abbrev pub Saves :
    (kernel_end root : ℕ) {k k' : Kmem}
    → Apart kernel_end root k
    → Apart kernel_end root k'
    → Type 0
Saves kernel_end root a a' = (y : ℕ) → Owned kernel_end root a y → Owned kernel_end root a' y

-- A page that was neither a table nor free is neither afterwards, and no page is lost.
abbrev pub Spares :
    (kernel_end root : ℕ) {k k' : Kmem}
    → Apart kernel_end root k
    → Apart kernel_end root k'
    → Type 0
Spares kernel_end root a a' =
    ((y : ℕ)
      → a.role y ≡ none
      → All (λ z. z ≢ y) a.free
      → (a'.role y ≡ none) × All (λ z. z ≢ y) a'.free)
    × Saves kernel_end root a a'
