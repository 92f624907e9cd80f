-- ===== src/Vm.antt =====
-- The page tables of kernel/vm.c, with the macros of kernel/riscv.h, in the memory of the page
-- allocator: a page-table page is 512 words. Addresses and entries are 64 bits wide.
pub mod Tables
pub mod Grow
pub mod Slots
pub mod Walk
pub mod Map
pub mod Lookup
pub mod Space
pub mod Unmap
pub mod Round
pub mod Alloc
mod Tests
use mit_lab.Base.{
  ℕ, zero, suc, ◌+◌, ◌-◌, ◌*◌, ◌/◌, ◌%◌, ◌^◌, Bool, true, false, ◌&&◌, ◌||◌, not, Option, none,
  some, Run, ok, panic, ◌>>=◌, ltb, leb, ◌==◌, if◌then◌else◌, update,
}
use mit_lab.Kalloc.{pgsize, Kmem, fill_page, kalloc, kfree}

abbrev pub maxva : ℕ
maxva = 2 ^ 38

-- PTE_V and PTE_U
abbrev pub is_valid : ℕ → Bool
is_valid pte = pte % 2 == 1

abbrev pub is_user : ℕ → Bool
is_user pte = pte / 2 ^ 4 % 2 == 1

abbrev pub pa2pte : ℕ → ℕ
pa2pte pa = pa / 2 ^ 12 * 2 ^ 10

abbrev pub pte2pa : ℕ → ℕ
pte2pa pte = pte / 2 ^ 10 * 2 ^ 12 % 2 ^ 64

abbrev pub pte_flags : ℕ → ℕ
pte_flags pte = pte % 2 ^ 10

-- PX(level, va)
abbrev pub px : (level va : ℕ) → ℕ
px zero va = va / 2 ^ 12 % 512
px (suc zero) va = va / 2 ^ 21 % 512
px (suc (suc level)) va = va / 2 ^ 30 % 512

abbrev pub set_pte : (slot pte : ℕ) → Kmem → Kmem
set_pte slot pte k = record k { mem = update k.mem slot pte }

-- The rest of a round after `kalloc`.
abbrev pub new_table : (slot : ℕ) → ℕ × Kmem → Option ℕ × Kmem
new_table slot (page, k) =
    if page == 0
    then (none, k)
    else (some page, set_pte slot (pa2pte page + 1) (record k { mem = fill_page page 0 k.mem }))

-- A round of the loop in `walk`, at the entry at `slot`: the next table, or `none` where `walk`
-- returns 0.
unfoldable pub walk_step : (alloc : Bool) (slot : ℕ) → Kmem → Option ℕ × Kmem
walk_step alloc slot k =
    if is_valid (k.mem slot)
    then (some (pte2pa (k.mem slot)), k)
    else if not alloc
    then (none, k)
    else new_table slot (kalloc k)

unfoldable pub walk_loop : (alloc : Bool) (va level : ℕ) → Option ℕ × Kmem → Option ℕ × Kmem
walk_loop alloc va zero r = r
walk_loop alloc va (suc level) (none, k) = (none, k)
walk_loop alloc va (suc level) (some table, k) =
    walk_loop alloc va level (walk_step alloc (table + 8 * px (suc level) va) k)

abbrev pub leaf_slot : (va : ℕ) → Option ℕ × Kmem → ℕ × Kmem
leaf_slot va (none, k) = (0, k)
leaf_slot va (some table, k) = (table + 8 * px 0 va, k)

-- The address of the entry, or 0.
unfoldable pub walk : (pagetable va : ℕ) (alloc : Bool) → Kmem → Run (ℕ × Kmem)
unfolding walk_loop
walk pagetable va alloc k =
    if leb maxva va then panic else ok (leaf_slot va (walk_loop alloc va 2 (some pagetable, k)))

abbrev pub user_pa : (slot : ℕ) → Kmem → ℕ
user_pa slot k =
    if slot == 0
    then 0
    else if not (is_valid (k.mem slot)) || not (is_user (k.mem slot))
    then 0
    else pte2pa (k.mem slot)

unfoldable pub walkaddr : (pagetable va : ℕ) → Kmem → Run ℕ
walkaddr pagetable va k =
    if leb maxva va then ok 0 else walk pagetable va false k >>= λ (slot, k1). ok (user_pa slot k1)

-- PA2PTE(pa) | perm | PTE_V: the flags are below 1024, where PA2PTE has zeros.
abbrev pub entry : (pa perm : ℕ) → ℕ
entry pa perm = pa2pte pa + (perm / 2 * 2 + 1)

-- A round of the loop in `mappages` after `walk`. The result false is -1.
abbrev pub map_round :
    (a last pa perm : ℕ) (go_on : Kmem → Run (Bool × Kmem)) → ℕ × Kmem → Run (Bool × Kmem)
map_round a last pa perm go_on (slot, k) =
    if slot == 0
    then ok (false, k)
    else if is_valid (k.mem slot)
    then panic
    else let k1 = set_pte slot (entry pa perm) k in
      let rest = go_on k1 in if a == last then ok (true, k1) else rest

-- The loop ends at `last`, so that the number of pages is rounds enough.
unfoldable pub map_loop : (pagetable rounds a last pa perm : ℕ) → Kmem → Run (Bool × Kmem)
map_loop pagetable zero a last pa perm k = ok (true, k)
map_loop pagetable (suc rounds) a last pa perm k =
    walk pagetable a true k
    >>= map_round a last pa perm
        (map_loop pagetable rounds ((a + pgsize) % 2 ^ 64) last ((pa + pgsize) % 2 ^ 64) perm)

unfoldable pub mappages : (pagetable va size pa perm : ℕ) → Kmem → Run (Bool × Kmem)
unfolding map_loop
mappages pagetable va size pa perm k =
    if not (va % pgsize == 0) || (not (size % pgsize == 0) || (size == 0))
    then panic
    else map_loop pagetable (size / pgsize) va ((va + size + 2 ^ 64 - pgsize) % 2 ^ 64) pa perm k

unfoldable pub kvmmap : (kpgtbl va pa sz perm : ℕ) → Kmem → Run Kmem
unfolding mappages
kvmmap kpgtbl va pa sz perm k =
    mappages kpgtbl va sz pa perm k >>= λ (success, k1). if success then ok k1 else panic

-- The page, zeroed, or 0.
unfoldable pub uvmcreate : Kmem → ℕ × Kmem
uvmcreate k =
    let (page, k1) = kalloc k in
    if page == 0 then (0, k1) else (page, record k1 { mem = fill_page page 0 k1.mem })

unfoldable pub uvmclear : (pagetable va : ℕ) → Kmem → Run Kmem
uvmclear pagetable va k = walk pagetable va false k >>= λ (slot, k1).
    if slot == 0
    then panic
    else ok (if is_user (k1.mem slot) then set_pte slot (k1.mem slot - 2 ^ 4) k1 else k1)

-- The rest of a round of the loop in `uvmunmap` after `walk`.
abbrev pub unmap_at : (kernel_end : ℕ) (do_free : Bool) → ℕ × Kmem → Run Kmem
unmap_at kernel_end do_free (slot, k) =
    if slot == 0
    then panic
    else if not (is_valid (k.mem slot))
    then panic
    else if pte_flags (k.mem slot) == 1
    then panic
    else (if do_free then kfree kernel_end (pte2pa (k.mem slot)) k else ok k)
      >>= (λ k1. ok (set_pte slot 0 k1))

-- The loop of `uvmunmap`, with the number of pages as rounds.
unfoldable pub unmap_loop :
    (kernel_end pagetable : ℕ) (do_free : Bool) (rounds a last : ℕ) → Kmem → Run Kmem
unmap_loop kernel_end pagetable do_free zero a last k = ok k
unmap_loop kernel_end pagetable do_free (suc rounds) a last k = elim (ltb a last) [
  | false ↦ ok k
  | true ↦
      walk pagetable a false k
      >>= unmap_at kernel_end do_free
      >>= unmap_loop kernel_end pagetable do_free rounds ((a + pgsize) % 2 ^ 64) last
]

unfoldable pub uvmunmap : (kernel_end pagetable va npages : ℕ) (do_free : Bool) → Kmem → Run Kmem
unfolding unmap_loop
uvmunmap kernel_end pagetable va npages do_free k =
    if not (va % pgsize == 0)
    then panic
    else unmap_loop kernel_end pagetable do_free npages va ((va + npages * pgsize) % 2 ^ 64) k

-- PGROUNDUP on 64 bits
abbrev pub round_up : ℕ → ℕ
round_up sz = (sz + pgsize - 1) % 2 ^ 64 / pgsize * pgsize

-- Up to MAXVA the number of pages is at most 2 ^ 26, and an `int`.
unfoldable pub uvmdealloc : (kernel_end pagetable oldsz newsz : ℕ) → Kmem → Run (ℕ × Kmem)
unfolding uvmunmap
uvmdealloc kernel_end pagetable oldsz newsz k =
    if leb oldsz newsz
    then ok (oldsz, k)
    else if ltb (round_up newsz) (round_up oldsz)
    then uvmunmap kernel_end pagetable (round_up newsz) ((round_up oldsz - round_up newsz) / pgsize)
        true k
      >>= (λ k1. ok (newsz, k1))
    else ok (newsz, k)

-- PTE_R|PTE_U|xperm: bits 1 and 4 are set, and the others are those of `xperm`.
abbrev pub user_perm : ℕ → ℕ
user_perm xperm = 18 + (xperm - (xperm / 2 % 2 * 2 + xperm / 16 % 2 * 16))

-- A round of the loop in `uvmalloc` after `kalloc`.
abbrev pub alloc_mapped :
    (kernel_end page : ℕ) (go_on give_up : Kmem → Run (ℕ × Kmem)) → Bool × Kmem → Run (ℕ × Kmem)
alloc_mapped kernel_end page go_on give_up (true, k) = go_on k
alloc_mapped kernel_end page go_on give_up (false, k) = kfree kernel_end page k >>= give_up

abbrev pub alloc_round :
    (kernel_end pagetable a xperm : ℕ) (go_on give_up : Kmem → Run (ℕ × Kmem))
    → ℕ × Kmem
    → Run (ℕ × Kmem)
alloc_round kernel_end pagetable a xperm go_on give_up (page, k) =
    if page == 0
    then give_up k
    else mappages pagetable a pgsize page (user_perm xperm)
        (record k { mem = fill_page page 0 k.mem })
      >>= alloc_mapped kernel_end page go_on give_up

-- `uvmdealloc(pagetable, a, oldsz); return 0`
abbrev pub alloc_failed : (kernel_end pagetable a oldsz : ℕ) → Kmem → Run (ℕ × Kmem)
alloc_failed kernel_end pagetable a oldsz k =
    uvmdealloc kernel_end pagetable a oldsz k >>= (λ (sz, k1). ok (0, k1))

-- The loop of `uvmalloc`; a round is a page, so that the pages up to `newsz` are rounds enough.
unfoldable pub alloc_loop :
    (kernel_end pagetable rounds a oldsz newsz xperm : ℕ) → Kmem → Run (ℕ × Kmem)
alloc_loop kernel_end pagetable zero a oldsz newsz xperm k = ok (newsz, k)
alloc_loop kernel_end pagetable (suc rounds) a oldsz newsz xperm k = elim (ltb a newsz) [
  | false ↦ ok (newsz, k)
  | true ↦
      alloc_round kernel_end pagetable a xperm
        (alloc_loop kernel_end pagetable rounds ((a + pgsize) % 2 ^ 64) oldsz newsz xperm)
        (alloc_failed kernel_end pagetable a oldsz) (kalloc k)
]

unfoldable pub uvmalloc : (kernel_end pagetable oldsz newsz xperm : ℕ) → Kmem → Run (ℕ × Kmem)
uvmalloc kernel_end pagetable oldsz newsz xperm k =
    if ltb newsz oldsz
    then ok (oldsz, k)
    else alloc_loop kernel_end pagetable (newsz / pgsize + 1) (round_up oldsz) (round_up oldsz)
        newsz xperm k
