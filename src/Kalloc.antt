-- ===== src/Kalloc.antt =====
-- kernel/kalloc.c over the physical memory, which is seen as 64-bit words: a word's address is a
-- multiple of 8, and word 0 of a free page is its `struct run`. The lock is held in each routine.
-- The end of the kernel, `end` of kernel.ld, is a parameter.
pub mod Chain
pub mod Boot
pub mod Owner
mod Tests
use mit_lab.Base.{
  ℕ, zero, suc, ◌+◌, ◌-◌, ◌*◌, ◌/◌, ◌%◌, Bool, true, false, ◌&&◌, ◌||◌, not, Run, ok, panic, ◌>>=◌,
  ltb, leb, ◌==◌, if◌then◌else◌, update,
}

abbrev pub pgsize : ℕ
pgsize = 4096

-- KERNBASE + 128 MB
abbrev pub phystop : ℕ
phystop = 0x80000000 + 128 * 1024 * 1024

abbrev pub pground_up : ℕ → ℕ
pground_up sz = (sz + pgsize - 1) / pgsize * pgsize

-- `kmem`, with the memory that its list runs through.
pub record Kmem : Type 0 where
  pub freelist : ℕ
  pub mem : ℕ → ℕ

-- `memset(pa, c, PGSIZE)`: `w` is the word of eight bytes `c`.
abbrev pub fill_page : ℕ → ℕ → (ℕ → ℕ) → ℕ → ℕ
fill_page pa w mem a = if leb pa a && ltb a (pa + pgsize) then w else mem a

unfoldable pub kfree : (kernel_end pa : ℕ) → Kmem → Run Kmem
kfree kernel_end pa k =
    if not (pa % pgsize == 0) || ltb pa kernel_end || leb phystop pa
    then panic
    else ok (record {
      freelist = pa;
      mem = update (fill_page pa 0x0101010101010101 k.mem) pa k.freelist;
    })

-- The address of the page, or 0.
unfoldable pub kalloc : Kmem → ℕ × Kmem
kalloc k = if k.freelist == 0 then (0, k) else (
  k.freelist,
  record { freelist = k.mem k.freelist; mem = fill_page k.freelist 0x0505050505050505 k.mem },
)

-- The loop of `freerange`; each round frees a page, so that the number of pages below `pa_end` is
-- fuel enough.
pub freerange_loop : (kernel_end fuel p pa_end : ℕ) → Kmem → Run Kmem
freerange_loop kernel_end zero p pa_end k = ok k
freerange_loop kernel_end (suc fuel) p pa_end k = elim (leb (p + pgsize) pa_end) [
  | true ↦ kfree kernel_end p k >>= freerange_loop kernel_end fuel (p + pgsize) pa_end
  | false ↦ ok k
]

pub freerange : (kernel_end pa_start pa_end : ℕ) → Kmem → Run Kmem
freerange kernel_end pa_start pa_end k =
    freerange_loop kernel_end (pa_end / pgsize) (pground_up pa_start) pa_end k

-- `kmem` is zero when the kernel starts.
pub kinit : (kernel_end : ℕ) → (ℕ → ℕ) → Run Kmem
kinit kernel_end mem = freerange kernel_end kernel_end phystop (record { freelist = 0; mem = mem })
