-- ===== src/Bcache.antt =====
-- The buffer cache of kernel/bio.c: the buffers and the doubly linked list through them. A buffer is
-- named by its index in `bcache.buf`, and `head` is one index more. The lock of the cache is held in
-- each function. The sleep lock of a buffer is taken after `bget` has let go of that lock; whether
-- the caller of `brelse` holds it is an argument, and so is what the disk holds.
pub mod Ring
pub mod Relink
pub mod Recent
pub mod Lru
pub mod Recycle
mod Tests
use mit_lab.Base.{
  ℕ, zero, suc, ◌+◌, ◌-◌, ◌%◌, ◌^◌, Bool, true, false, ◌&&◌, not, Option, none, some, Run, ok,
  panic, ◌==◌, if◌then◌else◌, update,
}

abbrev pub nbuf : ℕ
nbuf = 30

abbrev pub head : ℕ
head = nbuf

pub record Buf : Type 0 where
  pub dev : ℕ
  pub blockno : ℕ
  pub valid : Bool
  pub refcnt : ℕ
  pub contents : ℕ → ℕ

pub record Bcache : Type 0 where
  pub buf : ℕ → Buf
  pub next : ℕ → ℕ
  pub prev : ℕ → ℕ

abbrev pub set_next : (b p : ℕ) → Bcache → Bcache
set_next b p c = record c { next = update c.next b p }

abbrev pub set_prev : (b p : ℕ) → Bcache → Bcache
set_prev b p c = record c { prev = update c.prev b p }

abbrev pub set_buf : ℕ → Buf → Bcache → Bcache
set_buf b v c = record c { buf = update c.buf b v }

-- The four assignments that put `b` behind the head, in `binit` and `brelse`.
pub push_front : ℕ → Bcache → Bcache
push_front b c =
    let c1 = set_next b (c.next head) c in
    let c2 = set_prev b head c1 in let c3 = set_prev (c2.next head) b c2 in set_next head b c3

-- The two assignments that take `b` out.
pub unlink : ℕ → Bcache → Bcache
unlink b c = let c1 = set_prev (c.next b) (c.prev b) c in set_next (c1.prev b) (c1.next b) c1

pub binit_loop : (rounds b : ℕ) → Bcache → Bcache
binit_loop zero b c = c
binit_loop (suc rounds) b c = binit_loop rounds (b + 1) (push_front b c)

-- The buffers are zero when the kernel starts.
unfoldable pub binit : Bcache → Bcache
unfolding binit_loop push_front
binit c = binit_loop nbuf 0 (set_next head head (set_prev head head c))

abbrev pub is_block : (dev blockno : ℕ) → Buf → Bool
is_block dev blockno b = (b.dev == dev) && (b.blockno == blockno)

-- A loop from buffer `b` along `step` to the head, up to a buffer that passes the test.
pub find_buf : (Buf → Bool) → (step : ℕ → ℕ) → (fuel b : ℕ) → (ℕ → Buf) → Option ℕ
find_buf test step zero b buf = none
find_buf test step (suc fuel) b buf = elim (b == head) [
  | true ↦ none
  | false ↦ elim (test (buf b)) [ true ↦ some b | false ↦ find_buf test step fuel (step b) buf ]
]

abbrev pub is_free : Buf → Bool
is_free b = b.refcnt == 0

-- Both loops reach the head after NBUF buffers. `refcnt` is 32 bits wide.
unfoldable pub bget : (dev blockno : ℕ) → Bcache → Run (ℕ × Bcache)
unfolding find_buf
bget dev blockno c =
    let cached = find_buf (is_block dev blockno) c.next (nbuf + 1) (c.next head) c.buf in
    let unused = find_buf is_free c.prev (nbuf + 1) (c.prev head) c.buf in
    elim cached [
      | some b ↦ ok (b, set_buf b (record (c.buf b) { refcnt = ((c.buf b).refcnt + 1) % 2 ^ 32 }) c)
      | none ↦ elim unused [
        | some b ↦ ok (
          b,
          set_buf b (record (c.buf b) { dev = dev; blockno = blockno; valid = false; refcnt = 1 })
              c,
        )
        | none ↦ panic
      ]
    ]

-- `virtio_disk_rw(b, 0)` reads what the disk holds in the block.
unfoldable pub bread : (dev blockno : ℕ) (disk : ℕ → ℕ → ℕ) → Bcache → Run (ℕ × Bcache)
bread dev blockno disk c = elim (bget dev blockno c) [
  | panic ↦ panic
  | ok (b, c1) ↦
      if (c1.buf b).valid
      then ok (b, c1)
      else ok (b, set_buf b (record (c1.buf b) { contents = disk blockno; valid = true }) c1)
]

unfoldable pub brelse : (holding : Bool) (b : ℕ) → Bcache → Run Bcache
unfolding unlink push_front
brelse holding b c =
    let left = ((c.buf b).refcnt + 2 ^ 32 - 1) % 2 ^ 32 in
    let c1 = set_buf b (record (c.buf b) { refcnt = left }) c in
    if not holding then panic else ok (if left == 0 then push_front b (unlink b c1) else c1)

unfoldable pub bpin : ℕ → Bcache → Bcache
bpin b c = set_buf b (record (c.buf b) { refcnt = ((c.buf b).refcnt + 1) % 2 ^ 32 }) c

unfoldable pub bunpin : ℕ → Bcache → Bcache
bunpin b c = set_buf b (record (c.buf b) { refcnt = ((c.buf b).refcnt + 2 ^ 32 - 1) % 2 ^ 32 }) c
