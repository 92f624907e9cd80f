-- ===== src/Bcache/Tests.antt =====
-- The theorems about the buffer cache at concrete states.
use mit_lab.Base.{false}
use mit_lab.Bcache.{Bcache, bget, bpin}
use mit_lab.Bcache.Lru.{World, here, next, pins}
use mit_lab.Bcache.Recycle.{booted, Got, Reach-Got}

abbrev empty : Bcache
empty = record {
  buf = λ b. record { dev = 0; blockno = 0; valid = false; refcnt = 0; contents = λ j. 0 };
  next = λ b. 0;
  prev = λ b. 0;
}

-- After `binit` the first buffer recycled is buffer 0; pinning it makes it buffer 1.
abbrev pinned : World
pinned = record { c = bpin 0 (booted empty).c; last = λ b. 0; now = 0 }

Reach-Got_example : Got 1 33 pinned (bget 1 33 pinned.c)
Reach-Got_example = Reach-Got 1 33 empty pinned (next here (pins 0))
