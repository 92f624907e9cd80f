-- ===== src/Fs/Tests.antt =====
-- The theorems about the file system at concrete states.
use mit_lab.Base.{◌≢◌, some, ℕ, ◌<◌, ◌≡◌, refl, true, false, none, ok, arith, ltb, update, [], ◌∷◌}
use mit_lab.Fs.{ninode, Inode, Fs}
use mit_lab.Fs.Alloc.{balloc}
use mit_lab.Fs.Alloc.First.{Allocated, balloc-Allocated}
use mit_lab.Fs.Map.{bmap, itrunc}
use mit_lab.Fs.Map.Slots.{Sound}
use mit_lab.Fs.Map.Fill.{Mapped, bmap-Mapped}
use mit_lab.Fs.Map.Empty.{Emptied}
use mit_lab.Fs.Map.Truncate.{itrunc-Emptied}
use mit_lab.Fs.Table.{iput_free, iget, idup}
use mit_lab.Fs.Table.Pointers.{Ptr, Mem, first, Points, count}
use mit_lab.Fs.Table.Calls.{here, next, gets, dups, Reach-pointers}

abbrev blank : Inode
blank = record {
  dev = 0;
  inum = 0;
  ref = 0;
  holder = none;
  valid = false;
  ty = 0;
  major = 0;
  minor = 0;
  nlink = 0;
  size = 0;
  addrs = λ k. 0;
}

-- A file with the block 50 as its first one, in entry 0; the blocks below 60 are in use.
abbrev small : Fs
small = record {
  size = 100;
  bmapstart = 45;
  inodestart = 32;
  bits = λ b k. ltb k 60;
  words = λ b j. 0;
  dinodes = λ n. record { ty = 0; major = 0; minor = 0; nlink = 0; size = 0; addrs = λ k. 0 };
  inodes =
      update (λ i. blank) 0
        (record blank { inum = 7; ref = 1; valid = true; ty = 2; addrs = update (λ k. 0) 0 50 });
  logged = [];
}

small-Sound : Sound 0 small
small-Sound = record {
  boot = refl;
  used = λ s l nz. ground arith;
  distinct = λ s t l m nz e. ground arith;
}

allocates_first : (balloc small).0 ≡ 60
unfolding balloc
allocates_first = refl

balloc-Allocated_example : Allocated small (balloc small)
balloc-Allocated_example = balloc-Allocated small

-- Block 12 of the file is the first that needs the indirect block.
bmap-Mapped_example : (r : ℕ × Fs) × (bmap 0 12 small ≡ ok r) × Mapped 0 12 small r
bmap-Mapped_example = bmap-Mapped 0 12 small small-Sound (omega arith)

itrunc-Emptied_example :
    (fs' : Fs) × (itrunc 0 small ≡ ok fs')
    × Emptied 0 small fs'
    × ((fs'.inodes 0).size ≡ 0)
    × ((fs'.dinodes (fs'.inodes 0).inum).size ≡ 0)
    × ((t : ℕ) → t < 13 → (fs'.dinodes (fs'.inodes 0).inum).addrs t ≡ 0)
itrunc-Emptied_example = itrunc-Emptied 0 small small-Sound

abbrev fresh : Fs
fresh = record small { inodes = λ i. blank }

abbrev pointer : Ptr
pointer = record { entry = 0; dev = 1; inum = 5 }

abbrev got : Fs
got = record fresh { inodes = update (λ i. blank) 0 (record blank { dev = 1; inum = 5; ref = 1 }) }

gets_entry : iget 1 5 fresh ≡ ok (0, got)
unfolding iget
gets_entry = refl

Reach-pointers_example :
    ((p : Ptr) → Mem p (pointer ∷ pointer ∷ []) → Points (idup 0 got) p)
    × ((p q : Ptr)
        → Mem p (pointer ∷ pointer ∷ [])
        → Mem q (pointer ∷ pointer ∷ [])
        → p.dev ≡ q.dev
        → p.inum ≡ q.inum
        → p.entry ≡ q.entry)
    × ((i : ℕ) → i < ninode → ((idup 0 got).inodes i).ref ≡ count i (pointer ∷ pointer ∷ []))
    × ((i : ℕ)
        → i < ninode
        → count i (pointer ∷ pointer ∷ []) ≢ 1
        → iput_free i (idup 0 got) ≡ ok (some (idup 0 got)))
Reach-pointers_example =
    Reach-pointers {fs = fresh} (λ i l. refl)
      (next (next here (gets 1 5 0 gets_entry)) (dups pointer first))
