-- ===== src/Fs.antt =====
-- kernel/fs.c, with kernel/fs.h and `struct inode` of kernel/file.h: the state of the file system
-- inside a transaction. What `bread` returns and the source changes in place is here the contents of
-- blocks by number: the bits of the blocks of the free map, the words of data and indirect blocks,
-- the entries of the inode blocks by inode number. There is one device.
pub mod Alloc
pub mod Map
pub mod Table
mod Tests
use mit_lab.Base.{ℕ, ◌+◌, ◌*◌, ◌/◌, ◌<◌, Bool, Option, List, ◌∷◌, update}

-- Bits of a block of the free map, words of a block, and the sizes of an inode's map.
abbrev pub bpb : ℕ
bpb = 8192

abbrev pub ndirect : ℕ
ndirect = 12

abbrev pub nindirect : ℕ
nindirect = 256

abbrev pub ninode : ℕ
ninode = 50

-- Inodes in a block.
abbrev pub ipb : ℕ
ipb = 16

pub record Dinode : Type 0 where
  pub ty : ℕ
  pub major : ℕ
  pub minor : ℕ
  pub nlink : ℕ
  pub size : ℕ
  pub addrs : ℕ → ℕ

-- `holder` is the process that holds the sleep lock.
pub record Inode : Type 0 where
  pub dev : ℕ
  pub inum : ℕ
  pub ref : ℕ
  pub holder : Option ℕ
  pub valid : Bool
  pub ty : ℕ
  pub major : ℕ
  pub minor : ℕ
  pub nlink : ℕ
  pub size : ℕ
  pub addrs : ℕ → ℕ

-- The fields of the super block that are used, the contents of blocks, and `itable`. `logged` are
-- the blocks given to `log_write`, the last one first. Bit `bi` of a block of the map is bit
-- `bi % 8` of its byte `bi / 8`, true for a block in use.
pub record Fs : Type 0 where
  pub size : ℕ
  pub bmapstart : ℕ
  pub inodestart : ℕ
  pub bits : ℕ → ℕ → Bool
  pub words : ℕ → ℕ → ℕ
  pub dinodes : ℕ → Dinode
  pub inodes : ℕ → Inode
  pub logged : List ℕ

-- BBLOCK and IBLOCK
abbrev pub bblock : ℕ → Fs → ℕ
bblock b fs = b / bpb + fs.bmapstart

abbrev pub iblock : ℕ → Fs → ℕ
iblock i fs = i / ipb + fs.inodestart

abbrev pub log_block : ℕ → Fs → Fs
log_block b fs = record fs { logged = b ∷ fs.logged }

abbrev pub set_inode : ℕ → Inode → Fs → Fs
set_inode i ip fs = record fs { inodes = update fs.inodes i ip }
