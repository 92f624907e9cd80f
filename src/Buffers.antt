-- ===== src/Buffers.antt =====
-- The buffer cache and the disk as the log sees them (kernel/bio.c, the interface at its top): the
-- contents of blocks, of valid buffers, and who pins them. The list of buffers and its recycling
-- are in module Bcache. A block is its 32-bit words by index. A crash is the end of power: of the
-- disk writes that a run makes, the first `power` reach the disk, and no later one does.
use mit_lab.Base.{
  ℕ, ◌+◌, ◌-◌, ◌%◌, ◌^◌, ◌≡◌, Option, none, some, arith, ◌==◌, if◌then◌else◌, update,
}

abbrev pub Block : Type 0
Block = ℕ → ℕ

pub record Store : Type 0 where
  pub disk : ℕ → Block
  pub buf : ℕ → Option Block
  pub pins : ℕ → ℕ
  pub power : ℕ

-- `b->data` of the buffer that `bread` returns: the cached block, else the one on the disk.
unfoldable pub data_of : Store → ℕ → Block
data_of s b = elim (s.buf b) [ some x ↦ x | none ↦ s.disk b ]

-- The buffer is valid afterwards.
unfoldable pub bread : ℕ → Store → Store
bread b s = record s { buf = update s.buf b (some (data_of s b)) }

-- A caller's `memmove` into `b->data`.
unfoldable pub set_data : ℕ → Block → Store → Store
set_data b x s = record s { buf = update s.buf b (some x) }

unfoldable pub bwrite : ℕ → Store → Store
bwrite b s =
    if s.power == 0
    then s
    else record s { disk = update s.disk b (data_of s b); power = s.power - 1 }

unfoldable pub bpin : ℕ → Store → Store
bpin b s = record s { pins = update s.pins b ((s.pins b + 1) % 2 ^ 32) }

-- `refcnt` is unsigned: 0 would wrap.
unfoldable pub bunpin : ℕ → Store → Store
bunpin b s = record s { pins = update s.pins b ((s.pins b + 2 ^ 32 - 1) % 2 ^ 32) }

-- After a crash only the disk is left.
unfoldable pub reboot : ℕ → Store → Store
reboot power s = record { disk = s.disk; buf = λ b. none; pins = λ b. 0; power = power }

pub data_of-bread : (b c : ℕ) (s : Store) → data_of (bread b s) c ≡ data_of s c
unfolding data_of bread
data_of-bread b c s = ground arith

pub data_of-set_data :
    (b c : ℕ) (x : Block) (s : Store)
    → data_of (set_data b x s) c ≡ (if c == b then x else data_of s c)
unfolding data_of set_data
data_of-set_data b c x s = ground arith

-- Copying a buffer's data and writing it: what buffers and disk hold then.
unfoldable pub copy_block : ℕ → ℕ → Store → Store
copy_block from to s = bwrite to (set_data to (data_of s from) s)

pub data_of-copy_block :
    (from to c : ℕ) (s : Store)
    → data_of (copy_block from to s) c ≡ (if c == to then data_of s from else data_of s c)
unfolding copy_block data_of set_data bwrite
data_of-copy_block from to c s = ground arith

pub disk-copy_block :
    (from to c : ℕ) (s : Store)
    → (copy_block from to s).disk c
      ≡ (if s.power == 0 then s.disk c else if c == to then data_of s from else s.disk c)
unfolding copy_block data_of set_data bwrite
disk-copy_block from to c s = ground arith

pub power-copy_block : (from to : ℕ) (s : Store) → (copy_block from to s).power ≡ s.power - 1
unfolding copy_block set_data bwrite
power-copy_block from to s = ground arith
