-- ===== src/Fs/Alloc.antt =====
-- The blocks of kernel/fs.c: `bzero`, `balloc` and `bfree`.
pub mod First
use mit_lab.Base.{
  ℕ, zero, suc, ◌+◌, ◌/◌, ◌%◌, ◌-◌, Bool, true, false, Option, none, some, Run, ok, panic, ltb,
  if◌then◌else◌, update,
}
use mit_lab.Fs.{bpb, Fs, bblock, log_block}

-- `bp->data[bi/8] & m` and the assignment to this bit, in the block of the map for block `b`.
abbrev pub bit : ℕ → Fs → Bool
bit b fs = fs.bits (bblock b fs) (b % bpb)

abbrev pub set_bit : ℕ → Bool → Fs → Fs
set_bit b v fs = record fs {
  bits = update fs.bits (bblock b fs) (update (fs.bits (bblock b fs)) (b % bpb) v);
}

abbrev pub bzero : ℕ → Fs → Fs
bzero b fs = log_block b (record fs { words = update fs.words b (λ j. 0) })

-- The loop over the bits of one block of the map, from bit `bi` on.
pub find_bit : (rounds bi b : ℕ) → Fs → Option ℕ
find_bit zero bi b fs = none
find_bit (suc rounds) bi b fs = elim (ltb (b + bi) fs.size) [
  | false ↦ none
  | true ↦ elim (fs.bits (bblock b fs) bi) [
    | false ↦ some bi
    | true ↦ find_bit rounds (bi + 1) b fs
  ]
]

-- The loop over the blocks of the map. The result 0 is "out of blocks".
pub balloc_loop : (fuel b : ℕ) → Fs → ℕ × Fs
balloc_loop zero b fs = (0, fs)
balloc_loop (suc fuel) b fs = elim (ltb b fs.size) [
  | false ↦ (0, fs)
  | true ↦ elim (find_bit bpb 0 b fs) [
    | some bi ↦
        let marked = record fs {
          bits = update fs.bits (bblock b fs) (update (fs.bits (bblock b fs)) bi true);
        } in
        (b + bi, bzero (b + bi) (log_block (bblock b fs) marked))
    | none ↦ balloc_loop fuel (b + bpb) fs
  ]
]

-- Each round goes on by BPB blocks.
unfoldable pub balloc : Fs → ℕ × Fs
unfolding balloc_loop find_bit
balloc fs = balloc_loop (fs.size / bpb + 1) 0 fs

unfoldable pub bfree : ℕ → Fs → Run Fs
bfree b fs = if bit b fs then ok (log_block (bblock b fs) (set_bit b false fs)) else panic
