-- ===== src/Fs/Alloc/First.antt =====
-- `balloc` takes the first free block.
use mit_lab.Base.{
  ℕ, zero, suc, ◌+◌, ◌-◌, ◌*◌, ◌/◌, ◌%◌, ◌≤◌, ◌<◌, ◌≡◌, ◌≢◌, refl, ◌∙◌, ◌⊎◌, inl, inr, Bool, true,
  false, none, some, ◌∷◌, arith, ltb, ◌==◌, if◌then◌else◌, Bool-cases, Option-cases,
}
use mit_lab.Fs.{bpb, Fs, bblock, log_block}
use mit_lab.Fs.Alloc.{bit, set_bit, bzero, find_bit, balloc_loop, balloc}

find_bit-some :
    (r bi b j : ℕ) (fs : Fs)
    → find_bit r bi b fs ≡ some j
    → (bi ≤ j) × (j < bi + r) × (b + j < fs.size) × (fs.bits (bblock b fs) j ≡ false)
unfolding find_bit
find_bit-some zero bi b j fs h = cc
find_bit-some (suc r) bi b j fs h = ground (arith, find_bit-some r (bi + 1) b j fs)

find_bit-first :
    (r bi b j k : ℕ) (fs : Fs)
    → find_bit r bi b fs ≡ some j
    → bi ≤ k
    → k < j
    → fs.bits (bblock b fs) k ≡ true
unfolding find_bit
find_bit-first zero bi b j k fs h l m = cc
find_bit-first (suc r) bi b j k fs h l m = ground (arith, find_bit-first r (bi + 1) b j k fs)

find_bit-none :
    (r bi b k : ℕ) (fs : Fs)
    → find_bit r bi b fs ≡ none
    → bi ≤ k
    → k < bi + r
    → b + k < fs.size
    → fs.bits (bblock b fs) k ≡ true
unfolding find_bit
find_bit-none zero bi b k fs h l m s = absurd (omega arith)
find_bit-none (suc r) bi b k fs h l m s = ground (arith, find_bit-none r (bi + 1) b k fs)

-- Where the bit of block `k` is in the block of the map for `b`.
bit_at :
    (b k : ℕ) (fs : Fs)
    → b % bpb ≡ 0
    → b ≤ k
    → k < b + bpb
    → (k / bpb ≡ b / bpb) × (k % bpb ≡ k - b)
bit_at b k fs al le lt = (omega arith, omega arith)

bit_here :
    (b k : ℕ) (fs : Fs)
    → b % bpb ≡ 0
    → b ≤ k
    → k < b + bpb
    → bit k fs ≡ fs.bits (bblock b fs) (k - b)
bit_here b k fs al le lt =
    let (p, q) = bit_at b k fs al le lt in λ i. fs.bits (p i + fs.bmapstart) (q i)

-- What `balloc` does, step by step: it fails with all blocks in use, or takes the first free block.
pub data Chosen (fs : Fs) : ℕ × Fs → Type 0 where
  full : ((k : ℕ) → k < fs.size → bit k fs ≡ true) → Chosen fs (0, fs)
  took :
      (x : ℕ)
      → x < fs.size
      → bit x fs ≡ false
      → ((k : ℕ) → k < x → bit k fs ≡ true)
      → Chosen fs (x, bzero x (log_block (bblock x fs) (set_bit x true fs)))

below :
    (fs : Fs) (b : ℕ)
    → b % bpb ≡ 0
    → ((k : ℕ) → k < b → k < fs.size → bit k fs ≡ true)
    → (top : ℕ) → ((j : ℕ) → j < top → b + j < fs.size → fs.bits (bblock b fs) j ≡ true)
    → top ≤ bpb
    → (k : ℕ) → k < b + top
    → k < fs.size
    → bit k fs ≡ true
below fs b al low top here tl k lt sz = elim (Bool-cases (ltb k b)) [
  | inl e ↦ low k (ground arith) sz
  | inr e ↦
      let ge : b ≤ k = ground arith in
      bit_here b k fs al ge (omega arith) ∙ here (k - b) (omega arith) (omega arith)
]

balloc_loop-Chosen :
    (fuel b : ℕ) (fs : Fs)
    → b % bpb ≡ 0
    → fs.size < b + fuel * bpb
    → ((k : ℕ) → k < b → k < fs.size → bit k fs ≡ true)
    → Chosen fs (balloc_loop fuel b fs)
unfolding balloc_loop
balloc_loop-Chosen zero b fs al en low = full (λ k l. low k (omega arith) l)
balloc_loop-Chosen (suc fuel) b fs al en low = elim (Bool-cases (ltb b fs.size)) [
  | inr e ↦ rw (e, balloc_loop) (full (λ k l. low k (ground arith) l))
  | inl e ↦ elim (Option-cases (find_bit bpb 0 b fs)) [
    | inr (bi, f) ↦
        let (c, d, g, h) = find_bit-some bpb 0 b bi fs f in
        let (p, q) = bit_at b (b + bi) fs al (omega arith) (omega arith) in
        let s : b + bi - b ≡ bi = omega arith in
        let first =
          below fs b al low bi (λ j l m. find_bit-first bpb 0 b bi j fs f (omega arith) l)
            (omega arith) in
        let t : Chosen fs
            (b + bi, bzero (b + bi) (log_block (bblock (b + bi) fs) (set_bit (b + bi) true fs))) =
          took (b + bi) g (bit_here b (b + bi) fs al (omega arith) (omega arith) ∙ rw s h)
            (λ k l. first k l (omega arith)) in
        rw (e, f, balloc_loop) (rw (p, q, s) at t)
    | inl f ↦
        let low' =
          below fs b al low bpb
            (λ j l m. find_bit-none bpb 0 b j fs f (omega arith) (omega arith) m) (omega arith) in
        rw (e, f, balloc_loop)
          (balloc_loop-Chosen fuel (b + bpb) fs (omega arith) (omega arith) low')
  ]
]

balloc-Chosen : (fs : Fs) → Chosen fs (balloc fs)
unfolding balloc
balloc-Chosen fs =
    balloc_loop-Chosen (fs.size / bpb + 1) 0 fs (omega arith) (omega arith)
      (λ k l m. absurd (omega arith))

-- The two outcomes, as equations.
pub alloc_cases :
    (fs : Fs)
    → ((balloc fs ≡ (0, fs)) × ((k : ℕ) → k < fs.size → bit k fs ≡ true))
      ⊎ (x : ℕ) × (balloc fs ≡ (x, bzero x (log_block (bblock x fs) (set_bit x true fs))))
        × (x < fs.size)
        × (bit x fs ≡ false)
alloc_cases fs = outcome (balloc fs) (balloc-Chosen fs)
  where
    outcome :
        (r : ℕ × Fs)
        → Chosen fs r
        → ((r ≡ (0, fs)) × ((k : ℕ) → k < fs.size → bit k fs ≡ true))
          ⊎ (x : ℕ) × (r ≡ (x, bzero x (log_block (bblock x fs) (set_bit x true fs))))
            × (x < fs.size)
            × (bit x fs ≡ false)
    outcome r (full h) = inl (refl, h)
    outcome r (took x l f g) = inr (x, refl, l, f)

pub bit-set_bit :
    (x y : ℕ) (v : Bool) (fs : Fs) → bit y (set_bit x v fs) ≡ (if y == x then v else bit y fs)
bit-set_bit x y v fs = ground arith

-- What `balloc` does to the state.
pub data Allocated (fs : Fs) : ℕ × Fs → Type 0 where
  full : ((k : ℕ) → k < fs.size → bit k fs ≡ true) → Allocated fs (0, fs)
  took :
      {fs' : Fs} (x : ℕ)
      → x < fs.size
      → bit x fs ≡ false
      → ((k : ℕ) → k < x → bit k fs ≡ true)
      → ((k : ℕ) → bit k fs' ≡ (if k == x then true else bit k fs))
      → ((j : ℕ) → fs'.words x j ≡ 0)
      → ((b j : ℕ) → b ≢ x → fs'.words b j ≡ fs.words b j)
      → (fs'.inodes ≡ fs.inodes) × (fs'.dinodes ≡ fs.dinodes)
      → fs'.logged ≡ x ∷ (bblock x fs ∷ fs.logged)
      → Allocated fs (x, fs')

-- `balloc` fails, changing nothing, only when every block is in use; else it returns the first block
-- that is free, marks it and no other block, and fills it with zeros and no other block. It gives the
-- block of the map and the new block to `log_write`, and changes no inode.
pub balloc-Allocated : (fs : Fs) → Allocated fs (balloc fs)
balloc-Allocated fs = done (balloc-Chosen fs)
  where
    done : {r : ℕ × Fs} → Chosen fs r → Allocated fs r
    done (full all) = full all
    done (took x l f first) =
        took x l f first (λ k. bit-set_bit x k true fs) (λ j. ground arith)
          (λ b j ne. ground (arith, ne)) (refl, refl) refl
