-- ===== src/Log/Absorb.antt =====
-- What one `log_write` records: absorption of repeated writes, and the pin of a new block.
use mit_lab.Base.{
  ℕ, zero, suc, ◌+◌, ◌%◌, ◌^◌, ◌≤◌, ◌<◌, ◌≡◌, refl, ◌⊎◌, inl, inr, true, false, ◌&&◌, ◌||◌, arith,
  ok, ◌==◌, if◌then◌else◌, update, Bool-cases,
}
use mit_lab.Buffers.{bpin}
use mit_lab.Log.{Log, find_slot, log_write}
use mit_lab.Log.Stages.{logged, logged-ext}

find_slot-bounds :
    (r i b : ℕ) (block : ℕ → ℕ) → (i ≤ find_slot r i block b) × (find_slot r i block b ≤ i + r)
unfolding find_slot
find_slot-bounds zero i b block = omega arith
find_slot-bounds (suc r) i b block = ground (arith, find_slot-bounds r (i + 1) b block)

-- The slot holds `b`, or it is the first free one and `b` is not logged.
find_slot-logged :
    (r i b : ℕ) (block : ℕ → ℕ)
    → (find_slot r i block b ≡ i + r) × (logged block i r b ≡ false)
      ⊎ (find_slot r i block b < i + r)
        × (logged block i r b ≡ true)
        × (block (find_slot r i block b) ≡ b)
unfolding find_slot logged
find_slot-logged zero i b block = inl (omega arith, refl)
find_slot-logged (suc r) i b block = elim (Bool-cases (block i == b)) [
  | inl e ↦ inr (ground arith, ground arith, ground arith)
  | inr e ↦ elim (find_slot-logged r (i + 1) b block) [
    | inl (p, q) ↦ inl (ground arith, ground arith)
    | inr (p, q, w) ↦ inr (ground arith, ground arith, ground arith)
  ]
]

logged-last :
    (block : ℕ → ℕ) (r i c : ℕ)
    → logged block i (suc r) c ≡ (logged block i r c || (block (i + r) == c))
unfolding logged
logged-last block zero i c = ground arith
logged-last block (suc r) i c = ground (arith, logged-last block r (i + 1) c)

logged_new :
    (block : ℕ → ℕ) (n b c : ℕ)
    → logged (update block n b) 0 (n + 1) c ≡ (logged block 0 n c || (b == c))
logged_new block n b c =
    let e : n + 1 ≡ suc n = omega arith in
    rw e (
      ground (
        arith,
        logged-last (update block n b) n 0 c,
        logged-ext n 0 c (update block n b) block (λ j p q. ground arith),
      ))

logged_again :
    (block : ℕ → ℕ) (n i b c : ℕ)
    → block i ≡ b
    → logged block 0 n b ≡ true
    → logged (update block i b) 0 n c ≡ (logged block 0 n c || (b == c))
logged_again block n i b c e old =
    ground (arith, logged-ext n 0 c (update block i b) block (λ j p q. ground arith))

fields-log_write :
    (b : ℕ) (l : Log) {l' : Log}
    → log_write b l ≡ ok l'
    → (l'.block ≡ update l.block (find_slot l.n 0 l.block b) b)
      × (l'.n ≡ (if find_slot l.n 0 l.block b == l.n then l.n + 1 else l.n))
unfolding log_write
fields-log_write b l h = (ground arith, ground arith)

-- A `log_write` that returns adds block `b` to the logged blocks and drops none; a block that is
-- logged already costs no space and no pin, a new one costs one slot and one pin.
pub log_write-logged :
    (b c : ℕ) (l : Log) {l' : Log}
    → log_write b l ≡ ok l'
    → (logged l'.block 0 l'.n c ≡ (logged l.block 0 l.n c || (b == c)))
      × (l'.n ≡ (if logged l.block 0 l.n b then l.n else l.n + 1))
      × (l'.store.pins c ≡ (
          if (b == c) && (if logged l.block 0 l.n b then false else true)
          then (l.store.pins c + 1) % 2 ^ 32
          else l.store.pins c))
unfolding log_write bpin
log_write-logged b c l {l'} h =
    let (eb, en) = fields-log_write b l h in
    elim (find_slot-logged l.n 0 b l.block) [
      | inl (at, fresh) ↦
          let slot : find_slot l.n 0 l.block b ≡ l.n = omega arith in
          let n' : l'.n ≡ l.n + 1 = ground arith in
          (rw (eb, n', slot) (logged_new l.block l.n b c), ground (arith, h), ground (arith, h))
      | inr (at, old, holds) ↦
          let n' : l'.n ≡ l.n = ground arith in
          (
            rw (eb, n') (logged_again l.block l.n (find_slot l.n 0 l.block b) b c holds old),
            ground (arith, h),
            ground (arith, h),
          )
    ]
