-- ===== src/Log/Recover.antt =====
-- `write_head`, `read_head` and recovery.
use mit_lab.Base.{
  ℕ, ◌+◌, ◌-◌, ◌≤◌, ◌<◌, min, ◌≡◌, refl, ap, ◌≢◌, ◌⊎◌, Bool, true, arith, ◌==◌, if◌then◌else◌,
  update,
}
use mit_lab.Buffers.{Block, data_of, bread, set_data, bwrite, data_of-bread}
use mit_lab.Log.{
  Log, write_blocks, write_head, read_head, install_trans, recover_from_log, install_loop,
}
use mit_lab.Log.Stages.{
  logged, Apart, Holds, disk-install_loop, power-install_loop, head_n, read_block, logged-ext,
}

module _ (l : Log) where
  pub data_of-write_head :
      (c : ℕ)
      → data_of (write_head l).store c ≡ (
          if c == l.start
          then write_blocks l.n 0 l.block (update (data_of l.store l.start) 0 l.n)
          else data_of l.store c)
  unfolding write_head data_of bread set_data bwrite
  data_of-write_head c = ground arith

  pub disk-write_head :
      (c : ℕ)
      → (write_head l).store.disk c ≡ (
          if l.store.power == 0
          then l.store.disk c
          else if c == l.start
          then write_blocks l.n 0 l.block (update (data_of l.store l.start) 0 l.n)
          else l.store.disk c)
  unfolding write_head data_of bread set_data bwrite
  disk-write_head c = ground arith

  pub power-write_head : (write_head l).store.power ≡ l.store.power - 1
  unfolding write_head data_of bread set_data bwrite
  power-write_head = ground arith

  pub n-write_head : (write_head l).n ≡ l.n
  unfolding write_head
  n-write_head = refl

  data_of-read_head : (c : ℕ) → data_of (read_head l).store c ≡ data_of l.store c
  unfolding read_head data_of bread
  data_of-read_head c = ground arith

  disk-read_head : (c : ℕ) → (read_head l).store.disk c ≡ l.store.disk c
  unfolding read_head bread
  disk-read_head c = refl

  n-read_head : (read_head l).n ≡ data_of l.store l.start 0
  unfolding read_head data_of bread
  n-read_head = ground arith

  power-read_head : (read_head l).store.power ≡ l.store.power
  unfolding read_head bread
  power-read_head = refl

  place-read_head : ((read_head l).start ≡ l.start) × ((read_head l).size ≡ l.size)
  unfolding read_head
  place-read_head = (refl, refl)

  block-read_head :
      (j : ℕ)
      → j < data_of l.store l.start 0
      → (read_head l).block j ≡ data_of l.store l.start (j + 1)
  unfolding read_head
  block-read_head j h =
      rw (data_of-bread l.start l.start l.store) (
        ground
          (arith, read_block (data_of l.store l.start 0) 0 j (data_of l.store l.start) l.block))

-- What recovery finds on the disk: a header that names no block of the log, and log blocks with
-- the contents `new` of the blocks that the header names.
pub record Recoverable (l : Log) (new : ℕ → Block) : Type 0 where
  pub fits : data_of l.store l.start 0 < l.size
  pub apart :
      (j : ℕ)
      → j < data_of l.store l.start 0
      → (data_of l.store l.start (j + 1) < l.start)
        ⊎ (l.start + l.size ≤ data_of l.store l.start (j + 1))
  pub holds :
      (j : ℕ)
      → j < data_of l.store l.start 0
      → data_of l.store (l.start + j + 1) ≡ new (data_of l.store l.start (j + 1))

-- The blocks that the header names.
abbrev pub named : Log → ℕ → Bool
named l c = logged (λ j. data_of l.store l.start (j + 1)) 0 (data_of l.store l.start 0) c

module _ (l : Log) (new : ℕ → Block) (r : Recoverable l new) where
  Apart-read_head : Apart (read_head l) 0 (read_head l).n
  Apart-read_head j a b =
      let (p, q) = place-read_head l in
      let lt : j < data_of l.store l.start 0 = omega (arith, n-read_head l) in
      let e = block-read_head l j lt in let fact = r.apart j lt in rw (p, q, e) fact

  Holds-read_head : Holds (read_head l) new 0 (read_head l).n (read_head l).store
  Holds-read_head j a b =
      let (p, q) = place-read_head l in
      let lt : j < data_of l.store l.start 0 = omega (arith, n-read_head l) in
      rw (p, block-read_head l j lt, data_of-read_head l (l.start + j + 1)) (r.holds j lt)

  logged-read_head : (c : ℕ) → logged (read_head l).block 0 (read_head l).n c ≡ named l c
  logged-read_head c = rw (n-read_head l) (
      logged-ext (data_of l.store l.start 0) 0 c (read_head l).block
        (λ j. data_of l.store l.start (j + 1)) (λ j a b. block-read_head l j (omega arith)))

  -- With power for every write, `recover_from_log` gives each block that the header names the
  -- contents of its copy in the log, leaves the other blocks but the header as they are, and ends
  -- with an empty log, in memory and on the disk.
  pub recover-disk :
      (c : ℕ)
      → data_of l.store l.start 0 < l.store.power
      → c ≢ l.start
      → (recover_from_log l).store.disk c ≡ (if named l c then new c else l.store.disk c)
  unfolding recover_from_log install_trans
  recover-disk c power out =
      let lr = read_head l in
      let le : lr.n ≤ lr.store.power = omega (arith, n-read_head l, power-read_head l) in
      let fits : 0 + lr.n < lr.size = ground (arith, n-read_head l, place-read_head l, r.fits) in
      let e : min lr.n lr.store.power ≡ lr.n = omega arith in
      let installed =
        rw (e, logged-read_head c) at
          (disk-install_loop lr true new lr.n 0 c lr.store Apart-read_head fits Holds-read_head) in
      ground (
        arith,
        disk-write_head (record (install_trans true lr) { n = 0 }) c,
        installed,
        disk-read_head l c,
        place-read_head l,
      )

  pub recover-clears :
      data_of l.store l.start 0 < l.store.power
      → ((recover_from_log l).n ≡ 0) × ((recover_from_log l).store.disk l.start 0 ≡ 0)
  unfolding recover_from_log install_trans
  recover-clears power =
      let lr = read_head l in
      let l4 = record (install_trans true lr) { n = 0 } in
      let left : (install_loop true lr lr.n 0 lr.store).power ≢ 0 =
        omega
          (arith, power-install_loop lr true lr.n 0 lr.store, n-read_head l, power-read_head l) in
      (
        n-write_head l4,
        ground (
          arith,
          ap (λ b. b 0) (disk-write_head l4 l.start),
          head_n 0 0 l4.block (update (data_of l4.store l4.start) 0 0),
          place-read_head l,
        ),
      )
