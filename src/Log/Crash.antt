-- ===== src/Log/Crash.antt =====
-- A commit is atomic: whatever disk write a crash comes after, recovery finds all of the transaction
-- or nothing of it.
use mit_lab.Base.{
  ℕ, zero, suc, ◌+◌, ◌-◌, ◌≤◌, ◌<◌, min, ◌≡◌, refl, ap, ◌≢◌, ◌⊎◌, true, false, arith, leb, lt→ltb,
  ◌==◌, if◌then◌else◌, update,
}
use mit_lab.Buffers.{Block, Store, data_of, reboot}
use mit_lab.Log.{Log, write_blocks, write_head, write_log, write_log_loop, install_trans, commit}
use mit_lab.Log.Stages.{
  logged, in_log, Apart, Holds, data_of-write_log_loop, disk-write_log_loop, power-write_log_loop,
  disk-install_loop, power-install_loop, head_n, head_block, logged-Apart,
}
use mit_lab.Log.Recover.{data_of-write_head, disk-write_head, power-write_head}

-- A transaction that can commit: it fits in the log, its blocks lie outside it, and the log on the
-- disk is empty.
pub record Ready (l : Log) : Type 0 where
  pub fits : l.n < l.size
  pub apart : Apart l 0 l.n
  pub clean : l.store.disk l.start 0 ≡ 0

-- The blocks that the log does not use.
abbrev pub Home : Log → ℕ → Type 0
Home l c = (c < l.start) ⊎ (l.start + l.size ≤ c)

-- Prefixes of the logged blocks.
pub logged_mono :
    (block : ℕ → ℕ) (k r i c : ℕ) → k ≤ r → logged block i k c ≡ true → logged block i r c ≡ true
unfolding logged
logged_mono block zero r i c le h = cc
logged_mono block (suc k) zero i c le h = absurd (omega arith)
logged_mono block (suc k) (suc r) i c le h =
    ground (arith, logged_mono block k r (i + 1) c (omega arith))

module _ (l : Log) (ready : Ready l) where
  -- The contents that the transaction gives to block `c`.
  abbrev pub new : ℕ → Block
  new c = data_of l.store c

  -- The log after `write_log`, the first `write_head` and `install_trans`.
  abbrev pub logged_state : Log
  logged_state = record l { store = write_log_loop l l.n 0 l.store }

  abbrev pub headed : Log
  headed = write_head logged_state

  fits_from_zero : 0 + l.n < l.size
  fits_from_zero = omega (arith, ready.fits)

  place_headed :
      (headed.start ≡ l.start)
      × (headed.size ≡ l.size)
      × (headed.n ≡ l.n)
      × (headed.block ≡ l.block)
  unfolding write_head
  place_headed = (refl, refl, refl, refl)

  headed_disk :
      (c : ℕ)
      → headed.store.disk c ≡ (
          if leb l.store.power l.n
          then logged_state.store.disk c
          else if c == l.start
          then write_blocks l.n 0 l.block (update (data_of logged_state.store l.start) 0 l.n)
          else logged_state.store.disk c)
  headed_disk c =
      ground (arith, disk-write_head logged_state c, power-write_log_loop l l.n 0 l.store)

  headed_power : headed.store.power ≡ l.store.power - l.n - 1
  headed_power = omega (arith, power-write_head logged_state, power-write_log_loop l l.n 0 l.store)

  headed-Apart : Apart headed 0 headed.n
  unfolding write_head
  headed-Apart = ready.apart

  headed-Holds : Holds headed new 0 headed.n headed.store
  headed-Holds j a b =
      let (ps, pz, pn, pb) = place_headed in
      let lt : j < l.n = omega arith in
      let e : l.start + j + 1 - l.start - 1 ≡ j = omega arith in
      rw (ps, pb)
        (ground (
          arith,
          data_of-write_head logged_state (l.start + j + 1),
          rw e at
              (data_of-write_log_loop l l.n 0 (l.start + j + 1) l.store ready.apart fits_from_zero),
        ))

  -- After all writes that reach the disk.
  abbrev pub installed : Log
  installed = install_trans false headed

  installed_disk :
      (c : ℕ)
      → installed.store.disk c ≡ (
          if logged l.block 0 (min l.n (l.store.power - l.n - 1)) c
          then new c
          else headed.store.disk c)
  unfolding install_trans write_head write_log_loop
  installed_disk c =
      let (ps, pz, pn, pb) = place_headed in
      let k : min headed.n headed.store.power ≡ min l.n (l.store.power - l.n - 1) =
        omega (arith, headed_power, pn) in
      rw (← k, ← pb)
        (disk-install_loop headed false new headed.n 0 c headed.store headed-Apart
          (omega (arith, pz, pn, ready.fits)) headed-Holds)

  installed_power : installed.store.power ≡ l.store.power - l.n - 1 - l.n
  unfolding install_trans
  installed_power =
      let (ps, pz, pn, pb) = place_headed in
      omega (arith, power-install_loop headed false headed.n 0 headed.store, headed_power, pn)

  pub commit_lem : 0 < l.n → commit l ≡ write_head (record installed { n = 0 })
  unfolding commit write_log
  commit_lem h = rw (lt→ltb 0 l.n h)

  place_installed : (installed.start ≡ l.start) × (installed.block ≡ l.block)
  unfolding install_trans write_head
  place_installed = (refl, refl)

  -- The disk outside the header when the power is gone.
  commit_disk :
      (c : ℕ)
      → 0 < l.n
      → c ≢ l.start
      → (commit l).store.disk c ≡ (
          if logged l.block 0 (min l.n (l.store.power - l.n - 1)) c
          then new c
          else if in_log l.start 0 (min l.n l.store.power) c
          then new (l.block (c - l.start - 1))
          else l.store.disk c)
  commit_disk c h out = rw (commit_lem h) (
      ground (
        arith,
        disk-write_head (record installed { n = 0 }) c,
        installed_disk c,
        headed_disk c,
        disk-write_log_loop l l.n 0 c l.store ready.apart fits_from_zero,
        place_installed,
      ))

  pub commit-Home :
      (c : ℕ)
      → Home l c
      → c ≢ l.start
      → 0 < l.n
      → (commit l).store.disk c
        ≡ (if logged l.block 0 (min l.n (l.store.power - l.n - 1)) c then new c else l.store.disk c)
  commit-Home c home out h = ground (arith, commit_disk c h out, ready.fits)

  -- The log area after a commit: each written log block has its copy.
  pub commit-log :
      (j : ℕ)
      → 0 < l.n
      → j < l.n
      → l.n < l.store.power
      → (commit l).store.disk (l.start + j + 1) ≡ new (l.block j)
  commit-log j h lt p =
      let e : l.start + j + 1 - l.start - 1 ≡ j = omega arith in
      ground (
        arith,
        rw e at (commit_disk (l.start + j + 1) h (omega arith)),
        logged-Apart l (min l.n (l.store.power - l.n - 1)) 0 (l.start + j + 1)
            (λ i a b. ready.apart i a (omega arith)),
        ready.fits,
      )

  -- The header that `write_head` writes first.
  abbrev pub full_head : Block
  full_head = write_blocks l.n 0 l.block (update (data_of logged_state.store l.start) 0 l.n)

  commit-head :
      0 < l.n
      → (commit l).store.disk l.start ≡ (
          if leb l.store.power l.n
          then l.store.disk l.start
          else if leb l.store.power (l.n + l.n + 1)
          then full_head
          else write_blocks 0 0 installed.block
              (update (data_of installed.store installed.start) 0 0))
  commit-head h = rw (commit_lem h) (
      ground (
        arith,
        disk-write_head (record installed { n = 0 }) l.start,
        installed_disk l.start,
        installed_power,
        headed_disk l.start,
        disk-write_log_loop l l.n 0 l.start l.store ready.apart fits_from_zero,
        place_installed,
        logged-Apart l (min l.n (l.store.power - l.n - 1)) 0 l.start
            (λ i a b. ready.apart i a (omega arith)),
        ready.fits,
      ))

  pub commit-head_before : 0 < l.n → l.store.power ≤ l.n → (commit l).store.disk l.start 0 ≡ 0
  commit-head_before h p = ground (arith, ap (λ b. b 0) (commit-head h), ready.clean)

  pub commit-head_during :
      0 < l.n
      → l.n < l.store.power
      → l.store.power ≤ l.n + l.n + 1
      → (commit l).store.disk l.start ≡ full_head
  commit-head_during h p q = ground (arith, commit-head h)

  pub commit-head_after :
      0 < l.n → l.n + l.n + 1 < l.store.power → (commit l).store.disk l.start 0 ≡ 0
  unfolding write_blocks
  commit-head_after h p = ground (arith, ap (λ b. b 0) (commit-head h))

  pub full_head-n : full_head 0 ≡ l.n
  full_head-n =
      ground (arith, head_n l.n 0 l.block (update (data_of logged_state.store l.start) 0 l.n))

  pub full_head-block : (j : ℕ) → j < l.n → full_head (j + 1) ≡ l.block j
  full_head-block j lt =
      ground (arith, head_block l.n 0 j l.block (update (data_of logged_state.store l.start) 0 l.n))

-- The log as `initlog` sets it up after a crash, with power for `q` disk writes.
abbrev pub restarted : Log → ℕ → Log
restarted l q = record l {
  outstanding = 0;
  committing = false;
  n = 0;
  block = λ i. 0;
  store = reboot q l.store;
}

pub data_of-reboot : (q : ℕ) (s : Store) (c : ℕ) → data_of (reboot q s) c ≡ s.disk c
unfolding data_of reboot
data_of-reboot q s c = refl

pub disk-reboot : (q : ℕ) (s : Store) (c : ℕ) → (reboot q s).disk c ≡ s.disk c
unfolding reboot
disk-reboot q s c = refl

pub power-reboot : (q : ℕ) (s : Store) → (reboot q s).power ≡ q
unfolding reboot
power-reboot q s = refl
