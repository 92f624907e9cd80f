-- ===== src/Log/Atomic.antt =====
-- The crash theorem of the log: recovery after a crash anywhere in a commit.
use mit_lab.Base.{
  ℕ, zero, suc, ◌+◌, ◌-◌, ◌≤◌, ◌<◌, min, ◌≡◌, refl, ap, ◌≢◌, inl, inr, false, ◌&&◌, arith, ok, ltb,
  leb, ◌==◌, if◌then◌else◌, Bool-cases,
}
use mit_lab.Buffers.{Block, data_of, reboot}
use mit_lab.Log.{Log, commit, recover_from_log, initlog}
use mit_lab.Log.Stages.{logged, logged-ext}
use mit_lab.Log.Recover.{n-write_head, Recoverable, named, recover-disk}
use mit_lab.Log.Crash.{
  Ready, Home, new, logged_mono, commit-Home, commit-log, commit-head_before, commit-head_during,
  commit-head_after, full_head-n, full_head-block, restarted, data_of-reboot, disk-reboot,
  power-reboot,
}

-- The state that recovery starts from when the power fails in the commit of `l`.
abbrev pub crashed : Log → ℕ → Log
crashed l q = restarted (record l { store = (commit l).store }) q

commit_nothing : (l : Log) → l.n ≡ 0 → commit l ≡ l
unfolding commit
commit_nothing l e = ground arith

logged_none : (block : ℕ → ℕ) (i n c : ℕ) → n ≡ 0 → logged block i n c ≡ false
unfolding logged
logged_none block i zero c e = refl
logged_none block i (suc n) c e = absurd (omega arith)

module _ (l : Log) (q : ℕ) (ready : Ready l) where
  found : (w : ℕ) → data_of (crashed l q).store l.start w ≡ (commit l).store.disk l.start w
  found w = ap (λ b. b w) (data_of-reboot q (commit l).store l.start)

  Recoverable-empty : (commit l).store.disk l.start 0 ≡ 0 → Recoverable (crashed l q) (new l ready)
  Recoverable-empty e = record {
    fits = omega (arith, found 0, ready.fits);
    apart = λ j h. absurd (omega (arith, found 0));
    holds = λ j h. absurd (omega (arith, found 0));
  }

  module _ (some_block : 0 < l.n) (lo : l.n < l.store.power)
      (hi : l.store.power ≤ l.n + l.n + 1) where
    found_n : data_of (crashed l q).store l.start 0 ≡ l.n
    found_n = ground (
      arith,
      found 0,
      full_head-n l ready,
      ap (λ b. b 0) (commit-head_during l ready some_block lo hi),
    )

    found_block : (j : ℕ) → j < l.n → data_of (crashed l q).store l.start (j + 1) ≡ l.block j
    found_block j h = ground (
      arith,
      found (j + 1),
      full_head-block l ready j h,
      ap (λ b. b (j + 1)) (commit-head_during l ready some_block lo hi),
    )

    Recoverable-full : Recoverable (crashed l q) (new l ready)
    Recoverable-full = record {
      fits = omega (arith, found_n, ready.fits);
      apart = λ j h.
          let lt : j < l.n = omega (arith, found_n) in
          rw (found_block j lt) (ready.apart j (omega arith) (omega arith));
      holds = λ j h.
          let lt : j < l.n = omega (arith, found_n) in
          rw (found_block j lt, data_of-reboot q (commit l).store (l.start + j + 1))
            (commit-log l ready j some_block lt lo);
    }

    named_full : (c : ℕ) → named (crashed l q) c ≡ logged l.block 0 l.n c
    named_full c = rw found_n (
        logged-ext l.n 0 c (λ j. data_of (crashed l q).store l.start (j + 1)) l.block
          (λ j a b. found_block j (omega arith)))

  out_of_head : (c : ℕ) → Home l c → c ≢ l.start
  out_of_head c home = omega (arith, ready.fits)

  recovered_before :
      (c : ℕ)
      → Home l c
      → 0 < q
      → (commit l).store.disk l.start 0 ≡ 0
      → (recover_from_log (crashed l q)).store.disk c ≡ (commit l).store.disk c
  unfolding logged
  recovered_before c home more e =
      let k : data_of (crashed l q).store l.start 0 ≡ 0 = omega (arith, found 0) in
      let power : data_of (crashed l q).store l.start 0 < (crashed l q).store.power =
        omega (arith, power-reboot q (commit l).store) in
      ground (
        arith,
        disk-reboot q (commit l).store c,
        rw k at (
            recover-disk (crashed l q) (new l ready) (Recoverable-empty e) c power
              (out_of_head c home)),
      )

  recovered_during :
      (c : ℕ)
      → Home l c
      → l.n < q
      → (h : 0 < l.n) (lo : l.n < l.store.power) (hi : l.store.power ≤ l.n + l.n + 1)
      → (recover_from_log (crashed l q)).store.disk c
        ≡ (if logged l.block 0 l.n c then new l ready c else (commit l).store.disk c)
  recovered_during c home more h lo hi =
      let power : data_of (crashed l q).store l.start 0 < (crashed l q).store.power =
        omega (arith, power-reboot q (commit l).store, found_n h lo hi) in
      ground (
        arith,
        disk-reboot q (commit l).store c,
        named_full h lo hi c,
        recover-disk (crashed l q) (new l ready) (Recoverable-full h lo hi) c power
            (out_of_head c home),
      )

  -- The contents of block `c` that recovery is to find.
  abbrev Outcome : ℕ → Block → Type 0
  Outcome c x = x ≡ (
      if ltb l.n l.store.power && logged l.block 0 l.n c then data_of l.store c else l.store.disk c)

  recovered_nothing :
      (c : ℕ)
      → Home l c
      → 0 < q
      → l.n ≡ 0
      → Outcome c ((recover_from_log (crashed l q)).store.disk c)
  recovered_nothing c home more e = ground (
    arith,
    recovered_before c home more (rw (commit_nothing l e) ready.clean),
    ap (λ k. k.store.disk c) (commit_nothing l e),
    logged_none l.block 0 l.n c e,
  )

  recovered_old :
      (c : ℕ)
      → Home l c
      → 0 < q
      → 0 < l.n
      → l.store.power ≤ l.n
      → Outcome c ((recover_from_log (crashed l q)).store.disk c)
  recovered_old c home more h p = ground (
    arith,
    recovered_before c home more (commit-head_before l ready h p),
    commit-Home l ready c home (out_of_head c home) h,
    logged_none l.block 0 (min l.n (l.store.power - l.n - 1)) c (omega arith),
  )

  recovered_new :
      (c : ℕ)
      → Home l c
      → l.n < q
      → 0 < l.n
      → l.n < l.store.power
      → Outcome c ((recover_from_log (crashed l q)).store.disk c)
  recovered_new c home more h lo = elim (Bool-cases (leb l.store.power (l.n + l.n + 1))) [
    | inl hi ↦ ground (
      arith,
      recovered_during c home more h lo (ground arith),
      commit-Home l ready c home (out_of_head c home) h,
      logged_mono l.block (min l.n (l.store.power - l.n - 1)) l.n 0 c (omega arith),
    )
    | inr hi ↦
        let all : min l.n (l.store.power - l.n - 1) ≡ l.n = ground arith in
        ground (
          arith,
          recovered_before c home (omega arith) (commit-head_after l ready h (ground arith)),
          ap (λ k. logged l.block 0 k c) all,
          commit-Home l ready c home (out_of_head c home) h,
        )
  ]

  recovered :
      (c : ℕ) → Home l c → l.n < q → Outcome c ((recover_from_log (crashed l q)).store.disk c)
  recovered c home more = elim (Bool-cases (l.n == 0)) [
    | inl none_logged ↦ recovered_nothing c home (omega arith) (ground arith)
    | inr some_logged ↦ elim (Bool-cases (leb l.store.power l.n)) [
      | inl p ↦ recovered_old c home (omega arith) (ground arith) (ground arith)
      | inr p ↦ recovered_new c home more (ground arith) (ground arith)
    ]
  ]

-- For a transaction that is ready to commit, let the power fail after any number of the commit's
-- disk writes (`l.store.power`), and let the system restart with power for more writes than there
-- are logged blocks. Then `initlog` ends with an empty log, and gives every block outside the log
-- either its contents from before the transaction, if at most the `n` log blocks had been written,
-- or else, if the transaction changed it, its new contents: never a mixture.
pub commit-atomic :
    (l : Log) (q c : ℕ)
    → Ready l
    → Home l c
    → l.n < q
    → (r : Log) × (initlog l.start l.size (reboot q (commit l).store) ≡ ok r)
      × (r.n ≡ 0)
      × (r.store.disk c ≡ (
          if ltb l.n l.store.power && logged l.block 0 l.n c
          then data_of l.store c
          else l.store.disk c))
unfolding initlog recover_from_log
commit-atomic l q c ready home more =
    (recover_from_log (crashed l q), refl, n-write_head _, recovered l q ready c home more)
