-- ===== src/Bcache/Recycle.antt =====
-- What `bget` returns, in any state that the calls reach.
use mit_lab.Base.{
  ℕ, ◌+◌, ◌%◌, ◌^◌, ◌≤◌, ◌<◌, ◌≡◌, refl, sym, ap as cong, subst, ◌∙◌, ◌≢◌, ◌⊎◌, inl, inr, none,
  some, Run, ok, panic, some_inj, Option-cases, Bool, true, false, List, [], ◌∷◌, All, arith,
  Bool-cases,
}
use mit_lab.Bcache.{binit, is_block, is_free, bget, set_buf, nbuf, Bcache, Buf}
use mit_lab.Bcache.Ring.{Mem, first, later}
use mit_lab.Bcache.Recent.{first_in, last_in, find_cached, find_unused, down, binit-IsRing}
use mit_lab.Bcache.Lru.{World, Reach, Ordered, IsRecent, Reach-IsRecent}

-- The world after `binit`, before any release.
abbrev pub booted : Bcache → World
booted c = record { c = binit c; last = λ b. 0; now = 0 }

booted-IsRecent : (c : Bcache) → IsRecent (booted c)
booted-IsRecent c = record {
  order = down nbuf;
  ring = binit-IsRing c;
  ordered = omega arith;
  past = omega arith;
}

first_in-some :
    (test : Buf → Bool) (buf : ℕ → Buf) (xs : List ℕ) (b : ℕ)
    → All (λ y. y < nbuf) xs
    → first_in test buf xs ≡ some b
    → (b < nbuf) × (test (buf b) ≡ true)
first_in-some test buf [] b ls e = cc
first_in-some test buf (x ∷ xs) b (lx, ls) e = elim (Bool-cases (test (buf x))) [
  | inl t ↦ let q : x ≡ b = some_inj (rw t at e) in (rw (← q) lx, rw (← q) t)
  | inr t ↦ first_in-some test buf xs b ls (rw t at e)
]

Mem-cases : {y x : ℕ} {xs : List ℕ} → Mem y (x ∷ xs) → (y ≡ x) ⊎ Mem y xs
Mem-cases first = inl refl
Mem-cases (later x m) = inr m

first_in-none :
    (test : Buf → Bool) (buf : ℕ → Buf) (xs : List ℕ) (y : ℕ)
    → first_in test buf xs ≡ none
    → Mem y xs
    → test (buf y) ≡ false
first_in-none test buf [] y e m = elim m [ ]
first_in-none test buf (x ∷ xs) y e m = elim (Bool-cases (test (buf x))) [
  | inl t ↦ let f = rw t at e in absurd (cc)
  | inr t ↦ elim (Mem-cases m) [
    | inl q ↦ rw q t
    | inr m' ↦ first_in-none test buf xs y (rw t at e) m'
  ]
]

last_in-none :
    (test : Buf → Bool) (buf : ℕ → Buf) (xs : List ℕ) (y : ℕ)
    → last_in test buf xs ≡ none
    → Mem y xs
    → test (buf y) ≡ false
last_in-none test buf [] y e m = elim m [ ]
last_in-none test buf (x ∷ xs) y e m = elim (Option-cases (last_in test buf xs)) [
  | inr (b, f) ↦ let g = rw f at e in absurd (cc)
  | inl f ↦ elim (Bool-cases (test (buf x))) [
    | inl t ↦ let g = rw (f, t) at e in absurd (cc)
    | inr t ↦ elim (Mem-cases m) [ inl q ↦ rw q t | inr m' ↦ last_in-none test buf xs y f m' ]
  ]
]

All-Mem : (P : ℕ → Type 0) (xs : List ℕ) (y : ℕ) → All P xs → Mem y xs → P y
All-Mem P [] y a m = elim m [ ]
All-Mem P (x ∷ xs) y (p, a) m = elim (Mem-cases m) [
  | inl q ↦ subst P (sym q) p
  | inr m' ↦ All-Mem P xs y a m'
]

-- The last free buffer is the one that was released first.
last_in-some :
    (test : Buf → Bool) (buf : ℕ → Buf) (last : ℕ → ℕ) (xs : List ℕ) (b : ℕ)
    → Ordered last xs
    → last_in test buf xs ≡ some b
    → (test (buf b) ≡ true)
      × Mem b xs
      × ((y : ℕ) → Mem y xs → test (buf y) ≡ true → last b ≤ last y)
last_in-some test buf last [] b o e = cc
last_in-some test buf last (x ∷ xs) b (a, o) e = elim (Option-cases (last_in test buf xs)) [
  | inr (b', f) ↦
      let q : b' ≡ b = some_inj (rw f at e) in
      let (t, m, l) = last_in-some test buf last xs b o (f ∙ cong some q) in
      let lx = All-Mem (λ y. last y ≤ last x) xs b a m in
      (t, later x m, λ y my ty. elim (Mem-cases my) [ inl s ↦ rw s lx | inr m' ↦ l y m' ty ])
  | inl f ↦ elim (Bool-cases (test (buf x))) [
    | inr t ↦ let g = rw (f, t) at e in absurd (cc)
    | inl t ↦
        let q : x ≡ b = some_inj (rw (f, t) at e) in
        (
          rw (← q) t,
          rw (← q) first,
          λ y my ty. elim (Mem-cases my) [
            | inl s ↦ rw (s, q) (omega arith)
            | inr m' ↦ let n = last_in-none test buf xs y f m' in absurd (cc)
          ],
        )
  ]
]

-- The outcomes of `bget` for a block.
pub data Got (dev blockno : ℕ) (w : World) : Run (ℕ × Bcache) → Type 0 where
  cached :
      (b : ℕ)
      → b < nbuf
      → is_block dev blockno ((w.c).buf b) ≡ true
      → Got dev blockno w (
          ok (
            b,
            set_buf b (record ((w.c).buf b) { refcnt = (((w.c).buf b).refcnt + 1) % 2 ^ 32 }) w.c,
          ))
  recycled :
      (b : ℕ)
      → b < nbuf
      → ((y : ℕ) → y < nbuf → is_block dev blockno ((w.c).buf y) ≡ false)
      → ((w.c).buf b).refcnt ≡ 0
      → ((y : ℕ) → y < nbuf → ((w.c).buf y).refcnt ≡ 0 → w.last b ≤ w.last y)
      → Got dev blockno w (
          ok (
            b,
            set_buf b
                (record ((w.c).buf b) { dev = dev; blockno = blockno; valid = false; refcnt = 1 })
                w.c,
          ))
  full :
      ((y : ℕ) → y < nbuf → is_block dev blockno ((w.c).buf y) ≡ false)
      → ((y : ℕ) → y < nbuf → ((w.c).buf y).refcnt ≢ 0)
      → Got dev blockno w panic

-- After `binit` and any calls of `bget`, `bread`, `brelse`, `bpin` and `bunpin` in any order: `bget`
-- returns a buffer that caches the block, with one reference more, if there is one. Else it recycles
-- one of the NBUF buffers that has no references, and of those the one that `brelse` last brought to
-- 0 references longest ago. It panics only if no buffer caches the block and every buffer has references.
pub Reach-Got :
    (dev blockno : ℕ) (c : Bcache) (w : World)
    → Reach (booted c) w
    → Got dev blockno w (bget dev blockno w.c)
unfolding bget
Reach-Got dev blockno c w r =
    let h = Reach-IsRecent r (booted-IsRecent c) in
    let cached_q = find_cached (is_block dev blockno) w.c h.order h.ring in
    let unused_q = find_unused is_free w.c h.order h.ring in
    elim (Option-cases (first_in (is_block dev blockno) (w.c).buf h.order)) [
      | inr (b, f) ↦
          let (l, t) = first_in-some (is_block dev blockno) (w.c).buf h.order b h.ring.buffers f in
          let g = cached_q ∙ f in rw (g, bget) (cached b l t)
      | inl f ↦
          let g = cached_q ∙ f in
          let absent = λ (y : ℕ) (l : y < nbuf).
            first_in-none (is_block dev blockno) (w.c).buf h.order y f (h.ring.every y l) in
          elim (Option-cases (last_in is_free (w.c).buf h.order)) [
            | inr (b, k) ↦
                let (t, m, old) = last_in-some is_free (w.c).buf w.last h.order b h.ordered k in
                let g' = unused_q ∙ k in
                rw (g, g', bget)
                  (recycled b (All-Mem (λ y. y < nbuf) h.order b h.ring.buffers m) absent
                    (ground arith) (λ y l z. old y (h.ring.every y l) (ground arith)))
            | inl k ↦
                let g' = unused_q ∙ k in
                rw (g, g', bget)
                  (full absent (λ y l z.
                    let x = last_in-none is_free (w.c).buf h.order y k (h.ring.every y l) in
                    absurd (ground arith)))
          ]
    ]
