-- ===== src/Bcache/Lru.antt =====
-- The order of the list is that of the releases: `bget` recycles the buffer whose release is longest
-- ago.
use mit_lab.Base.{
  ℕ, ◌+◌, ◌-◌, ◌%◌, ◌^◌, ◌≤◌, ◌<◌, ◌≡◌, refl, sym, ap as cong, subst, ◌∙◌, ◌≢◌, inl, inr, Run, ok,
  ok_inj, Run-cases, Option-cases, true, List, [], ◌∷◌, ◌++◌, All, arith, ◌==◌, if◌then◌else◌,
  Bool-cases, update,
}
use mit_lab.Bcache.{
  is_block, is_free, find_buf, bget, bread, brelse, bpin, bunpin, set_buf, nbuf, head, Bcache,
  push_front, unlink,
}
use mit_lab.Bcache.Ring.{Mem, first, later, IsRing, All-map, All-zip}
use mit_lab.Bcache.Relink.{relink-IsRing, All-without, Distinct-without}

-- The cache with a clock: `last b` is when `brelse` last brought the count of `b` to 0.
pub record World : Type 0 where
  pub c : Bcache
  pub last : ℕ → ℕ
  pub now : ℕ

pub data Step : World → World → Type 0 where
  gets :
      (dev blockno b : ℕ) {w : World} {c' : Bcache}
      → bget dev blockno w.c ≡ ok (b, c')
      → Step w (record w { c = c' })
  reads :
      (dev blockno b : ℕ) (disk : ℕ → ℕ → ℕ) {w : World} {c' : Bcache}
      → bread dev blockno disk w.c ≡ ok (b, c')
      → Step w (record w { c = c' })
  releases :
      (b : ℕ) {w : World} {c' : Bcache}
      → b < nbuf
      → brelse true b w.c ≡ ok c'
      → Step w (record {
        c = c';
        last = if (c'.buf b).refcnt == 0 then update w.last b (w.now + 1) else w.last;
        now = w.now + 1;
      })
  pins : (b : ℕ) {w : World} → Step w (record w { c = bpin b w.c })
  unpins : (b : ℕ) {w : World} → Step w (record w { c = bunpin b w.c })

pub data Reach (w : World) : World → Type 0 where
  here : Reach w w
  next : {w1 w2 : World} → Reach w w1 → Step w1 w2 → Reach w w2

abbrev pub Ordered : (ℕ → ℕ) → List ℕ → Type 0
Ordered last [] = Unit
Ordered last (x ∷ xs) = All (λ y. last y ≤ last x) xs × Ordered last xs

pub record IsRecent (w : World) : Type 0 where
  pub order : List ℕ
  pub ring : IsRing w.c order
  pub ordered : Ordered w.last order
  pub past : All (λ y. w.last y ≤ w.now) order

same-IsRing :
    (c c' : Bcache) (xs : List ℕ) → c'.next ≡ c.next → c'.prev ≡ c.prev → IsRing c xs → IsRing c' xs
same-IsRing c c' xs n p ring = record {
  linked = rw (n, p) ring.linked;
  buffers = ring.buffers;
  distinct = ring.distinct;
  whole = ring.whole;
  every = ring.every;
}

Mem-split :
    {b : ℕ} (xs : List ℕ) → Mem b xs → (front : List ℕ) × (back : List ℕ) × (xs ≡ front ++ b ∷ back)
Mem-split [] m = elim m [ ]
Mem-split (x ∷ xs) first = ([], xs, refl)
Mem-split (x ∷ xs) (later x' m) =
    let (front, back, e) = Mem-split xs m in (x ∷ front, back, cong (λ l. x ∷ l) e)

bget-same :
    (dev blockno b : ℕ) (c c' : Bcache)
    → bget dev blockno c ≡ ok (b, c')
    → (c'.next ≡ c.next) × (c'.prev ≡ c.prev)
unfolding bget
bget-same dev blockno b c c' e =
    elim (Option-cases (find_buf (is_block dev blockno) c.next (nbuf + 1) (c.next head) c.buf)) [
      | inr (y, f) ↦ let x = rw (f, bget) at e in moved x
      | inl f ↦ elim (Option-cases (find_buf is_free c.prev (nbuf + 1) (c.prev head) c.buf)) [
        | inr (y, g) ↦ let x = rw (f, g, bget) at e in moved x
        | inl g ↦ let x = rw (f, g, bget) at e in absurd (cc)
      ]
    ]
  where
    moved :
        {r : ℕ × Bcache}
        → ◌≡◌ {A = Run (ℕ × Bcache)} (ok r) (ok (b, c'))
        → (c'.next ≡ r.1.next) × (c'.prev ≡ r.1.prev)
    moved x = let q = ok_inj x in (cong (λ z. z.1.next) (sym q), cong (λ z. z.1.prev) (sym q))

bread-same :
    (dev blockno b : ℕ) (disk : ℕ → ℕ → ℕ) (c c' : Bcache)
    → bread dev blockno disk c ≡ ok (b, c')
    → (c'.next ≡ c.next) × (c'.prev ≡ c.prev)
unfolding bread
bread-same dev blockno b disk c c' e = elim (Run-cases (bget dev blockno c)) [
  | inl f ↦ let x = rw (f, bread) at e in absurd (cc)
  | inr ((y, c1), f) ↦
      let (n, p) = bget-same dev blockno y c c1 f in
      elim (Bool-cases (c1.buf y).valid) [
        | inl v ↦
            let q = ok_inj (rw (f, v, bread) at e) in
            (cong (λ z. z.1.next) (sym q) ∙ n, cong (λ z. z.1.prev) (sym q) ∙ p)
        | inr v ↦
            let q = ok_inj (rw (f, v, bread) at e) in
            (cong (λ z. z.1.next) (sym q) ∙ n, cong (λ z. z.1.prev) (sym q) ∙ p)
      ]
]

Ordered-split :
    (last : ℕ → ℕ) (front : List ℕ) (b : ℕ) (back : List ℕ)
    → Ordered last (front ++ b ∷ back)
    → Ordered last (front ++ back)
Ordered-split last [] b back (a, o) = o
Ordered-split last (x ∷ front) b back (a, o) =
    (All-without (λ y. last y ≤ last x) front b back a, Ordered-split last front b back o)

-- Times of other buffers are as they were.
Ordered-update :
    (last : ℕ → ℕ) (b t : ℕ) (xs : List ℕ)
    → All (λ y. y ≢ b) xs
    → Ordered last xs
    → Ordered (update last b t) xs
Ordered-update last b t [] n o = tt
Ordered-update last b t (x ∷ xs) (nx, n) (a, o) = (
  All-map (λ y. (y ≢ b) × (last y ≤ last x)) (λ y. update last b t y ≤ update last b t x) xs
      (λ y (e, l). ground arith) (All-zip (λ y. y ≢ b) (λ y. last y ≤ last x) xs n a),
  Ordered-update last b t xs n o,
)

buf-relink : (b : ℕ) (c : Bcache) → (push_front b (unlink b c)).buf ≡ c.buf
unfolding push_front unlink
buf-relink b c = refl

-- The world after a release.
abbrev released : ℕ → World → Bcache → World
released b w c' = record {
  c = c';
  last = if (c'.buf b).refcnt == 0 then update w.last b (w.now + 1) else w.last;
  now = w.now + 1;
}

-- The buffer moves to the front.
front-IsRecent :
    (b : ℕ) (w : World) (c1 : Bcache) (front back : List ℕ)
    → c1.next ≡ (w.c).next
    → c1.prev ≡ (w.c).prev
    → ((c1.buf b).refcnt == 0) ≡ true
    → IsRing w.c (front ++ b ∷ back)
    → Ordered w.last (front ++ b ∷ back)
    → All (λ y. w.last y ≤ w.now) (front ++ b ∷ back)
    → IsRecent (released b w (push_front b (unlink b c1)))
front-IsRecent b w c1 front back n p z ring ordered past =
    let (d, nb) = Distinct-without front b back ring.distinct in
    let others = All-without (λ y. w.last y ≤ w.now) front b back past in
    let both = All-zip (λ y. y ≢ b) (λ y. w.last y ≤ w.now) (front ++ back) nb others in
    let c2 = push_front b (unlink b c1) in
    let last' = update w.last b (w.now + 1) in
    let self : last' b ≡ w.now + 1 = let s : (b == b) ≡ true = ground arith in rw s in
    let earlier =
      All-map (λ y. (y ≢ b) × (w.last y ≤ w.now)) (λ y. last' y ≤ w.now + 1) (front ++ back)
        (λ y (e, l). ground arith) both in
    let same : last' ≡ (released b w c2).last = rw (buf-relink b c1, z) in
    subst (λ l. IsRecent (record { c = c2; last = l; now = w.now + 1 })) same
      (record {
        order = b ∷ front ++ back;
        ring = relink-IsRing b c1 front back (same-IsRing w.c c1 (front ++ b ∷ back) n p ring);
        ordered = (
          rw self earlier,
          Ordered-update w.last b (w.now + 1) (front ++ back) nb
              (Ordered-split w.last front b back ordered),
        );
        past = (rw self (omega arith), earlier);
      })

releases-IsRecent :
    (b : ℕ) (w : World) (c' : Bcache)
    → b < nbuf
    → brelse true b w.c ≡ ok c'
    → IsRecent w
    → IsRecent (released b w c')
unfolding brelse
releases-IsRecent b w c' lt e h =
    let left = (((w.c).buf b).refcnt + 2 ^ 32 - 1) % 2 ^ 32 in
    let c1 = set_buf b (record ((w.c).buf b) { refcnt = left }) w.c in
    let self : (b == b) ≡ true = ground arith in
    elim (Bool-cases (left == 0)) [
      | inl z ↦
          let (front, back, s) = Mem-split h.order (h.ring.every b lt) in
          let q = ok_inj (rw (z, brelse) at e) in
          subst (λ c. IsRecent (released b w c)) q
            (front-IsRecent b w c1 front back refl refl (rw (self, z)) (rw s at h.ring)
              (rw s at h.ordered) (rw s at h.past))
      | inr z ↦
          let q = ok_inj (rw (z, brelse) at e) in
          subst (λ c. IsRecent (released b w c)) q
            (record {
              order = h.order;
              ring = same-IsRing w.c c1 h.order refl refl h.ring;
              ordered = rw (self, z) h.ordered;
              past =
                  rw (self, z)
                    (All-map (λ y. w.last y ≤ w.now) (λ y. w.last y ≤ w.now + 1) h.order
                      (λ y l. omega arith) h.past);
            })
    ]

kept-IsRecent :
    (w : World) (c' : Bcache)
    → (c'.next ≡ (w.c).next) × (c'.prev ≡ (w.c).prev)
    → IsRecent w
    → IsRecent (record w { c = c' })
kept-IsRecent w c' (n, p) h = record {
  order = h.order;
  ring = same-IsRing w.c c' h.order n p h.ring;
  ordered = h.ordered;
  past = h.past;
}

Step-IsRecent : {w w' : World} → Step w w' → IsRecent w → IsRecent w'
unfolding bpin bunpin
Step-IsRecent {w} (gets dev blockno b e) h = kept-IsRecent w _ (bget-same dev blockno b w.c _ e) h
Step-IsRecent {w} (reads dev blockno b disk e) h =
    kept-IsRecent w _ (bread-same dev blockno b disk w.c _ e) h
Step-IsRecent {w} (releases b lt e) h = releases-IsRecent b w _ lt e h
Step-IsRecent {w} (pins b) h = kept-IsRecent w (bpin b w.c) (refl, refl) h
Step-IsRecent {w} (unpins b) h = kept-IsRecent w (bunpin b w.c) (refl, refl) h

pub Reach-IsRecent : {w w' : World} → Reach w w' → IsRecent w → IsRecent w'
Reach-IsRecent here h = h
Reach-IsRecent (next r s) h = Step-IsRecent s (Reach-IsRecent r h)
