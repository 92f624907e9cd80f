-- ===== src/Bcache/Relink.antt =====
-- A buffer is taken out of the list, and put in front.
use mit_lab.Base.{ℕ, suc, ◌<◌, ◌≡◌, refl, sym, subst, ◌≢◌, List, [], ◌∷◌, ◌++◌, All, arith, length}
use mit_lab.Bcache.{nbuf, head, Bcache, push_front, unlink}
use mit_lab.Bcache.Ring.{
  Linked, Distinct, Mem, first, later, IsRing, Linked-frame, All-map, All-zip, push_front-Linked,
}

All-front : (P : ℕ → Type 0) (xs ys : List ℕ) → All P (xs ++ ys) → All P xs
All-front P [] ys a = tt
All-front P (x ∷ xs) ys (p, a) = (p, All-front P xs ys a)

All-back : (P : ℕ → Type 0) (xs ys : List ℕ) → All P (xs ++ ys) → All P ys
All-back P [] ys a = a
All-back P (x ∷ xs) ys (p, a) = All-back P xs ys a

All-append : (P : ℕ → Type 0) (xs ys : List ℕ) → All P xs → All P ys → All P (xs ++ ys)
All-append P [] ys a b = b
All-append P (x ∷ xs) ys (p, a) b = (p, All-append P xs ys a b)

-- Without the element `b` in the middle.
pub All-without :
    (P : ℕ → Type 0) (xs : List ℕ) (b : ℕ) (ys : List ℕ) → All P (xs ++ b ∷ ys) → All P (xs ++ ys)
All-without P [] b ys (p, a) = a
All-without P (x ∷ xs) b ys (p, a) = (p, All-without P xs b ys a)

All-at : (P : ℕ → Type 0) (xs : List ℕ) (b : ℕ) (ys : List ℕ) → All P (xs ++ b ∷ ys) → P b
All-at P [] b ys (p, a) = p
All-at P (x ∷ xs) b ys (p, a) = All-at P xs b ys a

pub Distinct-without :
    (xs : List ℕ) (b : ℕ) (ys : List ℕ)
    → Distinct (xs ++ b ∷ ys)
    → Distinct (xs ++ ys) × All (λ y. y ≢ b) (xs ++ ys)
Distinct-without [] b ys (n, d) = (d, n)
Distinct-without (x ∷ xs) b ys (n, d) =
    let (d', n') = Distinct-without xs b ys d in
    let ne = All-at (λ y. y ≢ x) xs b ys n in
    ((All-without (λ y. y ≢ x) xs b ys n, d'), (λ e. ne (sym e), n'))

-- The buffer before `b`, and the one behind it.
prev_in :
    (P : ℕ → Type 0) (next prev : ℕ → ℕ) (p b : ℕ) (xs ys : List ℕ)
    → P p
    → All P xs
    → Linked next prev p (xs ++ b ∷ ys)
    → P (prev b)
prev_in P next prev p b [] ys pp a (n, q, rest) = subst P (sym q) pp
prev_in P next prev p b (x ∷ xs) ys pp (px, a) (n, q, rest) =
    prev_in P next prev x b xs ys px a rest

next_in :
    (P : ℕ → Type 0) (next prev : ℕ → ℕ) (p b : ℕ) (xs ys : List ℕ)
    → P head
    → All P ys
    → Linked next prev p (xs ++ b ∷ ys)
    → P (next b)
next_in P next prev p b [] [] h a (n, q, (m, r)) = subst P (sym m) h
next_in P next prev p b [] (y ∷ ys) h (py, a) (n, q, (m, r, rest)) = subst P (sym m) py
next_in P next prev p b (x ∷ xs) ys h a (n, q, rest) = next_in P next prev x b xs ys h a rest

unlink-Linked :
    (b : ℕ) (c : Bcache) (p : ℕ) (xs ys : List ℕ)
    → p ≢ b
    → All (λ y. y ≢ p) (xs ++ b ∷ ys)
    → All (λ y. y < nbuf) (xs ++ b ∷ ys)
    → Distinct (xs ++ b ∷ ys)
    → Linked c.next c.prev p (xs ++ b ∷ ys)
    → Linked (unlink b c).next (unlink b c).prev p (xs ++ ys)
unfolding unlink
unlink-Linked b c p [] [] np ap ls d (n, q, (m, r)) = (ground arith, ground arith)
unlink-Linked b c p [] (y ∷ ys) np (bp, (yp, ap)) (lb, (ly, ls)) ((yb, nb), (ny, d))
      (n, q, (m, r, rest)) =
    let c' = unlink b c in
    (
      ground arith,
      ground arith,
      Linked-frame c.next c.prev c'.next c'.prev y ys (ground arith) (ground arith)
          (All-map (λ z. (z ≢ p) × ((z ≢ y) × (z ≢ b)))
            (λ z. (c'.next z ≡ c.next z) × (c'.prev z ≡ c.prev z)) ys
            (λ z (e, (f, g)). (ground arith, ground arith))
            (All-zip (λ z. z ≢ p) (λ z. (z ≢ y) × (z ≢ b)) ys ap
              (All-zip (λ z. z ≢ y) (λ z. z ≢ b) ys ny nb)))
          rest,
    )
unlink-Linked b c p (x ∷ xs) ys np (xp, ap) (lx, ls) (nx, d) (n, q, rest) =
    let c' = unlink b c in
    let xb = All-at (λ y. y ≢ x) xs b ys nx in
    let before =
      prev_in (λ y. y ≢ p) c.next c.prev x b xs ys xp (All-front (λ y. y ≢ p) xs (b ∷ ys) ap)
        rest in
    let behind =
      next_in (λ y. y ≢ x) c.next c.prev x b xs ys (omega arith)
        (All-back (λ y. y ≢ x) xs (b ∷ ys) nx).1 rest in
    let self =
      next_in (λ y. y ≢ b) c.next c.prev x b xs ys
        (let l = All-at (λ y. y < nbuf) xs b ys ls in omega arith) (tail_apart xs d) rest in
    (ground arith, ground arith, unlink-Linked b c x xs ys (λ e. xb (sym e)) nx ls d rest)
  where
    tail_apart : (xs : List ℕ) → Distinct (xs ++ b ∷ ys) → All (λ y. y ≢ b) ys
    tail_apart xs d = All-back (λ y. y ≢ b) xs ys (Distinct-without xs b ys d).1

length-without :
    (xs : List ℕ) (b : ℕ) (ys : List ℕ) → length (xs ++ b ∷ ys) ≡ suc (length (xs ++ ys))
length-without [] b ys = refl
length-without (x ∷ xs) b ys = let h = length-without xs b ys in omega arith

Mem-swap : {y : ℕ} (b x : ℕ) (zs : List ℕ) → Mem y (b ∷ zs) → Mem y (b ∷ x ∷ zs)
Mem-swap b x zs first = first
Mem-swap b x zs (later b' k) = later b (later x k)

Mem-front :
    {y : ℕ} (xs : List ℕ) (b : ℕ) (ys : List ℕ) → Mem y (xs ++ b ∷ ys) → Mem y (b ∷ xs ++ ys)
Mem-front [] b ys m = m
Mem-front (x ∷ xs) b ys first = later b first
Mem-front (x ∷ xs) b ys (later x' m) = Mem-swap b x (xs ++ ys) (Mem-front xs b ys m)

-- Taking a buffer out of the list and putting it in front moves it to the front.
pub relink-IsRing :
    (b : ℕ) (c : Bcache) (xs ys : List ℕ)
    → IsRing c (xs ++ b ∷ ys)
    → IsRing (push_front b (unlink b c)) (b ∷ xs ++ ys)
relink-IsRing b c xs ys ring =
    let lt = All-at (λ y. y < nbuf) xs b ys ring.buffers in
    let (d, nb) = Distinct-without xs b ys ring.distinct in
    let ls = All-without (λ y. y < nbuf) xs b ys ring.buffers in
    let heads =
      All-map (λ y. y < nbuf) (λ y. y ≢ head) (xs ++ b ∷ ys) (λ y l. omega arith) ring.buffers in
    let out =
      unlink-Linked b c head xs ys (omega arith) heads ring.buffers ring.distinct ring.linked in
    let w = ring.whole in
    let l = length-without xs b ys in
    record {
      linked = push_front-Linked b (unlink b c) (xs ++ ys) lt nb ls d out;
      buffers = (lt, ls);
      distinct = (nb, d);
      whole = omega arith;
      every = λ y l. Mem-front xs b ys (ring.every y l);
    }
