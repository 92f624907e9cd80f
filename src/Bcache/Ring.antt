-- ===== src/Bcache/Ring.antt =====
-- The list of buffers that the pointers form.
use mit_lab.Base.{ℕ, ◌<◌, ◌≡◌, ◌∙◌, ◌≢◌, List, [], ◌∷◌, All, arith, length}
use mit_lab.Bcache.{nbuf, head, Bcache, push_front}

-- From `p` on the `next` pointers lead through `xs` to the head, and the `prev` pointers back.
abbrev pub Linked : (next prev : ℕ → ℕ) → ℕ → List ℕ → Type 0
Linked next prev p [] = (next p ≡ head) × (prev head ≡ p)
Linked next prev p (x ∷ xs) = (next p ≡ x) × (prev x ≡ p) × Linked next prev x xs

abbrev pub Distinct : List ℕ → Type 0
Distinct [] = Unit
Distinct (x ∷ xs) = All (λ y. y ≢ x) xs × Distinct xs

pub data Mem (y : ℕ) : List ℕ → Type 0 where
  first : {xs : List ℕ} → Mem y (y ∷ xs)
  later : (x : ℕ) {xs : List ℕ} → Mem y xs → Mem y (x ∷ xs)

-- The list is `xs`, of distinct buffers, all of them.
pub record IsRing (c : Bcache) (xs : List ℕ) : Type 0 where
  pub linked : Linked c.next c.prev head xs
  pub buffers : All (λ y. y < nbuf) xs
  pub distinct : Distinct xs
  pub whole : length xs ≡ nbuf
  pub every : (y : ℕ) → y < nbuf → Mem y xs

-- Pointers that differ elsewhere.
pub Linked-frame :
    (next prev next' prev' : ℕ → ℕ) (p : ℕ) (xs : List ℕ)
    → next' p ≡ next p
    → prev' head ≡ prev head
    → All (λ y. (next' y ≡ next y) × (prev' y ≡ prev y)) xs
    → Linked next prev p xs
    → Linked next' prev' p xs
Linked-frame next prev next' prev' p [] n h a (l, b) = (n ∙ l, h ∙ b)
Linked-frame next prev next' prev' p (x ∷ xs) n h ((nx, px), a) (l, b, rest) =
    (n ∙ l, px ∙ b, Linked-frame next prev next' prev' x xs nx h a rest)

pub All-map : (P Q : ℕ → Type 0) (xs : List ℕ) → ((y : ℕ) → P y → Q y) → All P xs → All Q xs
All-map P Q [] f a = tt
All-map P Q (x ∷ xs) f (p, a) = (f x p, All-map P Q xs f a)

pub All-zip : (P Q : ℕ → Type 0) (xs : List ℕ) → All P xs → All Q xs → All (λ y. P y × Q y) xs
All-zip P Q [] a b = tt
All-zip P Q (x ∷ xs) (p, a) (q, b) = ((p, q), All-zip P Q xs a b)

-- A buffer outside the list is put in front.
pub push_front-Linked :
    (b : ℕ) (c : Bcache) (xs : List ℕ)
    → b < nbuf
    → All (λ y. y ≢ b) xs
    → All (λ y. y < nbuf) xs
    → Distinct xs
    → Linked c.next c.prev head xs
    → Linked (push_front b c).next (push_front b c).prev head (b ∷ xs)
unfolding push_front
push_front-Linked b c [] lt nb ls d (n, p) =
    (ground arith, ground arith, (ground arith, ground arith))
push_front-Linked b c (x ∷ ys) lt (nx, nb) (lx, ls) (dx, d) (n, p, rest) =
    let c' = push_front b c in
    (
      ground arith,
      ground arith,
      (
        ground arith,
        ground arith,
        Linked-frame c.next c.prev c'.next c'.prev x ys (ground arith) (ground arith)
            (All-map (λ y. (y ≢ b) × ((y < nbuf) × (y ≢ x)))
              (λ y. (c'.next y ≡ c.next y) × (c'.prev y ≡ c.prev y)) ys
              (λ y (e, (l, m)). (ground arith, ground arith))
              (All-zip (λ y. y ≢ b) (λ y. (y < nbuf) × (y ≢ x)) ys nb
                (All-zip (λ y. y < nbuf) (λ y. y ≢ x) ys ls dx)))
            rest,
      ),
    )
