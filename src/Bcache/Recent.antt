-- ===== src/Bcache/Recent.antt =====
-- The loops of `bget` over the list, and the list that `binit` makes.
use mit_lab.Base.{
  ℕ, zero, suc, ◌+◌, ◌≤◌, ◌<◌, ◌≡◌, refl, ◌∙◌, ◌≢◌, ◌⊎◌, inl, inr, Option, none, some, Bool, true,
  false, List, [], ◌∷◌, All, arith, ◌==◌, if◌then◌else◌, Bool-cases, length,
}
use mit_lab.Bcache.{
  binit_loop, binit, find_buf, nbuf, head, Bcache, Buf, set_next, set_prev, push_front,
}
use mit_lab.Bcache.Ring.{Linked, Distinct, Mem, first, later, IsRing, All-map, push_front-Linked}

-- The first buffer of a list that passes a test, and the last one.
abbrev pub first_in : (Buf → Bool) → (ℕ → Buf) → List ℕ → Option ℕ
first_in test buf [] = none
first_in test buf (x ∷ xs) = if test (buf x) then some x else first_in test buf xs

abbrev pub or_else : Option ℕ → Option ℕ → Option ℕ
or_else none o = o
or_else (some y) o = some y

abbrev pub last_in : (Buf → Bool) → (ℕ → Buf) → List ℕ → Option ℕ
last_in test buf [] = none
last_in test buf (x ∷ xs) = or_else (last_in test buf xs) (if test (buf x) then some x else none)

find_head :
    (test : Buf → Bool) (buf : ℕ → Buf) (step : ℕ → ℕ) (f : ℕ)
    → find_buf test step (suc f) head buf ≡ none
unfolding find_buf
find_head test buf step f = refl

find_step :
    (test : Buf → Bool) (buf : ℕ → Buf) (step : ℕ → ℕ) (f b : ℕ)
    → b < nbuf
    → find_buf test step (suc f) b buf
      ≡ (if test (buf b) then some b else find_buf test step f (step b) buf)
unfolding find_buf
find_step test buf step f b lt =
    let e : (b == head) ≡ false = ground arith in
    elim (Bool-cases (test (buf b))) [ inl t ↦ rw (e, t, find_buf) | inr t ↦ rw (e, t, find_buf) ]

find_buf-first :
    (test : Buf → Bool) (buf : ℕ → Buf) (next prev : ℕ → ℕ) (p f : ℕ) (xs : List ℕ)
    → All (λ y. y < nbuf) xs
    → Linked next prev p xs
    → find_buf test next (length xs + suc f) (next p) buf ≡ first_in test buf xs
find_buf-first test buf next prev p f [] ls (n, q) =
    let z : 0 + suc f ≡ suc f = omega arith in rw (z, n) (find_head test buf next f)
find_buf-first test buf next prev p f (x ∷ xs) (lx, ls) (n, q, rest) =
    let z : suc (length xs) + suc f ≡ suc (length xs + suc f) = omega arith in
    rw (z, n)
      (find_step test buf next (length xs + suc f) x lx
        ∙ rw (find_buf-first test buf next prev x f xs ls rest))

find_buf-last :
    (test : Buf → Bool) (buf : ℕ → Buf) (next prev : ℕ → ℕ) (p f : ℕ) (xs : List ℕ)
    → All (λ y. y < nbuf) xs
    → Linked next prev p xs
    → find_buf test prev (length xs + f) (prev head) buf
      ≡ or_else (last_in test buf xs) (find_buf test prev f p buf)
find_buf-last test buf next prev p f [] ls (n, q) = let z : 0 + f ≡ f = omega arith in rw (z, q)
find_buf-last test buf next prev p f (x ∷ xs) (lx, ls) (n, q, rest) =
    let z : suc (length xs) + f ≡ length xs + suc f = omega arith in
    rw z (
      find_buf-last test buf next prev x (suc f) xs ls rest
      ∙ rw (find_step test buf prev f x lx, q)
          (joined (last_in test buf xs) (Bool-cases (test (buf x)))))
  where
    joined :
        (o : Option ℕ)
        → (test (buf x) ≡ true) ⊎ (test (buf x) ≡ false)
        → or_else o (if test (buf x) then some x else find_buf test prev f p buf)
          ≡ or_else (or_else o (if test (buf x) then some x else none)) (find_buf test prev f p buf)
    joined none (inl t) = rw t
    joined none (inr t) = rw t
    joined (some y) t = refl

or_else-none : (o : Option ℕ) → or_else o none ≡ o
or_else-none none = refl
or_else-none (some y) = refl

-- On a list of all buffers, the first loop of `bget` finds the buffer of the block that comes first,
-- and the second one the free buffer that comes last.
pub find_cached :
    (test : Buf → Bool) (c : Bcache) (xs : List ℕ)
    → IsRing c xs
    → find_buf test c.next (nbuf + 1) (c.next head) c.buf ≡ first_in test c.buf xs
find_cached test c xs ring =
    let z : nbuf + 1 ≡ length xs + 1 = let w = ring.whole in omega arith in
    rw z (find_buf-first test c.buf c.next c.prev head 0 xs ring.buffers ring.linked)

pub find_unused :
    (test : Buf → Bool) (c : Bcache) (xs : List ℕ)
    → IsRing c xs
    → find_buf test c.prev (nbuf + 1) (c.prev head) c.buf ≡ last_in test c.buf xs
find_unused test c xs ring =
    let z : nbuf + 1 ≡ length xs + 1 = let w = ring.whole in omega arith in
    rw z (
      find_buf-last test c.buf c.next c.prev head 1 xs ring.buffers ring.linked
      ∙ rw (find_head test c.buf c.prev 0) (or_else-none (last_in test c.buf xs)))

-- The list that `binit` makes.
abbrev pub down : ℕ → List ℕ
down zero = []
down (suc n) = n ∷ down n

down-below : (n m : ℕ) → n ≤ m → All (λ y. y < m) (down n)
down-below zero m l = tt
down-below (suc n) m l = (l, down-below n m (omega arith))

down-Distinct : (n : ℕ) → Distinct (down n)
down-Distinct zero = tt
down-Distinct (suc n) = (
  All-map (λ y. y < n) (λ y. y ≢ n) (down n) (λ y l. omega arith) (down-below n n (omega arith)),
  down-Distinct n,
)

down-Mem : (n y : ℕ) → y < n → Mem y (down n)
down-Mem zero y l = absurd (omega arith)
down-Mem (suc n) y l = elim (Bool-cases (y == n)) [
  | inl e ↦ let q : n ≡ y = ground arith in rw q first
  | inr e ↦ later n (down-Mem n y (ground arith))
]

binit_loop-Linked :
    (r b n : ℕ) (c : Bcache)
    → r + b ≡ n
    → n ≤ nbuf
    → Linked c.next c.prev head (down b)
    → Linked (binit_loop r b c).next (binit_loop r b c).prev head (down n)
unfolding binit_loop
binit_loop-Linked zero b n c e l h = let q : b ≡ n = omega arith in rw (← q) h
binit_loop-Linked (suc r) b n c e l h =
    binit_loop-Linked r (b + 1) n (push_front b c) (omega arith) l (
      rw (let q : b + 1 ≡ suc b = omega arith in q) (
        push_front-Linked b c (down b) (omega arith)
          (All-map (λ y. y < b) (λ y. y ≢ b) (down b) (λ y m. omega arith)
            (down-below b b (omega arith)))
          (down-below b nbuf (omega arith)) (down-Distinct b) h))

-- `binit` links all buffers.
pub binit-IsRing : (c : Bcache) → IsRing (binit c) (down nbuf)
unfolding binit
binit-IsRing c = record {
  linked =
      binit_loop-Linked nbuf 0 nbuf (set_next head head (set_prev head head c)) refl (omega arith)
        (refl, refl);
  buffers = down-below nbuf nbuf (omega arith);
  distinct = down-Distinct nbuf;
  whole = refl;
  every = down-Mem nbuf;
}
