-- ===== src/Str/Text.antt =====
-- The string routines: `memcmp`, `strncmp`, `strncpy`, `safestrcpy` and `strlen`.
use mit_lab.Base.{
  ℕ, zero, suc, ◌+◌, ◌-◌, ◌≤◌, ◌<◌, min, ◌≡◌, refl, ◌≢◌, ◌↔◌, ◌⊎◌, inl, inr, true, false, ◌&&◌,
  some, arith, ltb, leb, ◌==◌, if◌then◌else◌, update, Bool-cases,
}
use mit_lab.Base.Int.{pos}
use mit_lab.Str.{
  Mem, memcmp, strncmp, zero_fill, strncpy, safe_copy, safestrcpy, strlen_from, strlen,
}
use mit_lab.Str.Move.{within}

-- `n` equal bytes.
abbrev pub SameBytes : Mem → ℕ → ℕ → ℕ → Type 0
SameBytes m p q n = (i : ℕ) → i < n → m (p + i) ≡ m (q + i)

-- Equal as strings of at most `n` bytes: byte `i` matters when no byte before it is a terminator.
abbrev pub SameText : Mem → ℕ → ℕ → ℕ → Type 0
SameText m p q n = (i : ℕ) → i < n → ((j : ℕ) → j < i → m (p + j) ≢ 0) → m (p + i) ≡ m (q + i)

memcmp-SameBytes : (n p q : ℕ) (m : Mem) → memcmp m p q n ≡ pos 0 → SameBytes m p q n
unfolding memcmp
memcmp-SameBytes zero p q m h i lt = absurd (omega arith)
memcmp-SameBytes (suc n) p q m h zero lt = ground arith
memcmp-SameBytes (suc n) p q m h (suc i) lt = ground (
  arith,
  λ (e : memcmp m (p + 1) (q + 1) n ≡ pos 0).
      memcmp-SameBytes n (p + 1) (q + 1) m e i (omega arith),
)

SameBytes-memcmp : (n p q : ℕ) (m : Mem) → SameBytes m p q n → memcmp m p q n ≡ pos 0
unfolding memcmp
SameBytes-memcmp zero p q m same = refl
SameBytes-memcmp (suc n) p q m same =
    ground (arith, same 0 (omega arith), SameBytes-memcmp n (p + 1) (q + 1) m later)
  where
    later : SameBytes m (p + 1) (q + 1) n
    later i lt = ground (arith, same (suc i) (omega arith))

-- `memcmp` returns 0 exactly when the two ranges hold the same bytes.
pub memcmp_iff : (n p q : ℕ) (m : Mem) → (memcmp m p q n ≡ pos 0) ↔ SameBytes m p q n
memcmp_iff n p q m = (memcmp-SameBytes n p q m, SameBytes-memcmp n p q m)

strncmp-SameText : (n p q : ℕ) (m : Mem) → strncmp m p q n ≡ pos 0 → SameText m p q n
unfolding strncmp
strncmp-SameText zero p q m h i lt text = absurd (omega arith)
strncmp-SameText (suc n) p q m h zero lt text = ground arith
strncmp-SameText (suc n) p q m h (suc i) lt text = ground (
  arith,
  text 0 (omega arith),
  λ (e : strncmp m (p + 1) (q + 1) n ≡ pos 0).
      strncmp-SameText n (p + 1) (q + 1) m e i (omega arith) later,
)
  where
    later : (j : ℕ) → j < i → m (p + 1 + j) ≢ 0
    later j lt' = ground (arith, text (suc j) (omega arith))

SameText-strncmp : (n p q : ℕ) (m : Mem) → SameText m p q n → strncmp m p q n ≡ pos 0
unfolding strncmp
SameText-strncmp zero p q m same = refl
SameText-strncmp (suc n) p q m same = elim (Bool-cases (m p == 0)) [
  | inl done ↦ ground (arith, first)
  | inr more ↦ ground (arith, first, SameText-strncmp n (p + 1) (q + 1) m (later more))
]
  where
    first : m p ≡ m q
    first = ground (arith, same 0 (omega arith) (λ j lt. absurd (omega arith)))

    before :
        (m p == 0) ≡ false
        → (i : ℕ) → ((j : ℕ) → j < i → m (p + 1 + j) ≢ 0)
        → (j : ℕ) → j < suc i
        → m (p + j) ≢ 0
    before more i text zero lt = ground arith
    before more i text (suc j) lt = ground (arith, text j (omega arith))

    later : (m p == 0) ≡ false → SameText m (p + 1) (q + 1) n
    later more i lt text = ground (arith, same (suc i) (omega arith) (before more i text))

-- `strncmp` returns 0 exactly when the two strings agree in each of the first `n` bytes that no
-- terminator precedes.
pub strncmp_iff : (n p q : ℕ) (m : Mem) → (strncmp m p q n ≡ pos 0) ↔ SameText m p q n
strncmp_iff n p q m = (strncmp-SameText n p q m, SameText-strncmp n p q m)

zero_fill_lem : (n s a : ℕ) (m : Mem) → zero_fill n s m a ≡ (if within s n a then 0 else m a)
unfolding zero_fill
zero_fill_lem zero s a m = ground arith
zero_fill_lem (suc n) s a m = ground (arith, zero_fill_lem n (s + 1) a (update m s 0))

-- The string at `t` has length `k`.
pub record HasLength (m : Mem) (t k : ℕ) : Type 0 where
  pub text : (j : ℕ) → j < k → m (t + j) ≢ 0
  pub stop : m (t + k) ≡ 0

HasLength-next :
    {m : Mem} {t k s : ℕ} (n v : ℕ)
    → HasLength m t (suc k)
    → (s + suc n ≤ t) ⊎ (t + (suc (suc k)) ≤ s)
    → HasLength (update m s v) (t + 1) k
HasLength-next {m} {t} {k} {s} n v h apart = record {
  text = λ j lt. ground (arith, h.text (suc j) (omega arith));
  stop = ground (arith, h.stop);
}

-- Between a string of length `k` and a target of `n` bytes that does not meet it, `strncpy` copies
-- the first `n` bytes of the string and fills the rest of the target with zeros; it changes no byte
-- outside the target.
pub strncpy_lem :
    (n s t k a : ℕ) (m : Mem)
    → HasLength m t k
    → (s + n ≤ t) ⊎ (t + suc k ≤ s)
    → strncpy s t n m a
      ≡ (if within s n a then (if ltb (a - s) k then m (t + (a - s)) else 0) else m a)
unfolding strncpy
strncpy_lem zero s t k a m h apart = ground arith
strncpy_lem (suc n) s t zero a m h apart =
    ground (arith, h.stop, zero_fill_lem n (s + 1) a (update m s (m t)))
strncpy_lem (suc n) s t (suc k) a m h apart = ground (
  arith,
  h.text 0 (omega arith),
  strncpy_lem n (s + 1) (t + 1) k a (update m s (m t)) (HasLength-next n (m t) h apart),
)

-- What the copy loop of `safestrcpy` leaves, with `r` rounds left.
safe_copy_lem :
    (r s t k a : ℕ) (m : Mem)
    → HasLength m t k
    → (s + suc r ≤ t) ⊎ (t + suc k ≤ s)
    → safe_copy r s t m a ≡ (
        if within s (min k r) a
        then m (t + (a - s))
        else if leb (s + min k r) a && ltb a (s + min (k + 2) (r + 1))
        then 0
        else m a)
unfolding safe_copy
safe_copy_lem zero s t k a m h apart = ground arith
safe_copy_lem (suc r) s t zero a m h apart = ground (arith, h.stop)
safe_copy_lem (suc r) s t (suc k) a m h apart = ground (
  arith,
  h.text 0 (omega arith),
  safe_copy_lem r (s + 1) (t + 1) k a (update m s (m t)) (HasLength-next (suc r) (m t) h apart),
)

-- With a string of length `k` and a target of `n` bytes, `n` not 0, that do not meet, `safestrcpy`
-- leaves in the target the first `min k (n - 1)` bytes of the string and a terminator behind them,
-- and changes no byte outside the target.
pub safestrcpy_lem :
    (n s t k a : ℕ) (m : Mem)
    → HasLength m t k
    → (s + n ≤ t) ⊎ (t + suc k ≤ s)
    → 0 < n
    → (within s (min k (n - 1)) a ≡ true → safestrcpy s t n m a ≡ m (t + (a - s)))
      × (safestrcpy s t n m (s + min k (n - 1)) ≡ 0)
      × (within s n a ≡ false → safestrcpy s t n m a ≡ m a)
unfolding safestrcpy
safestrcpy_lem (suc n) s t k a m h apart pos_n =
    let e : suc n - 1 ≡ n = omega arith in
    rw e (
      λ i. ground (arith, safe_copy_lem n s t k a m h apart),
      ground (arith, safe_copy_lem n s t k (s + min k n) m h apart),
      λ o. ground (arith, safe_copy_lem n s t k a m h apart),
    )
safestrcpy_lem zero s t k a m h apart pos_n = absurd (omega arith)

strlen_from_lem :
    (fuel n s k : ℕ) (m : Mem)
    → HasLength m s k
    → n ≤ k
    → k < n + fuel
    → strlen_from fuel m s n ≡ some k
unfolding strlen_from
strlen_from_lem zero n s k m h le lt = absurd (omega arith)
strlen_from_lem (suc fuel) n s k m h le lt = elim (Bool-cases (n == k)) [
  | inl here ↦ ground (arith, h.stop)
  | inr on ↦ ground (
    arith,
    h.text n (ground arith),
    strlen_from_lem fuel (n + 1) s k m h (ground arith) (omega arith),
  )
]

-- `strlen` returns the length of the string, given more fuel than it has bytes.
pub strlen_lem : (fuel s k : ℕ) (m : Mem) → HasLength m s k → k < fuel → strlen fuel m s ≡ some k
unfolding strlen
strlen_lem fuel s k m h lt = strlen_from_lem fuel 0 s k m h (omega arith) (omega arith)
