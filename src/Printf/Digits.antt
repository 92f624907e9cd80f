-- ===== src/Printf/Digits.antt =====
-- The digit loop of `printint`: `atoi` reads back what it writes, and how long that is.
use mit_lab.Base.{
  ℕ, zero, suc, ◌+◌, ◌-◌, ◌*◌, ◌/◌, ◌%◌, ◌^◌, ◌≤◌, ◌<◌, ◌≡◌, ◌∙◌, true, false, List, ◌∷◌, arith,
  inl, inr, length, Bool-cases, ltb, leb, ◌==◌,
}
use native.Mathlib.Numerals.{unary_clauses}
use mit_lab.Printf.{digit, print_loop, atoi_loop}

atoi_loop-digit :
    (letter n d : ℕ) (s : List ℕ)
    → d < 10
    → n * 10 + d < 2 ^ 32
    → atoi_loop n (digit letter d ∷ s) ≡ atoi_loop (n * 10 + d) s
unfolding atoi_loop
atoi_loop-digit letter n d s lt fit =
    let a : ltb d 10 ≡ true = ground arith in
    let b : leb 48 (48 + d) ≡ true = ground arith in
    let c : leb (48 + d) 57 ≡ true = ground arith in
    let e : (n * 10 + (48 + d) - 48) % 2 ^ 32 ≡ n * 10 + d = omega arith in rw a (rw (b, c, e))

print_loop_last :
    (letter fuel x : ℕ) (s : List ℕ)
    → (x / 10 == 0) ≡ true
    → print_loop letter 10 (suc fuel) x s ≡ digit letter (x % 10) ∷ s
unfolding print_loop
print_loop_last letter fuel x s e = rw (e, print_loop)

print_loop_more :
    (letter fuel x : ℕ) (s : List ℕ)
    → (x / 10 == 0) ≡ false
    → print_loop letter 10 (suc fuel) x s
      ≡ print_loop letter 10 fuel (x / 10) (digit letter (x % 10) ∷ s)
unfolding print_loop
print_loop_more letter fuel x s e = rw (e, print_loop)

pow_suc : (b k : ℕ) → b ^ suc k ≡ b * b ^ k
pow_suc b k = simp unary_clauses (omega arith)

one_digit :
    (letter fuel x : ℕ) (s : List ℕ)
    → (x / 10 == 0) ≡ true
    → atoi_loop 0 (print_loop letter 10 (suc fuel) x s) ≡ atoi_loop x s
one_digit letter fuel x s e =
    let q : x % 10 ≡ x = ground arith in
    let z : 0 * 10 + x ≡ x = omega arith in
    rw (print_loop_last letter fuel x s e, q)
      (atoi_loop-digit letter 0 x s (ground arith) (ground arith) ∙ rw z)

-- `atoi` reads the digits of a number back, and goes on behind them.
pub atoi_loop-print_loop :
    (letter fuel x : ℕ) (s : List ℕ)
    → x < 2 ^ 32
    → x < 2 ^ suc fuel
    → atoi_loop 0 (print_loop letter 10 (suc fuel) x s) ≡ atoi_loop x s
atoi_loop-print_loop letter zero x s fit enough =
    let e : (x / 10 == 0) ≡ true = ground arith in one_digit letter zero x s e
atoi_loop-print_loop letter (suc fuel) x s fit enough = elim (Bool-cases (x / 10 == 0)) [
  | inl e ↦ one_digit letter (suc fuel) x s e
  | inr e ↦
      let d = x % 10 in
      let q : x / 10 * 10 + x % 10 ≡ x = omega arith in
      rw (print_loop_more letter (suc fuel) x s e) (
        atoi_loop-print_loop letter fuel (x / 10) (digit letter d ∷ s) (omega arith)
          (omega (arith, pow_suc 2 (suc fuel)))
        ∙ atoi_loop-digit letter (x / 10) d s (omega arith) (omega arith)
        ∙ rw q)
]

-- A number below 10 ^ suc k has at most suc k decimal digits.
pub length-print_loop_max :
    (letter fuel k x : ℕ) (s : List ℕ)
    → x < 10 ^ suc k
    → length (print_loop letter 10 fuel x s) ≤ suc k + length s
unfolding print_loop
length-print_loop_max letter zero k x s h = omega arith
length-print_loop_max letter (suc fuel) zero x s h =
    let e : (x / 10 == 0) ≡ true = ground arith in
    rw (print_loop_last letter fuel x s e) (omega arith)
length-print_loop_max letter (suc fuel) (suc k) x s h = elim (Bool-cases (x / 10 == 0)) [
  | inl e ↦ rw (print_loop_last letter fuel x s e) (omega arith)
  | inr e ↦ rw (print_loop_more letter fuel x s e) (
      omega (
        arith,
        length-print_loop_max letter fuel k (x / 10) (digit letter (x % 10) ∷ s)
            (omega (arith, pow_suc 10 (suc k))),
      ))
]

ten_pow : (k : ℕ) → 0 < 10 ^ k
ten_pow zero = omega arith
ten_pow (suc k) = omega (arith, ten_pow k, pow_suc 10 k)

length-print_loop_more :
    (letter fuel x : ℕ) (s : List ℕ) → length s < length (print_loop letter 10 (suc fuel) x s)
unfolding print_loop
length-print_loop_more letter fuel x s = elim (Bool-cases (x / 10 == 0)) [
  | inl e ↦ rw (print_loop_last letter fuel x s e) (omega arith)
  | inr e ↦ rw (print_loop_more letter fuel x s e) (rest fuel)
]
  where
    kept : (fuel y : ℕ) (s : List ℕ) → length s ≤ length (print_loop letter 10 fuel y s)
    kept zero y s = omega arith
    kept (suc fuel) y s = elim (Bool-cases (y / 10 == 0)) [
      | inl e ↦ rw (print_loop_last letter fuel y s e) (omega arith)
      | inr e ↦
          rw (print_loop_more letter fuel y s e)
            (omega (arith, kept fuel (y / 10) (digit letter (y % 10) ∷ s)))
    ]

    rest :
        (fuel : ℕ)
        → length s < length (print_loop letter 10 fuel (x / 10) (digit letter (x % 10) ∷ s))
    rest fuel = omega (arith, kept fuel (x / 10) (digit letter (x % 10) ∷ s))

-- A number that is not below 10 ^ k, and is below 2 to the rounds, has more than k decimal digits.
pub length-print_loop_min :
    (letter fuel k x : ℕ) (s : List ℕ)
    → 10 ^ k ≤ x
    → x < 2 ^ fuel
    → k + length s < length (print_loop letter 10 fuel x s)
unfolding print_loop
length-print_loop_min letter zero zero x s h enough = absurd (omega arith)
length-print_loop_min letter zero (suc k) x s h enough =
    absurd (omega (arith, ten_pow k, pow_suc 10 k))
length-print_loop_min letter (suc fuel) zero x s h enough =
    omega (arith, length-print_loop_more letter fuel x s)
length-print_loop_min letter (suc fuel) (suc k) x s h enough = elim (Bool-cases (x / 10 == 0)) [
  | inl e ↦ absurd (let small : x < 10 = ground arith in omega (arith, ten_pow k, pow_suc 10 k))
  | inr e ↦ rw (print_loop_more letter fuel x s e) (
      omega (
        arith,
        length-print_loop_min letter fuel k (x / 10) (digit letter (x % 10) ∷ s)
            (omega (arith, pow_suc 10 k)) (omega (arith, pow_suc 2 fuel)),
      ))
]
