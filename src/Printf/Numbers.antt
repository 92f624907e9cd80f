-- ===== src/Printf/Numbers.antt =====
-- `printint` and `atoi` together, and the characters that `printint` puts into its buffer of 16.
use mit_lab.Base.{
  ℕ, suc, ◌-◌, ◌%◌, ◌^◌, ◌≤◌, ◌<◌, ◌≡◌, refl, ◌↔◌, Bool, true, false, ◌&&◌, List, [], ◌∷◌, arith,
  inl, inr, length, Bool-cases, ltb, leb,
}
use mit_lab.Printf.{print_loop, atoi_loop, atoi, user_printint, kernel_printint}
use mit_lab.Printf.Digits.{atoi_loop-print_loop, length-print_loop_max, length-print_loop_min}

-- For a number x below 2 ^ 31: what `printint` of user/printf.c prints in decimal, with or without a
-- sign, `atoi` reads back; and what it prints with a sign for -(x + 1) is '-' followed by
-- characters that `atoi` reads back as x + 1.
pub atoi-user_printint :
    (x : ℕ) (sign : Bool)
    → x < 2 ^ 31
    → (atoi (user_printint x 10 sign) ≡ x)
      × (s : List ℕ) × (user_printint (2 ^ 32 - suc x) 10 true ≡ 45 ∷ s)
      × (atoi s ≡ suc x)
unfolding atoi user_printint print_loop
atoi-user_printint x sign h =
    let e : leb (2 ^ 31) x ≡ false = ground arith in
    let f : leb (2 ^ 31) (2 ^ 32 - suc x) ≡ true = ground arith in
    let g : (2 ^ 32 - (2 ^ 32 - suc x)) % 2 ^ 32 ≡ suc x = omega arith in
    (
      plain sign e,
      print_loop 65 10 64 (suc x) [],
      rw (user_printint, f, g) refl,
      atoi_loop-print_loop 65 63 (suc x) [] (omega arith) (omega arith),
    )
  where
    plain : (sign : Bool) → leb (2 ^ 31) x ≡ false → atoi_loop 0 (user_printint x 10 sign) ≡ x
    plain true e =
        rw (user_printint, e) (atoi_loop-print_loop 65 63 x [] (omega arith) (omega arith))
    plain false e = atoi_loop-print_loop 65 63 x [] (omega arith) (omega arith)

-- In decimal, `printint` of user/printf.c puts at most 11 characters into its buffer of 16.
pub length-user_printint :
    (xx : ℕ) (sign : Bool) → xx < 2 ^ 32 → length (user_printint xx 10 sign) ≤ 11
unfolding user_printint
length-user_printint xx sign h = elim (Bool-cases (sign && leb (2 ^ 31) xx)) [
  | inl e ↦
      let y = (2 ^ 32 - xx) % 2 ^ 32 in
      let big : leb (2 ^ 31) xx ≡ true = ground arith in
      rw e (omega (arith, length-print_loop_max 65 64 9 y [] (ground arith)))
  | inr e ↦ rw e (omega (arith, length-print_loop_max 65 64 9 xx [] (omega arith)))
]

-- In decimal and without a sign, `printint` of kernel/printf.c stays within its buffer of 16
-- exactly for the numbers below 10 ^ 16.
pub kernel_printint_iff :
    (xx : ℕ) → xx < 2 ^ 64 → (length (kernel_printint xx 10 false) ≤ 16) ↔ (xx < 10 ^ 16)
unfolding kernel_printint
kernel_printint_iff xx h = (
  λ fits. elim (Bool-cases (ltb xx (10 ^ 16))) [
    | inl e ↦ ground arith
    | inr e ↦
        absurd (omega (arith, length-print_loop_min 97 64 16 xx [] (ground arith) (omega arith)))
  ],
  λ small. length-print_loop_max 97 64 15 xx [] small,
)
