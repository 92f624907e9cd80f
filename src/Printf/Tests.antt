-- ===== src/Printf/Tests.antt =====
-- The theorems about numbers as text at concrete numbers.
use mit_lab.Base.{ℕ, ◌-◌, ◌^◌, ◌≤◌, ◌<◌, ◌≡◌, refl, ◌↔◌, true, false, List, [], ◌∷◌, arith, length}
use mit_lab.Printf.{print_loop, atoi, user_printint, kernel_printint}
use mit_lab.Printf.Numbers.{atoi-user_printint, kernel_printint_iff}

prints_negative : user_printint (2 ^ 32 - 120) 10 true ≡ 45 ∷ 49 ∷ 50 ∷ 48 ∷ []
unfolding user_printint print_loop
prints_negative = refl

prints_hexadecimal : kernel_printint 0xbeef 16 false ≡ 98 ∷ 101 ∷ 101 ∷ 102 ∷ []
unfolding kernel_printint print_loop
prints_hexadecimal = refl

-- `%u` with the int -1.
fills_twenty : length (kernel_printint (2 ^ 64 - 1) 10 false) ≡ 20
unfolding kernel_printint print_loop
fills_twenty = refl

atoi-user_printint_example :
    (atoi (user_printint 119 10 true) ≡ 119)
    × (s : List ℕ) × (user_printint (2 ^ 32 - 120) 10 true ≡ 45 ∷ s)
    × (atoi s ≡ 120)
atoi-user_printint_example = atoi-user_printint 119 true (omega arith)

kernel_printint_iff_example :
    (length (kernel_printint (2 ^ 64 - 1) 10 false) ≤ 16) ↔ (2 ^ 64 - 1 < 10 ^ 16)
kernel_printint_iff_example = kernel_printint_iff (2 ^ 64 - 1) (omega arith)
