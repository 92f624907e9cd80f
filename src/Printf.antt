-- ===== src/Printf.antt =====
-- The conversion of numbers to text, in user/printf.c and kernel/printf.c, and back, in
-- user/ulib.c. A C integer of w bits is a number below 2 ^ w, in two's complement. A buffer is the
-- list of the characters written to it, the last one first, which is the order in which the loops
-- at the end print it. A string is the list of its characters before the NUL.
pub mod Digits
pub mod Numbers
mod Tests
use mit_lab.Base.{
  ℕ, zero, suc, ◌+◌, ◌-◌, ◌*◌, ◌/◌, ◌%◌, ◌^◌, Bool, true, false, ◌&&◌, List, [], ◌∷◌, ltb, leb,
  ◌==◌, if◌then◌else◌,
}

-- `digits[d]`; `letter` is the code of the first letter of the table, 'A' or 'a'.
abbrev pub digit : (letter d : ℕ) → ℕ
digit letter d = if ltb d 10 then 48 + d else letter + (d - 10)

-- The do-while loop of `printint`. There are at most 64 rounds: each halves `x` at least.
pub print_loop : (letter base fuel x : ℕ) → List ℕ → List ℕ
print_loop letter base zero x buf = buf
print_loop letter base (suc fuel) x buf = elim (x / base == 0) [
  | true ↦ digit letter (x % base) ∷ buf
  | false ↦ print_loop letter base fuel (x / base) (digit letter (x % base) ∷ buf)
]

-- `printint` of user/printf.c; the characters that it prints.
unfoldable pub user_printint : (xx base : ℕ) (sign : Bool) → List ℕ
user_printint xx base sign =
    let neg = sign && leb (2 ^ 31) xx in
    let x = if neg then (2 ^ 32 - xx) % 2 ^ 32 else xx in
    let buf = print_loop 65 base 64 x [] in if neg then 45 ∷ buf else buf

-- `printint` of kernel/printf.c; the characters that it puts into `buf[16]` and prints.
unfoldable pub kernel_printint : (xx base : ℕ) (sign : Bool) → List ℕ
kernel_printint xx base sign =
    let neg = sign && leb (2 ^ 63) xx in
    let x = if neg then (2 ^ 64 - xx) % 2 ^ 64 else xx in
    let buf = print_loop 97 base 64 x [] in if neg then 45 ∷ buf else buf

-- The loop of `atoi`; an `int` wraps, as it does on the machine.
pub atoi_loop : (n : ℕ) → List ℕ → ℕ
atoi_loop n [] = n
atoi_loop n (c ∷ s) =
    let rest = atoi_loop ((n * 10 + c - 48) % 2 ^ 32) s in if leb 48 c && leb c 57 then rest else n

unfoldable pub atoi : List ℕ → ℕ
unfolding atoi_loop
atoi s = atoi_loop 0 s
