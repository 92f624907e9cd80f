-- ===== src/Str.antt =====
-- kernel/string.c over byte memory: each routine takes the memory and, where it writes, returns the
-- new one. A `char` is a byte below 256. Each `while (n-- > 0)` is a recursion on the rounds left.
pub mod Move
pub mod Text
mod Tests
use mit_lab.Base.{
  ℕ, zero, suc, ◌+◌, ◌-◌, ◌%◌, Bool, true, false, ◌&&◌, not, Option, none, some, ltb, ◌==◌,
  if◌then◌else◌, update,
}
use mit_lab.Base.Int.{ℤ, pos, negsuc, sub_ℕ}

-- Byte-addressed memory.
abbrev pub Mem : Type 0
Mem = ℕ → ℕ

-- `rounds` bytes are left, from index `i` on.
memset_loop : ℕ → ℕ → ℕ → ℕ → Mem → Mem
memset_loop zero i dst c m = m
memset_loop (suc rounds) i dst c m = memset_loop rounds (i + 1) dst c (update m (dst + i) (c % 256))

pub memset : ℕ → ℕ → ℕ → Mem → Mem
unfolding memset_loop
memset dst c n m = memset_loop n 0 dst c m

pub memcmp : Mem → ℕ → ℕ → ℕ → ℤ
memcmp m s1 s2 zero = pos 0
memcmp m s1 s2 (suc n) = elim (m s1 == m s2) [
  | false ↦ sub_ℕ (m s1) (m s2)
  | true ↦ memcmp m (s1 + 1) (s2 + 1) n
]

-- `*--d = *--s`
copy_down : ℕ → ℕ → ℕ → Mem → Mem
copy_down zero d s m = m
copy_down (suc n) d s m = copy_down n (d - 1) (s - 1) (update m (d - 1) (m (s - 1)))

-- `*d++ = *s++`
copy_up : ℕ → ℕ → ℕ → Mem → Mem
copy_up zero d s m = m
copy_up (suc n) d s m = copy_up n (d + 1) (s + 1) (update m d (m s))

pub memmove : ℕ → ℕ → ℕ → Mem → Mem
unfolding copy_down copy_up
memmove dst src n m =
    if n == 0
    then m
    else if ltb src dst && ltb dst (src + n)
    then copy_down n (dst + n) (src + n) m
    else copy_up n dst src m

-- user/ulib.c's version chooses the direction by the addresses alone.
pub user_memmove : ℕ → ℕ → ℕ → Mem → Mem
unfolding copy_down copy_up
user_memmove dst src n m =
    if ltb dst src then copy_up n dst src m else copy_down n (dst + n) (src + n) m

pub strncmp : Mem → ℕ → ℕ → ℕ → ℤ
strncmp m p q zero = pos 0
strncmp m p q (suc n) = elim (not (m p == 0) && (m p == m q)) [
  | true ↦ strncmp m (p + 1) (q + 1) n
  | false ↦ sub_ℕ (m p) (m q)
]

-- The second loop of `strncpy`.
zero_fill : ℕ → ℕ → Mem → Mem
zero_fill zero s m = m
zero_fill (suc n) s m = zero_fill n (s + 1) (update m s 0)

-- The first loop: it copies the terminator too, then leaves the rest to `zero_fill`.
pub strncpy : ℕ → ℕ → ℕ → Mem → Mem
unfolding zero_fill
strncpy s t zero m = m
strncpy s t (suc n) m = elim (m t == 0) [
  | true ↦ zero_fill n (s + 1) (update m s (m t))
  | false ↦ strncpy (s + 1) (t + 1) n (update m s (m t))
]

-- The loop of `safestrcpy`, with `n - 1` rounds left, and the final terminator. The store of a
-- zero byte advances `s` before the loop ends.
safe_copy : ℕ → ℕ → ℕ → Mem → Mem
safe_copy zero s t m = update m s 0
safe_copy (suc n) s t m = elim (m t == 0) [
  | true ↦ update (update m s (m t)) (s + 1) 0
  | false ↦ safe_copy n (s + 1) (t + 1) (update m s (m t))
]

pub safestrcpy : ℕ → ℕ → ℕ → Mem → Mem
unfolding safe_copy
safestrcpy s t n m = if n == 0 then m else safe_copy (n - 1) s t m

-- `none` means that the fuel ran out before a terminator.
strlen_from : ℕ → Mem → ℕ → ℕ → Option ℕ
strlen_from zero m s n = none
strlen_from (suc fuel) m s n = elim (m (s + n) == 0) [
  | true ↦ some n
  | false ↦ strlen_from fuel m s (n + 1)
]

pub strlen : ℕ → Mem → ℕ → Option ℕ
unfolding strlen_from
strlen fuel m s = strlen_from fuel m s 0
