-- ===== src/Str/Move.antt =====
-- `memset` and both `memmove`s: what every byte of the memory is afterwards.
use mit_lab.Base.{
  ℕ, zero, suc, ◌+◌, ◌-◌, ◌%◌, ◌≤◌, ◌≡◌, ◌⊎◌, Bool, ◌&&◌, arith, ltb, leb, if◌then◌else◌, update,
}
use mit_lab.Str.{Mem, memset_loop, memset, copy_down, copy_up, memmove, user_memmove}

abbrev pub within : ℕ → ℕ → ℕ → Bool
within start n a = leb start a && ltb a (start + n)

memset_loop_lem :
    (n i dst c a : ℕ) (m : Mem)
    → memset_loop n i dst c m a ≡ (if within (dst + i) n a then c % 256 else m a)
unfolding memset_loop
memset_loop_lem zero i dst c a m = ground arith
memset_loop_lem (suc n) i dst c a m =
    ground (arith, memset_loop_lem n (i + 1) dst c a (update m (dst + i) (c % 256)))

-- `memset` gives each of the `n` bytes from `dst` on the low byte of `c`, and changes no other.
pub memset_lem :
    (dst c n a : ℕ) (m : Mem) → memset dst c n m a ≡ (if within dst n a then c % 256 else m a)
unfolding memset
memset_lem dst c n a m = ground (arith, memset_loop_lem n 0 dst c a m)

-- Upwards is right unless the target starts inside the rest of the source.
copy_up_lem :
    (n d s a : ℕ) (m : Mem)
    → (d ≤ s) ⊎ (s + n ≤ d)
    → copy_up n d s m a ≡ (if within d n a then m (s + (a - d)) else m a)
unfolding copy_up
copy_up_lem zero d s a m h = ground arith
copy_up_lem (suc n) d s a m h = ground (arith, copy_up_lem n (d + 1) (s + 1) a (update m d (m s)))

-- Downwards, from the ends, is right when the target is not below the source or clear of it.
copy_down_lem :
    (n d s a : ℕ) (m : Mem)
    → (s ≤ d) ⊎ (d + n ≤ s)
    → copy_down n (d + n) (s + n) m a ≡ (if within d n a then m (s + (a - d)) else m a)
unfolding copy_down
copy_down_lem zero d s a m h = ground arith
copy_down_lem (suc n) d s a m h =
    let to : d + suc n - 1 ≡ d + n = omega arith in
    let from : s + suc n - 1 ≡ s + n = omega arith in
    rw (to, from) (ground (arith, copy_down_lem n d s a (update m (d + n) (m (s + n)))))

-- `memmove` leaves in the target the bytes that the source held before the call, however the two
-- overlap, and changes no other byte.
pub memmove_lem :
    (dst src n a : ℕ) (m : Mem)
    → memmove dst src n m a ≡ (if within dst n a then m (src + (a - dst)) else m a)
unfolding memmove
memmove_lem dst src n a m = ground (arith, copy_up_lem n dst src a m, copy_down_lem n dst src a m)

-- The user library's `memmove` computes the same memory as the kernel's.
pub user_memmove_lem :
    (dst src n a : ℕ) (m : Mem) → user_memmove dst src n m a ≡ memmove dst src n m a
unfolding user_memmove
user_memmove_lem dst src n a m =
    ground
      (arith, memmove_lem dst src n a m, copy_up_lem n dst src a m, copy_down_lem n dst src a m)
