-- ===== src/Str/Tests.antt =====
-- The theorems about kernel/string.c at concrete memories, and runs of the routines.
use mit_lab.Base.{◌≡◌, refl, ◌↔◌, inr, some, arith, ◌==◌, if◌then◌else◌}
use mit_lab.Base.Int.{pos, negsuc}
use mit_lab.Str.{Mem, memset, memmove, user_memmove, strncmp, strncpy, strlen}
use mit_lab.Str.Move.{memset_lem, memmove_lem, user_memmove_lem}
use mit_lab.Str.Text.{SameText, HasLength, strncmp_iff, strncpy_lem, strlen_lem}

-- "ab" at 100, "ac" at 200.
abbrev memory : Mem
memory a =
    if a == 100
    then b'a'
    else if a == 101
    then b'b'
    else if a == 200
    then b'a'
    else if a == 201
    then b'c'
    else 0

ab-HasLength : HasLength memory 100 2
ab-HasLength = record { text = λ j lt. ground arith; stop = refl }

memset_example : memset 100 0x141 2 memory 101 ≡ 0x41
memset_example = memset_lem 100 0x141 2 101 memory

memmove_example : memmove 101 100 2 memory 102 ≡ b'b'
memmove_example = memmove_lem 101 100 2 102 memory

user_memmove_example : user_memmove 101 100 2 memory 102 ≡ memmove 101 100 2 memory 102
user_memmove_example = user_memmove_lem 101 100 2 102 memory

-- "a" and "a": the first bytes.
strncmp_iff_example : (strncmp memory 100 200 1 ≡ pos 0) ↔ SameText memory 100 200 1
strncmp_iff_example = strncmp_iff 1 100 200 memory

strncmp_differs : strncmp memory 100 200 14 ≡ negsuc 0
unfolding strncmp
strncmp_differs = refl

strncpy_example : strncpy 300 100 14 memory 301 ≡ b'b'
strncpy_example = strncpy_lem 14 300 100 2 301 memory ab-HasLength (inr (omega arith))

strlen_example : strlen 3 memory 100 ≡ some 2
strlen_example = strlen_lem 3 100 2 memory ab-HasLength (omega arith)
