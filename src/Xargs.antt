-- ===== src/Xargs.antt =====
-- user/xargs.c: characters are numbers, the input and the line buffer are lists of them, and what
-- runs is the list of the argument vectors given to `exec`, in order. That `fork` and `exec` succeed
-- is assumed. The result `none` is a write past the end of the array of arguments, `argv_new`, which
-- the source does not check.
pub mod Words
pub mod Lines
mod Tests
use mit_lab.Base.{
  ℕ, zero, suc, ◌+◌, ◌-◌, Bool, true, false, ◌||◌, Option, none, some, List, [], ◌∷◌, ◌++◌, length,
  ltb, ◌==◌, if◌then◌else◌,
}

abbrev pub maxarg : ℕ
maxarg = 32

abbrev pub maxline : ℕ
maxline = 512

-- `*p` is NUL.
abbrev pub at_end : List ℕ → Bool
at_end [] = true
at_end (c ∷ p) = c == 0

-- `while (*p == ' ') *p++ = '\0'`
pub skip_spaces : List ℕ → List ℕ
skip_spaces [] = []
skip_spaces (c ∷ p) = let rest = skip_spaces p in if c == 32 then rest else c ∷ p

-- The word at `p`, which a NUL ends later, and where `while (*p && *p != ' ') p++` stops.
pub word : List ℕ → List ℕ × List ℕ
word [] = ([], [])
word (c ∷ p) = let rest = word p in if c == 0 || c == 32 then ([], c ∷ p) else (c ∷ rest.0, rest.1)

-- `argv_new[arg_cnt] = 0`
abbrev pub last_arg : (arg_cnt : ℕ) → Option (List (List ℕ))
last_arg arg_cnt = if ltb arg_cnt maxarg then some [] else none

-- `argv_new[arg_cnt++] = p`, and the arguments behind it.
abbrev pub one_arg : (arg_cnt : ℕ) (w : List ℕ) → Option (List (List ℕ)) → Option (List (List ℕ))
one_arg arg_cnt w none = none
one_arg arg_cnt w (some ws) = if ltb arg_cnt maxarg then some (w ∷ ws) else none

-- The loop over the words of a line; each round takes a character at least.
unfoldable pub split_loop : (fuel arg_cnt : ℕ) → List ℕ → Option (List (List ℕ))
split_loop zero arg_cnt p = last_arg arg_cnt
split_loop (suc fuel) arg_cnt p = elim (at_end p) [
  | true ↦ last_arg arg_cnt
  | false ↦ elim (at_end (skip_spaces p)) [
    | true ↦ last_arg arg_cnt
    | false ↦
        one_arg arg_cnt (word (skip_spaces p)).0
          (split_loop fuel (arg_cnt + 1) (word (skip_spaces p)).1)
  ]
]

-- The words of a line, with `cmd_cnt` arguments in front of them.
unfoldable pub split : (cmd_cnt : ℕ) → List ℕ → Option (List (List ℕ))
unfolding split_loop skip_spaces word
split cmd_cnt line = split_loop (length line) cmd_cnt line

-- The command runs with the words of a line, and then what comes after.
abbrev pub run_line :
    (command : List (List ℕ))
    → Option (List (List ℕ))
    → Option (List (List (List ℕ)))
    → Option (List (List (List ℕ)))
run_line command none next = none
run_line command (some ws) none = none
run_line command (some ws) (some runs) = some ((command ++ ws) ∷ runs)

-- The part of the program behind its loop.
abbrev pub last_line : (command : List (List ℕ)) (line : List ℕ) → Option (List (List (List ℕ)))
last_line command [] = some []
last_line command (c ∷ line) = run_line command (split (length command) (c ∷ line)) (some [])

-- The rest of the program, with the first characters of a line in the buffer; `command` is the
-- command with its fixed arguments.
unfoldable pub xargs :
    (command : List (List ℕ)) (line input : List ℕ) → Option (List (List (List ℕ)))
xargs command line [] = last_line command line
xargs command line (c ∷ input) =
    let next = xargs command [] input in
    let more = xargs command (line ++ c ∷ []) input in
    let same = xargs command line input in
    if c == 10
    then run_line command (split (length command) line) next
    else if ltb (length line) (maxline - 1)
    then more
    else same
