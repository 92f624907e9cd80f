-- ===== src/Console.antt =====
-- kernel/console.c: the input buffer with line editing. The lock of the console is held from
-- `acquire` to the next `sleep` or `release`, so one such run is one step: `consoleread` returns or
-- goes to sleep, and goes on when it is awake with the console that it finds then. A call of
-- `consputc` is the bytes that it sends. What the user's memory takes is a parameter.
pub mod Window
pub mod Keys
pub mod Erase
pub mod Enter
pub mod Edit
pub mod Taken
pub mod Read
pub mod Lines
mod Tests
use mit_lab.Base.{
  ℕ, zero, suc, ◌+◌, ◌-◌, ◌%◌, ◌^◌, Bool, true, false, ◌&&◌, ◌||◌, not, Option, none, some, List,
  [], ◌∷◌, ◌++◌, ◌==◌, ltb, if◌then◌else◌, update,
}
use mit_lab.Base.Int.{ℤ, pos, negsuc}

abbrev pub input_buf_size : ℕ
input_buf_size = 128

abbrev pub backspace : ℕ
backspace = 256

-- C('D'), C('H'), C('P') and C('U'), and the other characters that the handlers look for.
abbrev pub ctrl_d : ℕ
ctrl_d = 4

abbrev pub ctrl_h : ℕ
ctrl_h = 8

abbrev pub ctrl_p : ℕ
ctrl_p = 16

abbrev pub ctrl_u : ℕ
ctrl_u = 21

abbrev pub delete_key : ℕ
delete_key = 127

abbrev pub newline : ℕ
newline = 10

abbrev pub carriage_return : ℕ
carriage_return = 13

abbrev pub consputc : ℕ → List ℕ
consputc c = if c == backspace then ctrl_h ∷ 32 ∷ ctrl_h ∷ [] else c ∷ []

-- `cons`; the three indices are unsigned 32-bit numbers that wrap.
pub record Cons : Type 0 where
  pub buf : ℕ → ℕ
  pub r : ℕ
  pub w : ℕ
  pub e : ℕ

-- What a run of `consoleintr` does: the console after it, the bytes echoed, and whether it wakes the
-- readers and prints the processes.
pub record Handled : Type 0 where
  pub cons : Cons
  pub echoed : List ℕ
  pub wakes : Bool
  pub dumps : Bool

-- The loop of C('U'). It ends at the write index at the latest.
pub kill_line : (fuel : ℕ) → Cons → Cons × List ℕ
kill_line zero c = (c, [])
kill_line (suc fuel) c =
    let last = (c.e + 2 ^ 32 - 1) % 2 ^ 32 in
    let rest = kill_line fuel (record c { e = last }) in
    if (c.e == c.w) || (c.buf (last % input_buf_size) == newline)
    then (c, [])
    else (rest.0, consputc backspace ++ rest.1)

abbrev pub erase : Cons → Cons × List ℕ
erase c =
    if c.e == c.w
    then (c, [])
    else (record c { e = (c.e + 2 ^ 32 - 1) % 2 ^ 32 }, consputc backspace)

-- `cons.e - cons.r`
abbrev pub used : Cons → ℕ
used c = (c.e + 2 ^ 32 - c.r) % 2 ^ 32

-- `cons.buf[cons.e++ % INPUT_BUF_SIZE] = c`; an element of the buffer is 8 bits wide.
abbrev pub store : ℕ → Cons → Cons
store ch c = record c {
  buf = update c.buf (c.e % input_buf_size) (ch % 2 ^ 8);
  e = (c.e + 1) % 2 ^ 32;
}

abbrev pub unreturn : ℕ → ℕ
unreturn ch = if ch == carriage_return then newline else ch

-- The default case, for a character that is stored.
pub enter : ℕ → Cons → Handled
enter ch c =
    let c1 = store ch c in
    if (ch == newline) || ((ch == ctrl_d) || (used c1 == input_buf_size))
    then record { cons = record c1 { w = c1.e }; echoed = consputc ch; wakes = true; dumps = false }
    else record { cons = c1; echoed = consputc ch; wakes = false; dumps = false }

unfoldable pub consoleintr : ℕ → Cons → Handled
unfolding kill_line enter
consoleintr ch c =
    let killed = kill_line input_buf_size c in
    let erased = erase c in
    if ch == ctrl_p
    then record { cons = c; echoed = []; wakes = false; dumps = true }
    else if ch == ctrl_u
    then record { cons = killed.0; echoed = killed.1; wakes = false; dumps = false }
    else if (ch == ctrl_h) || (ch == delete_key)
    then record { cons = erased.0; echoed = erased.1; wakes = false; dumps = false }
    else if not (ch == 0) && ltb (used c) input_buf_size
    then enter (unreturn ch) c
    else record { cons = c; echoed = []; wakes = false; dumps = false }

-- How a run of `consoleread` ends: it returns a value, or sleeps with `left` bytes to go.
pub data Turn : Type 0 where
  returned : ℤ → Turn
  asleep : (left : ℕ) → Turn

-- The run, with the bytes that reach the user and those taken out that do not.
pub record Reading : Type 0 where
  pub turn : Turn
  pub out : List ℕ
  pub dropped : List ℕ
  pub cons : Cons

-- The loop of `consoleread` with n = `left`: `writable` tells where `either_copyout` succeeds.
pub read_loop : (killed : Bool) (writable : ℕ → Bool) (target dst left : ℕ) → Cons → Reading
read_loop killed writable target dst zero c = record {
  turn = returned (pos target);
  out = [];
  dropped = [];
  cons = c;
}
read_loop killed writable target dst (suc left) c =
    let ch = c.buf (c.r % input_buf_size) in
    let taken = record c { r = (c.r + 1) % 2 ^ 32 } in
    let done = returned (pos (target - suc left)) in
    let rest = read_loop killed writable target (dst + 1) left taken in
    if c.r == c.w
    then record {
      turn = if killed then returned (negsuc 0) else asleep (suc left);
      out = [];
      dropped = [];
      cons = c;
    }
    else if ch == ctrl_d
    then (if ltb (suc left) target
        then record {
          turn = done;
          out = [];
          dropped = [];
          cons = record taken { r = (taken.r + 2 ^ 32 - 1) % 2 ^ 32 };
        }
        else record { turn = done; out = []; dropped = ch ∷ []; cons = taken })
    else if not (writable dst)
    then record { turn = done; out = []; dropped = ch ∷ []; cons = taken }
    else if ch == newline
    then record { turn = returned (pos (target - left)); out = ch ∷ []; dropped = []; cons = taken }
    else record rest { out = ch ∷ rest.out }

-- From the call of `consoleread` to its return or its first sleep, or, with a smaller `left`, from
-- where it slept.
unfoldable pub consoleread :
    (killed : Bool) (writable : ℕ → Bool) (target dst left : ℕ) → Cons → Reading
unfolding read_loop
consoleread killed writable target dst left c = read_loop killed writable target dst left c

-- `user` is what `either_copyin` reads at an address, `none` where it fails; the bytes go to
-- `uartputc`. The result of `consolewrite` is their number.
pub consolewrite : (user : ℕ → Option ℕ) (src n : ℕ) → List ℕ
consolewrite user src zero = []
consolewrite user src (suc n) = elim (user src) [
  | none ↦ []
  | some ch ↦ ch ∷ consolewrite user (src + 1) n
]
