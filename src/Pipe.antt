-- ===== src/Pipe.antt =====
-- kernel/pipe.c. The lock of a pipe is held from `acquire` to the next `sleep` or `release`, so one
-- such run is one step: a call either returns or goes to sleep, and after a wakeup it goes on from
-- where it slept with the pipe that it finds then. The user's memory is what `copyin` reads and
-- where `copyout` fails.
pub mod Window
pub mod Write
pub mod Read
pub mod Fifo
mod Tests
use mit_lab.Base.{
  ℕ, zero, suc, ◌+◌, ◌%◌, ◌^◌, Bool, true, false, ◌&&◌, ◌||◌, not, Option, none, some, List, [],
  ◌∷◌, ◌==◌, if◌then◌else◌, update,
}
use mit_lab.Base.Int.{ℤ, pos, negsuc}

abbrev pub pipe_size : ℕ
pipe_size = 512

-- `struct pipe`; `nread` and `nwrite` are unsigned 32-bit counters that wrap.
pub record Pipe : Type 0 where
  pub buffer : ℕ → ℕ
  pub nread : ℕ
  pub nwrite : ℕ
  pub readopen : Bool
  pub writeopen : Bool

-- How a run ends: the call returns a value, or sleeps with `i` bytes done. `wakes` tells whether the
-- run woke the processes that sleep on the other counter.
pub data Turn : Type 0 where
  returned : (result : ℤ) (wakes : Bool) → Pipe → Turn
  asleep : (i : ℕ) (wakes : Bool) → Pipe → Turn

-- The pipe that `pipealloc` sets up.
unfoldable pub new_pipe : (ℕ → ℕ) → Pipe
new_pipe page = record { buffer = page; nread = 0; nwrite = 0; readopen = true; writeopen = true }

-- `pi->data[pi->nwrite++ % PIPESIZE] = ch`
pub put : Pipe → ℕ → Pipe
put pi ch = record pi {
  buffer = update pi.buffer (pi.nwrite % pipe_size) ch;
  nwrite = (pi.nwrite + 1) % 2 ^ 32;
}

-- The loop of `pipewrite` with `left` = n - i bytes to go. `killed i` is what `killed(pr)` returns in
-- the round for byte `i`; `user` is what `copyin` reads at an address, `none` where it fails.
pub write_loop : (killed : ℕ → Bool) (user : ℕ → Option ℕ) (addr : ℕ) (left i : ℕ) → Pipe → Turn
unfolding put
write_loop killed user addr zero i pi = returned (pos i) true pi
write_loop killed user addr (suc left) i pi =
    if not pi.readopen || killed i
    then returned (negsuc 0) false pi
    else if pi.nwrite == (pi.nread + pipe_size) % 2 ^ 32
    then asleep i true pi
    else elim (user (addr + i)) [
      | none ↦ returned (pos i) true pi
      | some ch ↦ write_loop killed user addr left (i + 1) (put pi ch)
    ]

-- From the call of `pipewrite` to its return or its first sleep.
unfoldable pub pipewrite : (killed : ℕ → Bool) (user : ℕ → Option ℕ) (addr n : ℕ) → Pipe → Turn
unfolding write_loop
pipewrite killed user addr n pi = write_loop killed user addr n 0 pi

-- What the copy loop of `piperead` has done: bytes copied, in order, and the byte that it took out
-- and could not copy.
pub record Copied : Type 0 where
  pub out : List ℕ
  pub lost : List ℕ
  pub count : ℕ
  pub pipe : Pipe

-- `left` = n - i bytes to go; `writable` tells where `copyout` succeeds.
pub read_loop : (writable : ℕ → Bool) (addr : ℕ) (left i : ℕ) → Pipe → Copied
read_loop writable addr zero i pi = record { out = []; lost = []; count = i; pipe = pi }
read_loop writable addr (suc left) i pi =
    let ch = pi.buffer (pi.nread % pipe_size) in
    let taken = record pi { nread = (pi.nread + 1) % 2 ^ 32 } in
    let rest = read_loop writable addr left (i + 1) taken in
    if pi.nread == pi.nwrite
    then record { out = []; lost = []; count = i; pipe = pi }
    else if writable (addr + i)
    then record rest { out = ch ∷ rest.out }
    else record { out = []; lost = ch ∷ []; count = i; pipe = taken }

-- One run of `piperead`, with the bytes that reach the user and the one lost.
unfoldable pub piperead :
    (killed : Bool) (writable : ℕ → Bool) (addr n : ℕ) → Pipe → Turn × List ℕ × List ℕ
unfolding read_loop
piperead killed writable addr n pi =
    if (pi.nread == pi.nwrite) && pi.writeopen
    then if killed then (returned (negsuc 0) false pi, [], []) else (asleep 0 false pi, [], [])
    else let c = read_loop writable addr n 0 pi in
      (returned (pos c.count) true c.pipe, c.out, c.lost)

-- The second part of the result tells whether the page of the pipe is freed.
pub pipeclose : Pipe → (writable : Bool) → Pipe × Bool
pipeclose pi writable =
    let closed =
      if writable then record pi { writeopen = false } else record pi { readopen = false } in
    (closed, not closed.readopen && not closed.writeopen)
