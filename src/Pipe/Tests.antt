-- ===== src/Pipe/Tests.antt =====
-- The theorems about pipes at concrete runs, one over a counter's wrap.
use mit_lab.Base.{
  ℕ, ◌-◌, ◌^◌, ◌≤◌, ◌≡◌, refl, true, false, Option, none, some, [], ◌∷◌, ◌++◌, arith, ◌==◌,
  if◌then◌else◌, length,
}
use mit_lab.Pipe.{Pipe, pipe_size, new_pipe, Turn, write_loop, pipewrite, piperead}
use mit_lab.Pipe.Window.{contents, IsValid}
use mit_lab.Pipe.Write.{pipe_of, bytes_from, grown, Wrote, pipewrite-Wrote}
use mit_lab.Pipe.Read.{ReadTurn, piperead-ReadTurn}
use mit_lab.Pipe.Fifo.{here, next, write, Reach-fifo}

-- One byte, 5, below the wrap of `nwrite`.
abbrev wrapping : Pipe
wrapping = record {
  buffer = λ i. if i == 510 then 5 else 0;
  nread = 2 ^ 32 - 2;
  nwrite = 2 ^ 32 - 1;
  readopen = true;
  writeopen = true;
}

abbrev two_bytes : ℕ → Option ℕ
two_bytes a = if a == 100 then some 6 else if a == 101 then some 7 else none

wrapping-IsValid : IsValid wrapping
wrapping-IsValid = omega arith

pipewrite_wraps :
    contents (pipe_of (pipewrite (λ i. false) two_bytes 100 2 wrapping)) ≡ 5 ∷ 6 ∷ 7 ∷ []
unfolding pipewrite
pipewrite_wraps = refl

pipewrite-Wrote_example :
    Wrote (λ i. false) two_bytes 100 2 0 wrapping (pipewrite (λ i. false) two_bytes 100 2 wrapping)
pipewrite-Wrote_example = pipewrite-Wrote (λ i. false) two_bytes 100 2 wrapping wrapping-IsValid

piperead-ReadTurn_example :
    ReadTurn false (λ a. true) 200 4 wrapping (piperead false (λ a. true) 200 4 wrapping)
piperead-ReadTurn_example = piperead-ReadTurn false (λ a. true) 200 4 wrapping wrapping-IsValid

abbrev zeros : ℕ → ℕ
zeros i = 0

abbrev after_write : Turn
after_write = write_loop (λ i. false) two_bytes 100 2 0 (new_pipe zeros)

Reach-fifo_example :
    ([] ++ bytes_from two_bytes 100 (grown (new_pipe zeros) after_write)
      ≡ [] ++ contents (pipe_of after_write))
    × (length (contents (pipe_of after_write)) ≤ pipe_size)
Reach-fifo_example = Reach-fifo zeros (next here (write (λ i. false) two_bytes 100 2 0))
