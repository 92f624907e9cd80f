-- ===== src/Pipe/Fifo.antt =====
-- A pipe is a bounded queue of bytes, for any number of readers and writers.
use mathlib.Core.List.{append_assoc}
use mit_lab.Base.{
  ℕ, ◌+◌, ◌≤◌, ◌≡◌, refl, sym, ◌∙◌, Bool, true, false, Option, List, [], ◌++◌, arith, length,
}
use mit_lab.Base.Int.{pos, negsuc}
use mit_lab.Pipe.{
  Pipe, pipe_size, new_pipe, Turn, returned, asleep, write_loop, piperead, pipeclose,
}
use mit_lab.Pipe.Window.{held, contents, IsValid, length-window}
use mit_lab.Pipe.Write.{pipe_of, grown, bytes_from, write_loop-Wrote}
use mit_lab.Pipe.Read.{ReadTurn, piperead-ReadTurn}

-- A pipe with all bytes that were written into it and all that were taken out, in order.
pub record Sys : Type 0 where
  pub pipe : Pipe
  pub sent : List ℕ
  pub received : List ℕ

-- One run of some process's call: a `pipewrite` from byte `i` on, begun or resumed after a sleep, a
-- `piperead`, or a `pipeclose`.
pub data Step (s : Sys) : Sys → Type 0 where
  write :
      (killed : ℕ → Bool) (user : ℕ → Option ℕ) (addr left i : ℕ)
      → Step s (record {
        pipe = pipe_of (write_loop killed user addr left i s.pipe);
        sent =
            s.sent
            ++ bytes_from user
                (addr + i)
                (grown s.pipe (write_loop killed user addr left i s.pipe));
        received = s.received;
      })
  read :
      (killed : Bool) (writable : ℕ → Bool) (addr n : ℕ)
      → Step s (record {
        pipe = pipe_of (piperead killed writable addr n s.pipe).0;
        sent = s.sent;
        received =
            s.received
            ++ ((piperead killed writable addr n s.pipe).1
                ++ (piperead killed writable addr n s.pipe).2);
      })
  close : (writable : Bool) → Step s (record s { pipe = (pipeclose s.pipe writable).0 })

pub data Reach (s : Sys) : Sys → Type 0 where
  here : Reach s s
  next : {t u : Sys} → Reach s t → Step t u → Reach s u

pub record InOrder (s : Sys) : Type 0 where
  pub valid : IsValid s.pipe
  pub order : s.sent ≡ s.received ++ contents s.pipe

-- The pipe that `pipealloc` makes, on a page with any bytes.
abbrev pub fresh_sys : (ℕ → ℕ) → Sys
fresh_sys page = record { pipe = new_pipe page; sent = []; received = [] }

-- What a run of `piperead` took out, in one equation.
read-split :
    (killed : Bool) (writable : ℕ → Bool) (addr n : ℕ) (pi : Pipe) (r : Turn × List ℕ × List ℕ)
    → IsValid pi
    → ReadTurn killed writable addr n pi r
    → IsValid (pipe_of r.0) × (contents pi ≡ (r.1 ++ r.2) ++ contents (pipe_of r.0))
read-split killed writable addr n pi (asleep i wakes q, out, lost) v (a, b, c, d, same, o, l) =
    rw (same, o, l) (v, refl)
read-split killed writable addr n pi (returned (negsuc r) wakes q, out, lost) v
      (a, b, c, d, same, o, l) =
    rw (same, o, l) (v, refl)
read-split killed writable addr n pi (returned (pos r) wakes q, out, lost) v (a, w, t) =
    (t.valid, t.split ∙ sym (append_assoc out lost (contents q)))

Step-InOrder : {s t : Sys} → Step s t → InOrder s → InOrder t
unfolding pipeclose
Step-InOrder {s} (write killed user addr left i) v =
    let w = write_loop-Wrote killed user addr left i s.pipe v.valid in
    record {
      valid = w.valid;
      order =
          rw (w.appended, v.order)
            (append_assoc s.received (contents s.pipe) (
              bytes_from user (addr + i)
                (grown s.pipe (write_loop killed user addr left i s.pipe))));
    }
Step-InOrder {s} (read killed writable addr n) v =
    let r = piperead killed writable addr n s.pipe in
    let (ok_after, split) =
      read-split killed writable addr n s.pipe r v.valid
        (piperead-ReadTurn killed writable addr n s.pipe v.valid) in
    record {
      valid = ok_after;
      order =
          rw (v.order, split) (sym (append_assoc s.received (r.1 ++ r.2) (contents (pipe_of r.0))));
    }
Step-InOrder {s} (close true) v = record {
  valid = record {
    nread_fits = v.valid.nread_fits;
    nwrite_fits = v.valid.nwrite_fits;
    within = v.valid.within;
  };
  order = v.order;
}
Step-InOrder {s} (close false) v = record {
  valid = record {
    nread_fits = v.valid.nread_fits;
    nwrite_fits = v.valid.nwrite_fits;
    within = v.valid.within;
  };
  order = v.order;
}

fresh-InOrder : (page : ℕ → ℕ) → InOrder (fresh_sys page)
unfolding new_pipe
fresh-InOrder page = record { valid = omega arith; order = refl }

-- From the pipe that `pipealloc` makes, after any runs of any processes' `pipewrite`, `piperead` and
-- `pipeclose` in any order, the bytes written are, in order, those taken out followed by those that
-- the pipe holds, which are at most PIPESIZE: no byte is lost, repeated or reordered in the pipe.
pub Reach-fifo :
    (page : ℕ → ℕ) {s : Sys}
    → Reach (fresh_sys page) s
    → (s.sent ≡ s.received ++ contents s.pipe) × (length (contents s.pipe) ≤ pipe_size)
Reach-fifo page {s} r =
    let v = go r in
    (v.order, omega (arith, v.valid.within, length-window s.pipe.buffer (held s.pipe) s.pipe.nread))
  where
    go : {t : Sys} → Reach (fresh_sys page) t → InOrder t
    go here = fresh-InOrder page
    go (next r' st) = Step-InOrder st (go r')
