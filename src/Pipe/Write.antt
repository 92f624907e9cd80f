-- ===== src/Pipe/Write.antt =====
-- What a run of `pipewrite` puts into the pipe, and why it ends.
use mathlib.Core.List.{append_assoc, append-nil}
use mit_lab.Base.{
  ℕ, zero, suc, ◌+◌, ◌-◌, ◌%◌, ◌^◌, ◌≤◌, ◌<◌, ◌≡◌, refl, ap, ◌∙◌, ◌≢◌, ◌⊎◌, inl, inr, Bool, true,
  false, ◌||◌, not, Option, none, some, List, [], ◌∷◌, ◌++◌, arith, ◌==◌, Bool-cases, Option-cases,
}
use mit_lab.Base.Int.{pos, negsuc}
use mit_lab.Pipe.{Pipe, pipe_size, put, Turn, returned, asleep, write_loop, pipewrite}
use mit_lab.Pipe.Window.{held, contents, IsValid, put-IsValid, contents-put, held-put}

abbrev pub pipe_of : Turn → Pipe
pipe_of (returned r wakes pi) = pi
pipe_of (asleep i wakes pi) = pi

-- How many bytes the pipe holds more.
abbrev pub grown : Pipe → Turn → ℕ
grown pi t = held (pipe_of t) - held pi

-- The user's bytes from address `a` on, as far as they can be read.
abbrev pub bytes_from : (ℕ → Option ℕ) → ℕ → ℕ → List ℕ
bytes_from user a zero = []
bytes_from user a (suc k) = elim (user a) [ none ↦ [] | some b ↦ b ∷ bytes_from user (a + 1) k ]

-- Why a run of `pipewrite` ends that began with `left` bytes to go from byte `i` on and wrote `k`.
abbrev pub WriteEnd :
    (killed : ℕ → Bool) (user : ℕ → Option ℕ) (addr left i k : ℕ) → Pipe → Turn → Type 0
WriteEnd killed user addr left i k pi (returned (pos r) wakes q) =
    (r ≡ i + k)
    × (wakes ≡ true)
    × ((r ≡ i + left) ⊎ (user (addr + r) ≡ none) × (pi.readopen ≡ true) × (killed r ≡ false))
WriteEnd killed user addr left i k pi (returned (negsuc r) wakes q) =
    (r ≡ 0) × (k < left) × (wakes ≡ false) × ((pi.readopen ≡ false) ⊎ (killed (i + k) ≡ true))
WriteEnd killed user addr left i k pi (asleep j wakes q) =
    (j ≡ i + k)
    × (k < left)
    × (wakes ≡ true)
    × (held q ≡ pipe_size)
    × (pi.readopen ≡ true)
    × (killed j ≡ false)

pub record Wrote (killed : ℕ → Bool) (user : ℕ → Option ℕ) (addr left i : ℕ) (pi : Pipe) (t : Turn)
    : Type 0 where
  pub valid : IsValid (pipe_of t)
  pub grows : held pi ≤ held (pipe_of t)
  pub appended : contents (pipe_of t) ≡ contents pi ++ bytes_from user (addr + i) (grown pi t)
  pub ends : WriteEnd killed user addr left i (grown pi t) pi t
  pub live : (j : ℕ) → j < grown pi t → (pi.readopen ≡ true) × (killed (i + j) ≡ false)

-- The full test of the code, on wrapping counters, is that of the number of bytes held.
full_test :
    (pi : Pipe)
    → IsValid pi
    → (pi.nwrite == (pi.nread + pipe_size) % 2 ^ 32) ≡ (held pi == pipe_size)
full_test pi v = ground (arith, v.nread_fits, v.nwrite_fits, v.within)

module _ (killed : ℕ → Bool) (user : ℕ → Option ℕ) (addr : ℕ) where
  WriteEnd-cons :
      (left i k ch : ℕ) (pi : Pipe) (t : Turn)
      → WriteEnd killed user addr left (i + 1) k (put pi ch) t
      → WriteEnd killed user addr (suc left) i (suc k) pi t
  unfolding put
  WriteEnd-cons left i k ch pi (returned (pos r) wakes q) e = ground arith
  WriteEnd-cons left i k ch pi (returned (negsuc r) wakes q) e = ground arith
  WriteEnd-cons left i k ch pi (asleep j wakes q) e = ground arith

  Wrote-cons :
      (left i ch : ℕ) (pi : Pipe) (t : Turn)
      → IsValid pi
      → held pi ≢ pipe_size
      → user (addr + i) ≡ some ch
      → (pi.readopen ≡ true) × (killed i ≡ false)
      → Wrote killed user addr left (i + 1) (put pi ch) t
      → Wrote killed user addr (suc left) i pi t
  Wrote-cons left i ch pi t v free at (open_end, alive) w =
      let more = held-put pi ch v free in
      let e : grown pi t ≡ suc (grown (put pi ch) t) = omega (arith, w.grows) in
      let a : addr + i + 1 ≡ addr + (i + 1) = omega arith in
      record {
        valid = w.valid;
        grows = omega (arith, w.grows);
        appended =
            rw (e, at, bytes_from, a)
              (w.appended
                ∙ ap (λ c. c ++ bytes_from user (addr + (i + 1)) (grown (put pi ch) t))
                    (contents-put pi ch v free)
                ∙ append_assoc (contents pi) (ch ∷ [])
                    (bytes_from user (addr + (i + 1)) (grown (put pi ch) t)));
        ends = rw e (WriteEnd-cons left i (grown (put pi ch) t) ch pi t w.ends);
        live = λ j l. elim (Bool-cases (j == 0)) [
          | inl z ↦ let q : i + j ≡ i = ground arith in (open_end, rw q alive)
          | inr z ↦
              let q : i + j ≡ i + 1 + (j - 1) = ground arith in
              (open_end, rw q ((w.live (j - 1) (ground (arith, l, e))).1))
        ];
      }

  Wrote-stop :
      (left i : ℕ) (pi : Pipe) (t : Turn)
      → IsValid pi
      → pipe_of t ≡ pi
      → WriteEnd killed user addr left i 0 pi t
      → Wrote killed user addr left i pi t
  Wrote-stop left i pi t v same ends =
      let e : grown pi t ≡ 0 = ground arith in
      record {
        valid = rw same v;
        grows = ground arith;
        appended = rw (e, append-nil) (ap contents same);
        ends = rw e ends;
        live = λ j l. absurd (omega (arith, l, e));
      }

  pub write_loop-Wrote :
      (left i : ℕ) (pi : Pipe)
      → IsValid pi
      → Wrote killed user addr left i pi (write_loop killed user addr left i pi)
  unfolding write_loop
  write_loop-Wrote zero i pi v =
      Wrote-stop zero i pi _ v refl (omega arith, refl, inl (omega arith))
  write_loop-Wrote (suc left) i pi v = elim (Bool-cases (not pi.readopen || killed i)) [
    | inl shut ↦
        rw shut (Wrote-stop (suc left) i pi _ v refl (refl, omega arith, refl, ground arith))
    | inr live ↦ rw live (elim (Bool-cases (held pi == pipe_size)) [
      | inl full ↦
          rw (full_test pi v, full)
            (Wrote-stop (suc left) i pi _ v refl (
              omega arith,
              omega arith,
              refl,
              ground arith,
              ground (arith, live),
              ground (arith, live),
            ))
      | inr free ↦
          rw (full_test pi v, free)
            (elim (Option-cases (user (addr + i))) [
              | inl none_there ↦ rw none_there (
                  Wrote-stop (suc left) i pi _ v refl (
                    omega arith,
                    refl,
                    inr (none_there, ground (arith, live), ground (arith, live)),
                  ))
              | inr (ch, there) ↦ rw there (
                  Wrote-cons left i ch pi _ v (ground arith) there
                    (ground (arith, live), ground (arith, live))
                    (write_loop-Wrote left (i + 1) (put pi ch)
                      (put-IsValid pi ch v (ground arith))))
            ])
    ])
  ]

-- A run of `pipewrite` puts the next bytes of the user behind what the pipe holds, never more than
-- PIPESIZE in all, also when a counter wraps. It returns the number of bytes written, which is `n`
-- unless a byte could not be read; it returns -1 exactly if it finds the reading end closed or the
-- process killed before a byte to go, and writes none after that; it sleeps only with bytes to go
-- and a full pipe.
pub pipewrite-Wrote :
    (killed : ℕ → Bool) (user : ℕ → Option ℕ) (addr n : ℕ) (pi : Pipe)
    → IsValid pi
    → Wrote killed user addr n 0 pi (pipewrite killed user addr n pi)
unfolding pipewrite
pipewrite-Wrote killed user addr n pi v = write_loop-Wrote killed user addr n 0 pi v
