-- ===== src/Pipe/Read.antt =====
-- What a run of `piperead` takes out of the pipe, and why it ends.
use mit_lab.Base.{
  ℕ, zero, suc, ◌+◌, ◌%◌, ◌^◌, ◌-◌, ◌≤◌, ◌<◌, ◌≡◌, refl, ap, ◌∙◌, ◌≢◌, ◌⊎◌, inl, inr, Bool, true,
  false, ◌&&◌, List, [], ◌∷◌, ◌++◌, arith, ◌==◌, Bool-cases, length,
}
use mit_lab.Base.Int.{pos, negsuc}
use mit_lab.Pipe.{Pipe, pipe_size, Turn, returned, asleep, Copied, read_loop, piperead}
use mit_lab.Pipe.Window.{held, contents, IsValid, length-window}

-- Why the copy loop of `piperead` ends.
abbrev pub ReadEnd : (writable : ℕ → Bool) (addr left i : ℕ) → Copied → Type 0
ReadEnd writable addr left i c =
    ((length c.out ≡ left) × (c.lost ≡ []))
    ⊎ ((contents c.pipe ≡ []) × (c.lost ≡ []))
    ⊎ ((length c.lost ≡ 1) × (writable (addr + i + length c.out) ≡ false))

pub record Took (writable : ℕ → Bool) (addr left i : ℕ) (pi : Pipe) (c : Copied) : Type 0 where
  pub valid : IsValid c.pipe
  pub split : contents pi ≡ c.out ++ (c.lost ++ contents c.pipe)
  pub counted : c.count ≡ i + length c.out
  pub bounded : length c.out ≤ left
  pub reached : (t : ℕ) → t < length c.out → writable (addr + i + t) ≡ true
  pub ends : ReadEnd writable addr left i c

abbrev taken : Pipe → Pipe
taken pi = record pi { nread = (pi.nread + 1) % 2 ^ 32 }

empty_test : (pi : Pipe) → IsValid pi → (pi.nread == pi.nwrite) ≡ (held pi == 0)
empty_test pi v = ground (arith, v.nread_fits, v.nwrite_fits)

taken-IsValid : (pi : Pipe) → IsValid pi → held pi ≢ 0 → IsValid (taken pi)
taken-IsValid pi v some_held = record {
  nread_fits = omega arith;
  nwrite_fits = v.nwrite_fits;
  within = omega (arith, v.within, v.nread_fits, v.nwrite_fits);
}

contents-taken :
    (pi : Pipe)
    → IsValid pi
    → held pi ≢ 0
    → contents pi ≡ pi.buffer (pi.nread % pipe_size) ∷ contents (taken pi)
contents-taken pi v some_held =
    let e : held pi ≡ suc (held (taken pi)) = omega (arith, v.nread_fits, v.nwrite_fits) in rw e

contents-empty : (pi : Pipe) → held pi ≡ 0 → contents pi ≡ []
contents-empty pi e = rw e

module _ (writable : ℕ → Bool) (addr : ℕ) where
  ReadEnd-cons :
      (left i ch : ℕ) (c : Copied)
      → ReadEnd writable addr left (i + 1) c
      → ReadEnd writable addr (suc left) i (record c { out = ch ∷ c.out })
  ReadEnd-cons left i ch c (inl (a, b)) = inl (omega arith, b)
  ReadEnd-cons left i ch c (inr (inl p)) = inr (inl p)
  ReadEnd-cons left i ch c (inr (inr (a, b))) =
      let e : addr + i + suc (length c.out) ≡ addr + (i + 1) + length c.out = omega arith in
      inr (inr (a, rw e b))

  Took-cons :
      (left i : ℕ) (pi : Pipe) (c : Copied)
      → IsValid pi
      → held pi ≢ 0
      → writable (addr + i) ≡ true
      → Took writable addr left (i + 1) (taken pi) c
      → Took writable addr
          (suc left)
          i
          pi
          (record c { out = pi.buffer (pi.nread % pipe_size) ∷ c.out })
  Took-cons left i pi c v some_held w t = record {
    valid = t.valid;
    split = contents-taken pi v some_held ∙ ap (λ l. pi.buffer (pi.nread % pipe_size) ∷ l) t.split;
    counted = omega (arith, t.counted);
    bounded = omega (arith, t.bounded);
    reached = λ n l. elim (Bool-cases (n == 0)) [
      | inl z ↦ let q : addr + i + n ≡ addr + i = ground arith in rw q w
      | inr z ↦
          let q : addr + i + n ≡ addr + (i + 1) + (n - 1) = ground arith in
          rw q (t.reached (n - 1) (ground (arith, l)))
    ];
    ends = ReadEnd-cons left i (pi.buffer (pi.nread % pipe_size)) c t.ends;
  }

  pub read_loop-Took :
      (left i : ℕ) (pi : Pipe)
      → IsValid pi
      → Took writable addr left i pi (read_loop writable addr left i pi)
  unfolding read_loop
  read_loop-Took zero i pi v = record {
    valid = v;
    split = refl;
    counted = omega arith;
    bounded = omega arith;
    reached = λ n l. absurd (omega arith);
    ends = inl (refl, refl);
  }
  read_loop-Took (suc left) i pi v = elim (Bool-cases (held pi == 0)) [
    | inl empty ↦
        rw (empty_test pi v, empty)
          (record {
            valid = v;
            split = refl;
            counted = omega arith;
            bounded = omega arith;
            reached = λ n l. absurd (omega arith);
            ends = inr (inl (contents-empty pi (ground arith), refl));
          })
    | inr some_held ↦
        rw (empty_test pi v, some_held)
          (elim (Bool-cases (writable (addr + i))) [
            | inl fine ↦ rw fine (
                Took-cons left i pi _ v (ground arith) fine
                  (read_loop-Took left (i + 1) (taken pi) (taken-IsValid pi v (ground arith))))
            | inr fault ↦ rw fault (record {
              valid = taken-IsValid pi v (ground arith);
              split = contents-taken pi v (ground arith);
              counted = omega arith;
              bounded = omega arith;
              reached = λ n l. absurd (omega arith);
              ends = inr (inr (refl, let z : addr + i + 0 ≡ addr + i = omega arith in rw z fault));
            })
          ])
  ]

-- What a run of `piperead` does to the pipe, by how it ends.
abbrev pub ReadTurn :
    (killed : Bool) (writable : ℕ → Bool) (addr n : ℕ) → Pipe → Turn × List ℕ × List ℕ → Type 0
ReadTurn killed writable addr n pi (asleep i wakes q, out, lost) =
    (contents pi ≡ [])
    × (pi.writeopen ≡ true)
    × (killed ≡ false)
    × (i ≡ 0)
    × (q ≡ pi)
    × (out ≡ [])
    × (lost ≡ [])
ReadTurn killed writable addr n pi (returned (negsuc r) wakes q, out, lost) =
    (contents pi ≡ [])
    × (pi.writeopen ≡ true)
    × (killed ≡ true)
    × (r ≡ 0)
    × (q ≡ pi)
    × (out ≡ [])
    × (lost ≡ [])
ReadTurn killed writable addr n pi (returned (pos r) wakes q, out, lost) =
    ((contents pi ≢ []) ⊎ (pi.writeopen ≡ false))
    × (wakes ≡ true)
    × Took writable addr n 0 pi (record { out = out; lost = lost; count = r; pipe = q })

-- A run of `piperead` sleeps, or returns -1 for a killed process, only with an empty pipe whose
-- writing end is open, and then it changes nothing. Else it takes bytes off the front of the pipe
-- and returns the number of those copied, each to an address that can be written: `n`, unless the pipe runs empty or a byte cannot be copied
-- to the user. That byte, at most one, is lost.
pub piperead-ReadTurn :
    (killed : Bool) (writable : ℕ → Bool) (addr n : ℕ) (pi : Pipe)
    → IsValid pi
    → ReadTurn killed writable addr n pi (piperead killed writable addr n pi)
unfolding piperead
piperead-ReadTurn killed writable addr n pi v = elim (Bool-cases ((held pi == 0) && pi.writeopen)) [
  | inl waits ↦
      let nothing = contents-empty pi (ground arith) in
      rw (empty_test pi v, waits)
        (elim (Bool-cases killed) [
          | inl k ↦ rw k (nothing, ground arith, refl, refl, refl, refl, refl)
          | inr k ↦ rw k (nothing, ground arith, refl, refl, refl, refl, refl)
        ])
  | inr goes ↦
      rw (empty_test pi v, goes) (goes_on goes, refl, read_loop-Took writable addr n 0 pi v)
]
  where
    goes_on : ((held pi == 0) && pi.writeopen) ≡ false → (contents pi ≢ []) ⊎ (pi.writeopen ≡ false)
    goes_on e = elim (Bool-cases pi.writeopen) [
      | inl o ↦ inl (λ z.
          let l = ap length z in
          omega (arith, length-window pi.buffer (held pi) pi.nread, nonzero e o))
      | inr o ↦ inr o
    ]
      where
        nonzero : ((held pi == 0) && pi.writeopen) ≡ false → pi.writeopen ≡ true → held pi ≢ 0
        nonzero a b = ground arith
