-- ===== src/Spinlock/Nesting.antt =====
-- `push_off` and `pop_off` are matched.
use mit_lab.Base.{
  ℕ, zero, suc, ◌+◌, ◌-◌, ◌<◌, ◌≡◌, refl, false, ◌&&◌, List, [], ◌∷◌, arith, Run, ok, ◌>>=◌, ◌==◌,
  if◌then◌else◌,
}
use mit_lab.Spinlock.{Cpu, push_off, pop_off}

pub data Call : Type 0 where
  push pop : Call

unfoldable pub run : List Call → Cpu → Run Cpu
run [] c = ok c
run (push ∷ calls) c = run calls (push_off c)
run (pop ∷ calls) c = pop_off c >>= run calls

-- Nested calls: from depth `d` back to depth 0 at the end, and never below before.
abbrev pub Nested : ℕ → List Call → Type 0
Nested d [] = d ≡ 0
Nested d (push ∷ calls) = Nested (suc d) calls
Nested zero (pop ∷ calls) = ⊥
Nested (suc d) (pop ∷ calls) = Nested d calls

-- With `d` calls of `push_off` open since the cpu was `c`.
record Open (c : Cpu) (d : ℕ) (now : Cpu) : Type 0 where
  depth : now.noff ≡ c.noff + d
  masked : 0 < d → now.intr ≡ false
  kept : 0 < c.noff + d → now.intena ≡ (if c.noff == 0 then c.intr else c.intena)
  closed : d ≡ 0 → now.intr ≡ c.intr

-- The interrupt bit is off while the cpu is inside a `push_off`.
abbrev pub IsMasked : Cpu → Type 0
IsMasked c = 0 < c.noff → c.intr ≡ false

push-Open : (c now : Cpu) (d : ℕ) → IsMasked c → Open c d now → Open c (suc d) (push_off now)
unfolding push_off
push-Open c now d m o = record {
  depth = omega (arith, o.depth);
  masked = λ h. refl;
  kept = λ h. ground (arith, o.depth, o.kept, o.closed);
  closed = λ h. absurd (omega arith);
}

pop-Open :
    (c now : Cpu) (d : ℕ)
    → IsMasked c
    → Open c (suc d) now
    → (next : Cpu) × (pop_off now ≡ ok next) × Open c d next
unfolding pop_off
pop-Open c now d m o =
    let off = o.masked (omega arith) in
    (
      record now { noff = now.noff - 1; intr = (now.noff - 1 == 0) && now.intena },
      ground (arith, off, o.depth),
      record {
        depth = omega (arith, o.depth);
        masked = λ h. ground (arith, o.depth);
        kept = λ h. ground (arith, o.kept (omega arith));
        closed = λ h. ground (arith, o.kept (omega arith), o.depth, m);
      },
    )

start-Open : (c : Cpu) → Open c 0 c
start-Open c = record {
  depth = omega arith;
  masked = λ h. absurd (omega arith);
  kept = λ h. ground arith;
  closed = λ h. refl;
}

run-Open :
    (calls : List Call) (c now : Cpu) (d : ℕ)
    → IsMasked c
    → Open c d now
    → Nested d calls
    → (end : Cpu) × (run calls now ≡ ok end) × Open c 0 end
unfolding run
run-Open [] c now d m o n = (now, refl, rw n at o)
run-Open (push ∷ calls) c now d m o n =
    run-Open calls c (push_off now) (suc d) m (push-Open c now d m o) n
run-Open (pop ∷ calls) c now zero m o n = absurd n
run-Open (pop ∷ calls) c now (suc d) m o n =
    let (next, e, o') = pop-Open c now d m o in rw e (run-Open calls c next d m o' n)

-- However `push_off` and `pop_off` are nested, as many of one as of the other and never more of
-- `pop_off`, no call panics, and at the end the depth and the interrupt bit are those of the
-- beginning, on or off.
pub run-restores :
    (calls : List Call) (c : Cpu)
    → IsMasked c
    → Nested 0 calls
    → (end : Cpu) × (run calls c ≡ ok end) × (end.noff ≡ c.noff) × (end.intr ≡ c.intr)
run-restores calls c m n =
    let (end, e, o) = run-Open calls c c 0 m (start-Open c) n in
    (end, e, omega (arith, o.depth), o.closed refl)
