-- ===== src/Log/Short.antt =====
-- The reservation against the log that mkfs/mkfs.c lays out: `nlog` is LOGSIZE, one of them is the
-- header, and `log_write` keeps to `size - 1`.
use mit_lab.Base.{
  ℕ, ◌+◌, ◌≤◌, ◌<◌, ◌≡◌, ◌≢◌, inl, inr, false, Option, none, some, List, [], ◌∷◌, length, All,
  arith, Run, ok, panic, Run-cases, ◌>>=◌,
}
use mit_lab.Log.{Log, log_size, begin_op, log_write}
use mit_lab.Log.Stages.{logged}
use mit_lab.Log.Absorb.{log_write-logged}

-- Three operations begin.
pub begin_three : Log → Option Log
begin_three l = elim (begin_op l) [
  | none ↦ none
  | some l1 ↦ elim (begin_op l1) [ none ↦ none | some l2 ↦ begin_op l2 ]
]

-- They write the blocks, one after the other.
pub write_all : List ℕ → Log → Run Log
write_all [] l = ok l
write_all (b ∷ bs) l = log_write b l >>= write_all bs

-- Blocks that are not in the log, none of them twice.
abbrev pub Fresh : Log → List ℕ → Type 0
Fresh l [] = Unit
Fresh l (b ∷ bs) = (logged l.block 0 l.n b ≡ false) × All (λ c. c ≢ b) bs × Fresh l bs

Fresh-log_write :
    (b : ℕ) (bs : List ℕ) (l l' : Log)
    → log_write b l ≡ ok l'
    → All (λ c. c ≢ b) bs
    → Fresh l bs
    → Fresh l' bs
Fresh-log_write b [] l l' e ne fresh = tt
Fresh-log_write b (c ∷ bs) l l' e ne fresh = (
  ground (arith, (log_write-logged b c l e).0, fresh.0, ne.0),
  fresh.1,
  Fresh-log_write b bs l l' e ne.1 fresh.2,
)

size-log_write :
    (b : ℕ) (l : Log) {l' : Log} → log_write b l ≡ ok l' → (l'.size ≡ l.size) × (l.n + 1 < l.size)
unfolding log_write
size-log_write b l h = ground arith

write_all-panic :
    (bs : List ℕ) (l : Log)
    → Fresh l bs
    → 0 < length bs
    → l.size ≤ l.n + length bs
    → write_all bs l ≡ panic
unfolding write_all
write_all-panic [] l fresh some_left full = absurd (omega arith)
write_all-panic (b ∷ bs) l fresh some_left full = elim (Run-cases (log_write b l)) [
  | inl e ↦ rw e
  | inr (l', e) ↦
      let (z, room) = size-log_write b l e in
      let grown = (log_write-logged b b l e).1 in
      rw e (
        write_all-panic bs l' (Fresh-log_write b bs l l' e fresh.1 fresh.2)
          (ground (arith, fresh.0)) (ground (arith, fresh.0)))
]

-- In an empty log of the size that mkfs makes, LOGSIZE blocks, with no operation under way,
-- `begin_op` admits three operations, and when these write any LOGSIZE different blocks, MAXOPBLOCKS
-- each, `log_write` panics.
pub reservation-panic :
    (l : Log) (bs : List ℕ)
    → l.size ≡ log_size
    → l.n ≡ 0
    → l.outstanding ≡ 0
    → l.committing ≡ false
    → length bs ≡ log_size
    → Fresh l bs
    → (m : Log) × (begin_three l ≡ some m) × (write_all bs m ≡ panic)
unfolding begin_three begin_op
reservation-panic l bs z n o c len fresh = (
  record l { outstanding = l.outstanding + 1 + 1 + 1 },
  ground (arith, z, n, o, c),
  write_all-panic bs (record l { outstanding = l.outstanding + 1 + 1 + 1 }) (again bs fresh)
      (omega arith) (omega arith),
)
  where
    again :
        (cs : List ℕ) → Fresh l cs → Fresh (record l { outstanding = l.outstanding + 1 + 1 + 1 }) cs
    again [] f = tt
    again (b ∷ cs) f = (f.0, f.1, again cs f.2)
