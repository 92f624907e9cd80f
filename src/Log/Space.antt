-- ===== src/Log/Space.antt =====
-- Space in the log: with the reservation of `begin_op`, no operation within its
-- budget meets a panic of `log_write` or of `end_op`.
use mit_lab.Base.{
  ℕ, zero, suc, ◌+◌, ◌-◌, ◌*◌, ◌≤◌, ◌<◌, ◌≡◌, refl, ap, ◌≢◌, inl, inr, Bool, true, false, some,
  List, [], ◌∷◌, arith, ok, panic, ok_of_ne_panic, ◌↔◌, Bool-cases, length, get_elem?, set,
  length-set, All,
}
use mit_lab.Log.{
  Log, max_op_blocks, log_size, begin_op, end_op, end_op_commit, log_write, commit, write_head,
  install_trans, write_log,
}

unfoldable pub sum : List ℕ → ℕ
sum [] = 0
sum (x ∷ xs) = x + sum xs

unfoldable pub remove : ℕ → List ℕ → List ℕ
remove i [] = []
remove zero (x ∷ xs) = xs
remove (suc i) (x ∷ xs) = x ∷ remove i xs

-- The log, and for each operation between its `begin_op` and `end_op` the writes that it may still
-- make.
pub record Sys : Type 0 where
  pub log : Log
  pub ops : List ℕ

-- One call by some process. A call of `log_write` is within the budget of its operation.
pub data Step (cap : ℕ) (s : Sys) : Sys → Type 0 where
  begin : {l : Log} → begin_op s.log ≡ some l → Step cap s (record { log = l; ops = cap ∷ s.ops })
  write :
      (i k b : ℕ) {l : Log}
      → get_elem? s.ops i ≡ some (suc k)
      → log_write b s.log ≡ ok l
      → Step cap s (record { log = l; ops = set s.ops i k })
  finish :
      (i k : ℕ) {l : Log} {last : Bool}
      → get_elem? s.ops i ≡ some k
      → end_op s.log ≡ ok (l, last)
      → Step cap s (record { log = l; ops = remove i s.ops })
  committed : s.log.committing ≡ true → Step cap s (record s { log = end_op_commit s.log })

pub data Reach (cap : ℕ) (s : Sys) : Sys → Type 0 where
  here : Reach cap s s
  next : {t u : Sys} → Reach cap s t → Step cap t u → Reach cap s u

-- Every operation under way is counted, its writes are reserved, and a commit runs alone. `allowed`
-- and `large` are the condition on the budget and the size of the log.
pub record IsReserved (cap : ℕ) (s : Sys) : Type 0 where
  pub counted : s.log.outstanding ≡ length s.ops
  pub room : s.log.n + sum s.ops + (max_op_blocks - cap) ≤ log_size
  pub allowed : cap ≤ max_op_blocks
  pub budget : All (λ k. k ≤ max_op_blocks) s.ops
  pub alone : s.log.committing ≡ true → s.ops ≡ []
  pub large : log_size + cap < s.log.size + max_op_blocks

sum-set : (xs : List ℕ) (i k : ℕ) → get_elem? xs i ≡ some (suc k) → suc (sum (set xs i k)) ≡ sum xs
unfolding sum
sum-set [] i k h = cc
sum-set (x ∷ xs) zero k h = ground arith
sum-set (x ∷ xs) (suc i) k h = omega (arith, sum-set xs i k h)

sum-remove :
    (xs : List ℕ) (i k : ℕ)
    → get_elem? xs i ≡ some k
    → (sum (remove i xs) + k ≡ sum xs) × (suc (length (remove i xs)) ≡ length xs)
unfolding sum remove
sum-remove [] i k h = cc
sum-remove (x ∷ xs) zero k h = ground arith
sum-remove (x ∷ xs) (suc i) k h = omega (arith, sum-remove xs i k h)

n-log_write :
    (b : ℕ) (l : Log) {l' : Log}
    → log_write b l ≡ ok l'
    → (l'.n ≤ l.n + 1)
      × (l'.outstanding ≡ l.outstanding)
      × (l'.committing ≡ l.committing)
      × (l'.size ≡ l.size)
unfolding log_write
n-log_write b l h = ground arith

n-end_op_commit :
    (l : Log)
    → ((end_op_commit l).n ≡ 0)
      × ((end_op_commit l).outstanding ≡ l.outstanding)
      × ((end_op_commit l).size ≡ l.size)
      × ((end_op_commit l).committing ≡ false)
unfolding end_op_commit commit write_head install_trans write_log
n-end_op_commit l = ground arith

sum-le : (xs : List ℕ) → All (λ k. k ≤ max_op_blocks) xs → sum xs ≤ max_op_blocks * length xs
unfolding sum
sum-le [] h = omega arith
sum-le (x ∷ xs) h = omega (arith, sum-le xs h.1, h.0)

All-set :
    (xs : List ℕ) (i k : ℕ)
    → get_elem? xs i ≡ some (suc k)
    → All (λ k. k ≤ max_op_blocks) xs
    → All (λ k. k ≤ max_op_blocks) (set xs i k)
All-set [] i k e h = h
All-set (x ∷ xs) zero k e h = (ground (arith, h.0), h.1)
All-set (x ∷ xs) (suc i) k e h = (h.0, All-set xs i k e h.1)

All-remove :
    (xs : List ℕ) (i : ℕ)
    → All (λ k. k ≤ max_op_blocks) xs
    → All (λ k. k ≤ max_op_blocks) (remove i xs)
unfolding remove
All-remove [] i h = h
All-remove (x ∷ xs) zero h = h.1
All-remove (x ∷ xs) (suc i) h = (h.0, All-remove xs i h.1)

length_zero : (xs : List ℕ) → length xs ≡ 0 → xs ≡ []
length_zero [] h = refl
length_zero (x ∷ xs) h = absurd (omega arith)

length-get : (xs : List ℕ) (i k : ℕ) → get_elem? xs i ≡ some k → 0 < length xs
length-get [] i k h = cc
length-get (x ∷ xs) i k h = omega arith

begin-IsReserved :
    {cap : ℕ} (s : Sys) (l : Log)
    → begin_op s.log ≡ some l
    → IsReserved cap s
    → IsReserved cap (record { log = l; ops = cap ∷ s.ops })
unfolding begin_op sum
begin-IsReserved s l e v = record {
  counted = ground (arith, v.counted);
  room = ground (arith, v.room, v.counted, sum-le s.ops v.budget);
  budget = (v.allowed, v.budget);
  alone = λ c. ground arith;
  allowed = v.allowed;
  large = ground (arith, v.large);
}

write-IsReserved :
    {cap : ℕ} (s : Sys) (i k b : ℕ) (l : Log)
    → get_elem? s.ops i ≡ some (suc k)
    → log_write b s.log ≡ ok l
    → IsReserved cap s
    → IsReserved cap (record { log = l; ops = set s.ops i k })
write-IsReserved s i k b l at e v =
    let (n, o, c, z) = n-log_write b s.log e in
    record {
      counted = omega (arith, o, v.counted, length-set s.ops i k);
      room = omega (arith, n, v.room, sum-set s.ops i k at);
      budget = All-set s.ops i k at v.budget;
      alone = λ h. let none_open = v.alone (ground arith) in ground arith;
      allowed = v.allowed;
      large = omega (arith, z, v.large);
    }

finish-IsReserved :
    {cap : ℕ} (s : Sys) (i k : ℕ) (l : Log) (last : Bool)
    → get_elem? s.ops i ≡ some k
    → end_op s.log ≡ ok (l, last)
    → IsReserved cap s
    → IsReserved cap (record { log = l; ops = remove i s.ops })
unfolding end_op
finish-IsReserved s i k l last at e v =
    let (m, n) = sum-remove s.ops i k at in
    record {
      counted = ground (arith, v.counted, n);
      room = ground (arith, v.room, m);
      budget = All-remove s.ops i v.budget;
      alone = λ h. length_zero (remove i s.ops) (ground (arith, v.counted, n));
      allowed = v.allowed;
      large = ground (arith, v.large);
    }

committed-IsReserved :
    {cap : ℕ} (s : Sys)
    → s.log.committing ≡ true
    → IsReserved cap s
    → IsReserved cap (record s { log = end_op_commit s.log })
committed-IsReserved s c v =
    let (n, o, z, d) = n-end_op_commit s.log in
    record {
      counted = omega (arith, o, v.counted);
      room = omega (arith, n, v.room);
      budget = v.budget;
      alone = λ h. cc;
      allowed = v.allowed;
      large = omega (arith, z, v.large);
    }

Step-IsReserved : {cap : ℕ} {s t : Sys} → Step cap s t → IsReserved cap s → IsReserved cap t
Step-IsReserved {s = s} (begin {l} e) v = begin-IsReserved s l e v
Step-IsReserved {s = s} (write i k b {l} at e) v = write-IsReserved s i k b l at e v
Step-IsReserved {s = s} (finish i k {l} {last} at e) v = finish-IsReserved s i k l last at e v
Step-IsReserved {s = s} (committed c) v = committed-IsReserved s c v

Reach-IsReserved : {cap : ℕ} {s t : Sys} → IsReserved cap s → Reach cap s t → IsReserved cap t
Reach-IsReserved v here = v
Reach-IsReserved v (next r st) = Step-IsReserved st (Reach-IsReserved v r)

sum-get : (xs : List ℕ) (i k : ℕ) → get_elem? xs i ≡ some (suc k) → 0 < sum xs
sum-get xs i k h = omega (arith, sum-set xs i k h)

write-ne-panic :
    {cap : ℕ} (t : Sys) (i k b : ℕ)
    → IsReserved cap t
    → get_elem? t.ops i ≡ some (suc k)
    → log_write b t.log ≢ panic
unfolding log_write
write-ne-panic t i k b w at =
    let n = sum-get t.ops i k at in
    let c = length-get t.ops i (suc k) at in ground (arith, w.room, w.large, w.counted)

finish-ne-panic :
    {cap : ℕ} (t : Sys) (i k : ℕ)
    → IsReserved cap t
    → get_elem? t.ops i ≡ some k
    → end_op t.log ≢ panic
unfolding end_op
finish-ne-panic t i k w at = elim (Bool-cases t.log.committing) [
  | inl c ↦ absurd (omega (arith, length-get t.ops i k at, ap length (w.alone c)))
  | inr c ↦ ground (arith, c)
]

last-alone :
    {cap : ℕ} (t : Sys) (i k : ℕ) {l : Log} {last : Bool}
    → IsReserved cap t
    → get_elem? t.ops i ≡ some k
    → end_op t.log ≡ ok (l, last)
    → (last ≡ true) ↔ (remove i t.ops ≡ [])
unfolding end_op
last-alone t i k {l} {last} w at e =
    let (m, n) = sum-remove t.ops i k at in
    let c = w.counted in
    (λ h. length_zero (remove i t.ops) (ground arith), λ h. let z = ap length h in ground arith)

-- Let each operation write at most `cap` blocks, and LOGSIZE + cap < log.size + MAXOPBLOCKS: with the
-- log of mkfs, whose size is LOGSIZE, this is one block less than MAXOPBLOCKS, and with a larger log
-- `cap` may be MAXOPBLOCKS. From a state whose reservations add up, take calls of `begin_op`,
-- `log_write`, `end_op` and the commit by any processes in any order, each operation within its
-- budget. Then a `log_write` within the budget of its operation never panics.
pub log_write-safe :
    {cap : ℕ} {s t : Sys} (i k b : ℕ)
    → IsReserved cap s
    → Reach cap s t
    → get_elem? t.ops i ≡ some (suc k)
    → (l : Log) × (log_write b t.log ≡ ok l)
log_write-safe {t = t} i k b v r at =
    ok_of_ne_panic (log_write b t.log) (write-ne-panic t i k b (Reach-IsReserved v r) at)

-- In the same states, under the same condition on the budget and the size of the log, an `end_op` of
-- an operation under way never panics, and it tells its caller to commit exactly when no operation is
-- left.
pub end_op-safe :
    {cap : ℕ} {s t : Sys} (i k : ℕ)
    → IsReserved cap s
    → Reach cap s t
    → get_elem? t.ops i ≡ some k
    → (out : Log × Bool) × (end_op t.log ≡ ok out) × ((out.1 ≡ true) ↔ (remove i t.ops ≡ []))
end_op-safe {t = t} i k v r at =
    let w = Reach-IsReserved v r in
    let (out, e) = ok_of_ne_panic (end_op t.log) (finish-ne-panic t i k w at) in
    (out, e, last-alone t i k w at e)
