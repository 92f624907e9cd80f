-- ===== src/Log.antt =====
-- kernel/log.c: transactions over the buffer cache, and recovery after a crash. The routines return
-- the log with its `Store`; one that may panic returns a `Run`.
pub mod Stages
pub mod Recover
pub mod Crash
pub mod Atomic
pub mod Space
pub mod Absorb
pub mod Short
mod Tests
use mit_lab.Base.{
  ℕ, zero, suc, ◌+◌, ◌-◌, ◌*◌, Bool, true, false, ◌||◌, Option, none, some, Run, ok, panic, ◌>>=◌,
  ltb, leb, ◌==◌, if◌then◌else◌, update,
}
use mit_lab.Buffers.{Block, Store, data_of, bread, set_data, bwrite, bpin, bunpin}

abbrev pub max_op_blocks : ℕ
max_op_blocks = 10

abbrev pub log_size : ℕ
log_size = max_op_blocks * 3

-- `struct log`; `n` and `block` are its `lh`. The lock is held or not needed in each routine.
pub record Log : Type 0 where
  pub start : ℕ
  pub size : ℕ
  pub outstanding : ℕ
  pub committing : Bool
  pub n : ℕ
  pub block : ℕ → ℕ
  pub store : Store

-- One round of `install_trans`: log block `tail` goes home. `brelse` changes no contents.
pub install_one : Bool → Log → ℕ → Store → Store
install_one recovering l tail s =
    let s1 = bread (l.start + tail + 1) s in
    let s2 = bread (l.block tail) s1 in
    let s3 = set_data (l.block tail) (data_of s2 (l.start + tail + 1)) s2 in
    let s4 = bwrite (l.block tail) s3 in if recovering then s4 else bunpin (l.block tail) s4

-- `rounds` blocks are left, from `tail` on.
pub install_loop : Bool → Log → ℕ → ℕ → Store → Store
install_loop recovering l zero tail s = s
install_loop recovering l (suc rounds) tail s =
    install_loop recovering l rounds (tail + 1) (install_one recovering l tail s)

pub install_trans : Bool → Log → Log
unfolding install_loop install_one
install_trans recovering l = record l { store = install_loop recovering l l.n 0 l.store }

pub read_blocks : ℕ → ℕ → Block → (ℕ → ℕ) → ℕ → ℕ
read_blocks zero i head block = block
read_blocks (suc rounds) i head block =
    read_blocks rounds (i + 1) head (update block i (head (i + 1)))

-- Word 0 of the header block is `n`, word i + 1 is `block[i]`.
pub read_head : Log → Log
unfolding read_blocks
read_head l =
    let s = bread l.start l.store in
    let head = data_of s l.start in
    record l { n = head 0; block = read_blocks (head 0) 0 head l.block; store = s }

pub write_blocks : ℕ → ℕ → (ℕ → ℕ) → Block → Block
write_blocks zero i block head = head
write_blocks (suc rounds) i block head =
    write_blocks rounds (i + 1) block (update head (i + 1) (block i))

pub write_head : Log → Log
unfolding write_blocks
write_head l =
    let s = bread l.start l.store in
    let head = write_blocks l.n 0 l.block (update (data_of s l.start) 0 l.n) in
    record l { store = bwrite l.start (set_data l.start head s) }

pub recover_from_log : Log → Log
recover_from_log l = write_head (record (install_trans true (read_head l)) { n = 0 })

-- `sizeof(struct logheader)` is 4 * (1 + LOGSIZE).
pub initlog : (start size : ℕ) → Store → Run Log
initlog start size s =
    if leb 1024 (4 * (1 + log_size))
    then panic
    else ok (
        recover_from_log (record {
          start = start;
          size = size;
          outstanding = 0;
          committing = false;
          n = 0;
          block = λ i. 0;
          store = s;
        }))

-- `none`: the process sleeps on the log, and tries again when it is woken.
pub begin_op : Log → Option Log
begin_op l =
    if l.committing
    then none
    else if ltb log_size (l.n + (l.outstanding + 1) * max_op_blocks)
    then none
    else some (record l { outstanding = l.outstanding + 1 })

pub write_log_one : Log → ℕ → Store → Store
write_log_one l tail s =
    let s1 = bread (l.start + tail + 1) s in
    let s2 = bread (l.block tail) s1 in
    let s3 = set_data (l.start + tail + 1) (data_of s2 (l.block tail)) s2 in
    bwrite (l.start + tail + 1) s3

pub write_log_loop : Log → ℕ → ℕ → Store → Store
write_log_loop l zero tail s = s
write_log_loop l (suc rounds) tail s = write_log_loop l rounds (tail + 1) (write_log_one l tail s)

pub write_log : Log → Log
unfolding write_log_loop write_log_one
write_log l = record l { store = write_log_loop l l.n 0 l.store }

pub commit : Log → Log
commit l =
    if ltb 0 l.n
    then write_head (record (install_trans false (write_head (write_log l))) { n = 0 })
    else l

-- The part of `end_op` under the lock: the new log, and whether this caller commits. The count is an
-- `int`, so that only a count of 1 becomes 0; Space shows that every call comes with a count above 0.
pub end_op : Log → Run (Log × Bool)
end_op l =
    if l.committing
    then panic
    else if l.outstanding == 1
    then ok (record l { outstanding = 0; committing = true }, true)
    else ok (record l { outstanding = l.outstanding - 1 }, false)

-- The rest of `end_op`, for the caller that commits.
pub end_op_commit : Log → Log
end_op_commit l = record (commit l) { committing = false }

-- The index of block `b` among the logged ones, else `n`.
find_slot : ℕ → ℕ → (ℕ → ℕ) → ℕ → ℕ
find_slot zero i block b = i
find_slot (suc rounds) i block b = if block i == b then i else find_slot rounds (i + 1) block b

-- `log.size` is an `int`: `n >= size - 1` is `size <= n + 1`.
pub log_write : ℕ → Log → Run Log
unfolding find_slot
log_write b l =
    if leb log_size l.n || leb l.size (l.n + 1)
    then panic
    else if ltb l.outstanding 1
    then panic
    else let i = find_slot l.n 0 l.block b in
      let noted = record l { block = update l.block i b } in
      if i == l.n then ok (record noted { n = l.n + 1; store = bpin b l.store }) else ok noted
