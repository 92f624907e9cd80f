-- ===== src/File.antt =====
-- The table of open files of kernel/file.c and the descriptors of kernel/sysfile.c. A pointer to a
-- file is the number of its entry, and a process is named by its index. The lock of the table is
-- held in each function of kernel/file.c; a system call is one step, since only the process itself
-- uses its descriptors. `ref` does not reach the bounds of an int: there are NPROC * NOFILE
-- descriptors.
pub mod Sums
pub mod Effects
pub mod Counts
pub mod Closing
pub mod Opening
pub mod Calls
mod Tests
use mit_lab.Base.{
  ℕ, zero, suc, ◌+◌, ◌-◌, ◌/◌, ◌%◌, Bool, true, false, ◌||◌, not, Option, none, some, Run, ok,
  panic, ◌>>=◌, ltb, ◌==◌, if◌then◌else◌, update,
}
use mit_lab.Base.Int.{ℤ, pos, negsuc}

abbrev pub nfile : ℕ
nfile = 100

abbrev pub nofile : ℕ
nofile = 16

pub data FileType : Type 0 where
  fd_none fd_pipe fd_inode fd_device : FileType

pub record OpenFile : Type 0 where
  pub ty : FileType
  pub ref : ℕ
  pub readable : Bool
  pub writable : Bool
  pub pipe : ℕ
  pub ip : ℕ
  pub off : ℕ
  pub major : ℕ

-- `ftable`, and `ofile` of every process.
pub record Files : Type 0 where
  pub file : ℕ → OpenFile
  pub ofile : ℕ → ℕ → Option ℕ

abbrev pub set_file : ℕ → OpenFile → Files → Files
set_file f v fs = record fs { file = update fs.file f v }

abbrev pub set_fd : (me fd : ℕ) → Option ℕ → Files → Files
set_fd me fd v fs = record fs { ofile = update fs.ofile me (update (fs.ofile me) fd v) }

pub find_file : (rounds f : ℕ) → (ℕ → OpenFile) → Option ℕ
find_file zero f file = none
find_file (suc rounds) f file = if (file f).ref == 0 then some f else find_file rounds (f + 1) file

-- `none` is the null pointer.
unfoldable pub filealloc : Files → Option ℕ × Files
unfolding find_file
filealloc fs = elim (find_file nfile 0 fs.file) [
  | none ↦ (none, fs)
  | some f ↦ (some f, set_file f (record (fs.file f) { ref = 1 }) fs)
]

unfoldable pub filedup : ℕ → Files → Run Files
filedup f fs =
    if ltb (fs.file f).ref 1
    then panic
    else ok (set_file f (record (fs.file f) { ref = (fs.file f).ref + 1 }) fs)

-- What `fileclose` gives back with the last reference: an end of a pipe, or an inode.
pub data Freed : Type 0 where
  nothing : Freed
  pipe_end : (pipe : ℕ) (writable : Bool) → Freed
  inode : (ip : ℕ) → Freed

abbrev pub freed : OpenFile → FileType → Freed
freed ff fd_none = nothing
freed ff fd_pipe = pipe_end ff.pipe ff.writable
freed ff fd_inode = inode ff.ip
freed ff fd_device = inode ff.ip

unfoldable pub fileclose : ℕ → Files → Run (Files × Freed)
fileclose f fs =
    let ff = fs.file f in
    if ltb ff.ref 1
    then panic
    else if ltb 0 (ff.ref - 1)
    then ok (set_file f (record ff { ref = ff.ref - 1 }) fs, nothing)
    else ok (set_file f (record ff { ref = 0; ty = fd_none }) fs, freed ff ff.ty)

-- The descriptor and its file.
unfoldable pub argfd : (me : ℕ) → ℤ → Files → Option (ℕ × ℕ)
argfd me (negsuc n) fs = none
argfd me (pos fd) fs =
    if ltb fd nofile then elim (fs.ofile me fd) [ none ↦ none | some f ↦ some (fd, f) ] else none

pub find_fd : (rounds fd : ℕ) → (ℕ → Option ℕ) → Option ℕ
find_fd zero fd ofile = none
find_fd (suc rounds) fd ofile = elim (ofile fd) [
  | none ↦ some fd
  | some f ↦ find_fd rounds (fd + 1) ofile
]

-- `none` is -1.
unfoldable pub fdalloc : (me f : ℕ) → Files → Option ℕ × Files
unfolding find_fd
fdalloc me f fs = elim (find_fd nofile 0 (fs.ofile me)) [
  | none ↦ (none, fs)
  | some fd ↦ (some fd, set_fd me fd (some f) fs)
]

-- The new descriptor, or `none` for -1.
unfoldable pub sys_dup : (me : ℕ) → ℤ → Files → Run (Option ℕ × Files)
unfolding argfd fdalloc filedup
sys_dup me arg fs = elim (argfd me arg fs) [
  | none ↦ ok (none, fs)
  | some (fd, f) ↦
      let (place, fs1) = fdalloc me f fs in
      elim place [ none ↦ ok (none, fs1) | some new ↦ filedup f fs1 >>= λ fs2. ok (some new, fs2) ]
]

-- Whether the descriptor was open, and what is given back.
unfoldable pub sys_close : (me : ℕ) → ℤ → Files → Run (Bool × Files × Freed)
unfolding argfd fileclose
sys_close me arg fs = elim (argfd me arg fs) [
  | none ↦ ok (false, fs, nothing)
  | some (fd, f) ↦ fileclose f (set_fd me fd none fs) >>= λ (fs1, gone). ok (true, fs1, gone)
]

-- What `sys_open` takes from the inode and from its argument: whether the inode is a device, its
-- major number, the inode and the mode.
pub record OpenArgs : Type 0 where
  pub device : Bool
  pub major : ℕ
  pub ip : ℕ
  pub omode : ℕ

-- The assignments to the fields of the file. O_WRONLY is bit 0 of the mode and O_RDWR bit 1.
abbrev pub opened : OpenArgs → OpenFile → OpenFile
opened o ff = record ff {
  ty = if o.device then fd_device else fd_inode;
  major = if o.device then o.major else ff.major;
  off = if o.device then ff.off else 0;
  ip = o.ip;
  readable = not (o.omode % 2 == 1);
  writable = (o.omode % 2 == 1) || (o.omode / 2 % 2 == 1);
}

-- The end of `open_file`, with the descriptor.
abbrev pub fill : (o : OpenArgs) (f : ℕ) → Option ℕ × Files → Run (Option ℕ × Files × Freed)
fill o f (none, fs) = fileclose f fs >>= λ (fs', gone). ok (none, fs', gone)
fill o f (some fd, fs) = ok (some fd, set_file f (opened o (fs.file f)) fs, nothing)

-- The rest of `open_file`, with the entry.
abbrev pub place_file : (me : ℕ) (o : OpenArgs) → Option ℕ × Files → Run (Option ℕ × Files × Freed)
place_file me o (none, fs) = ok (none, fs, nothing)
place_file me o (some f, fs) = fill o f (fdalloc me f fs)

-- The part of `sys_open` that makes the file for an inode: the entry and its descriptor, or neither.
-- The last part is what `fileclose` gives back.
unfoldable pub open_file : (me : ℕ) (o : OpenArgs) → Files → Run (Option ℕ × Files × Freed)
open_file me o fs = place_file me o (filealloc fs)
