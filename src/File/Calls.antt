-- ===== src/File/Calls.antt =====
-- Calls of all processes in any order.
use mit_lab.Base.{ℕ, ◌<◌, ◌≡◌, ◌≢◌, Option, none, some, ok, panic, ap as cong, Bool, true}
use mit_lab.Base.Int.{ℤ}
use mit_lab.Proc.{nproc}
use mit_lab.File.{
  nfile, OpenFile, OpenArgs, Files, fd_none, fd_pipe, fd_inode, fd_device, Freed, nothing, pipe_end,
  inode, argfd, sys_dup, sys_close, open_file,
}
use mit_lab.File.Effects.{descriptors}

-- A call of a process of the table that returns.
pub data Step (fs : Files) : Files → Type 0 where
  dup :
      (me : ℕ) (arg : ℤ) (r : Option ℕ × Files)
      → me < nproc
      → sys_dup me arg fs ≡ ok r
      → Step fs r.1
  close :
      (me : ℕ) (arg : ℤ) (r : Bool × Files × Freed)
      → me < nproc
      → sys_close me arg fs ≡ ok r
      → Step fs r.1
  opens :
      (me : ℕ) (v : OpenArgs) (r : Option ℕ × Files × Freed)
      → me < nproc
      → open_file me v fs ≡ ok r
      → Step fs r.1

pub data Reach (fs : Files) : Files → Type 0 where
  here : Reach fs fs
  next : {fs' fs'' : Files} → Reach fs fs' → Step fs' fs'' → Reach fs fs''

-- No process has a descriptor, and no entry is in use.
pub record IsEmpty (fs : Files) : Type 0 where
  pub no_refs : (f : ℕ) → (fs.file f).ref ≡ 0
  pub no_types : (f : ℕ) → (fs.file f).ty ≡ fd_none
  pub no_fds : (me fd : ℕ) → fs.ofile me fd ≡ none

-- What the last `close` of a file gives back, by its type.
pub data GivenBack (ff : OpenFile) : Freed → Type 0 where
  no_type : ff.ty ≡ fd_none → GivenBack ff nothing
  pipe : ff.ty ≡ fd_pipe → GivenBack ff (pipe_end ff.pipe ff.writable)
  on_disk : ff.ty ≡ fd_inode → GivenBack ff (inode ff.ip)
  device : ff.ty ≡ fd_device → GivenBack ff (inode ff.ip)

-- What holds between the calls.
pub record Between (fs : Files) : Type 0 where
  pub counts : (f : ℕ) → f < nfile → (fs.file f).ref ≡ descriptors f fs
  pub dups : (me : ℕ) (arg : ℤ) → me < nproc → sys_dup me arg fs ≢ panic
  pub opening :
      (me : ℕ) (v : OpenArgs)
      → me < nproc
      → (r : Option ℕ × Files) × (open_file me v fs ≡ ok (r.0, r.1, nothing))
  pub closes :
      (me fd f : ℕ) (arg : ℤ)
      → me < nproc
      → argfd me arg fs ≡ some (fd, f)
      → (fs' : Files) × (gone : Freed) × (sys_close me arg fs ≡ ok (true, fs', gone))
        × (descriptors f fs ≡ 1 → GivenBack (fs.file f) gone)
        × (descriptors f fs ≢ 1 → gone ≡ nothing)
