-- ===== src/File/Tests.antt =====
-- Two processes that share a file.
use mit_lab.Base.{ℕ, Option, none, Run, ok, panic, false}
use mit_lab.File.{fd_none, OpenArgs, OpenFile, Files, Freed, open_file}

abbrev no_file : OpenFile
no_file = record {
  ty = fd_none;
  ref = 0;
  readable = false;
  writable = false;
  pipe = 0;
  ip = 0;
  off = 0;
  major = 0;
}

abbrev empty : Files
empty = record { file = λ f. no_file; ofile = λ me fd. none }

-- An inode opened with O_RDWR.
abbrev a_file : OpenArgs
a_file = record { device = false; major = 0; ip = 7; omode = 2 }

abbrev result_of : Run (Option ℕ × Files × Freed) → Files
result_of (ok r) = r.1
result_of panic = empty

abbrev opened : Files
opened = result_of (open_file 3 a_file empty)
