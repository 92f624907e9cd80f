-- ===== src/Fs/Table.antt =====
-- The table of inodes in memory in kernel/fs.c. A pointer to an inode is the number of its entry.
-- `acquiresleep` of a lock that is held is a call that sleeps: the result is `ok none` there, and
-- the caller runs the call again when it is awake.
pub mod Entries
pub mod Pointers
pub mod Calls
use mit_lab.Base.{
  ℕ, zero, suc, ◌+◌, ◌-◌, ◌<◌, Bool, true, false, ◌&&◌, ◌||◌, not, Option, none, some, Run, ok,
  panic, ◌>>=◌, ltb, ◌==◌, if◌then◌else◌, update,
}
use mit_lab.Fs.{ninode, Dinode, Inode, Fs, iblock, log_block, set_inode}
use mit_lab.Fs.Map.{itrunc, iupdate}

abbrev pub is_entry : (dev inum : ℕ) → Inode → Bool
is_entry dev inum ip = ltb 0 ip.ref && ((ip.dev == dev) && (ip.inum == inum))

-- Where the loop of `iget` ends: at the entry of the inode, or with the first free entry, if any.
pub data Scan : Type 0 where
  hit : ℕ → Scan
  miss : Option ℕ → Scan

abbrev pub or_here : Option ℕ → (i ref : ℕ) → Option ℕ
or_here none i ref = if ref == 0 then some i else none
or_here (some e) i ref = some e

pub scan : (dev inum rounds i : ℕ) (free : Option ℕ) → (ℕ → Inode) → Scan
scan dev inum zero i free inodes = miss free
scan dev inum (suc rounds) i free inodes = elim (is_entry dev inum (inodes i)) [
  | true ↦ hit i
  | false ↦ scan dev inum rounds (i + 1) (or_here free i (inodes i).ref) inodes
]

abbrev pub get_entry : (dev inum : ℕ) → Fs → Scan → Run (ℕ × Fs)
get_entry dev inum fs (hit i) =
    ok (i, set_inode i (record (fs.inodes i) { ref = (fs.inodes i).ref + 1 }) fs)
get_entry dev inum fs (miss none) = panic
get_entry dev inum fs (miss (some i)) =
    ok (i, set_inode i (record (fs.inodes i) { dev = dev; inum = inum; ref = 1; valid = false }) fs)

unfoldable pub iget : (dev inum : ℕ) → Fs → Run (ℕ × Fs)
unfolding scan
iget dev inum fs = get_entry dev inum fs (scan dev inum ninode 0 none fs.inodes)

unfoldable pub idup : ℕ → Fs → Fs
idup i fs = set_inode i (record (fs.inodes i) { ref = (fs.inodes i).ref + 1 }) fs

-- The loop of `ialloc`; `none` is the null pointer. The disk is the root device, 1.
pub ialloc_loop : (ty rounds inum : ℕ) → Fs → Run (Option ℕ × Fs)
ialloc_loop ty zero inum fs = ok (none, fs)
ialloc_loop ty (suc rounds) inum fs = elim ((fs.dinodes inum).ty == 0) [
  | true ↦
      iget 1 inum (
        log_block (iblock inum fs) (record fs {
          dinodes =
              update fs.dinodes inum
                (record { ty = ty; major = 0; minor = 0; nlink = 0; size = 0; addrs = λ k. 0 });
        }))
      >>= λ (i, fs'). ok (some i, fs')
  | false ↦ ialloc_loop ty rounds (inum + 1) fs
]

-- `ninodes` is that of the super block.
unfoldable pub ialloc : (ninodes ty : ℕ) → Fs → Run (Option ℕ × Fs)
unfolding ialloc_loop
ialloc ninodes ty fs = ialloc_loop ty (ninodes - 1) 1 fs

-- The inode as the disk has it.
abbrev pub read_inode : Dinode → Inode → Inode
read_inode dip ip = record ip {
  ty = dip.ty;
  major = dip.major;
  minor = dip.minor;
  nlink = dip.nlink;
  size = dip.size;
  addrs = dip.addrs;
  valid = true;
}

abbrev pub is_none : Option ℕ → Bool
is_none none = true
is_none (some p) = false

abbrev pub is_holder : ℕ → Option ℕ → Bool
is_holder me none = false
is_holder me (some p) = p == me

-- `me` is the process that calls.
unfoldable pub ilock : (me i : ℕ) → Fs → Run (Option Fs)
ilock me i fs =
    let ip = fs.inodes i in
    let locked = record ip { holder = some me } in
    let loaded = read_inode (fs.dinodes ip.inum) locked in
    if ltb ip.ref 1
    then panic
    else if not (is_none ip.holder)
    then ok none
    else if ip.valid
    then ok (some (set_inode i locked fs))
    else if loaded.ty == 0
    then panic
    else ok (some (set_inode i loaded fs))

unfoldable pub iunlock : (me i : ℕ) → Fs → Run Fs
iunlock me i fs =
    let ip = fs.inodes i in
    if not (is_holder me ip.holder) || ltb ip.ref 1
    then panic
    else ok (set_inode i (record ip { holder = none }) fs)

-- What `iput` does, between its two critical sections, with an inode that has no link and no other
-- pointer to it.
unfoldable pub iput_free : ℕ → Fs → Run (Option Fs)
iput_free i fs =
    let ip = fs.inodes i in
    if (ip.ref == 1) && (ip.valid && (ip.nlink == 0))
    then (if not (is_none ip.holder)
        then ok none
        else itrunc i fs >>= λ fs1.
            let fs2 = iupdate i (set_inode i (record (fs1.inodes i) { ty = 0 }) fs1) in
            ok (some (set_inode i (record (fs2.inodes i) { valid = false; holder = none }) fs2)))
    else ok (some fs)

-- `ip->ref--`, at the end of `iput`.
unfoldable pub iput_drop : ℕ → Fs → Fs
iput_drop i fs = set_inode i (record (fs.inodes i) { ref = (fs.inodes i).ref - 1 }) fs
