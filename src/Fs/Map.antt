-- ===== src/Fs/Map.antt =====
-- The map from the blocks of a file to the blocks of the disk in kernel/fs.c: `bmap` and `itrunc`,
-- for the inode in entry `i` of the table.
pub mod Slots
pub mod Fill
pub mod Trunc
pub mod Empty
pub mod Truncate
use mit_lab.Base.{
  ℕ, zero, suc, ◌+◌, ◌-◌, ◌/◌, ◌%◌, true, false, Run, ok, panic, ◌>>=◌, ltb, ◌==◌, if◌then◌else◌,
  update,
}
use mit_lab.Fs.{ndirect, nindirect, ipb, Dinode, Inode, Fs, iblock, log_block, set_inode}
use mit_lab.Fs.Alloc.{balloc, bfree}

abbrev pub set_addr : (i k addr : ℕ) → Fs → Fs
set_addr i k addr fs =
    set_inode i (record (fs.inodes i) { addrs = update (fs.inodes i).addrs k addr }) fs

-- `ip->addrs[k]`, allocated if it is 0; the result is 0 when that fails.
pub get_addr : (i k : ℕ) → Fs → ℕ × Fs
get_addr i k fs =
    let new = balloc fs in
    if (fs.inodes i).addrs k == 0
    then (if new.0 == 0 then (0, new.1) else (new.0, set_addr i k new.0 new.1))
    else ((fs.inodes i).addrs k, fs)

abbrev pub set_word : (b j v : ℕ) → Fs → Fs
set_word b j v fs = record fs { words = update fs.words b (update (fs.words b) j v) }

-- `a[bn]` of the indirect block `b`, allocated if it is 0.
pub get_word : (b j : ℕ) → Fs → ℕ × Fs
get_word b j fs =
    let new = balloc fs in
    if fs.words b j == 0
    then (if new.0 == 0 then (0, new.1) else (new.0, log_block b (set_word b j new.0 new.1)))
    else (fs.words b j, fs)

-- The rest of `bmap` for block `bn` of the indirect ones, after the indirect block is loaded.
abbrev pub from_indirect : (bn : ℕ) → ℕ × Fs → ℕ × Fs
from_indirect bn (addr, fs) = if addr == 0 then (0, fs) else get_word addr bn fs

unfoldable pub bmap : (i bn : ℕ) → Fs → Run (ℕ × Fs)
unfolding get_addr get_word
bmap i bn fs =
    if ltb bn ndirect
    then ok (get_addr i bn fs)
    else if ltb (bn - ndirect) nindirect
    then ok (from_indirect (bn - ndirect) (get_addr i ndirect fs))
    else panic

unfoldable pub iupdate : ℕ → Fs → Fs
iupdate i fs =
    let ip = fs.inodes i in
    log_block (iblock ip.inum fs) (record fs {
      dinodes = update fs.dinodes ip.inum (record {
        ty = ip.ty;
        major = ip.major;
        minor = ip.minor;
        nlink = ip.nlink;
        size = ip.size;
        addrs = ip.addrs;
      });
    })

-- The loop over the direct blocks, from `k` on.
unfoldable pub trunc_direct : (i rounds k : ℕ) → Fs → Run Fs
trunc_direct i zero k fs = ok fs
trunc_direct i (suc rounds) k fs =
    (if (fs.inodes i).addrs k == 0
      then ok fs
      else (bfree ((fs.inodes i).addrs k) fs >>= λ fs'. ok (set_addr i k 0 fs')))
    >>= trunc_direct i rounds (k + 1)

-- The loop over the entries of the indirect block `b`, from `j` on.
unfoldable pub trunc_indirect : (b rounds j : ℕ) → Fs → Run Fs
trunc_indirect b zero j fs = ok fs
trunc_indirect b (suc rounds) j fs =
    (if fs.words b j == 0 then ok fs else bfree (fs.words b j) fs)
    >>= trunc_indirect b rounds (j + 1)

abbrev pub trunc_last : ℕ → Fs → Run Fs
trunc_last i fs =
    let b = (fs.inodes i).addrs ndirect in
    if b == 0
    then ok fs
    else (trunc_indirect b nindirect 0 fs >>= bfree b) >>= λ fs'. ok (set_addr i ndirect 0 fs')

unfoldable pub itrunc : ℕ → Fs → Run Fs
unfolding trunc_direct trunc_indirect iupdate
itrunc i fs = (trunc_direct i ndirect 0 fs >>= trunc_last i) >>= λ fs'.
    ok (iupdate i (set_inode i (record (fs'.inodes i) { size = 0 }) fs'))
