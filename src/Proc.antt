-- ===== src/Proc.antt =====
-- kernel/proc.c: the process table. A process is named by its index in `proc[]`. Locks are held as
-- the code holds them, so that each function is one step; `sleep` and `yield` end a step, and what
-- runs until the process is scheduled again are other steps. What the allocator, the page tables
-- and the copy to the user return is an argument. The trapframe's contents, `context`, `kstack` and
-- the reference counts of files and inodes are not here.
pub mod Scan
pub mod Signals
pub mod Life
pub mod Wakeups
pub mod Reach
pub mod Reap
mod Tests
use mit_lab.Base.{
  ℕ, zero, suc, ◌+◌, ◌-◌, Bool, true, false, ◌&&◌, ◌||◌, not, Option, none, some, List, [], ◌∷◌,
  Run, ok, panic, ◌==◌, if◌then◌else◌, update, take,
}

-- As it is without LAB_FS.
abbrev pub nproc : ℕ
nproc = 64

-- `enum procstate`
pub data ProcState : Type 0 where
  unused used sleeping runnable running zombie : ProcState

-- What a process sleeps on: the null pointer, an entry of `proc[]`, or any other address.
pub data Chan : Type 0 where
  nowhere : Chan
  at_proc : ℕ → Chan
  at_address : ℕ → Chan

pub chan_eq : Chan → Chan → Bool
chan_eq nowhere nowhere = true
chan_eq (at_proc i) (at_proc j) = i == j
chan_eq (at_address a) (at_address b) = a == b
chan_eq nowhere (at_proc j) = false
chan_eq nowhere (at_address b) = false
chan_eq (at_proc i) nowhere = false
chan_eq (at_proc i) (at_address b) = false
chan_eq (at_address a) nowhere = false
chan_eq (at_address a) (at_proc j) = false

abbrev pub is_unused : ProcState → Bool
is_unused unused = true
is_unused _ = false

abbrev pub is_sleeping : ProcState → Bool
is_sleeping sleeping = true
is_sleeping _ = false

abbrev pub is_runnable : ProcState → Bool
is_runnable runnable = true
is_runnable _ = false

abbrev pub is_zombie : ProcState → Bool
is_zombie zombie = true
is_zombie _ = false

-- `struct proc`; pointers are 0 when null, and the parent is an index.
pub record Proc : Type 0 where
  pub state : ProcState
  pub chan : Chan
  pub killed : Bool
  pub xstate : ℕ
  pub pid : ℕ
  pub parent : Option ℕ
  pub sz : ℕ
  pub pagetable : ℕ
  pub trapframe : ℕ
  pub ofile : ℕ → ℕ
  pub cwd : ℕ
  pub name : List ℕ

abbrev pub is_parent : Option ℕ → ℕ → Bool
is_parent none i = false
is_parent (some j) i = j == i

-- `proc[]`, `nextpid` and `initproc`; `freed` are the trapframes and page tables, with the sizes of
-- user memory, that `freeproc` has given back, the last one first.
pub record Table : Type 0 where
  pub procs : ℕ → Proc
  pub nextpid : ℕ
  pub initproc : ℕ
  pub freed : List (ℕ × ℕ × ℕ)

abbrev pub set_proc : ℕ → Proc → Table → Table
set_proc i p t = record t { procs = update t.procs i p }

-- One round of `wakeup`, for process `i`; `me` is `myproc()`, if there is one.
pub wake_one : (me : Option ℕ) → Chan → ℕ → Proc → Proc
wake_one me chan i p =
    if not (is_parent me i) && (is_sleeping p.state && chan_eq p.chan chan)
    then record p { state = runnable }
    else p

wake_loop : (me : Option ℕ) → Chan → (rounds i : ℕ) → (ℕ → Proc) → ℕ → Proc
wake_loop me chan zero i procs = procs
wake_loop me chan (suc rounds) i procs =
    wake_loop me chan rounds (i + 1) (update procs i (wake_one me chan i (procs i)))

pub wakeup : (me : Option ℕ) → Chan → Table → Table
unfolding wake_loop
wakeup me chan t = record t { procs = wake_loop me chan nproc 0 t.procs }

-- The first process of the table from `i` on that passes a test.
pub find_proc : (Proc → Bool) → (rounds i : ℕ) → (ℕ → Proc) → Option ℕ
find_proc test zero i procs = none
find_proc test (suc rounds) i procs =
    if test (procs i) then some i else find_proc test rounds (i + 1) procs

-- The table and whether the process was found (0 or -1 in the source).
pub kill : (pid : ℕ) → Table → Table × Bool
kill pid t = elim (find_proc (λ p. p.pid == pid) nproc 0 t.procs) [
  | none ↦ (t, false)
  | some i ↦
      let p = t.procs i in
      (
        set_proc i
            (record p { killed = true; state = if is_sleeping p.state then runnable else p.state })
            t,
        true,
      )
]

pub setkilled : ℕ → Table → Table
setkilled i t = set_proc i (record (t.procs i) { killed = true }) t

unfoldable pub freeproc : ℕ → Table → Table
freeproc i t =
    let p = t.procs i in
    record t {
      procs = update t.procs i (record p {
        trapframe = 0;
        pagetable = 0;
        sz = 0;
        pid = 0;
        parent = none;
        name = [];
        chan = nowhere;
        killed = false;
        xstate = 0;
        state = unused;
      });
      freed = (p.trapframe, p.pagetable, p.sz) ∷ t.freed;
    }

-- `frame` and `pagetable` are what `kalloc` and `proc_pagetable` return, 0 when they fail.
pub allocproc : (frame pagetable : ℕ) → Table → Option ℕ × Table
unfolding find_proc freeproc
allocproc frame pagetable t = elim (find_proc (λ p. is_unused p.state) nproc 0 t.procs) [
  | none ↦ (none, t)
  | some i ↦
      let fresh = record t {
        procs = update t.procs i (record (t.procs i) { pid = t.nextpid; state = used });
        nextpid = t.nextpid + 1;
      } in
      let framed = set_proc i (record (fresh.procs i) { trapframe = frame }) fresh in
      if frame == 0
      then (none, freeproc i framed)
      else if pagetable == 0
      then (none, freeproc i (set_proc i (record (framed.procs i) { pagetable = 0 }) framed))
      else (some i, set_proc i (record (framed.procs i) { pagetable = pagetable }) framed)
]

-- The fields that `fork` gives the child `np` of the process `p`, number `me`. `filedup` and `idup`
-- return their argument.
pub fork_child : (me : ℕ) → Proc → Proc → Proc
fork_child me p np = record np {
  sz = p.sz;
  ofile = λ fd. if p.ofile fd == 0 then np.ofile fd else p.ofile fd;
  cwd = p.cwd;
  name = take 15 p.name;
  parent = some me;
  state = runnable;
}

-- `copied` tells whether `uvmcopy` succeeds. The result is the child's pid; `none` is -1.
pub fork : (me frame pagetable : ℕ) (copied : Bool) → Table → Option ℕ × Table
unfolding allocproc fork_child
fork me frame pagetable copied t =
    let (np, t1) = allocproc frame pagetable t in
    elim np [
      | none ↦ (none, t1)
      | some i ↦
          if copied
          then (some (t1.procs i).pid, set_proc i (fork_child me (t1.procs me) (t1.procs i)) t1)
          else (none, freeproc i t1)
    ]

-- `pp->parent = initproc; wakeup(initproc)` for each child of process `me`.
pub reparent_loop : (me rounds i : ℕ) → Table → Table
reparent_loop me zero i t = t
reparent_loop me (suc rounds) i t = reparent_loop me rounds (i + 1) (
    if is_parent (t.procs i).parent me
    then wakeup (some me) (at_proc t.initproc)
        (set_proc i (record (t.procs i) { parent = some t.initproc }) t)
    else t)

pub reparent : ℕ → Table → Table
unfolding reparent_loop
reparent me t = reparent_loop me nproc 0 t

abbrev pub parent_chan : Option ℕ → Chan
parent_chan none = nowhere
parent_chan (some i) = at_proc i

-- Until the process is in the scheduler as a zombie.
pub exit : (me status : ℕ) → Table → Run Table
exit me status t =
    if me == t.initproc
    then panic
    else let t1 = set_proc me (record (t.procs me) { ofile = λ fd. 0; cwd = 0 }) t in
      let t2 = reparent me t1 in
      let t3 = wakeup (some me) (parent_chan (t2.procs me).parent) t2 in
      ok (set_proc me (record (t3.procs me) { xstate = status; state = zombie }) t3)

-- How a round of `wait` ends: it returns a pid, or -1 (`none`), or goes to sleep.
pub data WaitTurn : Type 0 where
  returned : Option ℕ → Table → WaitTurn
  asleep : Table → WaitTurn

-- `want` tells whether the caller gives an address for the status, `copied` whether `copyout` to it
-- succeeds.
pub wait : (me : ℕ) (want copied : Bool) → Table → WaitTurn
wait me want copied t =
    let child = find_proc (λ p. is_parent p.parent me && is_zombie p.state) nproc 0 t.procs in
    let kid = find_proc (λ p. is_parent p.parent me) nproc 0 t.procs in
    elim child [
      | some i ↦
          if want && not copied
          then returned none t
          else returned (some (t.procs i).pid) (freeproc i t)
      | none ↦ elim kid [
        | none ↦ returned none t
        | some j ↦
            if (t.procs me).killed
            then returned none t
            else asleep
                (set_proc me (record (t.procs me) { chan = at_proc me; state = sleeping }) t)
      ]
    ]

-- The scheduler takes process `i`, if it is runnable.
pub dispatch : ℕ → Table → Option Table
dispatch i t =
    if is_runnable (t.procs i).state
    then some (set_proc i (record (t.procs i) { state = running }) t)
    else none

pub yield : ℕ → Table → Table
yield i t = set_proc i (record (t.procs i) { state = runnable }) t

-- `sleep` up to `sched()`, and from there on.
unfoldable pub sleep_enter : ℕ → Chan → Table → Table
sleep_enter i chan t = set_proc i (record (t.procs i) { chan = chan; state = sleeping }) t

unfoldable pub sleep_leave : ℕ → Table → Table
sleep_leave i t = set_proc i (record (t.procs i) { chan = nowhere }) t
