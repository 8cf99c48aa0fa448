-- ===== src/Proc.antt =====
-- The process table: kernel/proc.c, less its scheduler.
-- `proc[]` is a function of the index, read below `nproc`; a process pointer is an index. An operation
-- that holds the locks which it needs is one function. The memory and the files of a process are kept
-- by other parts: what they return is an argument, and what is given back to them is a list.
pub mod States
pub mod Table
pub mod Reparent
pub mod Exit
pub mod Wait
pub mod Inv
pub mod Birth
pub mod Steps
pub mod Calm
pub mod Forks
pub mod Safety
pub mod Boot
pub mod Examples
mod Tests
use so_final_proyect.Prelude.{
  ℕ, zero, suc, ◌+◌, ◌-◌, ◌*◌, ◌%◌, ◌^◌, Bool, true, false, not, ◌&&◌, ◌||◌, Option, none, some,
  List, [], ◌∷◌, ◌++◌, ltb, ◌==◌, if◌then◌else◌, update, sweep, Result, ok, panic, ◌>>=◌,
}
use so_final_proyect.Prelude.Int.{ℤ, pos, negsuc}

-- kernel/param.h
abbrev pub nproc : ℕ
nproc = 64

pub data ProcState : Type 0 where
  unused used sleeping runnable running zombie : ProcState

-- The value of the enumerator.
abbrev pub num : ProcState → ℕ
num unused = 0
num used = 1
num sleeping = 2
num runnable = 3
num running = 4
num zombie = 5

abbrev pub is : ProcState → ProcState → Bool
is a b = num a == num b

-- `struct proc`, less its lock, its saved registers and its files. A null pointer is 0, and a null
-- parent is `none`.
pub record Proc : Type 0 where
  pub state : ProcState
  pub chan : ℕ
  pub killed : ℕ
  pub xstate : ℤ
  pub pid : ℕ
  pub priority : ℕ
  pub parent : Option ℕ
  pub kstack : ℕ
  pub sz : ℕ
  pub pagetable : ℕ
  pub trapframe : ℕ
  pub name : List ℕ

abbrev pub Table : Type 0
Table = ℕ → Proc

-- MAXVA, TRAMPOLINE and KSTACK of kernel/riscv.h and kernel/memlayout.h.
abbrev pub trampoline : ℕ
trampoline = 2 ^ 38 - 4096

abbrev pub kstack_at : ℕ → ℕ
kstack_at i = trampoline - (i + 1) * 2 * 4096

pub procinit : Table → Table
unfolding sweep
procinit t = sweep nproc 0 (λ i p. record p { state = unused; kstack = kstack_at i }) t

-- The pid, and the next value of `nextpid`. Both are the 32 bits of an int, and `nextpid` wraps around.
abbrev pub allocpid : ℕ → ℕ × ℕ
allocpid nextpid = (nextpid, (nextpid + 1) % 2 ^ 32)

-- What is given back: `kfree` of the trapframe page, `proc_freepagetable` of a page table.
pub data Freed : Type 0 where
  trapframe_page : ℕ → Freed
  page_table : (pagetable sz : ℕ) → Freed

pub freeproc : Proc → Proc × List Freed
freeproc p = (
  record p {
    trapframe = 0;
    pagetable = 0;
    sz = 0;
    pid = 0;
    parent = none;
    name = [];
    chan = 0;
    killed = 0;
    xstate = pos 0;
    state = unused;
  },
  (if p.trapframe == 0 then [] else trapframe_page p.trapframe ∷ [])
      ++ (if p.pagetable == 0 then [] else page_table p.pagetable p.sz ∷ []),
)

-- The scan of `allocproc` for an UNUSED slot.
pub find_unused : ℕ → ℕ → Table → Option ℕ
find_unused zero i t = none
find_unused (suc left) i t =
    let rest = find_unused left (i + 1) t in if is (t i).state unused then some i else rest

abbrev pub priority_of : ℕ → ℕ
priority_of pid = if pid % 2 == 0 then 10 else 1

pub record Alloc : Type 0 where
  pub found : Option ℕ
  pub table : Table
  pub nextpid : ℕ
  pub freed : List Freed

-- `freeproc` of the slot, and the result 0.
pub fail_alloc : ℕ → ℕ → Proc → Table → Alloc
fail_alloc i nextpid p t = record {
  found = none;
  table = update t i (freeproc p).0;
  nextpid = nextpid;
  freed = (freeproc p).1;
}

-- `allocproc` from `found` on, at slot `i`: `page` is what `kalloc` returns, `pt` what
-- `proc_pagetable` returns.
pub init_slot : ℕ → ℕ → ℕ → ℕ → Table → Alloc
init_slot page pt i nextpid t =
    let (new_pid, next) = allocpid nextpid in
    let p = record (t i) { pid = new_pid; state = used; priority = priority_of new_pid } in
    let with_page = record p { trapframe = page } in
    let with_table = record with_page { pagetable = pt } in
    if page == 0
    then fail_alloc i next with_page t
    else if pt == 0
    then fail_alloc i next with_table t
    else record { found = some i; table = update t i with_table; nextpid = next; freed = [] }

pub allocproc : ℕ → ℕ → ℕ → Table → Alloc
allocproc page pt nextpid t = elim (find_unused nproc 0 t) [
  | none ↦ record { found = none; table = t; nextpid = nextpid; freed = [] }
  | some i ↦ init_slot page pt i nextpid t
]

-- `userinit`: the slot of `initproc`, the table and `nextpid`. `none` is the null pointer that it does not
-- check for.
abbrev pub start_init : Option ℕ → Alloc → Option (ℕ × Table × ℕ)
start_init none a = none
start_init (some p) a =
    some (p, update a.table p (record (a.table p) { state = runnable }), a.nextpid)

pub userinit : ℕ → ℕ → ℕ → Table → Option (ℕ × Table × ℕ)
userinit page pt nextpid t =
    start_init (allocproc page pt nextpid t).found (allocproc page pt nextpid t)

-- `wakeup` for one process.
abbrev pub wake : ℕ → Proc → Proc
wake chan p = if is p.state sleeping && p.chan == chan then record p { state = runnable } else p

abbrev pub is_me : Option ℕ → ℕ → Bool
is_me none i = false
is_me (some me) i = i == me

-- `me` is `myproc()`.
pub wakeup : ℕ → Option ℕ → Table → Table
unfolding sweep
wakeup chan me t = sweep nproc 0 (λ i p. if is_me me i then p else wake chan p) t

abbrev pub kill_proc : Proc → Proc
kill_proc p =
    if is p.state sleeping
    then record p { killed = 1; state = runnable }
    else record p { killed = 1 }

-- The loop of `kkill`: 0 and the new table, or -1.
pub kkill_from : ℕ → ℕ → ℕ → Table → ℤ × Table
kkill_from zero i pid t = (negsuc 0, t)
kkill_from (suc left) i pid t =
    let rest = kkill_from left (i + 1) pid t in
    if (t i).pid == pid then (pos 0, update t i (kill_proc (t i))) else rest

pub kkill : ℕ → Table → ℤ × Table
unfolding kkill_from
kkill pid t = kkill_from nproc 0 pid t

abbrev pub setkilled : ℕ → Table → Table
setkilled i t = update t i (record (t i) { killed = 1 })

abbrev pub is_child : Option ℕ → ℕ → Bool
is_child none p = false
is_child (some q) p = q == p

-- `proc_addr i` is the address of `proc[i]`, on which its `kwait` sleeps; `init` is `initproc`.
module _ (proc_addr : ℕ → ℕ) (init : ℕ) where
  -- The loop of `reparent`.
  pub reparent_from : ℕ → ℕ → ℕ → Table → Table
  unfolding wakeup
  reparent_from zero i p t = t
  reparent_from (suc left) i p t = reparent_from left (i + 1) p (
      if is_child (t i).parent p
      then wakeup (proc_addr init) (some p) (update t i (record (t i) { parent = some init }))
      else t)

  pub reparent : ℕ → Table → Table
  unfolding reparent_from
  reparent p t = reparent_from nproc 0 p t

  -- The parent's address, which a null parent leaves 0.
  abbrev pub parent_chan : Option ℕ → ℕ
  parent_chan none = 0
  parent_chan (some q) = proc_addr q

  -- `kexit` of process `p`, less the closing of its files.
  pub kexit : ℕ → ℤ → Table → Result Table
  kexit p status t =
      if p == init
      then panic "init exiting"
      else let given = reparent p t in
        let woken = wakeup (parent_chan (given p).parent) (some p) given in
        ok (update woken p (record (woken p) { xstate = status; state = zombie }))

-- `kfork` after `allocproc` found slot `np`, in its three stretches: with the parent's memory copied,
-- or not; as a child of `p`, under `wait_lock`; and ready to run.
pub kfork_copy : ℕ → ℕ → Bool → Table → Option ℕ × Table × List Freed
kfork_copy p np copied t =
    if copied
    then (some (t np).pid, update t np (record (t np) { sz = (t p).sz; name = (t p).name }), [])
    else (none, update t np (freeproc (t np)).0, (freeproc (t np)).1)

abbrev pub kfork_parent : ℕ → ℕ → Table → Table
kfork_parent p np t = update t np (record (t np) { parent = some p })

abbrev pub kfork_start : ℕ → Table → Table
kfork_start np t = update t np (record (t np) { state = runnable })

-- `yield` before it calls `sched`, and `sleep` before and after it does.
abbrev pub yield : ℕ → Table → Table
yield p t = update t p (record (t p) { state = runnable })

abbrev pub sleep : ℕ → ℕ → Table → Table
sleep p chan t = update t p (record (t p) { chan = chan; state = sleeping })

abbrev pub sleep_end : ℕ → Table → Table
sleep_end p t = update t p (record (t p) { chan = 0 })

-- What a scan of `kwait` finds.
pub data Scan : Type 0 where
  reap : ℕ → Scan
  kids : Bool → Scan

-- The scan of `kwait` for an exited child of `p`.
pub kwait_scan : ℕ → ℕ → ℕ → Bool → Table → Scan
kwait_scan zero i p havekids t = kids havekids
kwait_scan (suc left) i p havekids t =
    let rest = kwait_scan left (i + 1) p (havekids || is_child (t i).parent p) t in
    if is_child (t i).parent p && is (t i).state zombie then reap i else rest

-- How a round of `kwait` ends.
pub data Waited : Type 0 where
  returned : ℤ → Waited
  asleep : Waited

-- One round of `kwait` by `p`. `fails` is whether `addr` is given and `copyout` to it fails; the exit
-- status that is copied out is a field of the process found.
pub kwait : ℕ → Bool → Table → Waited × Table × List Freed
kwait p fails t = elim (kwait_scan nproc 0 p false t) [
  | reap i ↦
      if fails
      then (returned (negsuc 0), t, [])
      else (returned (pos (t i).pid), update t i (freeproc (t i)).0, (freeproc (t i)).1)
  | kids havekids ↦
      if not havekids || not ((t p).killed == 0)
      then (returned (negsuc 0), t, [])
      else (asleep, t, [])
]
