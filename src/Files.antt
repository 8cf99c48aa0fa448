-- ===== src/Files.antt =====
-- The table of open files: kernel/file.c, and `pipealloc` of kernel/pipe.c, which takes two of them.
-- A file pointer is an index of `ftable.file`; each operation is one step under `ftable.lock`.
pub mod Slots
pub mod Refs
pub mod PipeEnds
mod Tests
use so_final_proyect.Prelude.{
  ℕ, zero, suc, ◌+◌, ◌-◌, Bool, true, false, Option, none, some, List, [], ◌∷◌, ◌++◌, ltb, ◌==◌,
  if◌then◌else◌, update, Result, ok, panic, ◌>>=◌,
}

-- NFILE of kernel/param.h.
abbrev pub nfile : ℕ
nfile = 100

pub data FileType : Type 0 where
  fd_none fd_pipe fd_inode fd_device : FileType

-- `struct file`. A pointer is its address.
pub record File : Type 0 where
  pub type : FileType
  pub ref : ℕ
  pub readable : Bool
  pub writable : Bool
  pub pipe : ℕ
  pub ip : ℕ
  pub off : ℕ
  pub major : ℕ

abbrev pub Ftable : Type 0
Ftable = ℕ → File

-- The loop of `filealloc`.
pub filealloc_from : ℕ → ℕ → Ftable → Option ℕ
filealloc_from zero i t = none
filealloc_from (suc left) i t =
    let rest = filealloc_from left (i + 1) t in if (t i).ref == 0 then some i else rest

abbrev pub take_slot : Option ℕ → Ftable → Option ℕ × Ftable
take_slot none t = (none, t)
take_slot (some i) t = (some i, update t i (record (t i) { ref = 1 }))

pub filealloc : Ftable → Option ℕ × Ftable
filealloc t = take_slot (filealloc_from nfile 0 t) t

pub filedup : ℕ → Ftable → Result Ftable
filedup f t =
    if ltb (t f).ref 1
    then panic "filedup"
    else ok (update t f (record (t f) { ref = (t f).ref + 1 }))

-- What is left to do for a file that is closed: `pipeclose`, `iput`, or nothing.
pub data Closing : Type 0 where
  nothing : Closing
  close_pipe : (pipe : ℕ) (writable : Bool) → Closing
  put_inode : (ip : ℕ) → Closing

abbrev pub closing : File → Closing
closing ff = elim ff.type [
  | fd_none ↦ nothing
  | fd_pipe ↦ close_pipe ff.pipe ff.writable
  | fd_inode ↦ put_inode ff.ip
  | fd_device ↦ put_inode ff.ip
]

pub fileclose : ℕ → Ftable → Result (Closing × Ftable)
fileclose f t =
    if ltb (t f).ref 1
    then panic "fileclose"
    else if ltb 0 ((t f).ref - 1)
    then ok (nothing, update t f (record (t f) { ref = (t f).ref - 1 }))
    else ok (closing (t f), update t f (record (t f) { ref = 0; type = fd_none }))

-- `*f0` and `*f1` as `pipealloc` sets them up for the pipe at `pi`.
abbrev pub read_end : ℕ → File → File
read_end pi f = record f { type = fd_pipe; readable = true; writable = false; pipe = pi }

abbrev pub write_end : ℕ → File → File
write_end pi f = record f { type = fd_pipe; readable = false; writable = true; pipe = pi }

-- At label `bad`, a file that was allocated is closed.
abbrev pub close_if : Option ℕ → Ftable → Result (List Closing × Ftable)
close_if none t = ok ([], t)
close_if (some f) t = do (c, u) ← fileclose f t; ok (c ∷ [], u)

abbrev pub bad : Option ℕ → Option ℕ → Ftable → Result (Option (ℕ × ℕ) × List Closing × Ftable)
bad f0 f1 t = do (c, u) ← close_if f0 t; (d, w) ← close_if f1 u; ok (none, c ++ d, w)

-- `pipealloc` once its files are allocated; `page` is what `kalloc` returns.
abbrev pub connect :
    ℕ → Option ℕ → Option ℕ → Ftable → Result (Option (ℕ × ℕ) × List Closing × Ftable)
connect page none f1 t = bad none none t
connect page (some f0) none t = bad (some f0) none t
connect page (some f0) (some f1) t =
    if page == 0
    then bad (some f0) (some f1) t
    else let u = update t f0 (read_end page (t f0)) in
      ok (some (f0, f1), [], update u f1 (write_end page (u f1)))

-- The second `filealloc` is called only if the first one succeeds.
abbrev pub second : Option ℕ → Ftable → Option ℕ × Ftable
second none t = (none, t)
second (some f0) t = filealloc t

pub pipealloc : ℕ → Ftable → Result (Option (ℕ × ℕ) × List Closing × Ftable)
pipealloc page t =
    let (f0, t1) = filealloc t in let (f1, t2) = second f0 t1 in connect page f0 f1 t2
