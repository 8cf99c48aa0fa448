-- ===== src/Log.antt =====
-- The write-ahead log of the file system: kernel/log.c.
-- `cache` is what `bread` returns for a block: the buffer, if the block is in the buffer cache, and
-- or else the block of the disk. The header block at `log.start` is the list of its first `n` entries, apart
-- from the other blocks. Writes of the disk are listed in the order in which `bwrite` makes them.
pub mod Disks
pub mod Traces
pub mod Effects
pub mod Phases
pub mod Restart
pub mod Crash
pub mod Absorb
pub mod Space
mod Tests
use so_final_proyect.Prelude.{
  ℕ, zero, suc, ◌+◌, ◌-◌, ◌*◌, Bool, true, false, List, [], ◌∷◌, ◌++◌, ltb, leb, ◌==◌,
  if◌then◌else◌, length, set, update, Result, ok, panic,
}

-- MAXOPBLOCKS and LOGBLOCKS of kernel/param.h.
abbrev pub maxopblocks : ℕ
maxopblocks = 10

abbrev pub logblocks : ℕ
logblocks = maxopblocks * 3

-- The bytes of a block.
abbrev pub Data : Type 0
Data = List ℕ

pub data Write : Type 0 where
  write_block : ℕ → Data → Write
  write_header : List ℕ → Write

pub record Buffers : Type 0 where
  pub cache : ℕ → Data
  pub writes : List Write

-- `struct log`, less its lock, its place and its device; `lh` has the `lh.n` blocks in use of its array.
pub record Log : Type 0 where
  pub outstanding : ℕ
  pub committing : Bool
  pub lh : List ℕ

abbrev pub bwrite : ℕ → Buffers → Buffers
bwrite b s = record s { writes = s.writes ++ (write_block b (s.cache b) ∷ []) }

-- `memmove` of a whole block from one buffer to another.
abbrev pub copy_block : ℕ → ℕ → Buffers → Buffers
copy_block to from s = record s { cache = update s.cache to (s.cache from) }

abbrev pub write_head : List ℕ → Buffers → Buffers
write_head lh s = record s { writes = s.writes ++ (write_header lh ∷ []) }

-- `start` is `log.start`.
module _ (start : ℕ) where
  abbrev pub log_block : ℕ → ℕ
  log_block tail = start + tail + 1

  -- The loop of `write_log`, over the blocks that are left.
  pub write_log : ℕ → List ℕ → Buffers → Buffers
  write_log tail [] s = s
  write_log tail (b ∷ bs) s =
      write_log (tail + 1) bs (bwrite (log_block tail) (copy_block (log_block tail) b s))

  -- The loop of `install_trans`.
  pub install_trans : ℕ → List ℕ → Buffers → Buffers
  install_trans tail [] s = s
  install_trans tail (b ∷ bs) s =
      install_trans (tail + 1) bs (bwrite b (copy_block b (log_block tail) s))

  pub commit : Log → Buffers → Log × Buffers
  commit l s =
      if ltb 0 (length l.lh)
      then (
        record l { lh = [] },
        write_head [] (install_trans 0 l.lh (write_head l.lh (write_log 0 l.lh s))),
      )
      else (l, s)

  -- On a machine that has just started, where `bread` reads the disk: its header and its blocks.
  pub recover_from_log : List ℕ → (ℕ → Data) → Buffers
  recover_from_log head block =
      write_head [] (install_trans 0 head (record { cache = block; writes = [] }))

-- What a call of `begin_op` does when it runs: it waits, or the operation has begun.
pub data Began : Type 0 where
  waits : Began
  begun : Log → Began

abbrev pub begin_op : Log → Began
begin_op l =
    if l.committing
    then waits
    else if ltb logblocks (length l.lh + (l.outstanding + 1) * maxopblocks)
    then waits
    else begun (record l { outstanding = l.outstanding + 1 })

-- The first part of `end_op`, under the lock, and whether it goes on to `commit`; an operation that
-- ends has begun, and `outstanding` is positive.
abbrev pub end_op : Log → Result (Bool × Log)
end_op l =
    if l.committing
    then panic "log.committing"
    else if l.outstanding - 1 == 0
    then ok (true, record l { outstanding = l.outstanding - 1; committing = true })
    else ok (false, record l { outstanding = l.outstanding - 1 })

-- The last part of `end_op`, after `commit`.
abbrev pub end_commit : Log → Log
end_commit l = record l { committing = false }

-- The loop of `log_write`: the index of the block, or `lh.n`.
pub index_of : ℕ → List ℕ → ℕ
index_of b [] = 0
index_of b (x ∷ xs) = let rest = index_of b xs in if x == b then 0 else rest + 1

-- `lh.block[i] = b`, for an `i` that may be `lh.n`, and then `lh.n++`.
abbrev pub store : ℕ → ℕ → List ℕ → List ℕ
store i b lh = if i == length lh then lh ++ (b ∷ []) else set lh i b

pub log_write : ℕ → Log → Result Log
log_write b l =
    if leb logblocks (length l.lh)
    then panic "too big a transaction"
    else if ltb l.outstanding 1
    then panic "log_write outside of trans"
    else ok (record l { lh = store (index_of b l.lh) b l.lh })
