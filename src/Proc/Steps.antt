-- ===== src/Proc/Steps.antt =====
-- The operations of kernel/proc.c as steps on the process table, in any order and on any CPUs.
use so_final_proyect.Prelude.{ℕ, ◌-◌, ◌^◌, ◌<◌, ◌≡◌, Bool, false, Option, some, ok}
use so_final_proyect.Prelude.Int.{ℤ}
use so_final_proyect.Proc.{
  Table, nproc, used, running, wakeup, kkill, setkilled, kexit, kwait, allocproc, kfork_copy,
  kfork_parent, kfork_start, yield, sleep, sleep_end,
}
use so_final_proyect.Scheduler.{Locks, schedule}

pub record System : Type 0 where
  pub table : Table
  pub nextpid : ℕ

-- A running process calls for itself; the last three are the stretches of `kfork` on a new slot.
pub data Step (proc_addr : ℕ → ℕ) (init : ℕ) (s : System) : System → Type 0 where
  schedules :
      (k : ℕ) (u : Table) (l : Locks)
      → schedule (λ _. false) s.table ≡ ok (some k, u, l)
      → Step proc_addr init s (record s { table = u })
  yields :
      (k : ℕ)
      → (s.table k).state ≡ running
      → Step proc_addr init s (record s { table = yield k s.table })
  sleeps :
      (k chan : ℕ)
      → (s.table k).state ≡ running
      → Step proc_addr init s (record s { table = sleep k chan s.table })
  goes_on :
      (k : ℕ)
      → (s.table k).state ≡ running
      → Step proc_addr init s (record s { table = sleep_end k s.table })
  wakes :
      (chan : ℕ) (me : Option ℕ)
      → Step proc_addr init s (record s { table = wakeup chan me s.table })
  kills : (pid : ℕ) → Step proc_addr init s (record s { table = (kkill pid s.table).1 })
  marks : (k : ℕ) → Step proc_addr init s (record s { table = setkilled k s.table })
  exits :
      (k : ℕ) (status : ℤ) (u : Table)
      → k < nproc
      → (s.table k).state ≡ running
      → kexit proc_addr init k status s.table ≡ ok u
      → Step proc_addr init s (record s { table = u })
  waits :
      (k : ℕ) (fails : Bool)
      → Step proc_addr init s (record s { table = (kwait k fails s.table).1 })
  allocates :
      (page pt : ℕ)
      → Step proc_addr init s (record {
        table = (allocproc page pt s.nextpid s.table).table;
        nextpid = (allocproc page pt s.nextpid s.table).nextpid;
      })
  copies :
      (k np : ℕ) (copied : Bool)
      → np < nproc
      → (s.table np).state ≡ used
      → Step proc_addr init s (record s { table = (kfork_copy k np copied s.table).1 })
  adopts :
      (k np : ℕ)
      → k < nproc
      → (s.table k).state ≡ running
      → (s.table np).state ≡ used
      → Step proc_addr init s (record s { table = kfork_parent k np s.table })
  starts :
      (np : ℕ)
      → (s.table np).state ≡ used
      → Step proc_addr init s (record s { table = kfork_start np s.table })

pub data Reach (proc_addr : ℕ → ℕ) (init : ℕ) (s : System) : System → Type 0 where
  here : Reach proc_addr init s s
  next :
      {t u : System} → Reach proc_addr init s t → Step proc_addr init t u → Reach proc_addr init s u

-- No state of the run before the last has a `nextpid` from which the next one overflows.
abbrev pub Unwrapped :
    {proc_addr : ℕ → ℕ} {init : ℕ} {s u : System} → Reach proc_addr init s u → Type 0
Unwrapped here = Unit
Unwrapped (next {t} r st) = (t.nextpid < 2 ^ 31 - 1) × Unwrapped r
