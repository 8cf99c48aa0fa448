-- ===== src/Pipe.antt =====
-- Pipes: kernel/pipe.c.
-- A call runs under the pipe's lock until it returns or sleeps, so one such stretch is one function
-- here. A call that slept goes on where it was: `pipewrite` at its byte `i`, `piperead` at its start.
pub mod Fifo
pub mod Write
pub mod Read
pub mod Stream
mod Tests
use so_final_proyect.Prelude.{
  ℕ, zero, suc, ◌+◌, ◌-◌, ◌%◌, ◌^◌, Bool, true, false, not, ◌&&◌, ◌||◌, Option, none, some, List,
  [], ◌∷◌, ◌==◌, if◌then◌else◌, set, get_or,
}
use so_final_proyect.Prelude.Int.{ℤ, pos, negsuc, pos_part}

abbrev pub pipesize : ℕ
pipesize = 512

-- `uint` arithmetic wraps.
abbrev pub uint : ℕ → ℕ
uint n = n % 2 ^ 32

-- `struct pipe`; `buf` is its field `data`.
pub record Pipe : Type 0 where
  pub buf : List ℕ
  pub nread : ℕ
  pub nwrite : ℕ
  pub readopen : Bool
  pub writeopen : Bool

-- The addresses `&pi->nread` and `&pi->nwrite`, on which readers and writers sleep.
pub data Chan : Type 0 where
  nread_chan nwrite_chan : Chan

-- How a stretch ends. A call that sleeps has handled `i` bytes.
pub data Outcome : Type 0 where
  returned : ℤ → Outcome
  sleeping : Chan → (i : ℕ) → Outcome

-- `woken` are the channels given to `wakeup`, and `moved` the bytes that were copied in or out.
pub record Run : Type 0 where
  pub pipe : Pipe
  pub outcome : Outcome
  pub woken : List Chan
  pub moved : List ℕ

abbrev pub stop : Pipe → Outcome → List Chan → Run
stop pi o w = record { pipe = pi; outcome = o; woken = w; moved = [] }

abbrev pub moving : ℕ → Run → Run
moving ch r = record r { moved = ch ∷ r.moved }

-- What `pipealloc` makes of a fresh page.
pub pipe_init : List ℕ → Pipe
pipe_init page = record { buf = page; nread = 0; nwrite = 0; readopen = true; writeopen = true }

-- The new pipe, the channel woken, and whether the pipe's page is freed.
pub pipeclose : Pipe → Bool → Pipe × Chan × Bool
pipeclose pi writable =
    let closed =
      if writable then record pi { writeopen = false } else record pi { readopen = false } in
    (
      closed,
      if writable then nread_chan else nwrite_chan,
      not closed.readopen && not closed.writeopen,
    )

-- `pi->data[pi->nwrite++ % PIPESIZE] = ch`
pub put : ℕ → Pipe → Pipe
put ch pi = record pi { buf = set pi.buf (pi.nwrite % pipesize) ch; nwrite = uint (pi.nwrite + 1) }

abbrev pub is_full : Pipe → Bool
is_full pi = pi.nwrite == uint (pi.nread + pipesize)

abbrev pub is_empty : Pipe → Bool
is_empty pi = pi.nread == pi.nwrite

-- `copyin` of one byte, by its address; `killed` as it reads in the round of byte `i`.
module _ (copyin : ℕ → Option ℕ) (killed : ℕ → Bool) where
  -- The loop of `pipewrite` at byte `i`, with `left` bytes to go.
  pub write_from : ℕ → ℕ → ℕ → Pipe → Run
  unfolding put
  write_from zero addr i pi = stop pi (returned (pos i)) (nread_chan ∷ [])
  write_from (suc left) addr i pi =
      let rest : Run = elim (copyin (addr + i)) [
        | none ↦ stop pi (returned (pos i)) (nread_chan ∷ [])
        | some ch ↦ moving ch (write_from left addr (i + 1) (put ch pi))
      ] in
      if not pi.readopen || killed i
      then stop pi (returned (negsuc 0)) []
      else if is_full pi
      then stop pi (sleeping nwrite_chan i) (nread_chan ∷ [])
      else rest

  -- `pipewrite` from byte `i` on: 0 for a new call, or where it slept.
  pub pipewrite : Pipe → ℕ → ℤ → ℕ → Run
  unfolding write_from
  pipewrite pi addr n i = write_from (pos_part n - i) addr i pi

-- `copyout` of one byte succeeds at the address; `killed` as it reads before the pipe is looked at.
module _ (copyout : ℕ → Bool) (killed : Bool) where
  -- The copy loop of `piperead` at byte `i`, with `left` bytes to go.
  pub read_from : ℕ → ℕ → ℕ → Pipe → Run
  read_from zero addr i pi = stop pi (returned (pos i)) (nwrite_chan ∷ [])
  read_from (suc left) addr i pi =
      let ch = get_or pi.buf (pi.nread % pipesize) 0 in
      let rest : Run =
        moving ch (read_from left addr (i + 1) (record pi { nread = uint (pi.nread + 1) })) in
      if is_empty pi
      then stop pi (returned (pos i)) (nwrite_chan ∷ [])
      else if copyout (addr + i)
      then rest
      else stop pi (returned (if i == 0 then negsuc 0 else pos i)) (nwrite_chan ∷ [])

  pub piperead : Pipe → ℕ → ℤ → Run
  unfolding read_from
  piperead pi addr n =
      if is_empty pi && pi.writeopen
      then (if killed then stop pi (returned (negsuc 0)) [] else stop pi (sleeping nread_chan 0) [])
      else read_from (pos_part n) addr 0 pi
