-- ===== src/Locks.antt =====
-- Spin locks and the nesting of interrupt masks: kernel/spinlock.c, for the CPUs of one machine.
-- The atomic swap and the store of `lk->cpu` that follows it are one step, since between them no
-- other CPU can find itself in `lk->cpu`; so are the stores of `release`, which the owner alone makes.
pub mod Masks
pub mod Owners
pub mod Sound
pub mod Safety
mod Tests
use so_final_proyect.Prelude.{
  ℕ, ◌+◌, ◌-◌, Bool, true, false, ◌&&◌, Option, none, some, ltb, ◌==◌, if◌then◌else◌, Result, ok,
  panic, panic_if, ◌>>◌, ◌>>=◌,
}

-- `struct cpu` of kernel/proc.h, less its process and registers; `intr` is what `intr_get()` reads.
pub record Cpu : Type 0 where
  pub noff : ℕ
  pub intena : Bool
  pub intr : Bool

-- `struct spinlock`, less its name; a CPU is its number.
pub record Spinlock : Type 0 where
  pub locked : Bool
  pub cpu : Option ℕ

abbrev pub initlock : Spinlock
initlock = record { locked = false; cpu = none }

abbrev pub push_off : Cpu → Cpu
push_off c = record c {
  intr = false;
  intena = (if c.noff == 0 then c.intr else c.intena);
  noff = c.noff + 1;
}

-- The end of `pop_off`, with `noff` decremented.
abbrev pub unmask : Cpu → Cpu
unmask c = if c.noff == 0 && c.intena then record c { intr = true } else c

abbrev pub pop_off : Cpu → Result Cpu
pop_off c =
    if c.intr
    then panic "pop_off - interruptible"
    else if ltb c.noff 1
    then panic "pop_off"
    else ok (unmask (record c { noff = c.noff - 1 }))

abbrev pub is_cpu : ℕ → Option ℕ → Bool
is_cpu me none = false
is_cpu me (some k) = k == me

abbrev pub holding : ℕ → Spinlock → Bool
holding me lk = lk.locked && is_cpu me lk.cpu

-- `acquire` up to its loop.
abbrev pub acquire_begin : ℕ → Spinlock → Cpu → Result Cpu
acquire_begin me lk c = if holding me lk then panic "acquire" else ok (push_off c)

-- A round of the loop of `acquire`: `none` if the lock was taken, or else the lock as it leaves it.
abbrev pub acquire_swap : ℕ → Spinlock → Option Spinlock
acquire_swap me lk = if lk.locked then none else some (record { locked = true; cpu = some me })

abbrev pub release : ℕ → Spinlock → Cpu → Result (Spinlock × Cpu)
release me lk c =
    if holding me lk
    then (pop_off c >>= λ d. ok (record { locked = false; cpu = none }, d))
    else panic "release"
