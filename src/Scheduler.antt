-- ===== src/Scheduler.antt =====
-- The priority scheduler: `scheduler` of kernel/proc.c, with the locks of the processes, `acquire` and
-- `release` of kernel/spinlock.c as the CPU that runs them sees them.
pub mod Select
mod Tests
use so_final_proyect.Prelude.{
  ℕ, zero, suc, ◌+◌, Bool, true, false, ◌&&◌, Option, none, some, ltb, if◌then◌else◌, update,
  Result, ok, panic, ◌>>=◌,
}
use so_final_proyect.Proc.{Proc, Table, nproc, is, runnable, running}

-- The locks of the processes that this CPU holds.
abbrev pub Locks : Type 0
Locks = ℕ → Bool

-- `acquire` and `release` of `proc[i].lock`, once no other CPU holds it.
abbrev pub acquire : ℕ → Locks → Result Locks
acquire i l = if l i then panic "acquire" else ok (update l i true)

abbrev pub release : ℕ → Locks → Result Locks
release i l = if l i then ok (update l i false) else panic "release"

abbrev pub beats : Proc → Option (ℕ × Proc) → Bool
beats p none = true
beats p (some (j, q)) = ltb q.priority p.priority

abbrev pub release_loser : Option (ℕ × Proc) → Locks → Result Locks
release_loser none l = ok l
release_loser (some (j, q)) l = release j l

-- The selection phase of `scheduler`: `t i` is process `i` as it is while its lock is held.
pub select : ℕ → ℕ → Option (ℕ × Proc) → Locks → Table → Result (Option (ℕ × Proc) × Locks)
select zero i high l t = ok (high, l)
select (suc left) i high l t = do
  held ← acquire i l
  let wins = is (t i).state runnable && beats (t i) high
  freed ← if wins then release_loser high held else release i held
  select left (i + 1) (if wins then some (i, t i) else high) freed t

-- One round of `scheduler` up to `swtch`: the process chosen, if any, with the table and the locks.
pub schedule : Locks → Table → Result (Option ℕ × Table × Locks)
unfolding select
schedule l t = do
  (high, held) ← select nproc 0 none l t
  elim high [
    | none ↦ ok (none, t, held)
    | some (i, p) ↦ ok (some i, update t i (record p { state = running }), held)
  ]
