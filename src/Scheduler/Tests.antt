-- ===== src/Scheduler/Tests.antt =====
-- A round of the scheduler on a table with a few processes.
use so_final_proyect.Prelude.{ℕ, ◌≡◌, refl, false, Option, some, ok}
use so_final_proyect.Proc.{Table}
use so_final_proyect.Proc.Examples.{busy}
use so_final_proyect.Scheduler.{Locks, schedule}
use so_final_proyect.Scheduler.Select.{Chosen, schedule_lem}

-- The process of pid 4 has priority 10, and that of pid 3 has 1.
picks_even : (l : Locks) × (u : Table) × (schedule (λ _. false) busy ≡ ok (some 3, u, l))
unfolding schedule
picks_even = (_, _, refl)

schedule_lem_example :
    (high : Option ℕ) × (u : Table) × (l : Locks) × (schedule (λ _. false) busy ≡ ok (high, u, l))
    × Chosen busy high u l
schedule_lem_example = schedule_lem busy
