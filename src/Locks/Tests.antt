-- ===== src/Locks/Tests.antt =====
-- A machine on which CPU 1 takes lock 5.
use so_final_proyect.Prelude.{ℕ, ◌≡◌, ◌≤◌, ◌⊎◌, inl, refl, Bool, true, false, ok, panic, Among}
use so_final_proyect.Locks.{Cpu, initlock, push_off, acquire_begin, release}
use so_final_proyect.Locks.Masks.{pushes, pops, pushes-pops}
use so_final_proyect.Locks.Owners.{System, Step, Reach, here, next}
use so_final_proyect.Locks.Safety.{start, mutual_exclusion, acquire-release_lem}

abbrev enabled : Cpu
enabled = record { noff = 0; intena = false; intr = true }

pushes-pops_example :
    ((m : ℕ) → m ≤ 3 → (d : Cpu) × (pops m (pushes 4 enabled) ≡ ok d) × (d.intr ≡ false))
    × ((d : Cpu) × (pops 4 (pushes 4 enabled) ≡ ok d) × (d.noff ≡ 0) × (d.intr ≡ true))
pushes-pops_example = pushes-pops 3 enabled refl

abbrev all_on : ℕ → Bool
all_on k = true

-- CPU 1 spins on lock 5, and then has it.
abbrev one_taken : (u : System) × Reach (start all_on) u × Among 5 (u.hart 1).held
one_taken =
    (_, next (next here (Step.begins 1 5 _ refl refl)) (Step.takes 1 5 _ refl refl), inl refl)

mutual_exclusion_example : ◌≡◌ {A = ℕ} 1 1 × ((one_taken.0.hart 1).cpu.intr ≡ false)
mutual_exclusion_example = mutual_exclusion all_on one_taken.1 1 1 5 one_taken.2 one_taken.2

acquire-release_run :
    (Among 5 (one_taken.0.hart 1).held
      × (acquire_begin 1 (one_taken.0.lock 5) (one_taken.0.hart 1).cpu ≡ panic "acquire")
      × ((c : Cpu) × (release 1 (one_taken.0.lock 5) (one_taken.0.hart 1).cpu ≡ ok (initlock, c))))
    ⊎ ((Among 5 (one_taken.0.hart 1).held → ⊥)
        × (acquire_begin 1 (one_taken.0.lock 5) (one_taken.0.hart 1).cpu
            ≡ ok (push_off (one_taken.0.hart 1).cpu))
        × (release 1 (one_taken.0.lock 5) (one_taken.0.hart 1).cpu ≡ panic "release"))
acquire-release_run = acquire-release_lem all_on one_taken.1 1 5
