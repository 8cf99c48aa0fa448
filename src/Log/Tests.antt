-- ===== src/Log/Tests.antt =====
-- A transaction of two blocks, and an operation that writes one block twice.
use so_final_proyect.Prelude.{
  ℕ, ◌≤◌, ◌≡◌, ◌≢◌, ◌⊎◌, ◌↔◌, refl, arith, Bool, true, false, List, [], ◌∷◌, ◌++◌, All, Among,
  Distinct, length, ok,
}
use so_final_proyect.Log.{Data, Log, logblocks, commit, log_write, end_op}
use so_final_proyect.Log.Disks.{Disk, run, crash, recovered, IsHome}
use so_final_proyect.Log.Phases.{IsOld, IsNew}
use so_final_proyect.Log.Restart.{Restarted}
use so_final_proyect.Log.Crash.{modified, commit_atomic, commit_lem}
use so_final_proyect.Log.Space.{System, Step, Reach, here, next, start, log_write_safe, end_op_safe}

-- The log starts at block 2.
abbrev disk : Disk
disk = record { head = []; block = λ a. [] }

abbrev new_data : ℕ → Data
new_data a = a ∷ []

abbrev two_blocks : Log
two_blocks = record { outstanding = 0; committing = true; lh = 50 ∷ 60 ∷ [] }

two_blocks-IsHome : All (IsHome 2) two_blocks.lh
two_blocks-IsHome = (λ k lt e. omega (arith, lt, e), (λ k lt e. omega (arith, lt, e), tt))

commit_atomic_example :
    ((x : Disk)
      → Restarted 2 (crash 3 (commit 2 two_blocks (modified new_data)).1.writes disk) x
      → IsOld 2 new_data two_blocks.lh disk (recovered 2 x))
    ⊎ ((x : Disk)
        → Restarted 2 (crash 3 (commit 2 two_blocks (modified new_data)).1.writes disk) x
        → IsNew 2 new_data two_blocks.lh disk (recovered 2 x))
commit_atomic_example =
    commit_atomic 2 new_data two_blocks disk two_blocks-IsHome (omega arith) refl 3

commit_finishes :
    IsNew 2 new_data two_blocks.lh disk
      (run (commit 2 two_blocks (modified new_data)).1.writes disk)
    × ((run (commit 2 two_blocks (modified new_data)).1.writes disk).head ≡ [])
    × ((commit 2 two_blocks (modified new_data)).0.lh ≡ [])
commit_finishes =
    commit_lem 2 new_data two_blocks disk two_blocks-IsHome (omega arith) refl (omega arith)

abbrev one_op : System
one_op = record { log = record { outstanding = 1; committing = false; lh = [] }; budgets = 10 ∷ [] }

abbrev op_began : Reach start one_op
op_began = next here (Step.begins one_op.log refl)

log_write_safe_example :
    Distinct one_op.log.lh
    × (lh : List ℕ) × (log_write 50 one_op.log ≡ ok (record one_op.log { lh = lh }))
    × ((Among 50 one_op.log.lh × (lh ≡ one_op.log.lh))
        ⊎ (All (λ x. x ≢ 50) one_op.log.lh × (lh ≡ one_op.log.lh ++ (50 ∷ []))))
    × Distinct lh
    × (length lh ≤ logblocks)
log_write_safe_example = log_write_safe op_began [] 9 [] 50 refl

end_op_safe_example :
    (one_op.log.outstanding ≡ 1)
    × ((last : Bool) × (end_op one_op.log
          ≡ ok (last, record one_op.log { outstanding = 0; committing = last }))
        × ((last ≡ true) ↔ (◌≡◌ {A = List ℕ} [] [])))
end_op_safe_example = end_op_safe op_began [] 10 [] refl
