-- ===== src/Proc/Tests.antt =====
-- Runs of kernel/proc.c on a table with a few processes.
use so_final_proyect.Prelude.{
  ℕ, zero, suc, ◌<◌, ◌≡◌, ◌≢◌, ◌⊎◌, refl, arith, false, some, none, ok, panic, Result, update,
}
use so_final_proyect.Prelude.Int.{pos, negsuc}
use so_final_proyect.Proc.{
  Proc, runnable, Table, nproc, wakeup, wake, kkill, kexit, kwait, allocproc, userinit, procinit,
}
use so_final_proyect.Proc.Examples.{empty, proc_of, address, busy}
use so_final_proyect.Proc.Table.{FirstPid, Killed, kkill_lem, wakeup_lem}
use so_final_proyect.Proc.Exit.{kexit_wakes_parent}
use so_final_proyect.Proc.Wait.{WaitEnds, kwait_lem}
use so_final_proyect.Proc.Birth.{AllocEnds, allocproc_lem}
use so_final_proyect.Proc.Inv.{Good, Inv, priority_of_lem}
use so_final_proyect.Proc.Steps.{System, Step, here, next}
use so_final_proyect.Proc.Safety.{Reach-Inv}
use so_final_proyect.Proc.Boot.{boot_lem, first-Inv}

wakeup_run : wakeup (address 0) (some 1) busy 0 ≡ wake (address 0) (busy 0)
wakeup_run = wakeup_lem (address 0) (some 1) busy 0

kkill_lem_example :
    (((j : ℕ) → j < nproc → (busy j).pid ≢ 4) × (kkill 4 busy ≡ (negsuc 0, busy)))
    ⊎ ((k : ℕ) × (q : Proc) × FirstPid busy 4 0 k
        × Killed (busy k) q
        × (kkill 4 busy ≡ (pos 0, update busy k q)))
kkill_lem_example = kkill_lem 4 busy

kwait_lem_example : WaitEnds 1 false busy (kwait 1 false busy)
kwait_lem_example = kwait_lem 1 false busy

empty-Good : (n : ℕ) → Good n empty
empty-Good n = record {
  clean = λ _. (refl, refl, refl, refl);
  pid_range = λ u. absurd (u refl);
  prio = λ u. absurd (u refl);
}

allocproc_lem_example : AllocEnds 4096 0 6 (λ _. empty) (allocproc 4096 0 6 (λ _. empty))
allocproc_lem_example = allocproc_lem 4096 0 6 (λ _. empty) (λ j lt. empty-Good 6)

boot_lem_example :
    (k : ℕ) × (u : Table) × (userinit 4096 8192 1 (procinit (λ _. empty)) ≡ some (k, u, 2))
    × Inv k 2 u
    × ((u k).pid ≡ 1)
boot_lem_example =
    boot_lem 4096 8192 (λ _. empty) (λ e. omega arith) (λ e. omega arith)
      (λ j lt. record { pid = refl; parent = refl; trapframe = refl; pagetable = refl })

abbrev alone : Table
alone zero = proc_of runnable 1 none
alone _ = empty

alone-Inv : Inv 0 2 alone
alone-Inv =
    first-Inv 0 (λ _. empty) alone (omega arith) (λ j lt. empty-Good 1) (λ j lt. refl) refl
      (record {
        clean = λ z. absurd (cc z);
        pid_range = λ z. (omega arith, omega arith);
        prio = λ z. priority_of_lem 1;
      })
      refl off
  where
    off : (j : ℕ) → 0 ≢ j → alone j ≡ empty
    off zero ne = absurd (ne refl)
    off (suc j) ne = refl

abbrev one : System
one = record { table = alone; nextpid = 2 }

-- Another process is allocated, and everybody on channel 5 woken.
abbrev two : System
two = record {
  table = wakeup 5 none (allocproc 12288 16384 2 alone).table;
  nextpid = (allocproc 12288 16384 2 alone).nextpid;
}

next_is_3 : (allocproc 12288 16384 2 alone).nextpid ≡ 3
unfolding allocproc so_final_proyect.Proc.find_unused so_final_proyect.Proc.init_slot
next_is_3 = refl

Reach-Inv_example : Inv 0 two.nextpid two.table
Reach-Inv_example =
    Reach-Inv {proc_addr = address} {s = one} {u = two}
      (next (next here (Step.allocates 12288 16384)) (Step.wakes 5 none))
      (omega (arith, next_is_3), (omega arith, tt)) alone-Inv

abbrev result_of : Result Table → Table
result_of (ok u) = u
result_of (panic _) = busy

abbrev after_exit : Table
after_exit = result_of (kexit address 0 1 (pos 7) busy)

exit_runs : kexit address 0 1 (pos 7) busy ≡ ok after_exit
unfolding kexit
exit_runs = refl

kexit_wakes_parent_example : (after_exit 0).state ≡ runnable
kexit_wakes_parent_example =
    kexit_wakes_parent address 0 1 0 (pos 7) busy after_exit (omega arith) (omega arith)
      (omega arith) refl refl refl exit_runs
