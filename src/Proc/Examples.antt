-- ===== src/Proc/Examples.antt =====
-- A table with a few processes, for the tests.
use so_final_proyect.Prelude.{ℕ, zero, suc, ◌+◌, ◌*◌, [], Option, some, none}
use so_final_proyect.Prelude.Int.{pos}
use so_final_proyect.Proc.{
  Proc, ProcState, unused, sleeping, runnable, running, zombie, Table, priority_of,
}

abbrev pub empty : Proc
empty = record {
  state = unused;
  chan = 0;
  killed = 0;
  xstate = pos 0;
  pid = 0;
  priority = 0;
  parent = none;
  kstack = 0;
  sz = 0;
  pagetable = 0;
  trapframe = 0;
  name = [];
}

abbrev pub proc_of : ProcState → ℕ → Option ℕ → Proc
proc_of st pid parent = record empty {
  state = st;
  pid = pid;
  priority = priority_of pid;
  parent = parent;
  pagetable = 4096;
  trapframe = 8192;
}

abbrev pub address : ℕ → ℕ
address i = 1000 + i * 360

-- init sleeps in `kwait`; process 2 runs; 3 and 4 are RUNNABLE; 5 is a zombie child of process 2.
abbrev pub busy : Table
busy zero = record (proc_of sleeping 1 none) { chan = address 0 }
busy (suc zero) = proc_of running 2 (some 0)
busy (suc (suc zero)) = proc_of runnable 3 (some 1)
busy (suc (suc (suc zero))) = proc_of runnable 4 (some 1)
busy (suc (suc (suc (suc zero)))) = proc_of zombie 5 (some 1)
busy _ = empty
