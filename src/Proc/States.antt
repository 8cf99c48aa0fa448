-- ===== src/Proc/States.antt =====
-- The test of a state, as `kernel/proc.c` writes it, and equality of states.
use so_final_proyect.Prelude.{◌≡◌, true, arith}
use so_final_proyect.Proc.{ProcState, is}

pub is-eq : (a b : ProcState) → is a b ≡ true → a ≡ b
is-eq a b h = ground arith

pub is_of_eq : {a b : ProcState} → a ≡ b → is a b ≡ true
is_of_eq {a} {b} e = rw e (is_self b)
  where
    is_self : (c : ProcState) → is c c ≡ true
    is_self c = ground arith
