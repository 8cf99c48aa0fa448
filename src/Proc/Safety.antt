-- ===== src/Proc/Safety.antt =====
-- Every operation of kernel/proc.c keeps the invariant of the process table.
use so_final_proyect.Prelude.{
  ℕ, ◌-◌, ◌^◌, ◌<◌, ◌≡◌, ◌≢◌, ◌⊎◌, inl, inr, refl, subst, ap, sym, ◌∙◌, List, arith, true, Bool,
  if◌then◌else◌, Option, some, none, ℕ_discrete, ok, ok_inj,
}
use so_final_proyect.Prelude.Int.{ℤ}
use so_final_proyect.Proc.{
  Proc, Table, nproc, unused, running, kexit, kwait, Waited, Freed, is_child,
}
use so_final_proyect.Proc.Reparent.{adopt}
use so_final_proyect.Proc.Exit.{Exited, kexit_lem, Exited-childless, Woken-keeps}
use so_final_proyect.Proc.Wait.{WaitEnds, kwait_lem, reaped, unstored, refused, sleeps}
use so_final_proyect.Proc.Inv.{is_live, Good, Inv, Keeps, Keeps-Inv}
use so_final_proyect.Proc.Calm.{
  Woken-Calm, schedule-Inv, running-Inv, wakeup-Inv, setkilled-Inv, kkill-Inv, kfork_start-Inv,
}
use so_final_proyect.Proc.Forks.{free_slot-Inv, kfork_copy-Inv, kfork_parent-Inv, allocproc-Inv}
use so_final_proyect.Proc.Steps.{System, Step, Reach, Unwrapped, here, next}

given-cases :
    (init p q : ℕ) (o : Option ℕ)
    → (if is_child o p then some init else o) ≡ some q
    → (q ≡ init) ⊎ (o ≡ some q)
given-cases init p q none e = absurd (cc e)
given-cases init p q (some r) e = ground arith

module _ {init n : ℕ} {t : Table} (v : Inv init n t) where
  Exited-Inv :
      {p : ℕ} {status : ℤ} {u : Table}
      → p < nproc
      → p ≢ init
      → (t p).state ≡ running
      → Exited init p status t u
      → Inv init n u
  Exited-Inv {p} {status} {u} lt ne r x =
      Keeps-Inv v keeps parents (live init (λ e. ne (sym e)) v.init_live.0 v.init_live.1)
    where
      live : (q : ℕ) → q ≢ p → q < nproc → is_live (t q).state ≡ true → is_live (u q).state ≡ true
      live q off ql l = (Woken-Calm (x.others q ql off)).live l

      keeps : (j : ℕ) → j < nproc → Keeps (t j) (u j)
      keeps j jl = elim (ℕ_discrete p j) [
        | yes e ↦
            subst (λ i. Keeps (t i) (u i)) e
              (record {
                pid = x.pid;
                priority = x.kept.0;
                trapframe = x.kept.1;
                pagetable = x.kept.2;
                freed = λ z. absurd (cc (sym x.state ∙ z));
                taken = λ z. absurd (cc (sym r ∙ z));
              })
        | no off ↦
            let k = (Woken-Calm (x.others j jl (λ e. off (sym e)))).keeps in
            record {
              pid = k.pid;
              priority = k.priority;
              trapframe = k.trapframe;
              pagetable = k.pagetable;
              freed = λ z. ((k.freed z).0, (k.freed z).1 ∙ orphan (v.good j jl) (k.freed z).0);
              taken = k.taken;
            }
      ]
        where
          orphan : {q : Proc} → Good n q → q.state ≡ unused → (adopt init p q).parent ≡ q.parent
          orphan {q} g z =
              ap (λ (o : Option ℕ). if is_child o p then some init else o) (g.clean z).1
              ∙ sym (g.clean z).1

      parents :
          (j q : ℕ) → j < nproc → (u j).parent ≡ some q → (q < nproc) × (is_live (u q).state ≡ true)
      parents j q jl e = elim (given-cases init p q (t j).parent (adopted j jl ∙ e)) [
        | inl i ↦
            subst (λ k. (k < nproc) × (is_live (u k).state ≡ true)) (sym i)
              (v.init_live.0, live init (λ d. ne (sym d)) v.init_live.0 v.init_live.1)
        | inr o ↦ let (ql, l) = v.parents j q jl o in (ql, live q off ql l)
      ]
        where
          adopted : (i : ℕ) → i < nproc → (adopt init p (t i)).parent ≡ (u i).parent
          adopted i il = elim (ℕ_discrete p i) [
            | yes d ↦ subst (λ k. (adopt init p (t k)).parent ≡ (u k).parent) d (sym x.own_parent)
            | no d ↦ sym (Woken-keeps (x.others i il (λ c. d (sym c)))).1
          ]

          off : q ≢ p
          off d = Exited-childless ne x j jl (e ∙ ap some d)

  pub kexit-Inv :
      (proc_addr : ℕ → ℕ) (p : ℕ) (status : ℤ) (u : Table)
      → p < nproc
      → (t p).state ≡ running
      → kexit proc_addr init p status t ≡ ok u
      → Inv init n u
  kexit-Inv proc_addr p status u lt r e = elim (kexit_lem proc_addr init p status t lt) [
    | inl (_, f) ↦ absurd (cc (sym f ∙ e))
    | inr (ne, found) ↦ subst (Inv init n) (ok_inj (sym found.1 ∙ e)) (Exited-Inv lt ne r found.2)
  ]

  pub kwait-Inv : (p : ℕ) (fails : Bool) → Inv init n (kwait p fails t).1
  kwait-Inv p fails = go (kwait_lem p fails t)
    where
      go : {r : Waited × Table × List Freed} → WaitEnds p fails t r → Inv init n r.1
      go (reaped k lt par z f e) =
          subst (λ r. Inv init n r.1) (sym e) (free_slot-Inv v k lt (ap is_live z))
      go (unstored k lt par z f e) = subst (λ r. Inv init n r.1) (sym e) v
      go (refused a b e) = subst (λ r. Inv init n r.1) (sym e) v
      go (sleeps a b c e) = subst (λ r. Inv init n r.1) (sym e) v

-- Every operation keeps the invariant.
pub Step-Inv :
    {proc_addr : ℕ → ℕ} {init : ℕ} {s u : System}
    → Step proc_addr init s u
    → s.nextpid < 2 ^ 31 - 1
    → Inv init s.nextpid s.table
    → Inv init u.nextpid u.table
Step-Inv (Step.schedules k u l e) small v = schedule-Inv v k u l e
Step-Inv (Step.yields k r) small v = running-Inv v k _ r (refl, refl, refl, refl, refl) refl
Step-Inv (Step.sleeps k chan r) small v = running-Inv v k _ r (refl, refl, refl, refl, refl) refl
Step-Inv (Step.goes_on k r) small v =
    running-Inv v k _ r (refl, refl, refl, refl, refl) (ap is_live r)
Step-Inv (Step.wakes chan me) small v = wakeup-Inv v chan me
Step-Inv (Step.kills pid) small v = kkill-Inv v pid
Step-Inv (Step.marks k) small v = setkilled-Inv v k
Step-Inv {proc_addr} (Step.exits k status u lt r e) small v =
    kexit-Inv v proc_addr k status u lt r e
Step-Inv (Step.waits k fails) small v = kwait-Inv v k fails
Step-Inv (Step.allocates page pt) small v = allocproc-Inv v page pt small
Step-Inv (Step.copies k np copied lt e) small v = kfork_copy-Inv v k np copied lt e
Step-Inv (Step.adopts k np lt r e) small v = kfork_parent-Inv v k np lt r e
Step-Inv (Step.starts np e) small v = kfork_start-Inv v np e

-- From a table that satisfies the invariant, whatever processes and CPUs do in any order, as long as
-- `nextpid` is below 2 ^ 31 - 1 in each state of the run before the last, so that `nextpid + 1` does
-- not overflow, in each table that is reached: processes in use have pids of their own below
-- `nextpid`, and the priority 10 if the pid is even and 1 if it is odd; the parent of a process is
-- never a free slot, a zombie or a process not started; and free slots hold no page.
pub Reach-Inv :
    {proc_addr : ℕ → ℕ} {init : ℕ} {s u : System}
    → (r : Reach proc_addr init s u) → Unwrapped r
    → Inv init s.nextpid s.table
    → Inv init u.nextpid u.table
Reach-Inv here small v = v
Reach-Inv (next r st) small v = Step-Inv st small.0 (Reach-Inv r small.1 v)
