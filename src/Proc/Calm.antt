-- ===== src/Proc/Calm.antt =====
-- The operations of kernel/proc.c that change no process but for its sleep and its turn to run.
use so_final_proyect.Prelude.{
  ℕ, ◌≡◌, inl, inr, refl, subst, ap, sym, ◌∙◌, true, false, Bool-cases, Option, some, none, update,
  ok, ok_inj,
}
use so_final_proyect.Proc.{
  Proc, Table, used, sleeping, runnable, running, is, wakeup, kkill, kill_proc, setkilled,
  kfork_start,
}
use so_final_proyect.Proc.States.{is-eq}
use so_final_proyect.Scheduler.{Locks, schedule}
use so_final_proyect.Scheduler.Select.{Chosen, schedule_lem}
use so_final_proyect.Proc.Table.{kkill_lem, kill_proc_unique}
use so_final_proyect.Proc.Reparent.{Woken, same, awake, wakeup-Woken}
use so_final_proyect.Proc.Exit.{Woken-keeps}
use so_final_proyect.Proc.Inv.{is_live, Inv, Calm, Calm-Inv, Calm-update}

-- A change of the state from one live state to another, and of what is no part of the invariant.
pub state-Calm :
    (p q : Proc)
    → (q.pid ≡ p.pid)
      × (q.parent ≡ p.parent)
      × (q.priority ≡ p.priority)
      × (q.trapframe ≡ p.trapframe)
      × (q.pagetable ≡ p.pagetable)
    → is_live p.state ≡ true
    → is_live q.state ≡ true
    → Calm p q
state-Calm p q (pid, parent, prio, tf, pt) lp lq = record {
  keeps = record {
    pid = pid;
    priority = prio;
    trapframe = tf;
    pagetable = pt;
    freed = λ u. absurd (cc (ap is_live u));
    taken = λ u. absurd (cc (ap is_live u));
  };
  parent = parent;
  live = λ _. lq;
}

same-Calm : (p : Proc) → Calm p p
same-Calm p = record {
  keeps = record {
    pid = refl;
    priority = refl;
    trapframe = refl;
    pagetable = refl;
    freed = λ u. (u, refl);
    taken = λ u. u;
  };
  parent = refl;
  live = λ l. l;
}

pub Woken-Calm : {p q : Proc} → Woken p q → Calm p q
Woken-Calm {p} same = same-Calm p
Woken-Calm {p} {q} (awake s e) =
    state-Calm p q (Woken-keeps (awake s e)) (ap is_live s) (ap (λ r. is_live r.state) e)

-- The operations of a running process on itself, and those on sleeping processes.
module _ {init n : ℕ} {t : Table} (v : Inv init n t) where
  pub schedule-Inv :
      (k : ℕ) (u : Table) (l : Locks) → schedule (λ _. false) t ≡ ok (some k, u, l) → Inv init n u
  schedule-Inv k u l e =
      let (high, w, m, runs, chosen) = schedule_lem t in go high w m chosen (ok_inj (sym runs ∙ e))
    where
      go :
          (high : Option ℕ) (w : Table) (m : Locks)
          → Chosen t high w m
          → ◌≡◌ {A = Option ℕ × Table × Locks} (high, w, m) (some k, u, l)
          → Inv init n u
      go none w m c d = absurd (cc (ap (λ (r : Option ℕ × Table × Locks). r.0) d))
      go (some h) w m (Chosen.runs h' lt r max first eu el) d =
          subst (Inv init n) (sym eu ∙ ap (λ (r : Option ℕ × Table × Locks). r.1) d) (
            Calm-Inv v (λ j jl.
              Calm-update t h (record (t h) { state = running }) j
                (state-Calm (t h) _ (refl, refl, refl, refl, refl) (ap is_live r) refl)))

  pub running-Inv :
      (k : ℕ) (p : Proc)
      → (t k).state ≡ running
      → (p.pid ≡ (t k).pid)
        × (p.parent ≡ (t k).parent)
        × (p.priority ≡ (t k).priority)
        × (p.trapframe ≡ (t k).trapframe)
        × (p.pagetable ≡ (t k).pagetable)
      → is_live p.state ≡ true
      → Inv init n (update t k p)
  running-Inv k p r kept lp =
      Calm-Inv v (λ j jl. Calm-update t k p j (state-Calm (t k) p kept (ap is_live r) lp))

  pub wakeup-Inv : (chan : ℕ) (me : Option ℕ) → Inv init n (wakeup chan me t)
  wakeup-Inv chan me = Calm-Inv v (λ j jl. Woken-Calm (wakeup-Woken chan me t j))

  pub setkilled-Inv : (k : ℕ) → Inv init n (setkilled k t)
  setkilled-Inv k = Calm-Inv v (λ j jl.
      Calm-update t k (record (t k) { killed = 1 }) j
        (record {
          keeps = record {
            pid = refl;
            priority = refl;
            trapframe = refl;
            pagetable = refl;
            freed = λ u. (u, refl);
            taken = λ u. u;
          };
          parent = refl;
          live = λ l. l;
        }))

  kill-Calm : (p : Proc) → Calm p (kill_proc p)
  kill-Calm p = elim (Bool-cases (is p.state sleeping)) [
    | inl s ↦ rw s (
        state-Calm p (record p { killed = 1; state = runnable }) (refl, refl, refl, refl, refl)
          (ap is_live (is-eq p.state sleeping s)) refl)
    | inr s ↦ rw s (record {
      keeps = record {
        pid = refl;
        priority = refl;
        trapframe = refl;
        pagetable = refl;
        freed = λ u. (u, refl);
        taken = λ u. u;
      };
      parent = refl;
      live = λ l. l;
    })
  ]

  pub kkill-Inv : (pid : ℕ) → Inv init n (kkill pid t).1
  kkill-Inv pid = elim (kkill_lem pid t) [
    | inl (_, e) ↦ subst (λ r. Inv init n r.1) (sym e) v
    | inr (k, q, _, killed, e) ↦
        subst (λ r. Inv init n r.1) (sym e)
          (Calm-Inv v (λ j jl.
            Calm-update t k q j
              (subst (Calm (t k)) (kill_proc_unique (t k) q killed) (kill-Calm (t k)))))
  ]

  pub kfork_start-Inv : (np : ℕ) → (t np).state ≡ used → Inv init n (kfork_start np t)
  kfork_start-Inv np e = Calm-Inv v (λ j jl.
      Calm-update t np (record (t np) { state = runnable }) j
        (record {
          keeps = record {
            pid = refl;
            priority = refl;
            trapframe = refl;
            pagetable = refl;
            freed = λ u. absurd (cc u);
            taken = λ u. absurd (cc u);
          };
          parent = refl;
          live = λ l. refl;
        }))
