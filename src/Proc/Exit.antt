-- ===== src/Proc/Exit.antt =====
-- `kexit` of kernel/proc.c.
use so_final_proyect.Prelude.{
  ℕ, ◌<◌, ◌≡◌, ◌≢◌, ◌⊎◌, inl, inr, refl, subst, ap, sym, ◌∙◌, arith, true, Bool, Bool-cases, ◌==◌,
  if◌then◌else◌, ◌&&◌, Option, some, none, update, update_self, update_ne, ℕ_discrete, not, ok,
  ok_inj, ltb, panic, Result,
}
use so_final_proyect.Prelude.Int.{ℤ}
use so_final_proyect.Proc.{
  Proc, Table, nproc, is, sleeping, runnable, zombie, wakeup, wake, is_me, is_child, reparent,
  parent_chan, kexit,
}
use so_final_proyect.Proc.States.{is_of_eq}
use so_final_proyect.Proc.Table.{wakeup_lem}
use so_final_proyect.Proc.Reparent.{
  Woken, same, awake, Woken-trans, wakeup-Woken, adopt, reparent_lem,
}

-- The table after process `p` exits with a status.
pub record Exited (init p : ℕ) (status : ℤ) (t u : Table) : Type 0 where
  pub state : (u p).state ≡ zombie
  pub xstate : (u p).xstate ≡ status
  pub pid : (u p).pid ≡ (t p).pid
  pub own_parent : (u p).parent ≡ (adopt init p (t p)).parent
  pub kept :
      ((u p).priority ≡ (t p).priority)
      × ((u p).trapframe ≡ (t p).trapframe)
      × ((u p).pagetable ≡ (t p).pagetable)
  pub others : (j : ℕ) → j < nproc → j ≢ p → Woken (adopt init p (t j)) (u j)

pub Woken-keeps :
    {p q : Proc}
    → Woken p q
    → (q.pid ≡ p.pid)
      × (q.parent ≡ p.parent)
      × (q.priority ≡ p.priority)
      × (q.trapframe ≡ p.trapframe)
      × (q.pagetable ≡ p.pagetable)
Woken-keeps same = (refl, refl, refl, refl, refl)
Woken-keeps (awake s e) = (
  ap (λ r. r.pid) e,
  ap (λ r. r.parent) e,
  ap (λ r. r.priority) e,
  ap (λ r. r.trapframe) e,
  ap (λ r. r.pagetable) e,
)

pub kexit_lem :
    (proc_addr : ℕ → ℕ) (init p : ℕ) (status : ℤ) (t : Table)
    → p < nproc
    → ((p ≡ init) × (kexit proc_addr init p status t ≡ panic "init exiting"))
      ⊎ ((p ≢ init)
          × ((u : Table) × (kexit proc_addr init p status t ≡ ok u) × Exited init p status t u))
unfolding kexit
kexit_lem proc_addr init p status t lt = elim (Bool-cases (p == init)) [
  | inl same_one ↦ inl (ground arith, rw same_one refl)
  | inr other ↦ inr (
    ground arith,
    (
      update woken p (record (woken p) { xstate = status; state = zombie }),
      rw other refl,
      record {
        state = ap (λ q. q.state) at_p;
        xstate = ap (λ q. q.xstate) at_p;
        pid = ap (λ q. q.pid) at_p ∙ own.0;
        own_parent = ap (λ q. q.parent) at_p ∙ own.1;
        kept = (
          ap (λ q. q.priority) at_p ∙ own.2,
          ap (λ q. q.trapframe) at_p ∙ own.3,
          ap (λ q. q.pagetable) at_p ∙ own.4,
        );
        others = λ j jl ne.
            subst (Woken (adopt init p (t j))) (sym (update_ne woken _ (λ e. ne (sym e))))
              (steps j jl);
      },
    ),
  )
]
  where
    given : Table
    given = reparent proc_addr init p t

    woken : Table
    woken = wakeup (parent_chan proc_addr init (given p).parent) (some p) given

    at_p :
        update woken p (record (woken p) { xstate = status; state = zombie }) p
        ≡ record (woken p) { xstate = status; state = zombie }
    at_p = update_self woken p (record (woken p) { xstate = status; state = zombie })

    steps : (j : ℕ) → j < nproc → Woken (adopt init p (t j)) (woken j)
    steps j jl =
        Woken-trans (reparent_lem proc_addr init p t j jl)
          (wakeup-Woken (parent_chan proc_addr init (given p).parent) (some p) given j)

    own :
        ((woken p).pid ≡ (t p).pid)
        × ((woken p).parent ≡ (adopt init p (t p)).parent)
        × ((woken p).priority ≡ (t p).priority)
        × ((woken p).trapframe ≡ (t p).trapframe)
        × ((woken p).pagetable ≡ (t p).pagetable)
    own = Woken-keeps (steps p lt)

adopt-parent : (init p : ℕ) (q : Proc) → p ≢ init → (adopt init p q).parent ≢ some p
adopt-parent init p q ne e = go q.parent e
  where
    go : (o : Option ℕ) → (if is_child o p then some init else o) ≡ some p → ⊥
    go none e' = cc
    go (some r) e' = ground arith

-- Nobody's parent is a process that has exited.
pub Exited-childless :
    {init p : ℕ} {status : ℤ} {t u : Table}
    → p ≢ init
    → Exited init p status t u
    → (j : ℕ) → j < nproc
    → (u j).parent ≢ some p
Exited-childless {init} {p} {status} {t} {u} ne x j lt e = elim (ℕ_discrete j p) [
  | yes at ↦ adopt-parent init p (t p) ne (sym x.own_parent ∙ ap (λ i. (u i).parent) (sym at) ∙ e)
  | no off ↦ adopt-parent init p (t j) ne (sym (Woken-keeps (x.others j lt off)).1 ∙ e)
]

Woken-runnable : {p q : Proc} → p.state ≡ runnable → Woken p q → q.state ≡ runnable
Woken-runnable r same = r
Woken-runnable r (awake s e) = ap (λ a. a.state) e

wake-asleep :
    (chan : ℕ) (p : Proc) → p.state ≡ sleeping → p.chan ≡ chan → (wake chan p).state ≡ runnable
wake-asleep chan p s c =
    subst (λ (b : Bool). (if b then record p { state = runnable } else p).state ≡ runnable)
      (sym both) refl
  where
    both : (is p.state sleeping && p.chan == chan) ≡ true
    both = ground (arith, is_of_eq s)

wake-runnable : (chan : ℕ) (p : Proc) → p.state ≡ runnable → (wake chan p).state ≡ runnable
wake-runnable chan p r = elim (Bool-cases (is p.state sleeping && p.chan == chan)) [
  | inl b ↦ ap (λ (c : Bool). (if c then record p { state = runnable } else p).state) b
  | inr b ↦ ap (λ (c : Bool). (if c then record p { state = runnable } else p).state) b ∙ r
]

given-parent :
    (init p q : ℕ) (o : Option ℕ)
    → o ≡ some q
    → q ≢ p
    → (if is_child o p then some init else o) ≡ some q
given-parent init p q none e ne = absurd (cc e)
given-parent init p q (some r) e ne = ground arith

-- When a process other than init exits while its parent sleeps in `kwait`, on its own address, the
-- parent is RUNNABLE afterwards.
pub kexit_wakes_parent :
    (proc_addr : ℕ → ℕ) (init p q : ℕ) (status : ℤ) (t u : Table)
    → p < nproc
    → q < nproc
    → q ≢ p
    → (t p).parent ≡ some q
    → (t q).state ≡ sleeping
    → (t q).chan ≡ proc_addr q
    → kexit proc_addr init p status t ≡ ok u
    → (u q).state ≡ runnable
unfolding kexit
kexit_wakes_parent proc_addr init p q status t u lt ql ne par asleep chan e =
    elim (Bool-cases (p == init)) [
      | inl same_one ↦ absurd (cc (sym (ap pick same_one) ∙ e))
      | inr other ↦
          ap (λ w. (w q).state) (sym (ok_inj (sym (ap pick other) ∙ e)))
          ∙ ap (λ r. r.state) (update_ne woken _ (λ d. ne (sym d)))
          ∙ awake_q
    ]
  where
    given : Table
    given = reparent proc_addr init p t

    woken : Table
    woken = wakeup (parent_chan proc_addr init (given p).parent) (some p) given

    pick : Bool → Result Table
    pick b =
        if b
        then panic "init exiting"
        else ok (update woken p (record (woken p) { xstate = status; state = zombie }))

    channel : parent_chan proc_addr init (given p).parent ≡ proc_addr q
    channel = ap (parent_chan proc_addr init) (
        (Woken-keeps (reparent_lem proc_addr init p t p lt)).1
        ∙ given-parent init p q (t p).parent par ne)

    inside : (ltb q nproc && not (is_me (some p) q)) ≡ true
    inside = ground arith

    woken_q : woken q ≡ wake (proc_addr q) (given q)
    woken_q =
        wakeup_lem _ (some p) given q
        ∙ ap
            (λ (b : Bool).
              if b then wake (parent_chan proc_addr init (given p).parent) (given q) else given q)
            inside
        ∙ ap (λ c. wake c (given q)) channel

    awake_q : (woken q).state ≡ runnable
    awake_q = ap (λ r. r.state) woken_q ∙ go (reparent_lem proc_addr init p t q ql)
      where
        go : {r : Proc} → Woken (adopt init p (t q)) r → (wake (proc_addr q) r).state ≡ runnable
        go same = wake-asleep (proc_addr q) (adopt init p (t q)) asleep chan
        go {r} (awake s d) = wake-runnable (proc_addr q) r (ap (λ a. a.state) d)
