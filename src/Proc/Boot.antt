-- ===== src/Proc/Boot.antt =====
-- `procinit` and `userinit` of kernel/proc.c, on the zeroed table that the kernel starts with.
use so_final_proyect.Prelude.{
  ℕ, ◌<◌, ◌≡◌, ◌≢◌, inl, inr, refl, subst, ap, sym, ◌∙◌, arith, true, if◌then◌else◌, some, none,
  update, update_self, update_ne, ℕ_discrete, ltb,
}
use so_final_proyect.Proc.{
  Proc, Table, nproc, unused, runnable, procinit, userinit, start_init, Alloc, allocproc, kstack_at,
}
use so_final_proyect.Proc.Table.{procinit_lem}
use so_final_proyect.Proc.Birth.{AllocEnds, no_slot, no_memory, allocated, filled, allocproc_lem}
use so_final_proyect.Proc.Inv.{is_live, Good, Good-le, Inv, priority_of_lem}

-- The fields that matter are 0.
pub record Blank (p : Proc) : Type 0 where
  pub pid : p.pid ≡ 0
  pub parent : p.parent ≡ none
  pub trapframe : p.trapframe ≡ 0
  pub pagetable : p.pagetable ≡ 0

module _ (t : Table) (blank : (j : ℕ) → j < nproc → Blank (t j)) where
  procinit_at :
      (j : ℕ) → j < nproc → procinit t j ≡ record (t j) { state = unused; kstack = kstack_at j }
  procinit_at j lt =
      procinit_lem t j
      ∙ ap (λ b. if b then record (t j) { state = unused; kstack = kstack_at j } else t j) inside
    where
      inside : ltb j nproc ≡ true
      inside = ground arith

  procinit-Good : (j : ℕ) → j < nproc → Good 1 (procinit t j)
  procinit-Good j lt = subst (Good 1) (sym (procinit_at j lt)) (record {
    clean = λ _. (b.pid, b.parent, b.trapframe, b.pagetable);
    pid_range = λ u. absurd (u refl);
    prio = λ u. absurd (u refl);
  })
    where
      b : Blank (t j)
      b = blank j lt

  procinit_unused : (j : ℕ) → j < nproc → (procinit t j).state ≡ unused
  procinit_unused j lt = ap (λ p. p.state) (procinit_at j lt)

-- One process in a table of free slots.
pub first-Inv :
    (k : ℕ) (t w : Table)
    → k < nproc
    → ((j : ℕ) → j < nproc → Good 1 (t j))
    → ((j : ℕ) → j < nproc → (t j).state ≡ unused)
    → is_live (w k).state ≡ true
    → Good 2 (w k)
    → (w k).parent ≡ none
    → ((j : ℕ) → k ≢ j → w j ≡ t j)
    → Inv k 2 w
first-Inv k t w lt good free live g orphan off = record {
  good = λ j jl. elim (ℕ_discrete k j) [
    | yes e ↦ subst (λ i. Good 2 (w i)) e g
    | no ne ↦ subst (Good 2) (sym (off j ne)) (Good-le 1 2 (t j) (omega arith) (good j jl))
  ];
  unique = λ i j il jl g e. sym (only i il g) ∙ only j jl (subst (λ x. 0 < x) e g);
  parents = λ j q jl e. absurd (cc (sym (none_at j jl) ∙ e));
  init_live = (lt, live);
}
  where
    clean : (j : ℕ) → j < nproc → k ≢ j → ((w j).pid ≡ 0) × ((w j).parent ≡ none)
    clean j jl ne =
        let (a, b, _, _) = (good j jl).clean (free j jl) in
        (ap (λ p. p.pid) (off j ne) ∙ a, ap (λ p. p.parent) (off j ne) ∙ b)

    only : (j : ℕ) → j < nproc → 0 < (w j).pid → k ≡ j
    only j jl pos_pid = elim (ℕ_discrete k j) [
      | yes e ↦ e
      | no ne ↦ absurd (omega (arith, (clean j jl ne).0))
    ]

    none_at : (j : ℕ) → j < nproc → (w j).parent ≡ none
    none_at j jl = elim (ℕ_discrete k j) [
      | yes e ↦ subst (λ i. (w i).parent ≡ none) e orphan
      | no ne ↦ (clean j jl ne).1
    ]

userinit_at :
    (page pt n : ℕ) (t : Table) (a : Alloc) (k : ℕ)
    → allocproc page pt n t ≡ a
    → a.found ≡ some k
    → userinit page pt n t
      ≡ some (k, update a.table k (record (a.table k) { state = runnable }), a.nextpid)
unfolding userinit
userinit_at page pt n t a k e f = ap (λ b. start_init b.found b) e ∙ ap (λ o. start_init o a) f

-- From the zeroed table, with a page and a page table to be had, `procinit` and `userinit` lead to a
-- table that satisfies the invariant, with one process, of pid 1.
pub boot_lem :
    (page pt : ℕ) (t : Table)
    → page ≢ 0
    → pt ≢ 0
    → ((j : ℕ) → j < nproc → Blank (t j))
    → (k : ℕ) × (u : Table) × (userinit page pt 1 (procinit t) ≡ some (k, u, 2))
      × Inv k 2 u
      × ((u k).pid ≡ 1)
boot_lem page pt t got both blank =
    go (allocproc_lem page pt 1 (procinit t) (procinit-Good t blank))
  where
    go :
        AllocEnds page pt 1 (procinit t) (allocproc page pt 1 (procinit t))
        → (k : ℕ) × (u : Table) × (userinit page pt 1 (procinit t) ≡ some (k, u, 2))
          × Inv k 2 u
          × ((u k).pid ≡ 1)
    go (no_slot all e) = absurd (all 0 (omega arith) (procinit_unused t blank 0 (omega arith)))
    go (no_memory k q lt u why g d e) = absurd (elim why [ inl z ↦ got z | inr z ↦ both z ])
    go (allocated k lt u _ _ e) = (
      k,
      w,
      userinit_at page pt 1 (procinit t) _ k e refl,
      first-Inv k (procinit t) w lt (procinit-Good t blank) (procinit_unused t blank)
          (ap (λ p. is_live p.state) at_k)
          (subst (Good 2) (sym at_k) (record {
            clean = λ z. absurd (cc z);
            pid_range = λ z. (omega arith, omega arith);
            prio = λ z. priority_of_lem 1;
          }))
          (ap (λ p. p.parent) at_k ∙ ((procinit-Good t blank k lt).clean u).1)
          (λ j ne. update_ne slot _ ne ∙ update_ne (procinit t) _ ne),
      ap (λ p. p.pid) at_k,
    )
      where
        slot : Table
        slot = update (procinit t) k (filled page pt 1 (procinit t k))

        w : Table
        w = update slot k (record (slot k) { state = runnable })

        at_k : w k ≡ record (filled page pt 1 (procinit t k)) { state = runnable }
        at_k =
            update_self slot k (record (slot k) { state = runnable })
            ∙ ap {A = Proc} (λ p. record p { state = runnable })
                (update_self (procinit t) k (filled page pt 1 (procinit t k)))
