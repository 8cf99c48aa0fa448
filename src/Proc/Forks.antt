-- ===== src/Proc/Forks.antt =====
-- `kfork` and its `allocproc`, of kernel/proc.c, keep the invariant of the process table.
use so_final_proyect.Prelude.{
  ℕ, ◌+◌, ◌-◌, ◌^◌, ◌%◌, ◌<◌, ◌≡◌, inl, inr, refl, subst, ap, sym, ◌∙◌, arith, true, false, Bool,
  Bool-cases, some, update, update_self, update_ne, ℕ_discrete,
}
use native.Mathlib.Nat.{le_refl}
use so_final_proyect.Proc.{
  Proc, Table, nproc, unused, used, running, is, Alloc, allocproc, kfork_copy, kfork_parent,
  freeproc,
}
use so_final_proyect.Proc.States.{is-eq, is_of_eq}
use so_final_proyect.Proc.Birth.{
  AllocEnds, no_slot, no_memory, allocated, filled, allocproc_lem, freeproc-clean,
}
use so_final_proyect.Proc.Inv.{
  priority_of_lem, is_live, Inv, Keeps, Keeps-Inv, Calm-Inv, Calm-update, fill-Inv,
}

some_inj : {a b : ℕ} → some a ≡ some b → a ≡ b
some_inj e = cc

module _ {init n : ℕ} {t : Table} (v : Inv init n t) where
  pub free_slot-Inv :
      (k : ℕ) → k < nproc → is_live (t k).state ≡ false → Inv init n (update t k (freeproc (t k)).0)
  free_slot-Inv k lt dead =
      let (g, pid, parent, _) = freeproc-clean n (t k) in
      fill-Inv n k (freeproc (t k)).0 v (le_refl n) lt dead g parent
        (λ j jl pos_pid. absurd (omega (arith, pid)))

  pub kfork_copy-Inv :
      (p np : ℕ) (copied : Bool)
      → np < nproc
      → (t np).state ≡ used
      → Inv init n (kfork_copy p np copied t).1
  unfolding kfork_copy
  kfork_copy-Inv p np true lt u = Calm-Inv v (λ j jl. Calm-update t np _ j (record {
    keeps = record {
      pid = refl;
      priority = refl;
      trapframe = refl;
      pagetable = refl;
      freed = λ z. (z, refl);
      taken = λ z. z;
    };
    parent = refl;
    live = λ l. l;
  }))
  kfork_copy-Inv p np false lt u = free_slot-Inv np lt (ap is_live u)

  pub kfork_parent-Inv :
      (p np : ℕ)
      → p < nproc
      → (t p).state ≡ running
      → (t np).state ≡ used
      → Inv init n (kfork_parent p np t)
  kfork_parent-Inv p np lt r u =
      Keeps-Inv v keeps parents (ap is_live (state_same init) ∙ v.init_live.1)
    where
      child : Proc
      child = record (t np) { parent = some p }

      state_same : (q : ℕ) → (update t np child q).state ≡ (t q).state
      state_same q = elim (ℕ_discrete np q) [
        | yes e ↦
            subst (λ k. (update t np child k).state ≡ (t k).state) e
              (ap (λ c. c.state) (update_self t np child))
        | no ne ↦ ap (λ c. c.state) (update_ne t child ne)
      ]

      keeps : (j : ℕ) → j < nproc → Keeps (t j) (update t np child j)
      keeps j jl = elim (ℕ_discrete np j) [
        | yes e ↦
            subst (λ k. Keeps (t k) (update t np child k)) e
              (subst (Keeps (t np)) (sym (update_self t np child)) (record {
                pid = refl;
                priority = refl;
                trapframe = refl;
                pagetable = refl;
                freed = λ z. absurd (cc (sym u ∙ z));
                taken = λ z. z;
              }))
        | no ne ↦ subst (Keeps (t j)) (sym (update_ne t child ne)) (record {
          pid = refl;
          priority = refl;
          trapframe = refl;
          pagetable = refl;
          freed = λ z. (z, refl);
          taken = λ z. z;
        })
      ]

      parents :
          (j q : ℕ)
          → j < nproc
          → (update t np child j).parent ≡ some q
          → (q < nproc) × (is_live (update t np child q).state ≡ true)
      parents j q jl e = elim (ℕ_discrete np j) [
        | yes d ↦
            subst (λ k. (k < nproc) × (is_live (update t np child k).state ≡ true))
              (some_inj (
                sym (
                  subst (λ k. (update t np child k).parent ≡ some p) d
                    (ap (λ c. c.parent) (update_self t np child)))
                ∙ e))
              (lt, ap is_live (state_same p ∙ r))
        | no ne ↦
            let (ql, l) = v.parents j q jl (sym (ap (λ c. c.parent) (update_ne t child ne)) ∙ e) in
            (ql, ap is_live (state_same q) ∙ l)
      ]

  pub allocproc-Inv :
      (page pt : ℕ)
      → n < 2 ^ 31 - 1
      → Inv init (allocproc page pt n t).nextpid (allocproc page pt n t).table
  allocproc-Inv page pt small = go (allocproc_lem page pt n t v.good)
    where
      some_pid : 0 < n
      some_pid = omega (
        arith,
        (v.good init v.init_live.0).pid_range (λ e. cc (sym (ap is_live e) ∙ v.init_live.1)),
      )

      old : (j : ℕ) → j < nproc → (t j).pid < n
      old j jl = elim (Bool-cases (is (t j).state unused)) [
        | inl z ↦ omega (arith, ((v.good j jl).clean (is-eq (t j).state unused z)).0, some_pid)
        | inr z ↦ ((v.good j jl).pid_range (λ e. cc (sym z ∙ is_of_eq e))).1
      ]

      go : {a : Alloc} → AllocEnds page pt n t a → Inv init a.nextpid a.table
      go (no_slot all e) = subst (λ a. Inv init a.nextpid a.table) (sym e) v
      go (no_memory k q lt u why g (pid, parent, free) e) =
          subst (λ a. Inv init a.nextpid a.table) (sym e)
            (fill-Inv ((n + 1) % 2 ^ 32) k q v (omega (arith, small)) lt (ap is_live u) g parent
              (λ j jl pos_pid. absurd (omega (arith, pid))))
      go (allocated k lt u got both e) =
          subst (λ a. Inv init a.nextpid a.table) (sym e)
            (fill-Inv ((n + 1) % 2 ^ 32) k (filled page pt n (t k)) v (omega (arith, small)) lt
              (ap is_live u)
              (record {
                clean = λ z. absurd (cc z);
                pid_range = λ z. (some_pid, omega (arith, small));
                prio = λ z. priority_of_lem n;
              })
              ((v.good k lt).clean u).1 (λ j jl pos_pid d. omega (arith, old j jl)))
