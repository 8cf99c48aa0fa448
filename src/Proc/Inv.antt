-- ===== src/Proc/Inv.antt =====
-- What holds of the process table of kernel/proc.c between two operations, once `userinit` has run.
use so_final_proyect.Prelude.{
  ℕ, ◌%◌, ◌≤◌, ◌<◌, ◌≡◌, ◌≢◌, refl, subst, ap, sym, ◌∙◌, arith, true, false, Bool, some, none,
  update, update_self, update_ne, ℕ_discrete,
}
use so_final_proyect.Proc.{
  Proc, ProcState, unused, sleeping, runnable, running, Table, nproc, priority_of,
}

-- The process runs, waits or may run.
abbrev pub is_live : ProcState → Bool
is_live sleeping = true
is_live runnable = true
is_live running = true
is_live _ = false

-- What one entry of the table satisfies.
pub record Good (nextpid : ℕ) (p : Proc) : Type 0 where
  pub clean :
      p.state ≡ unused → (p.pid ≡ 0) × (p.parent ≡ none) × (p.trapframe ≡ 0) × (p.pagetable ≡ 0)
  pub pid_range : p.state ≢ unused → (0 < p.pid) × (p.pid < nextpid)
  pub prio : p.state ≢ unused → (p.pid % 2 ≡ 0 → p.priority ≡ 10) × (p.pid % 2 ≡ 1 → p.priority ≡ 1)

pub priority_of_lem :
    (pid : ℕ) → (pid % 2 ≡ 0 → priority_of pid ≡ 10) × (pid % 2 ≡ 1 → priority_of pid ≡ 1)
priority_of_lem pid = (λ e. ground arith, λ e. ground arith)

pub record Inv (init nextpid : ℕ) (t : Table) : Type 0 where
  pub good : (j : ℕ) → j < nproc → Good nextpid (t j)
  pub unique : (i j : ℕ) → i < nproc → j < nproc → 0 < (t i).pid → (t i).pid ≡ (t j).pid → i ≡ j
  pub parents :
      (j q : ℕ) → j < nproc → (t j).parent ≡ some q → (q < nproc) × (is_live (t q).state ≡ true)
  pub init_live : (init < nproc) × (is_live (t init).state ≡ true)

-- The entry keeps its identity, and stays in use or free.
pub record Keeps (p q : Proc) : Type 0 where
  pub pid : q.pid ≡ p.pid
  pub priority : q.priority ≡ p.priority
  pub trapframe : q.trapframe ≡ p.trapframe
  pub pagetable : q.pagetable ≡ p.pagetable
  pub freed : q.state ≡ unused → (p.state ≡ unused) × (q.parent ≡ p.parent)
  pub taken : p.state ≡ unused → q.state ≡ unused

pub Keeps-Good : (n : ℕ) (p q : Proc) → Keeps p q → Good n p → Good n q
Keeps-Good n p q k g = record {
  clean = λ u.
      let (a, b) = k.freed u in
      let (c, d, e, f) = g.clean a in (k.pid ∙ c, b ∙ d, k.trapframe ∙ e, k.pagetable ∙ f);
  pid_range = λ u. rw k.pid (g.pid_range (λ v. u (k.taken v)));
  prio = λ u. rw (k.pid, k.priority) (g.prio (λ v. u (k.taken v)));
}

-- It keeps its parent too, and goes on living.
pub record Calm (p q : Proc) : Type 0 where
  pub keeps : Keeps p q
  pub parent : q.parent ≡ p.parent
  pub live : is_live p.state ≡ true → is_live q.state ≡ true

pub Keeps-Inv :
    {init n : ℕ} {t u : Table}
    → Inv init n t
    → ((j : ℕ) → j < nproc → Keeps (t j) (u j))
    → ((j q : ℕ) → j < nproc → (u j).parent ≡ some q → (q < nproc) × (is_live (u q).state ≡ true))
    → is_live (u init).state ≡ true
    → Inv init n u
Keeps-Inv {n} {t} {u} v k parents live = record {
  good = λ j lt. Keeps-Good n (t j) (u j) (k j lt) (v.good j lt);
  unique = λ i j il jl g e.
      v.unique i j il jl (rw ((k i il).pid) at g) (sym (k i il).pid ∙ e ∙ (k j jl).pid);
  parents = parents;
  init_live = (v.init_live.0, live);
}

pub Calm-Inv :
    {init n : ℕ} {t u : Table}
    → Inv init n t
    → ((j : ℕ) → j < nproc → Calm (t j) (u j))
    → Inv init n u
Calm-Inv {init} {n} {t} {u} v c =
    Keeps-Inv v (λ j lt. (c j lt).keeps)
      (λ j q lt e.
        let (ql, live) = v.parents j q lt (sym (c j lt).parent ∙ e) in (ql, (c q ql).live live))
      ((c init v.init_live.0).live v.init_live.1)

-- A change of one entry.
pub Calm-update :
    (t : Table) (k : ℕ) (p : Proc) (j : ℕ) → Calm (t k) p → Calm (t j) (update t k p j)
Calm-update t k p j c = elim (ℕ_discrete k j) [
  | yes e ↦
      subst (λ i. Calm (t i) (update t k p i)) e (subst (Calm (t k)) (sym (update_self t k p)) c)
  | no ne ↦ subst (Calm (t j)) (sym (update_ne t p ne)) (Calm-refl (t j))
]
  where
    Calm-refl : (q : Proc) → Calm q q
    Calm-refl q = record {
      keeps = record {
        pid = refl;
        priority = refl;
        trapframe = refl;
        pagetable = refl;
        freed = λ u. (u, refl);
        taken = λ u. u;
      };
      parent = refl;
      live = λ l. l;
    }

pub Good-le : (n m : ℕ) (p : Proc) → n ≤ m → Good n p → Good m p
Good-le n m p le g = record {
  clean = g.clean;
  pid_range = λ u. ((g.pid_range u).0, omega (arith, (g.pid_range u).1));
  prio = g.prio;
}

-- A slot that holds no live process is filled anew, by an entry with no parent and a pid of its own.
pub fill-Inv :
    {init n : ℕ} {t : Table} (m k : ℕ) (p : Proc)
    → Inv init n t
    → n ≤ m
    → k < nproc
    → is_live (t k).state ≡ false
    → Good m p
    → p.parent ≡ none
    → ((j : ℕ) → j < nproc → 0 < p.pid → (t j).pid ≢ p.pid)
    → Inv init m (update t k p)
fill-Inv {init} {n} {t} m k p v le lt dead g orphan fresh = record {
  good = λ j jl. elim (ℕ_discrete k j) [
    | yes e ↦ subst (λ i. Good m (update t k p i)) e (rw (at_k) g)
    | no ne ↦ subst (Good m) (sym (off j ne)) (Good-le n m (t j) le (v.good j jl))
  ];
  unique = λ i j il jl pos_pid e. elim (ℕ_discrete k i) [
    | yes ki ↦ elim (ℕ_discrete k j) [
      | yes kj ↦ sym ki ∙ kj
      | no nj ↦ absurd (
          fresh j jl (subst (λ q. 0 < q.pid) (here i ki) pos_pid)
            (sym (ap (λ q. q.pid) (off j nj)) ∙ sym e ∙ ap (λ q. q.pid) (here i ki)))
    ]
    | no ni ↦ elim (ℕ_discrete k j) [
      | yes kj ↦ absurd (
          fresh i il (subst (λ q. 0 < q.pid) (here j kj) (subst (λ x. 0 < x) e pos_pid))
            (sym (ap (λ q. q.pid) (off i ni)) ∙ e ∙ ap (λ q. q.pid) (here j kj)))
      | no nj ↦
          v.unique i j il jl (subst (λ q. 0 < q.pid) (off i ni) pos_pid)
            (sym (ap (λ q. q.pid) (off i ni)) ∙ e ∙ ap (λ q. q.pid) (off j nj))
    ]
  ];
  parents = λ j q jl e. elim (ℕ_discrete k j) [
    | yes kj ↦ cc (sym orphan ∙ sym (ap (λ r. r.parent) (here j kj)) ∙ e)
    | no nj ↦
        let (ql, live) = v.parents j q jl (sym (ap (λ r. r.parent) (off j nj)) ∙ e) in
        (ql, still q live)
  ];
  init_live = (v.init_live.0, still init v.init_live.1);
}
  where
    at_k : update t k p k ≡ p
    at_k = update_self t k p

    here : (i : ℕ) → k ≡ i → update t k p i ≡ p
    here i e = subst (λ j. update t k p j ≡ p) e at_k

    off : (j : ℕ) → k ≢ j → update t k p j ≡ t j
    off j ne = update_ne t p ne

    still : (q : ℕ) → is_live (t q).state ≡ true → is_live (update t k p q).state ≡ true
    still q live = elim (ℕ_discrete k q) [
      | yes e ↦ cc (sym dead ∙ ap (λ i. is_live (t i).state) e ∙ live)
      | no ne ↦ subst (λ r. is_live r.state ≡ true) (sym (off q ne)) live
    ]
