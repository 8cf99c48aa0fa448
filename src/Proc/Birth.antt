-- ===== src/Proc/Birth.antt =====
-- `allocproc` of kernel/proc.c: how it ends, and what becomes of the pages that it was given.
use so_final_proyect.Prelude.{
  ℕ, ◌+◌, ◌^◌, ◌%◌, ◌<◌, ◌≡◌, ◌≢◌, ◌⊎◌, inl, inr, refl, subst, ap, sym, List, [], ◌∷◌, arith,
  Bool-cases, ◌==◌, if◌then◌else◌, some, none, update,
}
use so_final_proyect.Proc.{
  Proc, Table, nproc, unused, used, find_unused, priority_of, Alloc, Freed, trapframe_page,
  freeproc, fail_alloc, init_slot, allocproc,
}
use so_final_proyect.Proc.Table.{find_unused_lem}
use so_final_proyect.Proc.Inv.{Good}

-- The slot as `allocproc` fills it.
abbrev pub filled : ℕ → ℕ → ℕ → Proc → Proc
filled page pt pid p = record p {
  pid = pid;
  state = used;
  priority = if pid % 2 == 0 then 10 else 1;
  trapframe = page;
  pagetable = pt;
}

abbrev pub page_of : ℕ → List Freed
page_of page = if page == 0 then [] else trapframe_page page ∷ []

pub data AllocEnds (page pt nextpid : ℕ) (t : Table) (a : Alloc) : Type 0 where
  -- every slot is in use
  no_slot :
      ((j : ℕ) → j < nproc → (t j).state ≢ unused)
      → a ≡ record { found = none; table = t; nextpid = nextpid; freed = [] }
      → AllocEnds page pt nextpid t a
  -- a page could not be had: the slot is free again, and what was allocated is given back
  no_memory :
      (k : ℕ) (q : Proc)
      → k < nproc
      → (t k).state ≡ unused
      → (page ≡ 0) ⊎ (pt ≡ 0)
      → Good ((nextpid + 1) % 2 ^ 32) q
      → (q.pid ≡ 0) × (q.parent ≡ none) × (q.state ≡ unused)
      → a ≡ record {
        found = none;
        table = update t k q;
        nextpid = (nextpid + 1) % 2 ^ 32;
        freed = page_of page;
      }
      → AllocEnds page pt nextpid t a
  allocated :
      (k : ℕ)
      → k < nproc
      → (t k).state ≡ unused
      → page ≢ 0
      → pt ≢ 0
      → a ≡ record {
        found = some k;
        table = update t k (filled page pt nextpid (t k));
        nextpid = (nextpid + 1) % 2 ^ 32;
        freed = [];
      }
      → AllocEnds page pt nextpid t a

pub freeproc-clean :
    (n : ℕ) (p : Proc)
    → Good n (freeproc p).0
      × ((freeproc p).0.pid ≡ 0)
      × ((freeproc p).0.parent ≡ none)
      × ((freeproc p).0.state ≡ unused)
unfolding freeproc
freeproc-clean n p = (
  record {
    clean = λ u. (refl, refl, refl, refl);
    pid_range = λ u. absurd (u refl);
    prio = λ u. absurd (u refl);
  },
  refl,
  refl,
  refl,
)

freeproc-freed : (p : Proc) → p.pagetable ≡ 0 → (freeproc p).1 ≡ page_of p.trapframe
unfolding freeproc
freeproc-freed p e = elim (Bool-cases (p.trapframe == 0)) [
  | inl z ↦ ground arith
  | inr z ↦ ground arith
]

init_slot-AllocEnds :
    (page pt nextpid k : ℕ) (t : Table)
    → k < nproc
    → (t k).state ≡ unused
    → (t k).pagetable ≡ 0
    → AllocEnds page pt nextpid t (init_slot page pt k nextpid t)
unfolding init_slot fail_alloc
init_slot-AllocEnds page pt nextpid k t lt u clean = elim (Bool-cases (page == 0)) [
  | inl none_left ↦
      rw none_left (failed with_page (inl (ground arith)) (freeproc-freed with_page clean))
  | inr got ↦ elim (Bool-cases (pt == 0)) [
    | inl no_table ↦
        rw (got, no_table)
          (failed with_table (inr (ground arith)) (freeproc-freed with_table (ground arith)))
    | inr both ↦ rw (got, both) (allocated k lt u (ground arith) (ground arith) refl)
  ]
]
  where
    with_page : Proc
    with_page = record (t k) {
      pid = nextpid;
      state = used;
      priority = priority_of nextpid;
      trapframe = page;
    }

    with_table : Proc
    with_table = record with_page { pagetable = pt }

    failed :
        (q : Proc)
        → (page ≡ 0) ⊎ (pt ≡ 0)
        → (freeproc q).1 ≡ page_of page
        → AllocEnds page pt nextpid t (fail_alloc k ((nextpid + 1) % 2 ^ 32) q t)
    failed q why given =
        let (g, pid, parent, state) = freeproc-clean ((nextpid + 1) % 2 ^ 32) q in
        no_memory k (freeproc q).0 lt u why g (pid, parent, state)
          (ap
            (λ f. record {
              found = none;
              table = update t k (freeproc q).0;
              nextpid = (nextpid + 1) % 2 ^ 32;
              freed = f;
            })
            given)

allocproc_full :
    (page pt nextpid : ℕ) (t : Table)
    → find_unused nproc 0 t ≡ none
    → allocproc page pt nextpid t
      ≡ record { found = none; table = t; nextpid = nextpid; freed = [] }
unfolding allocproc
allocproc_full page pt nextpid t e = rw (e, allocproc) refl

allocproc_slot :
    (page pt nextpid k : ℕ) (t : Table)
    → find_unused nproc 0 t ≡ some k
    → allocproc page pt nextpid t ≡ init_slot page pt k nextpid t
unfolding allocproc
allocproc_slot page pt nextpid k t e = rw (e, allocproc) refl

-- On a table whose free slots are clean, `allocproc` ends in one of three ways: with no slot free it
-- changes nothing; if a page cannot be had it gives back the page that it got, and the slot is free and
-- clean again; and otherwise the slot is USED, with the next pid, the priority of its parity, and
-- both pages.
pub allocproc_lem :
    (page pt nextpid : ℕ) (t : Table)
    → ((j : ℕ) → j < nproc → Good nextpid (t j))
    → AllocEnds page pt nextpid t (allocproc page pt nextpid t)
allocproc_lem page pt nextpid t good = elim (find_unused_lem t) [
  | inl (all, e) ↦
      subst (AllocEnds page pt nextpid t) (sym (allocproc_full page pt nextpid t e))
        (no_slot all refl)
  | inr (k, lt, u, e) ↦
      subst (AllocEnds page pt nextpid t) (sym (allocproc_slot page pt nextpid k t e))
        (init_slot-AllocEnds page pt nextpid k t lt u ((good k lt).clean u).3)
]
