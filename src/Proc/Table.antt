-- ===== src/Proc/Table.antt =====
-- The loops of kernel/proc.c over the process table, entry by entry.
use so_final_proyect.Prelude.{
  ℕ, zero, suc, ◌+◌, ◌≤◌, ◌<◌, ◌≡◌, ◌≢◌, ◌⊎◌, inl, inr, refl, subst, sym, ◌∙◌, arith, true, false,
  Bool, Bool-cases, ◌==◌, if◌then◌else◌, ◌&&◌, Option, some, none, update, ℕ_discrete, ltb, not,
  sweep_lem,
}
use so_final_proyect.Prelude.Int.{pos, negsuc}
use so_final_proyect.Proc.States.{is-eq, is_of_eq}
use so_final_proyect.Proc.{
  Proc, Table, nproc, is, unused, sleeping, runnable, procinit, kstack_at, find_unused, wake, is_me,
  wakeup, kill_proc, kkill_from, kkill,
}

-- Every slot of the table is UNUSED after `procinit`, with a kernel stack of its own.
pub procinit_lem :
    (t : Table) (j : ℕ)
    → procinit t j
      ≡ (if ltb j nproc then record (t j) { state = unused; kstack = kstack_at j } else t j)
unfolding procinit
procinit_lem t j = sweep_lem nproc (λ i p. record p { state = unused; kstack = kstack_at i }) t j

-- `wakeup` makes RUNNABLE every process of the table that sleeps on the channel, the caller excepted,
-- and changes nothing else.
pub wakeup_lem :
    (chan : ℕ) (me : Option ℕ) (t : Table) (j : ℕ)
    → wakeup chan me t j ≡ (if ltb j nproc && not (is_me me j) then wake chan (t j) else t j)
unfolding wakeup
wakeup_lem chan me t j =
    sweep_lem nproc (λ i p. if is_me me i then p else wake chan p) t j
    ∙ both (ltb j nproc) (is_me me j)
  where
    both :
        (a b : Bool)
        → (if a then (if b then t j else wake chan (t j)) else t j)
          ≡ (if a && not b then wake chan (t j) else t j)
    both true true = refl
    both true false = refl
    both false true = refl
    both false false = refl

-- The first slot at or behind `i` whose pid is the one asked for.
pub record FirstPid (t : Table) (pid i k : ℕ) : Type 0 where
  pub after : i ≤ k
  pub inside : k < nproc
  pub has_pid : (t k).pid ≡ pid
  pub first : (j : ℕ) → i ≤ j → j < k → (t j).pid ≢ pid

pub at_or_after : (P : ℕ → Type 0) (i j : ℕ) → P i → (i + 1 ≤ j → P j) → i ≤ j → P j
at_or_after P i j here rest le = elim (ℕ_discrete i j) [
  | yes e ↦ subst P e here
  | no ne ↦ rest (omega arith)
]

kkill_from_lem :
    (left i pid : ℕ) (t : Table)
    → i + left ≡ nproc
    → (((j : ℕ) → i ≤ j → j < nproc → (t j).pid ≢ pid) × (kkill_from left i pid t ≡ (negsuc 0, t)))
      ⊎ ((k : ℕ) × FirstPid t pid i k
          × (kkill_from left i pid t ≡ (pos 0, update t k (kill_proc (t k)))))
unfolding kkill_from
kkill_from_lem zero i pid t e = inl (λ j ij jn. absurd (omega arith), refl)
kkill_from_lem (suc left) i pid t e = elim (Bool-cases ((t i).pid == pid)) [
  | inl here ↦ inr (
    i,
    record {
      after = omega arith;
      inside = omega arith;
      has_pid = ground arith;
      first = λ j ij jk. absurd (omega arith);
    },
    rw here refl,
  )
  | inr other ↦ elim (kkill_from_lem left (i + 1) pid t (omega arith)) [
    | inl (all, r) ↦ inl (
      λ j ij jn. at_or_after (λ k. (t k).pid ≢ pid) i j (ground arith) (λ p. all j p jn) ij,
      rw other r,
    )
    | inr (k, f, r) ↦ inr (
      k,
      record {
        after = omega (arith, f.after);
        inside = f.inside;
        has_pid = f.has_pid;
        first = λ j ij jk.
            at_or_after (λ l. (t l).pid ≢ pid) i j (ground arith) (λ p. f.first j p jk) ij;
      },
      rw other r,
    )
  ]
]

-- A process before and after it is marked.
pub record Killed (p q : Proc) : Type 0 where
  pub woken : p.state ≡ sleeping → q ≡ record p { killed = 1; state = runnable }
  pub awake : p.state ≢ sleeping → q ≡ record p { killed = 1 }

kill_proc-Killed : (p : Proc) → Killed p (kill_proc p)
kill_proc-Killed p = record {
  woken = λ e. rw e refl;
  awake = λ ne. elim (Bool-cases (is p.state sleeping)) [
    | inl z ↦ absurd (ne (is-eq _ _ z))
    | inr z ↦ rw z refl
  ];
}

pub kill_proc_unique : (p q : Proc) → Killed p q → kill_proc p ≡ q
kill_proc_unique p q k = elim (Bool-cases (is p.state sleeping)) [
  | inl z ↦ rw z (sym (k.woken (is-eq _ _ z)))
  | inr z ↦ rw z (sym (k.awake (λ e. cc (sym z ∙ is_of_eq e))))
]

-- `kkill` returns -1 and changes nothing if no process of the table has the pid; otherwise it returns 0,
-- marks the first one that has it killed, and makes it RUNNABLE exactly if it slept. Nothing else of
-- it changes, and no other process.
pub kkill_lem :
    (pid : ℕ) (t : Table)
    → (((j : ℕ) → j < nproc → (t j).pid ≢ pid) × (kkill pid t ≡ (negsuc 0, t)))
      ⊎ ((k : ℕ) × (q : Proc) × FirstPid t pid 0 k
          × Killed (t k) q
          × (kkill pid t ≡ (pos 0, update t k q)))
unfolding kkill
kkill_lem pid t = elim (kkill_from_lem nproc 0 pid t refl) [
  | inl (all, r) ↦ inl (λ j jn. all j (omega arith) jn, r)
  | inr (k, f, r) ↦ inr (k, kill_proc (t k), f, kill_proc-Killed (t k), r)
]

find_unused-lem :
    (left i : ℕ) (t : Table)
    → i + left ≡ nproc
    → (((j : ℕ) → i ≤ j → j < nproc → (t j).state ≢ unused) × (find_unused left i t ≡ none))
      ⊎ ((k : ℕ) × (i ≤ k) × (k < nproc) × ((t k).state ≡ unused) × (find_unused left i t ≡ some k))
unfolding find_unused
find_unused-lem zero i t e = inl (λ j ij jn. absurd (omega arith), refl)
find_unused-lem (suc left) i t e = elim (Bool-cases (is (t i).state unused)) [
  | inl here ↦ inr (i, omega arith, omega arith, is-eq _ _ here, rw here refl)
  | inr other ↦ elim (find_unused-lem left (i + 1) t (omega arith)) [
    | inl (all, r) ↦ inl (
      λ j ij jn.
          at_or_after (λ k. (t k).state ≢ unused) i j (λ q. cc (sym other ∙ is_of_eq q))
            (λ p. all j p jn) ij,
      rw other r,
    )
    | inr (k, ik, kn, u, r) ↦ inr (k, omega arith, kn, u, rw other r)
  ]
]

pub find_unused_lem :
    (t : Table)
    → (((j : ℕ) → j < nproc → (t j).state ≢ unused) × (find_unused nproc 0 t ≡ none))
      ⊎ ((k : ℕ) × (k < nproc) × ((t k).state ≡ unused) × (find_unused nproc 0 t ≡ some k))
find_unused_lem t = elim (find_unused-lem nproc 0 t refl) [
  | inl (all, r) ↦ inl (λ j jn. all j (omega arith) jn, r)
  | inr (k, _, kn, u, r) ↦ inr (k, kn, u, r)
]
