-- ===== src/Scheduler/Select.antt =====
-- The choice that a round of `scheduler` of kernel/proc.c makes.
use so_final_proyect.Prelude.{
  ℕ, zero, suc, ◌+◌, ◌≤◌, ◌<◌, ◌≡◌, ◌⊎◌, inl, inr, refl, subst, ap, sym, ◌∙◌, arith, true, false,
  Bool, Bool-cases, ◌==◌, if◌then◌else◌, ◌&&◌, Option, some, none, ok, update, update_self,
}
use mathlib.Core.Path.{fun_ext}
use so_final_proyect.Proc.{Proc, Table, nproc, is, runnable, running}
use so_final_proyect.Proc.States.{is-eq, is_of_eq}
use so_final_proyect.Scheduler.{Locks, release, beats, release_loser, select, schedule}

-- No lock is held, or the champion's alone.
abbrev pub champion_lock : Option (ℕ × Proc) → Locks
champion_lock none = λ _. false
champion_lock (some (j, q)) = λ i. i == j

-- Of the processes before `i` the champion is the first of those with the highest priority.
pub data Champion (t : Table) (i : ℕ) : Option (ℕ × Proc) → Type 0 where
  nobody : ((j : ℕ) → j < i → is (t j).state runnable ≡ false) → Champion t i none
  best :
      (k : ℕ) (p : Proc)
      → p ≡ t k
      → k < i
      → is p.state runnable ≡ true
      → ((j : ℕ) → j < i → is (t j).state runnable ≡ true → (t j).priority ≤ p.priority)
      → ((j : ℕ) → j < k → is (t j).state runnable ≡ true → (t j).priority < p.priority)
      → Champion t i (some (k, p))

below-suc : (i j : ℕ) → j < i + 1 → (j < i) ⊎ (j ≡ i)
below-suc i j h = omega arith

abbrev wins : Table → ℕ → Option (ℕ × Proc) → Bool
wins t i high = is (t i).state runnable && beats (t i) high

abbrev next_high : Table → ℕ → Option (ℕ × Proc) → Option (ℕ × Proc)
next_high t i high = if wins t i high then some (i, t i) else high

Champion-free :
    (t : Table) (i : ℕ) (high : Option (ℕ × Proc))
    → Champion t i high
    → champion_lock high i ≡ false
Champion-free t i none c = refl
Champion-free t i (some (k, p)) (best k' p' e lt r max first) = ground arith

Champion-step :
    (t : Table) (i : ℕ) (high : Option (ℕ × Proc))
    → Champion t i high
    → Champion t (i + 1) (next_high t i high)
Champion-step t i none (nobody all) = elim (Bool-cases (is (t i).state runnable)) [
  | inl r ↦ rw r (
      best i (t i) refl (omega arith) r (λ j lt rj. below_max j (below-suc i j lt) rj)
        (λ j lt rj. absurd (off j lt rj)))
  | inr r ↦ rw r (
      nobody (λ j lt. elim (below-suc i j lt) [
        | inl old ↦ all j old
        | inr e ↦ ap (λ n. is (t n).state runnable) e ∙ r
      ]))
]
  where
    off : (j : ℕ) → j < i → is (t j).state runnable ≡ true → ⊥
    off j lt rj = cc (all j lt)

    below_max :
        (j : ℕ)
        → (j < i) ⊎ (j ≡ i)
        → is (t j).state runnable ≡ true
        → (t j).priority ≤ (t i).priority
    below_max j (inl old) rj = absurd (off j old rj)
    below_max j (inr e) rj = omega (arith, ap (λ n. (t n).priority) e)
Champion-step t i (some (k, p)) (best k' p' e lt r max first) =
    elim (Bool-cases (wins t i (some (k, p)))) [
      | inl w ↦ rw w (
          best i (t i) refl (omega arith) (ground arith)
            (λ j jl rj. le_new (higher w) j (below-suc i j jl) rj)
            (λ j jl rj. omega (arith, max j jl rj, higher w)))
      | inr w ↦
          rw w
            (best k p e (omega arith) r (λ j jl rj. le_old (lower w) j (below-suc i j jl) rj) first)
    ]
  where
    higher : wins t i (some (k, p)) ≡ true → p.priority < (t i).priority
    higher w = ground arith

    lower :
        wins t i (some (k, p)) ≡ false
        → is (t i).state runnable ≡ true
        → (t i).priority ≤ p.priority
    lower w ri = ground arith

    le_new :
        p.priority < (t i).priority
        → (j : ℕ) → (j < i) ⊎ (j ≡ i)
        → is (t j).state runnable ≡ true
        → (t j).priority ≤ (t i).priority
    le_new h j (inl old) rj = omega (arith, max j old rj)
    le_new h j (inr e) rj = omega (arith, ap (λ n. (t n).priority) e)

    le_old :
        (is (t i).state runnable ≡ true → (t i).priority ≤ p.priority)
        → (j : ℕ) → (j < i) ⊎ (j ≡ i)
        → is (t j).state runnable ≡ true
        → (t j).priority ≤ p.priority
    le_old h j (inl old) rj = max j old rj
    le_old h j (inr e) rj =
        omega
          (arith, ap (λ n. (t n).priority) e, h (ap (λ n. is (t n).state runnable) (sym e) ∙ rj))

release-held : (i : ℕ) (l : Locks) → l i ≡ true → release i l ≡ ok (update l i false)
release-held i l h = rw h

-- The lock of the new champion is held in the end, and no other.
locks-winner :
    (i : ℕ) (p : Proc) (high : Option (ℕ × Proc))
    → champion_lock high i ≡ false
    → release_loser high (update (champion_lock high) i true) ≡ ok (champion_lock (some (i, p)))
locks-winner i p none free = ap ok (fun_ext λ j. ground arith)
locks-winner i p (some (k, q)) free =
    release-held k (update (λ n. n == k) i true) (ground arith) ∙ ap ok (fun_ext λ j. ground arith)

locks-loser :
    (i : ℕ) (high : Option (ℕ × Proc))
    → champion_lock high i ≡ false
    → release i (update (champion_lock high) i true) ≡ ok (champion_lock high)
locks-loser i high free =
    release-held i (update (champion_lock high) i true) (update_self (champion_lock high) i true)
    ∙ ap ok (fun_ext λ j. ground arith)

select-step :
    (left i : ℕ) (high : Option (ℕ × Proc)) (t : Table)
    → champion_lock high i ≡ false
    → select (suc left) i high (champion_lock high) t
      ≡ select left (i + 1) (next_high t i high) (champion_lock (next_high t i high)) t
unfolding select
select-step left i high t free = elim (Bool-cases (wins t i high)) [
  | inl w ↦ rw (free, w, locks-winner i (t i) high free)
  | inr w ↦ rw (free, w, locks-loser i high free)
]

select-Champion :
    (left i n : ℕ) (high : Option (ℕ × Proc)) (t : Table)
    → i + left ≡ n
    → Champion t i high
    → (h : Option (ℕ × Proc)) × (select left i high (champion_lock high) t
        ≡ ok (h, champion_lock h))
      × Champion t n h
unfolding select
select-Champion zero i n high t e c = (high, refl, subst (λ k. Champion t k high) (omega arith) c)
select-Champion (suc left) i n high t e c =
    let (h, runs, done) =
      select-Champion left (i + 1) n (next_high t i high) t (omega arith)
        (Champion-step t i high c) in
    (h, select-step left i high t (Champion-free t i high c) ∙ runs, done)

-- What a round of `scheduler` does, with no lock held at its start: it panics nowhere; if a process is
-- RUNNABLE it makes the first of those with the highest priority RUNNING, changes nothing else, and
-- holds that process's lock alone; and otherwise it changes nothing and holds no lock.
pub data Chosen (t : Table) : Option ℕ → Table → Locks → Type 0 where
  idle :
      {l : Locks}
      → ((j : ℕ) → j < nproc → is (t j).state runnable ≡ false)
      → l ≡ (λ _. false)
      → Chosen t none t l
  runs :
      (k : ℕ) {u : Table} {l : Locks}
      → k < nproc
      → (t k).state ≡ runnable
      → ((j : ℕ) → j < nproc → (t j).state ≡ runnable → (t j).priority ≤ (t k).priority)
      → ((j : ℕ) → j < k → (t j).state ≡ runnable → (t j).priority < (t k).priority)
      → u ≡ update t k (record (t k) { state = running })
      → l ≡ (λ i. i == k)
      → Chosen t (some k) u l

pub schedule_lem :
    (t : Table)
    → (high : Option ℕ) × (u : Table) × (l : Locks) × (schedule (λ _. false) t ≡ ok (high, u, l))
      × Chosen t high u l
unfolding schedule
schedule_lem t =
    let (h, found, c) =
      select-Champion nproc 0 nproc none t refl (nobody (λ j lt. absurd (omega arith))) in
    go h found c
  where
    go :
        (h : Option (ℕ × Proc))
        → select nproc 0 none (λ _. false) t ≡ ok (h, champion_lock h)
        → Champion t nproc h
        → (high : Option ℕ) × (u : Table) × (l : Locks) × (schedule (λ _. false) t
            ≡ ok (high, u, l))
          × Chosen t high u l
    go none found (nobody all) = (none, t, _, rw found, idle all refl)
    go (some (k, p)) found (best k' p' e lt r max first) = (
      some k,
      update t k (record p { state = running }),
      (λ i. i == k),
      rw found refl,
      runs k lt (is-eq (t k).state runnable (rw (← e) r))
          (λ j jl rj. rw (← e) (max j jl (is_of_eq rj)))
          (λ j jl rj. rw (← e) (first j jl (is_of_eq rj)))
          (ap (λ q. update t k (record q { state = running })) e) refl,
    )
