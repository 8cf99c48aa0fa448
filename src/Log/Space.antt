-- ===== src/Log/Space.antt =====
-- The operations that kernel/log.c lets begin have room in the log for all that they write.
use so_final_proyect.Prelude.{
  ℕ, suc, ◌+◌, ◌-◌, ◌*◌, ◌≤◌, ◌≡◌, ◌≢◌, ◌⊎◌, ◌↔◌, inl, inr, refl, ap, sym, ◌∙◌, subst, arith, Bool,
  Bool-cases, true, false, List, [], ◌∷◌, ◌++◌, All, All-append, Among, Distinct, length,
  length-append, nil_of_length, ltb, leb, ◌==◌, ok, ok_inj,
}
use so_final_proyect.Log.{
  Log, Buffers, begun, maxopblocks, logblocks, begin_op, end_op, end_commit, commit, index_of,
  store, log_write,
}
use so_final_proyect.Log.Crash.{commit-log}
use so_final_proyect.Log.Absorb.{sum, sum-append, sum-bound, All-left, All-right, store_lem, stored}

-- `budgets` has, for each operation that has begun and not ended, the number of blocks that it may
-- still add to the list of the log. A `log_write` that absorbs its block costs the operation nothing.
pub record System : Type 0 where
  pub log : Log
  pub budgets : List ℕ

-- What is left of a budget of `m + 1` blocks when the list goes from `lh` to `lh'`.
abbrev pub budget_left : ℕ → List ℕ → List ℕ → ℕ
budget_left m lh lh' = suc m + length lh - length lh'

pub data Step (s : System) : System → Type 0 where
  begins :
      (l : Log)
      → begin_op s.log ≡ begun l
      → Step s (record { log = l; budgets = maxopblocks ∷ s.budgets })
  logs :
      (xs : List ℕ) (m : ℕ) (ys : List ℕ) (b : ℕ) (l : Log)
      → s.budgets ≡ xs ++ (suc m ∷ ys)
      → log_write b s.log ≡ ok l
      → Step s (record { log = l; budgets = xs ++ (budget_left m s.log.lh l.lh ∷ ys) })
  ends :
      (xs : List ℕ) (m : ℕ) (ys : List ℕ) (last : Bool) (l : Log)
      → s.budgets ≡ xs ++ (m ∷ ys)
      → end_op s.log ≡ ok (last, l)
      → Step s (record { log = l; budgets = xs ++ ys })
  commits :
      (start : ℕ) (bufs : Buffers)
      → s.log.committing ≡ true
      → Step s (record { log = end_commit (commit start s.log bufs).0; budgets = s.budgets })

pub data Reach (s : System) : System → Type 0 where
  here : Reach s s
  next : {t u : System} → Reach s t → Step t u → Reach s u

-- Each operation underway counts, none is while a commit is, and the log has room for what each may
-- still write.
pub record Inv (s : System) : Type 0 where
  pub count : s.log.outstanding ≡ length s.budgets
  pub alone : s.log.committing ≡ true → s.budgets ≡ []
  pub room : length s.log.lh + sum s.budgets ≤ logblocks
  pub limits : All (λ m. m ≤ maxopblocks) s.budgets
  pub distinct : Distinct s.log.lh

-- `log_write` by an operation that may still write.
log_write_ok :
    (s : System) (xs : List ℕ) (m : ℕ) (ys : List ℕ) (b : ℕ)
    → Inv s
    → s.budgets ≡ xs ++ (suc m ∷ ys)
    → log_write b s.log ≡ ok (record s.log { lh = store (index_of b s.log.lh) b s.log.lh })
unfolding log_write
log_write_ok s xs m ys b v e = rw (room, some_op)
  where
    total : sum s.budgets ≡ sum xs + (suc m + sum ys)
    total = ap sum e ∙ sum-append xs (suc m ∷ ys)

    ops : length s.budgets ≡ length xs + suc (length ys)
    ops = ap length e ∙ length-append xs (suc m ∷ ys)

    room : leb logblocks (length s.log.lh) ≡ false
    room = ground (arith, v.room, total)

    some_op : ltb s.log.outstanding 1 ≡ false
    some_op = ground (arith, v.count, ops)

-- `end_op` by an operation underway.
end_op_ok :
    (s : System) (xs : List ℕ) (m : ℕ) (ys : List ℕ)
    → Inv s
    → s.budgets ≡ xs ++ (m ∷ ys)
    → (last : Bool) × (end_op s.log
        ≡ ok (last, record s.log { outstanding = length (xs ++ ys); committing = last }))
      × ((last ≡ true) ↔ (xs ++ ys ≡ []))
end_op_ok s xs m ys v e = elim (Bool-cases (length (xs ++ ys) == 0)) [
  | inl z ↦ (true, rw (idle, lower, z), (λ t. nil_of_length (xs ++ ys) (ground arith), λ n. refl))
  | inr z ↦ (
    false,
    rw (idle, lower, z),
    (λ t. absurd (cc t), λ n. absurd (cc (sym z ∙ ap (λ (l : List ℕ). length l == 0) n))),
  )
]
  where
    ops : length s.budgets ≡ length (xs ++ ys) + 1
    ops = omega (arith, ap length e, length-append xs (m ∷ ys), length-append xs ys)

    idle : s.log.committing ≡ false
    idle = elim (Bool-cases s.log.committing) [
      | inl c ↦ absurd (omega (arith, ops, ap length (v.alone c)))
      | inr c ↦ c
    ]

    lower : s.log.outstanding - 1 ≡ length (xs ++ ys)
    lower = omega (arith, v.count, ops)

begin_ok :
    (l k : Log)
    → begin_op l ≡ begun k
    → (l.committing ≡ false)
      × (length l.lh + (l.outstanding + 1) * maxopblocks ≤ logblocks)
      × (k ≡ record l { outstanding = l.outstanding + 1 })
begin_ok l k e = ground arith

Step-Inv : {s u : System} → Step s u → Inv s → Inv u
Step-Inv {s} (Step.begins l e) v =
    let (idle, fits, is) = begin_ok s.log l e in
    subst (λ k. Inv (record { log = k; budgets = maxopblocks ∷ s.budgets })) (sym is)
      (record {
        count = omega (arith, v.count);
        alone = λ c. absurd (cc (sym idle ∙ c));
        room = omega (arith, fits, v.count, sum-bound s.budgets v.limits);
        limits = (omega arith, v.limits);
        distinct = v.distinct;
      })
Step-Inv {s} (Step.logs xs m ys b l e is) v =
    subst (λ k. Inv (record { log = k; budgets = xs ++ (budget_left m s.log.lh k.lh ∷ ys) }))
      (ok_inj (sym (log_write_ok s xs m ys b v e) ∙ is))
      (record {
        count = omega (
          arith,
          v.count,
          ap length e,
          length-append xs (suc m ∷ ys),
          length-append xs (budget_left m s.log.lh (store (index_of b s.log.lh) b s.log.lh) ∷ ys),
        );
        alone = λ c.
            absurd
              (omega (arith, ap length (v.alone c), ap length e, length-append xs (suc m ∷ ys)));
        room = omega (
          arith,
          v.room,
          ap sum e,
          sum-append xs (suc m ∷ ys),
          sum-append xs (budget_left m s.log.lh (store (index_of b s.log.lh) b s.log.lh) ∷ ys),
          (stored b s.log.lh v.distinct).1,
          (stored b s.log.lh v.distinct).2,
        );
        limits =
            All-append _ xs (budget_left m s.log.lh (store (index_of b s.log.lh) b s.log.lh) ∷ ys)
              (All-left _ xs _ limits)
              (
                omega (
                  arith,
                  (All-right _ xs (suc m ∷ ys) limits).0,
                  (stored b s.log.lh v.distinct).2,
                ),
                (All-right _ xs (suc m ∷ ys) limits).1,
              );
        distinct = (stored b s.log.lh v.distinct).0;
      })
  where
    limits : All (λ n. n ≤ maxopblocks) (xs ++ (suc m ∷ ys))
    limits = subst (All (λ n. n ≤ maxopblocks)) e v.limits
Step-Inv {s} (Step.ends xs m ys last l e is) v =
    let (b, runs, alone) = end_op_ok s xs m ys v e in
    let same = ok_inj (sym runs ∙ is) in
    subst (λ k. Inv (record { log = k; budgets = xs ++ ys })) (ap (λ (r : Bool × Log). r.1) same)
      (record {
        count = refl;
        alone = alone.0;
        room = omega (arith, v.room, ap sum e, sum-append xs (m ∷ ys), sum-append xs ys);
        limits = All-append _ xs ys (All-left _ xs _ limits) (All-right _ xs (m ∷ ys) limits).1;
        distinct = v.distinct;
      })
  where
    limits : All (λ n. n ≤ maxopblocks) (xs ++ (m ∷ ys))
    limits = subst (All (λ n. n ≤ maxopblocks)) e v.limits
Step-Inv {s} (Step.commits start bufs c) v =
    subst (λ k. Inv (record { log = end_commit k; budgets = s.budgets }))
      (sym (commit-log start s.log bufs))
      (record {
        count = v.count;
        alone = λ z. absurd (cc z);
        room = omega (arith, v.room);
        limits = v.limits;
        distinct = tt;
      })

-- After `initlog`: no operation is underway, and the list is empty.
abbrev pub start : System
start = record { log = record { outstanding = 0; committing = false; lh = [] }; budgets = [] }

start-Inv : Inv start
start-Inv = record {
  count = refl;
  alone = λ c. refl;
  room = omega arith;
  limits = tt;
  distinct = tt;
}

Reach-Inv : {s u : System} → Reach s u → Inv s → Inv u
Reach-Inv here v = v
Reach-Inv (next r st) v = Step-Inv st (Reach-Inv r v)

-- From the start on, any operations begin, call `log_write` and end, and commits run, in any order;
-- an operation calls `log_write` any number of times, as long as its calls have made the list grow by
-- fewer than MAXOPBLOCKS blocks before each of them (a call that is absorbed does not count). Then
-- such a call of `log_write` does not panic. The list names no block twice and at most LOGBLOCKS of
-- them, before and after; the block joins it at the end, or is in it already and the list stays as
-- it is.
pub log_write_safe :
    {u : System}
    → Reach start u
    → (xs : List ℕ) (m : ℕ) (ys : List ℕ) (b : ℕ) → u.budgets ≡ xs ++ (suc m ∷ ys)
    → Distinct u.log.lh
      × (lh : List ℕ) × (log_write b u.log ≡ ok (record u.log { lh = lh }))
      × ((Among b u.log.lh × (lh ≡ u.log.lh))
          ⊎ (All (λ x. x ≢ b) u.log.lh × (lh ≡ u.log.lh ++ (b ∷ []))))
      × Distinct lh
      × (length lh ≤ logblocks)
log_write_safe {u} r xs m ys b e = (
  v.distinct,
  store (index_of b u.log.lh) b u.log.lh,
  log_write_ok u xs m ys b v e,
  store_lem b u.log.lh,
  (stored b u.log.lh v.distinct).0,
  omega (arith, (stored b u.log.lh v.distinct).1, v.room, ap sum e, sum-append xs (suc m ∷ ys)),
)
  where
    v : Inv u
    v = Reach-Inv r start-Inv

-- From the start on, any operations begin, call `log_write` and end, and commits run, in any order;
-- an operation calls `log_write` any number of times, as long as its calls have made the list grow by
-- fewer than MAXOPBLOCKS blocks before each of them (a call that is absorbed does not count). Then
-- `end_op` by an operation underway does not panic, lowers `outstanding` by one, and goes on to
-- `commit` exactly if no other operation is underway.
pub end_op_safe :
    {u : System}
    → Reach start u
    → (xs : List ℕ) (m : ℕ) (ys : List ℕ) → u.budgets ≡ xs ++ (m ∷ ys)
    → (u.log.outstanding ≡ length (xs ++ ys) + 1)
      × ((last : Bool) × (end_op u.log
            ≡ ok (last, record u.log { outstanding = length (xs ++ ys); committing = last }))
          × ((last ≡ true) ↔ (xs ++ ys ≡ [])))
end_op_safe {u} r xs m ys e = (
  omega (arith, v.count, ap length e, length-append xs (m ∷ ys), length-append xs ys),
  end_op_ok u xs m ys v e,
)
  where
    v : Inv u
    v = Reach-Inv r start-Inv
