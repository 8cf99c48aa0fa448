-- ===== src/Proc/Wait.antt =====
-- `kwait` of kernel/proc.c.
use so_final_proyect.Prelude.{
  ℕ, zero, suc, ◌+◌, ◌≤◌, ◌<◌, ◌≡◌, ◌≢◌, ◌⊎◌, inl, inr, refl, ap, ◌∙◌, List, [], arith, true, false,
  Bool, Bool-cases, ◌==◌, if◌then◌else◌, ◌&&◌, ◌||◌, Option, some, none, update, not,
}
use so_final_proyect.Prelude.Int.{pos, negsuc}
use so_final_proyect.Proc.{
  Table, nproc, is, zombie, is_child, Scan, reap, kids, kwait_scan, kwait, freeproc, Freed, Waited,
  returned, asleep,
}
use so_final_proyect.Proc.States.{is-eq, is_of_eq}
use so_final_proyect.Proc.Table.{at_or_after}

is_child-eq : (o : Option ℕ) (p : ℕ) → is_child o p ≡ true → o ≡ some p
is_child-eq none p h = cc
is_child-eq (some q) p h = ap some (ground arith)

-- What a scan from `i` finds: a zombie child, or whether there are children, none of them a zombie.
pub data Found (t : Table) (p i : ℕ) (seen : Bool) : Scan → Type 0 where
  zombie_child :
      (k : ℕ) → k < nproc → (t k).parent ≡ some p → (t k).state ≡ zombie → Found t p i seen (reap k)
  no_zombie :
      (b : Bool)
      → ((j : ℕ) → i ≤ j → j < nproc → (t j).parent ≡ some p → (b ≡ true) × ((t j).state ≢ zombie))
      → (seen ≡ true → b ≡ true)
      → (b ≡ true → (seen ≡ true) ⊎ ((j : ℕ) × (j < nproc) × ((t j).parent ≡ some p)))
      → Found t p i seen (kids b)

kwait_scan-Found :
    (left i p : ℕ) (seen : Bool) (t : Table)
    → i + left ≡ nproc
    → Found t p i seen (kwait_scan left i p seen t)
unfolding kwait_scan
kwait_scan-Found zero i p seen t e =
    no_zombie seen (λ j ij jn. absurd (omega arith)) (λ s. s) (λ s. inl s)
kwait_scan-Found (suc left) i p seen t e =
    elim (Bool-cases (is_child (t i).parent p && is (t i).state zombie)) [
      | inl hit ↦ rw hit (
          zombie_child i (omega arith) (is_child-eq _ p (ground arith))
            (is-eq _ zombie (ground arith)))
      | inr miss ↦ rw miss (
          go miss
            (kwait_scan-Found left (i + 1) p (seen || is_child (t i).parent p) t (omega arith)))
    ]
  where
    is_child_of : {o : Option ℕ} → o ≡ some p → is_child o p ≡ true
    is_child_of {o} q = rw q (ground arith)

    both_and : {a b : Bool} → a ≡ true → b ≡ true → (a && b) ≡ false → ⊥
    both_and p q r = cc

    either : (a b : Bool) → (a || b) ≡ true → (a ≡ true) ⊎ (b ≡ true)
    either a b h = ground arith

    go :
        {r : Scan}
        → (is_child (t i).parent p && is (t i).state zombie) ≡ false
        → Found t p (i + 1) (seen || is_child (t i).parent p) r
        → Found t p i seen r
    go m (zombie_child k lt par z) = zombie_child k lt par z
    go m (no_zombie b all up down) =
        no_zombie b
          (λ j ij jn.
            at_or_after (λ k. (t k).parent ≡ some p → (b ≡ true) × ((t k).state ≢ zombie)) i j
              (λ par.
                (up (or_right (is_child_of par)), λ z. both_and (is_child_of par) (is_of_eq z) m))
              (λ le. all j le jn) ij)
          (λ s. up (or_left s))
          (λ bt. elim (down bt) [
            | inl s ↦ elim (either seen (is_child (t i).parent p) s) [
              | inl a ↦ inl a
              | inr c ↦ inr (i, omega arith, is_child-eq _ p c)
            ]
            | inr found ↦ inr found
          ])
      where
        or_left : seen ≡ true → (seen || is_child (t i).parent p) ≡ true
        or_left s = rw s refl

        or_right : is_child (t i).parent p ≡ true → (seen || is_child (t i).parent p) ≡ true
        or_right c = ground arith

kwait_reap :
    (p k : ℕ) (fails : Bool) (t : Table)
    → kwait_scan nproc 0 p false t ≡ reap k
    → kwait p fails t ≡ (
        if fails
        then (returned (negsuc 0), t, [])
        else (returned (pos (t k).pid), update t k (freeproc (t k)).0, (freeproc (t k)).1))
unfolding kwait
kwait_reap p k fails t e = rw (e, kwait) refl

kwait_kids :
    (p : ℕ) (b fails : Bool) (t : Table)
    → kwait_scan nproc 0 p false t ≡ kids b
    → kwait p fails t
      ≡ (if not b || not ((t p).killed == 0) then (returned (negsuc 0), t, []) else (asleep, t, []))
unfolding kwait
kwait_kids p b fails t e = rw (e, kwait) refl

-- How a round of `kwait` by `p` ends.
pub data WaitEnds (p : ℕ) (fails : Bool) (t : Table) (r : Waited × Table × List Freed)
    : Type 0 where
  -- a zombie child is freed and its pid returned
  reaped :
      (k : ℕ)
      → k < nproc
      → (t k).parent ≡ some p
      → (t k).state ≡ zombie
      → fails ≡ false
      → r ≡ (returned (pos (t k).pid), update t k (freeproc (t k)).0, (freeproc (t k)).1)
      → WaitEnds p fails t r
  -- there is a zombie child, but its status cannot be stored: it stays a zombie
  unstored :
      (k : ℕ)
      → k < nproc
      → (t k).parent ≡ some p
      → (t k).state ≡ zombie
      → fails ≡ true
      → r ≡ (returned (negsuc 0), t, [])
      → WaitEnds p fails t r
  -- no child at all, or the process was killed and no child is a zombie
  refused :
      ((j : ℕ) → j < nproc → (t j).parent ≡ some p → (t j).state ≢ zombie)
      → ((j : ℕ) → j < nproc → (t j).parent ≢ some p) ⊎ ((t p).killed ≢ 0)
      → r ≡ (returned (negsuc 0), t, [])
      → WaitEnds p fails t r
  -- there are children, none of them a zombie: sleep
  sleeps :
      ((j : ℕ) → j < nproc → (t j).parent ≡ some p → (t j).state ≢ zombie)
      → ((j : ℕ) × (j < nproc) × ((t j).parent ≡ some p))
      → (t p).killed ≡ 0
      → r ≡ (asleep, t, [])
      → WaitEnds p fails t r

-- A round of `kwait` ends in one of four ways: with a zombie child freed and its pid returned; with -1 and
-- no change because the status of a zombie child cannot be stored; with -1 and no change because there
-- is no child, or no zombie child and the caller was killed; or asleep, with children and no zombie
-- among them.
pub kwait_lem : (p : ℕ) (fails : Bool) (t : Table) → WaitEnds p fails t (kwait p fails t)
kwait_lem p fails t =
    go (kwait_scan nproc 0 p false t) refl (kwait_scan-Found nproc 0 p false t refl)
  where
    go :
        (s : Scan)
        → kwait_scan nproc 0 p false t ≡ s
        → Found t p 0 false s
        → WaitEnds p fails t (kwait p fails t)
    go s e (zombie_child k lt par z) = elim (Bool-cases fails) [
      | inl f ↦ unstored k lt par z f (
          kwait_reap p k fails t e
          ∙ ap
              (λ b.
                if b
                then (returned (negsuc 0), t, [])
                else (returned (pos (t k).pid), update t k (freeproc (t k)).0, (freeproc (t k)).1))
              f)
      | inr f ↦ reaped k lt par z f (
          kwait_reap p k fails t e
          ∙ ap
              (λ b.
                if b
                then (returned (negsuc 0), t, [])
                else (returned (pos (t k).pid), update t k (freeproc (t k)).0, (freeproc (t k)).1))
              f)
    ]
    go s e (no_zombie b all up down) = elim (Bool-cases (not b || not ((t p).killed == 0))) [
      | inl f ↦
          refused (λ j lt par. (all j (omega arith) lt par).1) (why b f all)
            (kwait_kids p b fails t e
              ∙ ap (λ c. if c then (returned (negsuc 0), t, []) else (asleep, t, [])) f)
      | inr f ↦
          sleeps (λ j lt par. (all j (omega arith) lt par).1) (child b f down) (ground arith)
            (kwait_kids p b fails t e
              ∙ ap (λ c. if c then (returned (negsuc 0), t, []) else (asleep, t, [])) f)
    ]
      where
        why :
            (c : Bool)
            → (not c || not ((t p).killed == 0)) ≡ true
            → ((j : ℕ)
                → 0 ≤ j
                → j < nproc
                → (t j).parent ≡ some p
                → (c ≡ true) × ((t j).state ≢ zombie))
            → ((j : ℕ) → j < nproc → (t j).parent ≢ some p) ⊎ ((t p).killed ≢ 0)
        why true f every = inr (ground arith)
        why false f every = inl (λ j lt par. cc ((every j (omega arith) lt par).0))

        child :
            (c : Bool)
            → (not c || not ((t p).killed == 0)) ≡ false
            → (c ≡ true → (false ≡ true) ⊎ ((j : ℕ) × (j < nproc) × ((t j).parent ≡ some p)))
            → (j : ℕ) × (j < nproc) × ((t j).parent ≡ some p)
        child true f d = elim (d refl) [ inl x ↦ absurd (cc x) | inr found ↦ found ]
        child false f d = absurd (cc f)
