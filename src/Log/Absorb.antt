-- ===== src/Log/Absorb.antt =====
-- The list of blocks of kernel/log.c, in which `log_write` absorbs a block that it has already.
use so_final_proyect.Prelude.{
  ℕ, suc, ◌+◌, ◌*◌, ◌≤◌, ◌<◌, ◌≡◌, ◌≢◌, ◌⊎◌, inl, inr, refl, ap, sym, subst, arith, Bool-cases,
  true, false, List, [], ◌∷◌, ◌++◌, All, All-append, Among, Distinct, length, length-append, set,
  ◌==◌,
}
use so_final_proyect.Log.{maxopblocks, index_of, store}

abbrev pub sum : List ℕ → ℕ
sum [] = 0
sum (x ∷ xs) = x + sum xs

pub sum-append : (xs ys : List ℕ) → sum (xs ++ ys) ≡ sum xs + sum ys
sum-append [] ys = omega arith
sum-append (x ∷ xs) ys = omega (arith, sum-append xs ys)

pub sum-bound : (xs : List ℕ) → All (λ x. x ≤ maxopblocks) xs → sum xs ≤ length xs * maxopblocks
sum-bound [] h = omega arith
sum-bound (x ∷ xs) h = omega (arith, sum-bound xs h.1, h.0)

pub All-left : (P : ℕ → Type 0) (xs ys : List ℕ) → All P (xs ++ ys) → All P xs
All-left P [] ys h = tt
All-left P (x ∷ xs) ys h = (h.0, All-left P xs ys h.1)

pub All-right : (P : ℕ → Type 0) (xs ys : List ℕ) → All P (xs ++ ys) → All P ys
All-right P [] ys h = h
All-right P (x ∷ xs) ys h = All-right P xs ys h.1

-- Where the loop of `log_write` stops.
pub index_of_lem :
    (b : ℕ) (lh : List ℕ)
    → (Among b lh × (index_of b lh < length lh) × (set lh (index_of b lh) b ≡ lh))
      ⊎ (All (λ x. x ≢ b) lh × (index_of b lh ≡ length lh))
unfolding index_of
index_of_lem b [] = inr (tt, refl)
index_of_lem b (x ∷ xs) = elim (Bool-cases (x == b)) [
  | inl e ↦ rw e (inl (inl (ground arith), omega arith, ap (λ y. y ∷ xs) (ground arith)))
  | inr e ↦ rw e (later (index_of_lem b xs) (ground arith))
]
  where
    next_index : (n : ℕ) → suc n ≡ n + 1
    next_index n = omega arith

    later :
        (Among b xs × (index_of b xs < length xs) × (set xs (index_of b xs) b ≡ xs))
          ⊎ (All (λ x. x ≢ b) xs × (index_of b xs ≡ length xs))
        → x ≢ b
        → (Among b (x ∷ xs)
            × (index_of b xs + 1 < length (x ∷ xs))
            × (set (x ∷ xs) (index_of b xs + 1) b ≡ x ∷ xs))
          ⊎ (All (λ x. x ≢ b) (x ∷ xs) × (index_of b xs + 1 ≡ length (x ∷ xs)))
    later (inl (m, lt, same)) ne = inl (
      inr m,
      omega (arith, lt),
      subst (λ i. set (x ∷ xs) i b ≡ x ∷ xs) (next_index (index_of b xs)) (ap (λ ys. x ∷ ys) same),
    )
    later (inr (out, e)) ne = inr ((ne, out), omega (arith, e))

-- Absorption: a block that is in the list already stays where it is, and another one joins it at the end.
pub store_lem :
    (b : ℕ) (lh : List ℕ)
    → (Among b lh × (store (index_of b lh) b lh ≡ lh))
      ⊎ (All (λ x. x ≢ b) lh × (store (index_of b lh) b lh ≡ lh ++ (b ∷ [])))
store_lem b lh = elim (index_of_lem b lh) [
  | inl (m, lt, same) ↦ inl (m, rw (inside lt) same)
  | inr (out, e) ↦ inr (out, rw (at_end e))
]
  where
    inside : {i n : ℕ} → i < n → (i == n) ≡ false
    inside lt = ground arith

    at_end : {i n : ℕ} → i ≡ n → (i == n) ≡ true
    at_end e = ground arith

Distinct-snoc :
    (b : ℕ) (lh : List ℕ) → Distinct lh → All (λ x. x ≢ b) lh → Distinct (lh ++ (b ∷ []))
Distinct-snoc b [] d out = (tt, tt)
Distinct-snoc b (x ∷ xs) d out = (
  All-append (λ y. y ≢ x) xs (b ∷ []) d.0 ((λ e. out.0 (sym e)), tt),
  Distinct-snoc b xs d.1 out.1,
)

-- What `log_write` makes of the list: no block twice, none less and at most one more.
pub stored :
    (b : ℕ) (lh : List ℕ)
    → Distinct lh
    → Distinct (store (index_of b lh) b lh)
      × (length (store (index_of b lh) b lh) ≤ length lh + 1)
      × (length lh ≤ length (store (index_of b lh) b lh))
stored b lh d = elim (store_lem b lh) [
  | inl (m, e) ↦ subst P (sym e) (d, omega arith, omega arith)
  | inr (out, e) ↦ subst P (sym e) (
    Distinct-snoc b lh d out,
    omega (arith, length-append lh (b ∷ [])),
    omega (arith, length-append lh (b ∷ [])),
  )
]
  where
    P : List ℕ → Type 0
    P xs = Distinct xs × (length xs ≤ length lh + 1) × (length lh ≤ length xs)
