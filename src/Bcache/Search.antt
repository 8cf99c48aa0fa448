-- ===== src/Bcache/Search.antt =====
-- What `bget` of kernel/bio.c finds in the list, from the front and from the back.
use so_final_proyect.Prelude.{
  ℕ, zero, suc, ◌+◌, ◌≤◌, ◌≡◌, ◌≢◌, inl, inr, refl, ap, sym, ◌∙◌, subst, arith, Bool, Bool-cases,
  true, false, Option, none, some, List, [], ◌∷◌, ◌++◌, All, All-append, length, length-append,
  if◌then◌else◌, ◌==◌,
}
use so_final_proyect.Bcache.{Bcache, nbuf, head, is_block, find_from, unused_from, reuse, bget}
use so_final_proyect.Bcache.Rings.{Links, Seg, Seg-join}
use so_final_proyect.Bcache.Moves.{Ring}

-- The first node of a list that passes a test.
abbrev pub first_that : (ℕ → Bool) → List ℕ → Option ℕ
first_that test [] = none
first_that test (x ∷ xs) = if test x then some x else first_that test xs

abbrev pub rev : List ℕ → List ℕ
rev [] = []
rev (x ∷ xs) = rev xs ++ (x ∷ [])

Seg-rev : (n p : Links) (a : ℕ) (xs : List ℕ) (c : ℕ) → Seg n p a xs c → Seg p n c (rev xs) a
Seg-rev n p a [] c s = (s.1, s.0)
Seg-rev n p a (x ∷ xs) c s = Seg-join p n c (rev xs) x [] a (Seg-rev n p x xs c s.2) (s.1, s.0)

length-rev : (xs : List ℕ) → length (rev xs) ≡ length xs
length-rev [] = refl
length-rev (x ∷ xs) = omega (arith, length-append (rev xs) (x ∷ []), length-rev xs)

rev-All : (P : ℕ → Type 0) (xs : List ℕ) → All P xs → All P (rev xs)
rev-All P [] h = tt
rev-All P (x ∷ xs) h = All-append P (rev xs) (x ∷ []) (rev-All P xs h.1) (h.0, tt)

-- The two loops, on a list with an end that is no buffer and with fuel for it.
find_from-Seg :
    (fuel a : ℕ) (xs : List ℕ) (t : Bcache) (dev blockno : ℕ)
    → Seg t.next t.prev a xs head
    → All (λ x. x ≢ head) xs
    → length xs + 1 ≤ fuel
    → find_from fuel (t.next a) dev blockno t ≡ first_that (λ b. is_block dev blockno (t.buf b)) xs
unfolding find_from
find_from-Seg zero a xs t dev blockno s off le = absurd (omega (arith, le))
find_from-Seg (suc fuel) a [] t dev blockno s off le = rw s.0 refl
find_from-Seg (suc fuel) a (x ∷ xs) t dev blockno s off le =
    let rest = find_from-Seg fuel x xs t dev blockno s.2 off.1 (omega (arith, le)) in
    subst
      (λ b.
        find_from (suc fuel) b dev blockno t
        ≡ first_that (λ b. is_block dev blockno (t.buf b)) (x ∷ xs))
      (sym s.0) (rw (other off.0, rest) refl)
  where
    other : x ≢ head → (x == head) ≡ false
    other ne = ground arith

unused_from-Seg :
    (fuel c : ℕ) (xs : List ℕ) (t : Bcache)
    → Seg t.prev t.next c xs head
    → All (λ x. x ≢ head) xs
    → length xs + 1 ≤ fuel
    → unused_from fuel (t.prev c) t ≡ first_that (λ b. (t.buf b).refcnt == 0) xs
unfolding unused_from
unused_from-Seg zero c xs t s off le = absurd (omega (arith, le))
unused_from-Seg (suc fuel) c [] t s off le = rw s.0 refl
unused_from-Seg (suc fuel) c (x ∷ xs) t s off le =
    let rest = unused_from-Seg fuel x xs t s.2 off.1 (omega (arith, le)) in
    subst (λ b. unused_from (suc fuel) b t ≡ first_that (λ b. (t.buf b).refcnt == 0) (x ∷ xs))
      (sym s.0) (rw (other off.0, rest) refl)
  where
    other : x ≢ head → (x == head) ≡ false
    other ne = ground arith

-- `bget` on a list of buffers that is no longer than the cache.
pub bget-Ring :
    (t : Bcache) (l : List ℕ) (dev blockno : ℕ)
    → Ring t l
    → length l ≤ nbuf
    → bget dev blockno t
      ≡ reuse dev blockno
          (first_that (λ b. is_block dev blockno (t.buf b)) l)
          (first_that (λ b. (t.buf b).refcnt == 0) (rev l))
          t
unfolding bget
bget-Ring t l dev blockno r le =
    ap (λ f. reuse dev blockno f (unused_from (nbuf + 1) (t.prev head) t) t)
      (find_from-Seg (nbuf + 1) head l t dev blockno r.links r.distinct.0 (omega (arith, le)))
    ∙ ap (λ u. reuse dev blockno (first_that (λ b. is_block dev blockno (t.buf b)) l) u t)
        (unused_from-Seg (nbuf + 1) head (rev l) t (Seg-rev t.next t.prev head l head r.links)
          (rev-All _ l r.distinct.0) (omega (arith, le, length-rev l)))

-- A search ends at the first node that passes, or no node does.
pub data Searched (test : ℕ → Bool) (xs : List ℕ) : Option ℕ → Type 0 where
  found :
      (before : List ℕ) (b : ℕ) (after : List ℕ)
      → xs ≡ before ++ (b ∷ after)
      → test b ≡ true
      → All (λ x. test x ≡ false) before
      → Searched test xs (some b)
  missing : All (λ x. test x ≡ false) xs → Searched test xs none

pub first_that-Searched : (test : ℕ → Bool) (xs : List ℕ) → Searched test xs (first_that test xs)
first_that-Searched test [] = missing tt
first_that-Searched test (x ∷ xs) = elim (Bool-cases (test x)) [
  | inl e ↦ rw e (found [] x xs refl e tt)
  | inr e ↦ rw e (later (first_that-Searched test xs) e)
]
  where
    later : {o : Option ℕ} → Searched test xs o → test x ≡ false → Searched test (x ∷ xs) o
    later (found before b after s p h) e = found (x ∷ before) b after (ap (λ ys. x ∷ ys) s) p (e, h)
    later (missing h) e = missing (e, h)
