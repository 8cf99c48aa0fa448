-- ===== src/Files/Slots.antt =====
-- `filealloc`, `filedup` and `fileclose` of kernel/file.c on one slot.
use so_final_proyect.Prelude.{
  ℕ, zero, suc, ◌+◌, ◌-◌, ◌≤◌, ◌<◌, ◌≡◌, ◌≢◌, inl, inr, refl, arith, Bool-cases, Option, none, some,
  true, false, ltb, ◌==◌, update, ℕ_discrete, subst, ok,
}
use so_final_proyect.Files.{
  nfile, File, Ftable, fd_none, filealloc_from, take_slot, filealloc, filedup, fileclose, Closing,
  nothing, closing,
}

-- What `filealloc` returns, and the table that it leaves: no slot is free, or one that was is taken.
pub data Allocated (t : Ftable) : Option ℕ × Ftable → Type 0 where
  full : ((j : ℕ) → j < nfile → (t j).ref ≢ 0) → Allocated t (none, t)
  slot :
      (k : ℕ)
      → k < nfile
      → (t k).ref ≡ 0
      → Allocated t (some k, update t k (record (t k) { ref = 1 }))

-- The scan from `i` finds the first free slot.
data Scanned (t : Ftable) (i n : ℕ) : Option ℕ → Type 0 where
  no_slot : ((j : ℕ) → i ≤ j → j < n → (t j).ref ≢ 0) → Scanned t i n none
  first : (k : ℕ) → k < n → (t k).ref ≡ 0 → Scanned t i n (some k)

filealloc_from_lem :
    (left i n : ℕ) (t : Ftable) → i + left ≡ n → Scanned t i n (filealloc_from left i t)
unfolding filealloc_from
filealloc_from_lem zero i n t e = no_slot (λ j le lt. absurd (omega (arith, le, lt, e)))
filealloc_from_lem (suc left) i n t e = elim (Bool-cases ((t i).ref == 0)) [
  | inl z ↦ rw z (first i (omega (arith, e)) (ground arith))
  | inr z ↦
      rw z (later (filealloc_from_lem left (i + 1) n t (omega (arith, e))) (λ r. ground arith))
]
  where
    later : {o : Option ℕ} → Scanned t (i + 1) n o → (t i).ref ≢ 0 → Scanned t i n o
    later (no_slot all) ne = no_slot (λ j le lt. elim (ℕ_discrete i j) [
      | yes d ↦ subst (λ k. (t k).ref ≢ 0) d ne
      | no d ↦ all j (omega (arith, le, d)) lt
    ])
    later (first k lt z) ne = first k lt z

pub filealloc_lem : (t : Ftable) → Allocated t (filealloc t)
unfolding filealloc
filealloc_lem t = go (filealloc_from_lem nfile 0 nfile t refl)
  where
    go : {o : Option ℕ} → Scanned t 0 nfile o → Allocated t (take_slot o t)
    go (no_slot all) = full (λ j lt. all j (omega arith) lt)
    go (first k lt z) = slot k lt z

pub filedup_lem :
    (f : ℕ) (t : Ftable)
    → 0 < (t f).ref
    → filedup f t ≡ ok (update t f (record (t f) { ref = (t f).ref + 1 }))
unfolding filedup
filedup_lem f t some_ref = ground arith

-- With `n + 1` references, what is closed, and the slot afterwards.
abbrev pub closed : ℕ → File → Closing × File
closed zero ff = (closing ff, record ff { ref = 0; type = fd_none })
closed (suc n) ff = (nothing, record ff { ref = suc n })

-- Closing a file with `n + 1` references leaves it `n`, and the other slots alone; if `n` is 0, then
-- the slot loses its type, and what stood behind the file is given back.
pub fileclose_lem :
    (f n : ℕ) (t : Ftable)
    → (t f).ref ≡ suc n
    → fileclose f t ≡ ok ((closed n (t f)).0, update t f (closed n (t f)).1)
unfolding fileclose
fileclose_lem f zero t e = rw e refl
fileclose_lem f (suc n) t e = rw (live, many, less) refl
  where
    live : ltb (t f).ref 1 ≡ false
    live = ground arith

    many : ltb 0 ((t f).ref - 1) ≡ true
    many = ground arith

    less : (t f).ref - 1 ≡ suc n
    less = omega (arith, e)
