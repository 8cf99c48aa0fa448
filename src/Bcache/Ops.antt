-- ===== src/Bcache/Ops.antt =====
-- `bget` and `brelse` of kernel/bio.c on the list of buffers.
use so_final_proyect.Prelude.{
  ℕ, ◌+◌, ◌-◌, ◌^◌, ◌≤◌, ◌≡◌, ◌≢◌, ◌⊎◌, inl, inr, refl, ap, sym, ◌∙◌, subst, arith, Bool-cases,
  true, false, Option, List, ◌∷◌, ◌++◌, All, All-imp, Among, length, if◌then◌else◌, ◌==◌, Result,
  ok, panic, update, update_self,
}
use mathlib.Core.Path.{fun_ext}
use so_final_proyect.Bcache.{
  Bcache, Buf, nbuf, head, is_block, is_pid, bget, reuse, set_buf, drop_ref, brelse, releasesleep,
  push_front, unlink, less_one,
}
use so_final_proyect.Bcache.Moves.{Ring, unlink-Seg, push_front-Ring}
use so_final_proyect.Bcache.Lists.{Among-here, All-front, Distinct-front}
use so_final_proyect.Bcache.Search.{rev, Searched, found, missing, first_that-Searched, bget-Ring}

-- How `bget` ends: with a buffer that has the block; with the first unused one from the back of the
-- list, which is to have it; or, with all in use, in a panic.
pub data Got (t : Bcache) (l : List ℕ) (dev blockno : ℕ) : Result (ℕ × Bcache) → Type 0 where
  hit :
      (b : ℕ)
      → Among b l
      → (t.buf b).dev ≡ dev
      → (t.buf b).blockno ≡ blockno
      → Got t l dev blockno
          (ok (b, set_buf b (record (t.buf b) { refcnt = (t.buf b).refcnt + 1 }) t))
  recycled :
      (before : List ℕ) (b : ℕ) (after : List ℕ)
      → All (λ x. is_block dev blockno (t.buf x) ≡ false) l
      → rev l ≡ before ++ (b ∷ after)
      → All (λ x. (t.buf x).refcnt ≢ 0) before
      → (t.buf b).refcnt ≡ 0
      → Got t l dev blockno (
          ok (
            b,
            set_buf b
                (record (t.buf b) { dev = dev; blockno = blockno; valid = false; refcnt = 1 })
                t,
          ))
  full :
      All (λ x. is_block dev blockno (t.buf x) ≡ false) l
      → All (λ x. (t.buf x).refcnt ≢ 0) (rev l)
      → Got t l dev blockno (panic "bget: no buffers")

in_use :
    (t : Bcache) (xs : List ℕ)
    → All (λ x. ((t.buf x).refcnt == 0) ≡ false) xs
    → All (λ x. (t.buf x).refcnt ≢ 0) xs
in_use t xs h = All-imp _ _ (λ x e z. ground (arith, e, z)) xs h

-- `bget`, on a list of at most NBUF buffers: if one has the block, it gets one more reference; if none
-- has, the first unused one from the back of the list is to have it, and is not valid; and with all
-- in use it panics. It changes no other buffer and no link.
pub bget_lem :
    (t : Bcache) (l : List ℕ) (dev blockno : ℕ)
    → Ring t l
    → length l ≤ nbuf
    → Got t l dev blockno (bget dev blockno t)
bget_lem t l dev blockno r le =
    subst (Got t l dev blockno) (sym (bget-Ring t l dev blockno r le))
      (go (first_that-Searched _ l) (first_that-Searched _ (rev l)))
  where
    go :
        {o u : Option ℕ}
        → Searched (λ b. is_block dev blockno (t.buf b)) l o
        → Searched (λ b. (t.buf b).refcnt == 0) (rev l) u
        → Got t l dev blockno (reuse dev blockno o u t)
    go (found before b after e p h) s =
        hit b (subst (Among b) (sym e) (Among-here b before after)) (ground (arith, p))
          (ground (arith, p))
    go (missing h) (found before b after e p g) =
        recycled before b after h e (in_use t before g) (ground (arith, p))
    go (missing h) (missing g) = full h (in_use t (rev l) g)

moves-buf : (t : Bcache) (b : ℕ) → (push_front b (unlink b t)).buf ≡ t.buf
unfolding push_front unlink
moves-buf t b = refl

moved-Ring :
    (t : Bcache) (b : ℕ) (xs ys : List ℕ)
    → Ring t (xs ++ (b ∷ ys))
    → Ring (push_front b (unlink b t)) (b ∷ (xs ++ ys))
moved-Ring t b xs ys r =
    push_front-Ring (unlink b t) b (xs ++ ys) (unlink-Seg t b xs ys r)
      (All-front (λ y. y ≢ head) b xs ys r.distinct.0, Distinct-front b xs ys r.distinct.1)

update_twice : (f : ℕ → Buf) (b : ℕ) (v w : Buf) → update (update f b v) b w ≡ update f b w
update_twice f b v w = fun_ext λ i. ground arith

-- What is left of a buffer when a reference is dropped; with none, the count wraps.
abbrev pub dropped : Buf → Buf
dropped v = record v { refcnt = if v.refcnt == 0 then 2 ^ 32 - 1 else v.refcnt - 1 }

abbrev pub list_after : Bcache → ℕ → List ℕ → List ℕ → List ℕ
list_after t b xs ys = if (t.buf b).refcnt == 1 then b ∷ (xs ++ ys) else xs ++ (b ∷ ys)

-- `drop_ref` on a list with the buffer: the last reference moves it to the front.
pub drop_ref-Ring :
    (t : Bcache) (b : ℕ) (xs ys : List ℕ)
    → Ring t (xs ++ (b ∷ ys))
    → ((drop_ref b t).buf ≡ update t.buf b (dropped (t.buf b)))
      × Ring (drop_ref b t) (list_after t b xs ys)
unfolding drop_ref
drop_ref-Ring t b xs ys r = elim (Bool-cases ((t.buf b).refcnt == 1)) [
  | inl z ↦ rw (test ∙ z, z) (moves-buf u b, moved-Ring u b xs ys r')
  | inr z ↦ rw (test ∙ z, z) (refl, r')
]
  where
    u : Bcache
    u = set_buf b (dropped (t.buf b)) t

    r' : Ring u (xs ++ (b ∷ ys))
    r' = record { links = r.links; distinct = r.distinct }

    last_one : (n : ℕ) → (less_one n == 0) ≡ (n == 1)
    last_one n = ground arith

    test : ((u.buf b).refcnt == 0) ≡ ((t.buf b).refcnt == 1)
    test =
        ap (λ v. v.refcnt == 0) (update_self t.buf b (dropped (t.buf b)))
        ∙ last_one (t.buf b).refcnt

-- `brelse` on a list with the buffer: it panics if the caller does not hold the buffer's lock; if it
-- does, the buffer is unlocked and its count is one less, or 2 ^ 32 - 1 if it was 0, and no other
-- buffer changes. If the count was 1 the buffer is the first of the list, and the others keep their
-- order; otherwise the list is as it was.
pub brelse_lem :
    (t : Bcache) (pid b : ℕ) (xs ys : List ℕ)
    → Ring t (xs ++ (b ∷ ys))
    → ((is_pid pid (t.buf b).holder ≡ false) × (brelse pid b t ≡ panic "brelse"))
      ⊎ ((is_pid pid (t.buf b).holder ≡ true)
          × (u : Bcache) × (brelse pid b t ≡ ok u)
          × (u.buf ≡ update t.buf b (releasesleep (dropped (t.buf b))))
          × Ring u (list_after t b xs ys))
unfolding brelse
brelse_lem t pid b xs ys r = elim (Bool-cases (is_pid pid (t.buf b).holder)) [
  | inr no_lock ↦ inl (no_lock, rw no_lock)
  | inl lock ↦ inr (lock, drop_ref b u, rw lock, buffers, ring)
]
  where
    u : Bcache
    u = set_buf b (releasesleep (t.buf b)) t

    parts :
        ((drop_ref b u).buf ≡ update u.buf b (dropped (u.buf b)))
        × Ring (drop_ref b u) (list_after u b xs ys)
    parts = drop_ref-Ring u b xs ys (record { links = r.links; distinct = r.distinct })

    here : u.buf b ≡ releasesleep (t.buf b)
    here = update_self t.buf b (releasesleep (t.buf b))

    buffers : (drop_ref b u).buf ≡ update t.buf b (releasesleep (dropped (t.buf b)))
    buffers =
        parts.0
        ∙ ap (λ v. update u.buf b (dropped v)) here
        ∙ update_twice t.buf b (releasesleep (t.buf b)) (releasesleep (dropped (t.buf b)))

    ring : Ring (drop_ref b u) (list_after t b xs ys)
    ring =
        subst
          (λ (v : Buf).
            Ring (drop_ref b u) (if v.refcnt == 1 then b ∷ (xs ++ ys) else xs ++ (b ∷ ys)))
          here parts.1
