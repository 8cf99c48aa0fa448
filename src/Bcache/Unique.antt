-- ===== src/Bcache/Unique.antt =====
-- From `binit` of kernel/bio.c on, a block of a device is in one buffer.
use so_final_proyect.Prelude.{
  ℕ, zero, suc, ◌+◌, ◌≤◌, ◌<◌, ◌≡◌, ◌≢◌, ◌⊎◌, inl, inr, refl, ap, sym, ◌∙◌, subst, arith, true,
  false, none, List, [], ◌∷◌, ◌++◌, All, All-imp, Among, Result, ok, ok_inj, panic, update,
  ℕ_discrete,
}
use mathlib.Core.Path.{fun_ext}
use so_final_proyect.Bcache.{
  Bcache, Buf, nbuf, head, is_pid, set_buf, brelse, releasesleep, bpin, bunpin, push_front,
}
use so_final_proyect.Bcache.Moves.{Ring, push_front-Ring}
use so_final_proyect.Bcache.Lists.{Among-split}
use so_final_proyect.Bcache.Ops.{
  Got, hit, recycled, full, bget_lem, dropped, list_after, brelse_lem,
}
use so_final_proyect.Bcache.{binit, binit_from, set_next, set_prev}
use so_final_proyect.Bcache.Refs.{System, Step, Reach, here, next, Kept}
use so_final_proyect.Bcache.Keeps.{less_one-suc, same_block-Kept, recycle-Kept, release-Kept}

Got-Kept :
    {s : System} {l : List ℕ} {dev blockno b : ℕ} {u : Bcache} {r : Result (ℕ × Bcache)}
    → Kept s l
    → Got s.cache l dev blockno r
    → r ≡ ok (b, u)
    → Kept (record { cache = u; held = update s.held b (s.held b + 1) }) l
Got-Kept {s} {l} {u = u} k (hit c m ed eb) e =
    let same = ok_inj e in
    let k' =
      same_block-Kept s l c (s.held c + 1)
        (record (s.cache.buf c) { refcnt = (s.cache.buf c).refcnt + 1 }) k refl refl
        (ap (λ n. n + 1) (k.counts c)) in
    subst
      (λ (x : ℕ × Bcache).
        Kept (record { cache = x.1; held = update s.held x.0 (s.held x.0 + 1) }) l)
      same k'
Got-Kept {s} {l} k (recycled before c after none_has e_l used free) e =
    subst
      (λ (x : ℕ × Bcache).
        Kept (record { cache = x.1; held = update s.held x.0 (s.held x.0 + 1) }) l)
      (ok_inj e) (recycle-Kept s l c _ _ k free none_has)
Got-Kept k (full none_has used) e = absurd (cc e)

update_id : (f : ℕ → ℕ) (b : ℕ) → update f b (f b) ≡ f
update_id f b = fun_ext λ i. ground arith

Step-Kept : {s u : System} → Step s u → (l : List ℕ) → Kept s l → (m : List ℕ) × Kept u m
unfolding bpin bunpin
Step-Kept {s} (Step.gets dev blockno b u nz e) l k =
    (l, Got-Kept k (bget_lem s.cache l dev blockno k.ring (omega (arith, k.size))) e)
Step-Kept {s} (Step.changes b v held ed eb er) l k = (
  l,
  subst (λ h. Kept (record { cache = set_buf b v s.cache; held = h }) l) (update_id s.held b)
      (same_block-Kept s l b (s.held b) v k ed eb (er ∙ k.counts b)),
)
Step-Kept {s} (Step.releases pid b n u lt h e) l k =
    let (xs, ys, at) = Among-split b l (k.all b lt) in
    let k' = subst (Kept s) at k in go xs ys k' (brelse_lem s.cache pid b xs ys k'.ring)
  where
    go :
        (xs ys : List ℕ)
        → Kept s (xs ++ (b ∷ ys))
        → ((is_pid pid (s.cache.buf b).holder ≡ false) × (brelse pid b s.cache ≡ panic "brelse"))
          ⊎ ((is_pid pid (s.cache.buf b).holder ≡ true)
              × (w : Bcache) × (brelse pid b s.cache ≡ ok w)
              × (w.buf ≡ update s.cache.buf b (releasesleep (dropped (s.cache.buf b))))
              × Ring w (list_after s.cache b xs ys))
        → (m : List ℕ) × Kept (record { cache = u; held = update s.held b n }) m
    go xs ys k (inl (no_lock, fails)) = absurd (cc (sym fails ∙ e))
    go xs ys k (inr (lock, w, runs, buffers, ring)) = (
      list_after s.cache b xs ys,
      subst
          (λ x. Kept (record { cache = x; held = update s.held b n }) (list_after s.cache b xs ys))
          (ok_inj (sym runs ∙ e)) (release-Kept s xs ys b n w k h buffers ring),
    )
Step-Kept {s} (Step.pins b held) l k =
    (l, same_block-Kept s l b (s.held b + 1) _ k refl refl (ap (λ n. n + 1) (k.counts b)))
Step-Kept {s} (Step.unpins b n h) l k = (
  l,
  same_block-Kept s l b n _ k refl refl (less_one-suc (s.cache.buf b).refcnt n (k.counts b ∙ h)),
)

-- The list that `binit` makes, from buffer `b` on.
abbrev pub counted : ℕ → ℕ → List ℕ → List ℕ
counted zero b l = l
counted (suc left) b l = counted left (b + 1) (b ∷ l)

counted-Among :
    (left k : ℕ) (l : List ℕ) (b : ℕ)
    → (k ≤ b) × (b < k + left) ⊎ Among b l
    → Among b (counted left k l)
counted-Among zero k l b (inl (le, lt)) = absurd (omega (arith, le, lt))
counted-Among zero k l b (inr m) = m
counted-Among (suc left) k l b (inl (le, lt)) = elim (ℕ_discrete b k) [
  | yes e ↦ counted-Among left (k + 1) (k ∷ l) b (inr (inl e))
  | no ne ↦ counted-Among left (k + 1) (k ∷ l) b (inl (omega (arith, le, ne), omega (arith, lt)))
]
counted-Among (suc left) k l b (inr m) = counted-Among left (k + 1) (k ∷ l) b (inr (inr m))

counted-within :
    (left k : ℕ) (l : List ℕ) → All (λ b. b < k) l → All (λ b. b < k + left) (counted left k l)
counted-within zero k l h = All-imp _ _ (λ b lt. omega (arith, lt)) l h
counted-within (suc left) k l h =
    All-imp _ _ (λ b lt. omega (arith, lt)) (counted left (k + 1) (k ∷ l))
      (counted-within left (k + 1) (k ∷ l)
        (omega arith, All-imp _ _ (λ b lt. omega (arith, lt)) l h))

binit_from-Ring :
    (left b : ℕ) (l : List ℕ) (t : Bcache)
    → Ring t l
    → All (λ x. x < b) l
    → b + left ≤ nbuf
    → Ring (binit_from left b t) (counted left b l) × ((binit_from left b t).buf ≡ t.buf)
unfolding binit_from push_front
binit_from-Ring zero b l t r w le = (r, refl)
binit_from-Ring (suc left) b l t r w le =
    binit_from-Ring left (b + 1) (b ∷ l) (push_front b t)
      (push_front-Ring t b l r.links (
        ((λ e. omega (arith, e, le)), r.distinct.0),
        (All-imp _ _ (λ x lt e. omega (arith, lt, e)) l w, r.distinct.1),
      ))
      (omega arith, All-imp _ _ (λ x lt. omega (arith, lt)) l w) (omega (arith, le))

-- The kernel's memory is zero at the start.
abbrev pub zero_buf : Buf
zero_buf = record { valid = false; dev = 0; blockno = 0; refcnt = 0; holder = none; bytes = [] }

abbrev pub zero_cache : Bcache
zero_cache = record { buf = λ b. zero_buf; next = λ b. 0; prev = λ b. 0 }

abbrev pub start : System
start = record { cache = binit zero_cache; held = λ b. 0 }

pub binit-Ring :
    Ring (binit zero_cache) (counted nbuf 0 []) × ((binit zero_cache).buf ≡ zero_cache.buf)
unfolding binit
binit-Ring =
    binit_from-Ring nbuf 0 [] (set_next head head (set_prev head head zero_cache))
      (record { links = (refl, refl); distinct = (tt, tt) }) tt (omega arith)

start-Kept : Kept start (counted nbuf 0 [])
start-Kept = record {
  ring = binit-Ring.0;
  size = refl;
  all = λ b lt. counted-Among nbuf 0 [] b (inl (omega arith, omega (arith, lt)));
  within = counted-within nbuf 0 [] tt;
  counts = λ b. ap (λ (f : ℕ → Buf). (f b).refcnt) binit-Ring.1;
  unique = λ i j il jl nz d e. absurd (nz (ap (λ (f : ℕ → Buf). (f i).dev) binit-Ring.1));
}

Reach-Kept : {u : System} → Reach start u → (l : List ℕ) × Kept u l
Reach-Kept here = (counted nbuf 0 [], start-Kept)
Reach-Kept (next r st) = let (l, k) = Reach-Kept r in Step-Kept st l k

-- From `binit` on, whatever the processes do that hold references to buffers: two buffers that have one
-- block of a device are one buffer, and the count of each is the number of references to it that
-- are held.
pub cached_once :
    {u : System}
    → Reach start u
    → ((i j : ℕ)
        → i < nbuf
        → j < nbuf
        → (u.cache.buf i).dev ≢ 0
        → (u.cache.buf j).dev ≡ (u.cache.buf i).dev
        → (u.cache.buf j).blockno ≡ (u.cache.buf i).blockno
        → i ≡ j)
      × ((b : ℕ) → (u.cache.buf b).refcnt ≡ u.held b)
cached_once r = let (l, k) = Reach-Kept r in (k.unique, k.counts)
