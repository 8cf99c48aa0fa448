-- ===== src/Bcache/Keeps.antt =====
-- What the operations of kernel/bio.c keep of the references and of the blocks.
use so_final_proyect.Prelude.{
  ℕ, suc, ◌+◌, ◌<◌, ◌≡◌, ◌≢◌, inl, inr, refl, ap, sym, ◌∙◌, subst, arith, Bool-cases, true, false,
  List, ◌∷◌, ◌++◌, All, Among, length, ◌==◌, update, update_self, update_ne, ℕ_discrete,
}
use so_final_proyect.Bcache.{less_one, Bcache, Buf, nbuf, is_block, set_buf, releasesleep}
use so_final_proyect.Bcache.Moves.{Ring}
use so_final_proyect.Bcache.Lists.{All-at, Among-front, All-front, length-front}
use so_final_proyect.Bcache.Ops.{dropped, list_after}
use so_final_proyect.Bcache.Refs.{System, Kept}

-- A buffer's references and contents change, and its block does not.
pub same_block-Kept :
    (s : System) (l : List ℕ) (b n : ℕ) (v : Buf)
    → Kept s l
    → v.dev ≡ (s.cache.buf b).dev
    → v.blockno ≡ (s.cache.buf b).blockno
    → v.refcnt ≡ n
    → Kept (record { cache = set_buf b v s.cache; held = update s.held b n }) l
same_block-Kept s l b n v k ed eb er = record {
  ring = record { links = k.ring.links; distinct = k.ring.distinct };
  size = k.size;
  all = k.all;
  within = k.within;
  counts = λ i. elim (ℕ_discrete b i) [
    | yes e ↦
        subst (λ j. (update s.cache.buf b v j).refcnt ≡ update s.held b n j) e
          (ap (λ (w : Buf). w.refcnt) (update_self s.cache.buf b v)
            ∙ er
            ∙ sym (update_self s.held b n))
    | no e ↦
        ap (λ (w : Buf). w.refcnt) (update_ne s.cache.buf v e)
        ∙ k.counts i
        ∙ sym (update_ne s.held n e)
  ];
  unique = λ i j il jl nz d e.
      k.unique i j il jl (λ z. nz (dev i ∙ z)) (sym (dev j) ∙ d ∙ dev i) (sym (blk j) ∙ e ∙ blk i);
}
  where
    dev : (i : ℕ) → (update s.cache.buf b v i).dev ≡ (s.cache.buf i).dev
    dev i = elim (ℕ_discrete b i) [
      | yes e ↦
          subst (λ j. (update s.cache.buf b v j).dev ≡ (s.cache.buf j).dev) e
            (ap (λ (w : Buf). w.dev) (update_self s.cache.buf b v) ∙ ed)
      | no e ↦ ap (λ (w : Buf). w.dev) (update_ne s.cache.buf v e)
    ]

    blk : (i : ℕ) → (update s.cache.buf b v i).blockno ≡ (s.cache.buf i).blockno
    blk i = elim (ℕ_discrete b i) [
      | yes e ↦
          subst (λ j. (update s.cache.buf b v j).blockno ≡ (s.cache.buf j).blockno) e
            (ap (λ (w : Buf). w.blockno) (update_self s.cache.buf b v) ∙ eb)
      | no e ↦ ap (λ (w : Buf). w.blockno) (update_ne s.cache.buf v e)
    ]

is_block_of :
    (v : Buf) {dev blockno : ℕ} → v.dev ≡ dev → v.blockno ≡ blockno → is_block dev blockno v ≡ true
is_block_of v ed eb = ground arith

-- An unused buffer gets a block that no buffer has.
pub recycle-Kept :
    (s : System) (l : List ℕ) (b dev blockno : ℕ)
    → Kept s l
    → (s.cache.buf b).refcnt ≡ 0
    → All (λ x. is_block dev blockno (s.cache.buf x) ≡ false) l
    → Kept
        (record {
          cache =
              set_buf b
                (record (s.cache.buf b) { dev = dev; blockno = blockno; valid = false; refcnt = 1 })
                s.cache;
          held = update s.held b (s.held b + 1);
        })
        l
recycle-Kept s l b dev blockno k free none_has = record {
  ring = record { links = k.ring.links; distinct = k.ring.distinct };
  size = k.size;
  all = k.all;
  within = k.within;
  counts = λ i. elim (ℕ_discrete b i) [
    | yes e ↦
        subst (λ j. (update s.cache.buf b v j).refcnt ≡ update s.held b (s.held b + 1) j) e
          (ap (λ (w : Buf). w.refcnt) (update_self s.cache.buf b v)
            ∙ omega (arith, k.counts b, free)
            ∙ sym (update_self s.held b (s.held b + 1)))
    | no e ↦
        ap (λ (w : Buf). w.refcnt) (update_ne s.cache.buf v e)
        ∙ k.counts i
        ∙ sym (update_ne s.held (s.held b + 1) e)
  ];
  unique = λ i j il jl nz d e. elim (ℕ_discrete b i) [
    | yes p ↦ elim (ℕ_discrete b j) [
      | yes q ↦ sym p ∙ q
      | no q ↦ absurd (
          other j jl (dev_off j q ∙ d ∙ ap (λ (w : Buf). w.dev) (at_b i p))
            (blk_off j q ∙ e ∙ ap (λ (w : Buf). w.blockno) (at_b i p)))
    ]
    | no p ↦ elim (ℕ_discrete b j) [
      | yes q ↦ absurd (
          other i il (dev_off i p ∙ sym d ∙ ap (λ (w : Buf). w.dev) (at_b j q))
            (blk_off i p ∙ sym e ∙ ap (λ (w : Buf). w.blockno) (at_b j q)))
      | no q ↦
          k.unique i j il jl (λ z. nz (sym (dev_off i p) ∙ z)) (dev_off j q ∙ d ∙ sym (dev_off i p))
            (blk_off j q ∙ e ∙ sym (blk_off i p))
    ]
  ];
}
  where
    v : Buf
    v = record (s.cache.buf b) { dev = dev; blockno = blockno; valid = false; refcnt = 1 }

    new : ℕ → Buf
    new = update s.cache.buf b v

    at_b : (i : ℕ) → b ≡ i → new i ≡ v
    at_b i e = subst (λ j. new j ≡ v) e (update_self s.cache.buf b v)

    dev_off : (i : ℕ) → b ≢ i → (s.cache.buf i).dev ≡ (new i).dev
    dev_off i ne = ap (λ (w : Buf). w.dev) (sym (update_ne s.cache.buf v ne))

    blk_off : (i : ℕ) → b ≢ i → (s.cache.buf i).blockno ≡ (new i).blockno
    blk_off i ne = ap (λ (w : Buf). w.blockno) (sym (update_ne s.cache.buf v ne))

    other : (j : ℕ) → j < nbuf → (s.cache.buf j).dev ≡ dev → (s.cache.buf j).blockno ≡ blockno → ⊥
    other j lt ed eb = cc (
        sym (is_block_of (s.cache.buf j) ed eb)
        ∙ All-at (λ x. is_block dev blockno (s.cache.buf x) ≡ false) l none_has (k.all j lt))

-- A count that is not 0 does not wrap.
pub less_one-suc : (r n : ℕ) → r ≡ suc n → less_one r ≡ n
less_one-suc r n e = ground (arith, e)

-- The buffer of a release moves to another place of the list, and changes as `v`.
pub release-Kept :
    (s : System) (xs ys : List ℕ) (b n : ℕ) (u : Bcache)
    → Kept s (xs ++ (b ∷ ys))
    → s.held b ≡ suc n
    → u.buf ≡ update s.cache.buf b (releasesleep (dropped (s.cache.buf b)))
    → Ring u (list_after s.cache b xs ys)
    → Kept (record { cache = u; held = update s.held b n }) (list_after s.cache b xs ys)
release-Kept s xs ys b n u k h e r = elim (Bool-cases ((s.cache.buf b).refcnt == 1)) [
  | inl z ↦ subst (Kept (record { cache = u; held = update s.held b n })) (sym (pick z)) (
      moved (b ∷ (xs ++ ys)) (subst (Ring u) (pick z) r) (sym (length-front b xs ys) ∙ k.size)
        (λ i lt. Among-front b i xs ys (k.all i lt)) (All-front (λ i. i < nbuf) b xs ys k.within))
  | inr z ↦
      subst (Kept (record { cache = u; held = update s.held b n })) (sym (keep z))
        (moved (xs ++ (b ∷ ys)) (subst (Ring u) (keep z) r) k.size k.all k.within)
]
  where
    pick : ((s.cache.buf b).refcnt == 1) ≡ true → list_after s.cache b xs ys ≡ b ∷ (xs ++ ys)
    pick z = rw z

    keep : ((s.cache.buf b).refcnt == 1) ≡ false → list_after s.cache b xs ys ≡ xs ++ (b ∷ ys)
    keep z = rw z

    same :
        Kept
          (record {
            cache = set_buf b (releasesleep (dropped (s.cache.buf b))) s.cache;
            held = update s.held b n;
          })
          (xs ++ (b ∷ ys))
    same =
        same_block-Kept s (xs ++ (b ∷ ys)) b n _ k refl refl
          (less_one-suc (s.cache.buf b).refcnt n (k.counts b ∙ h))

    moved :
        (l : List ℕ)
        → Ring u l
        → length l ≡ nbuf
        → ((i : ℕ) → i < nbuf → Among i l)
        → All (λ i. i < nbuf) l
        → Kept (record { cache = u; held = update s.held b n }) l
    moved l ring size all within = record {
      ring = ring;
      size = size;
      all = all;
      within = within;
      counts =
          λ i. subst (λ (f : ℕ → Buf). (f i).refcnt ≡ update s.held b n i) (sym e) (same.counts i);
      unique =
          subst
            (λ (f : ℕ → Buf).
              (i j : ℕ)
              → i < nbuf
              → j < nbuf
              → (f i).dev ≢ 0
              → (f j).dev ≡ (f i).dev
              → (f j).blockno ≡ (f i).blockno
              → i ≡ j)
            (sym e) same.unique;
    }
