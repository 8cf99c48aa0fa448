-- ===== src/Blocks/Alloc.antt =====
-- `balloc` and `bfree` of kernel/fs.c on the set of blocks in use.
use Prim.Native.Nat.{bit_and, bit_or}
use so_final_proyect.Prelude.{
  ℕ, zero, suc, ◌+◌, ◌-◌, ◌*◌, ◌/◌, ◌%◌, ◌≤◌, ◌<◌, ◌≡◌, ◌≢◌, inl, inr, refl, ap, sym, ◌∙◌, subst,
  arith, Bool, Bool-cases, true, false, not, Option, none, some, ltb, ◌==◌, if◌then◌else◌,
  update_self, update_ne, ℕ_discrete, ok, panic,
}
use so_final_proyect.Blocks.{
  bpb, Superblock, Disk, bblock, set_byte, bzero, mask, is_free, scan_block, scan_map, or_else,
  take_block, balloc, bfree,
}
use so_final_proyect.Blocks.Bits.{bit}
use so_final_proyect.Blocks.Bitmap.{map_byte, used, is_free-used, Bytes, mark-used, unmark-used}

module _ (sb : Superblock) (d : Disk) where
  -- A scan finds a free block, or all blocks of a range are in use.
  pub data Scanned (lo hi : ℕ) : Option ℕ → Type 0 where
    free_at : (n : ℕ) → n < sb.size → used sb d n ≡ false → Scanned lo hi (some n)
    all_used : ((n : ℕ) → lo ≤ n → n < hi → n < sb.size → used sb d n ≡ true) → Scanned lo hi none

  -- The block that the inner loop means.
  abbrev shifted : ℕ → Option ℕ → Option ℕ
  shifted b none = none
  shifted b (some bi) = some (b + bi)

  bit-of :
      (q bi : ℕ)
      → bi < bpb
      → is_free (d (bblock (q * bpb) sb) (bi / 8)) bi ≡ not (used sb d (q * bpb + bi))
  bit-of q bi lt =
      ap (λ k. is_free (d k (bi / 8)) bi) (same_block q bi lt)
      ∙ ap (λ k. is_free (d (bblock (q * bpb + bi) sb) (k / 8)) k) (same_bit q bi lt)
      ∙ is_free-used sb d (q * bpb + bi)
    where
      same_block : (q bi : ℕ) → bi < bpb → bblock (q * bpb) sb ≡ bblock (q * bpb + bi) sb
      same_block q bi lt = omega (arith, lt)

      same_bit : (q bi : ℕ) → bi < bpb → bi ≡ (q * bpb + bi) % bpb
      same_bit q bi lt = omega (arith, lt)

  scan_block-Scanned :
      (left q bi : ℕ)
      → bi + left ≡ bpb
      → Scanned
          (q * bpb + bi)
          (q * bpb + bpb)
          (shifted (q * bpb) (scan_block left (q * bpb) bi sb d))
  unfolding scan_block
  scan_block-Scanned zero q bi e = all_used (λ n lo hi size. absurd (omega (arith, e, lo, hi)))
  scan_block-Scanned (suc left) q bi e = elim (Bool-cases (ltb (q * bpb + bi) sb.size)) [
    | inr out ↦ rw out (all_used (λ n lo hi size. absurd (past out lo size)))
    | inl inside ↦ elim (Bool-cases (used sb d (q * bpb + bi))) [
      | inr z ↦
          rw (inside, bit-of q bi (omega (arith, e)), z)
            (free_at (q * bpb + bi) (ground (arith, inside)) z)
      | inl z ↦
          rw (inside, bit-of q bi (omega (arith, e)), z)
            (later z (scan_block-Scanned left q (bi + 1) (omega (arith, e))))
    ]
  ]
    where
      past : {n m : ℕ} → ltb m sb.size ≡ false → m ≤ n → n < sb.size → ⊥
      past h le lt = ground (arith, h, le, lt)

      later :
          {o : Option ℕ}
          → used sb d (q * bpb + bi) ≡ true
          → Scanned (q * bpb + (bi + 1)) (q * bpb + bpb) o
          → Scanned (q * bpb + bi) (q * bpb + bpb) o
      later z (free_at n lt f) = free_at n lt f
      later z (all_used h) = all_used (λ n lo hi lt. elim (ℕ_discrete (q * bpb + bi) n) [
        | yes s ↦ subst (λ k. used sb d k ≡ true) s z
        | no ne ↦ h n (omega (arith, lo, ne)) hi lt
      ])

  scan_map-Scanned :
      (rounds q : ℕ) → Scanned (q * bpb) (q * bpb + rounds * bpb) (scan_map rounds (q * bpb) sb d)
  unfolding scan_map
  scan_map-Scanned zero q = all_used (λ n lo hi size. absurd (omega (arith, lo, hi)))
  scan_map-Scanned (suc rounds) q =
      round (ltb (q * bpb) sb.size) (scan_block bpb (q * bpb) 0 sb d)
        (scan_map rounds (q * bpb + bpb) sb d) refl (scan_block-Scanned bpb q 0 refl)
        (subst (λ k. Scanned k (k + rounds * bpb) (scan_map rounds k sb d)) next_round
          (scan_map-Scanned rounds (q + 1)))
    where
      past : {n m : ℕ} → ltb m sb.size ≡ false → m ≤ n → n < sb.size → ⊥
      past h le lt = ground (arith, h, le, lt)

      next_round : (q + 1) * bpb ≡ q * bpb + bpb
      next_round = omega arith

      joined :
          {rest : Option ℕ} (o : Option ℕ)
          → Scanned (q * bpb + 0) (q * bpb + bpb) (shifted (q * bpb) o)
          → Scanned (q * bpb + bpb) (q * bpb + bpb + rounds * bpb) rest
          → Scanned (q * bpb) (q * bpb + suc rounds * bpb) (or_else (q * bpb) o rest)
      joined (some bi) (free_at n lt f) rest = free_at n lt f
      joined none h (free_at n lt f) = free_at n lt f
      joined none (all_used low) (all_used high) = all_used (λ n lo hi lt.
          elim (Bool-cases (ltb n (q * bpb + bpb))) [
            | inl z ↦ low n (omega (arith, lo)) (ground (arith, z)) lt
            | inr z ↦ high n (ground (arith, z)) (omega (arith, hi)) lt
          ])

      round :
          (t : Bool) (o rest : Option ℕ)
          → ltb (q * bpb) sb.size ≡ t
          → Scanned (q * bpb + 0) (q * bpb + bpb) (shifted (q * bpb) o)
          → Scanned (q * bpb + bpb) (q * bpb + bpb + rounds * bpb) rest
          → Scanned
              (q * bpb)
              (q * bpb + suc rounds * bpb)
              (if t then or_else (q * bpb) o rest else none)
      round false o rest h low high = all_used (λ n lo hi size. absurd (past h lo size))
      round true o rest h low high = joined o low high

  -- What `balloc` comes back with: 0 and the disk as it was, with all blocks in use, or a block that
  -- was free and now is marked and zeroed. No other block has changed but one of the map.
  pub data Allocated : ℕ × Disk → Type 0 where
    full : ((n : ℕ) → n < sb.size → used sb d n ≡ true) → Allocated (0, d)
    got :
        (b : ℕ) (d' : Disk)
        → b < sb.size
        → b ≢ 0
        → used sb d b ≡ false
        → ((n : ℕ) → n < sb.size → used sb d' n ≡ (if b == n then true else used sb d n))
        → ((i : ℕ) → d' b i ≡ 0)
        → ((n : ℕ) → n ≢ b → n ≢ bblock b sb → (i : ℕ) → d' n i ≡ d n i)
        → Allocated (b, d')

  -- On a disk of bytes whose map marks block 0 and its own blocks as used, `balloc` gives 0 exactly
  -- when all blocks are in use; or else a free block, marked and zeroed.
  pub balloc_lem :
      Bytes d
      → (0 < sb.size → used sb d 0 ≡ true)
      → ((n : ℕ) → n < sb.size → used sb d (bblock n sb) ≡ true)
      → Allocated (balloc sb d)
  unfolding balloc
  balloc_lem bytes zeroth own =
      taken (scan_map (sb.size / bpb + 1) 0 sb d) (scan_map-Scanned (sb.size / bpb + 1) 0)
    where
      Bool-⊥ : true ≡ false → ⊥
      Bool-⊥ e = ground arith

      marked : ℕ → Disk
      marked k = set_byte (bblock k sb) (k % bpb / 8) (bit_or (map_byte sb d k) (mask (k % bpb))) d

      taken :
          (o : Option ℕ)
          → Scanned (0 * bpb) (0 * bpb + (sb.size / bpb + 1) * bpb) o
          → Allocated (take_block o sb d)
      taken none (all_used h) = full (λ n lt. h n (omega arith) (omega (arith, lt)) lt)
      taken (some _) (free_at b lt free) =
          got b (bzero b (marked b)) lt
            (λ z. Bool-⊥ (sym (zeroth (omega (arith, lt))) ∙ ap (λ k. used sb d k) (sym z) ∙ free))
            free
            (λ n nl.
              ap (λ (f : ℕ → ℕ). bit (f (n % bpb / 8)) (n % 8))
                (update_ne (marked b) (λ i. 0)
                  (λ e. Bool-⊥ (sym (own n nl) ∙ ap (λ k. used sb d k) (sym e) ∙ free)))
              ∙ mark-used sb d b bytes n)
            (λ i. ap (λ (f : ℕ → ℕ). f i) (update_self (marked b) b (λ i. 0)))
            (λ n ne ne_map i.
              ap (λ (f : ℕ → ℕ). f i) (update_ne (marked b) (λ i. 0) (λ e. ne (sym e)))
              ∙ ap (λ (f : ℕ → ℕ). f i) (update_ne d _ (λ e. ne_map (sym e))))

  -- On a disk of bytes `bfree` panics on a block that is free; on one in use it takes the mark away,
  -- leaves the mark of any other block, and changes no block but the one of the map.
  pub bfree_lem :
      (b : ℕ)
      → Bytes d
      → (used sb d b ≡ false → bfree b sb d ≡ panic "freeing free block")
        × (used sb d b ≡ true
            → (d' : Disk) × (bfree b sb d ≡ ok d')
              × ((n : ℕ) → used sb d' n ≡ (if b == n then false else used sb d n))
              × ((n : ℕ) → n ≢ bblock b sb → (i : ℕ) → d' n i ≡ d n i))
  unfolding bfree
  bfree_lem b bytes = (
    (λ z. rw (is_free-used sb d b, z) refl),
    (λ z. (
      set_byte (bblock b sb) (b % bpb / 8) (bit_and (map_byte sb d b) (255 - mask (b % bpb))) d,
      rw (is_free-used sb d b, z) refl,
      unmark-used sb d b bytes,
      (λ n ne i. ap (λ (f : ℕ → ℕ). f i) (update_ne d _ (λ e. ne (sym e)))),
    )),
  )
