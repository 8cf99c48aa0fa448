-- ===== src/Blocks/Tests.antt =====
-- A disk of 1,000 blocks whose map is block 45: blocks 0 to 45 are in use.
use so_final_proyect.Prelude.{
  ℕ, ◌<◌, ◌≡◌, ◌≢◌, refl, arith, subst, true, false, ok, panic, ltb, ◌==◌, if◌then◌else◌,
  Bool-cases, inl, inr,
}
use so_final_proyect.Blocks.{bpb, Superblock, Disk, bblock, balloc, bfree}
use so_final_proyect.Blocks.Bitmap.{used, Bytes}
use so_final_proyect.Blocks.Alloc.{Allocated, balloc_lem, bfree_lem}

abbrev sb : Superblock
sb = record { size = 1000; ninodes = 200; inodestart = 32; bmapstart = 45 }

abbrev mapped : Disk
mapped block i = if block == 45 then (if ltb i 5 then 255 else (if i == 5 then 63 else 0)) else 7

mapped-Bytes : Bytes mapped
mapped-Bytes block i = elim (Bool-cases (block == 45)) [
  | inr z ↦ rw z (omega arith)
  | inl z ↦ rw z (elim (Bool-cases (ltb i 5)) [
    | inl w ↦ rw w (omega arith)
    | inr w ↦
        rw w
          (elim (Bool-cases (i == 5)) [ inl v ↦ rw v (omega arith) | inr v ↦ rw v (omega arith) ])
  ])
]

own_map : (n : ℕ) → n < 1000 → used sb mapped (bblock n sb) ≡ true
own_map n lt =
    let e : 45 ≡ bblock n sb = omega (arith, lt) in subst (λ k. used sb mapped k ≡ true) e refl

balloc_lem_example : Allocated sb mapped (balloc sb mapped)
balloc_lem_example = balloc_lem sb mapped mapped-Bytes (λ h. refl) own_map

first_free : (balloc sb mapped).0 ≡ 46
unfolding balloc so_final_proyect.Blocks.scan_map so_final_proyect.Blocks.scan_block
first_free = refl

bfree_lem_example :
    (used sb mapped 44 ≡ false → bfree 44 sb mapped ≡ panic "freeing free block")
    × (used sb mapped 44 ≡ true
        → (d' : Disk) × (bfree 44 sb mapped ≡ ok d')
          × ((n : ℕ) → used sb d' n ≡ (if 44 == n then false else used sb mapped n))
          × ((n : ℕ) → n ≢ bblock 44 sb → (i : ℕ) → d' n i ≡ mapped n i))
bfree_lem_example = bfree_lem sb mapped 44 mapped-Bytes
