-- ===== src/Strings/Blocks.antt =====
-- `memset` and `memmove` of kernel/string.c against what each byte of the result should be.
use so_final_proyect.Prelude.{
  ℕ, zero, suc, ◌+◌, ◌-◌, ◌%◌, ◌≤◌, ◌≡◌, ◌⊎◌, inl, inr, refl, arith, ltb, leb, ◌&&◌, ◌==◌,
  if◌then◌else◌, update, Bool-cases, Bool,
}
use so_final_proyect.Strings.{Memory, memset_from, memset, copy_up, copy_down, memmove, memcpy}

-- The address lies among the `n` from `a` on.
abbrev pub within : ℕ → ℕ → ℕ → Bool
within a n q = leb a q && ltb q (a + n)

memset_from_lem :
    (left i dst c : ℕ) (m : Memory) (q : ℕ)
    → memset_from left i dst c m q ≡ (if within (dst + i) left q then c % 256 else m q)
unfolding memset_from
memset_from_lem zero i dst c m q = ground arith
memset_from_lem (suc left) i dst c m q =
    ground (arith, memset_from_lem left (i + 1) dst c (update m (dst + i) (c % 256)) q)

-- `memset` writes the low byte of `c` to the `n` bytes at `dst`, and to no other.
pub memset_lem :
    (dst c n : ℕ) (m : Memory) (q : ℕ)
    → memset dst c n m q ≡ (if within dst n q then c % 256 else m q)
unfolding memset
memset_lem dst c n m q = ground (arith, memset_from_lem n 0 dst c m q)

copy_up_lem :
    (n d s : ℕ) (m : Memory) (q : ℕ)
    → (d ≤ s) ⊎ (s + n ≤ d)
    → copy_up d s n m q ≡ (if within d n q then m (s + (q - d)) else m q)
unfolding copy_up
copy_up_lem zero d s m q h = ground arith
copy_up_lem (suc n) d s m q h = ground (arith, copy_up_lem n (d + 1) (s + 1) (update m d (m s)) q)

copy_down_lem :
    (n d s d_end s_end : ℕ) (m : Memory) (q : ℕ)
    → d_end ≡ d + n
    → s_end ≡ s + n
    → s ≤ d
    → copy_down d_end s_end n m q ≡ (if within d n q then m (s + (q - d)) else m q)
unfolding copy_down
copy_down_lem zero d s d_end s_end m q e f h = ground arith
copy_down_lem (suc n) d s d_end s_end m q e f h =
    ground
      (arith, copy_down_lem n d s (d_end - 1) (s_end - 1) (update m (d_end - 1) (m (s_end - 1))) q)

-- `memmove` copies the `n` bytes at `src` as they were before the call to `dst`, whether or not the
-- two blocks overlap, and changes no other byte.
pub memmove_lem :
    (dst src n : ℕ) (m : Memory) (q : ℕ)
    → memmove dst src n m q ≡ (if within dst n q then m (src + (q - dst)) else m q)
unfolding memmove
memmove_lem dst src n m q = elim (Bool-cases (n == 0)) [
  | inl none_left ↦ ground arith
  | inr some_left ↦ elim (Bool-cases (ltb src dst && ltb dst (src + n))) [
    | inl overlap ↦ ground (arith, copy_down_lem n dst src (dst + n) (src + n) m q)
    | inr apart ↦ ground (arith, copy_up_lem n dst src m q)
  ]
]

-- `memcpy` is the same function.
pub memcpy_lem : (dst src n : ℕ) (m : Memory) → memcpy dst src n m ≡ memmove dst src n m
unfolding memcpy
memcpy_lem dst src n m = refl
