-- ===== src/Strings/Tests.antt =====
-- Runs of kernel/string.c over a small memory.
use so_final_proyect.Prelude.{
  ℕ, zero, suc, ◌+◌, ◌-◌, ◌<◌, ◌≡◌, ◌≢◌, ◌⊎◌, refl, arith, if◌then◌else◌, update, some,
}
use so_final_proyect.Prelude.Int.{pos, negsuc, ◌-ℤ◌}
use so_final_proyect.Strings.{Memory, memset, memmove, memcmp, strncmp, strncpy, safestrcpy, strlen}
use so_final_proyect.Strings.Blocks.{within, memset_lem, memmove_lem}
use so_final_proyect.Strings.Compare.{
  Agree, DifferAt, SameText, memcmp_lem, strncmp_lem, strlen_lem,
}
use so_final_proyect.Strings.Copy.{padded, strncpy_lem, Terminated, safestrcpy_lem}

-- "abab" at 10, and at 20 "abc"; 0 elsewhere.
abbrev memory : Memory
memory =
    update
      (update
        (update (update (update (update (update (λ _. 0) 10 b'a') 11 b'b') 12 b'a') 13 b'b') 20
          b'a')
        21 b'b')
      22 b'c'

memmove_overlap : (memmove 12 10 4 memory 14 ≡ b'a') × (memmove 12 10 4 memory 12 ≡ b'a')
unfolding memmove
memmove_overlap = (refl, refl)

safestrcpy_cuts :
    (safestrcpy 40 10 (pos 3) memory 41 ≡ b'b') × (safestrcpy 40 10 (pos 3) memory 42 ≡ 0)
unfolding safestrcpy
safestrcpy_cuts = (refl, refl)

memset_run : memset 10 0x141 2 memory 11 ≡ 0x41
memset_run = memset_lem 10 0x141 2 memory 11

memmove_lem_example : memmove 12 10 4 memory 15 ≡ b'b'
memmove_lem_example = memmove_lem 12 10 4 memory 15

memcmp_run :
    (Agree memory 10 20 3 × (memcmp 10 20 3 memory ≡ pos 0))
    ⊎ ((i : ℕ) × (i < 3)
        × DifferAt memory 10 20 i
        × (memcmp 10 20 3 memory ≡ pos (memory (10 + i)) -ℤ pos (memory (20 + i))))
memcmp_run = memcmp_lem 10 20 3 memory

strncmp_lem_example :
    (SameText memory 10 20 2 × (strncmp 10 20 2 memory ≡ pos 0))
    ⊎ ((i : ℕ) × (i < 2)
        × SameText memory 10 20 i
        × ((memory (10 + i) ≡ 0) ⊎ (memory (10 + i) ≢ memory (20 + i)))
        × (strncmp 10 20 2 memory ≡ pos (memory (10 + i)) -ℤ pos (memory (20 + i))))
strncmp_lem_example = strncmp_lem 10 20 2 memory

letters : (j : ℕ) → j < 3 → memory (20 + j) ≢ 0
letters zero h = omega arith
letters (suc zero) h = omega arith
letters (suc (suc zero)) h = omega arith
letters (suc (suc (suc j))) h = absurd (omega arith)

strlen_run : strlen 9 20 memory ≡ some 3
strlen_run = strlen_lem 9 20 3 memory (omega arith) letters refl

strncpy_run :
    ((q : ℕ)
      → strncpy 40 20 (pos 5) memory q
        ≡ (if within 40 5 q then padded 20 (q - 40) memory else memory q))
    × ((k : ℕ) → strncpy 40 20 (negsuc k) memory ≡ memory)
strncpy_run = strncpy_lem 40 20 5 memory (omega arith)

safestrcpy_lem_example :
    ((k : ℕ) × Terminated memory (safestrcpy 40 10 (pos 3) memory) 40 10 2 k)
    × (safestrcpy 40 10 (pos 0) memory ≡ memory)
    × ((i : ℕ) → safestrcpy 40 10 (negsuc i) memory ≡ memory)
safestrcpy_lem_example = safestrcpy_lem 40 10 2 memory (omega arith)
