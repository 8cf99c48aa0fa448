-- ===== src/Vm/CopyIn.antt =====
-- What `copyin` of kernel/vm.c reads.
use so_final_proyect.Prelude.{
  ℕ, zero, suc, ◌+◌, ◌-◌, ◌≤◌, ◌<◌, ◌≡◌, ◌≢◌, inl, inr, refl, subst, arith, Bool-cases, true, false,
  ltb, ◌==◌, ok,
}
use so_final_proyect.Prelude.Int.{pos}
use so_final_proyect.Kalloc.{pgsize}
use so_final_proyect.Vm.{Vm}
use so_final_proyect.Vm.Entries.{entry}
use so_final_proyect.Vm.Addresses.{user_page}
use so_final_proyect.Vm.Copies.{pgrounddown, chunk, copyin_from, copyin}
use so_final_proyect.Vm.CopyChunk.{
  Readable, CopiedIn, user_page_at_lem, copied, chunk_size, rest-Readable, first-CopiedIn,
}

module _ (end sz own root : ℕ) where
  remaining-Readable :
      (s : Vm) (dst srcva len : ℕ) (readable : Readable root s dst srcva len) (some_left : 0 < len)
      → Readable root
          (copied end sz own root s dst srcva len readable some_left)
          (dst + chunk end sz own srcva len)
          (pgrounddown srcva + pgsize)
          (len - chunk end sz own srcva len)
  remaining-Readable s dst srcva len readable some_left =
      elim (Bool-cases (ltb (chunk end sz own srcva len) len)) [
        | inl z ↦ rest-Readable end sz own root s dst srcva len readable some_left (lt_of z)
        | inr z ↦
            let size = chunk_size end sz own root s dst srcva len readable some_left in
            let le : len ≤ chunk end sz own srcva len = le_of z in
            record {
              in_space = omega (arith, readable.in_space, some_left, le);
              mapped = λ i l. absurd (omega (arith, l, le));
              apart = λ i j l k. absurd (omega (arith, l, le));
            }
      ]
    where
      lt_of : {i j : ℕ} → ltb i j ≡ true → i < j
      lt_of h = ground arith

      le_of : {i j : ℕ} → ltb i j ≡ false → j ≤ i
      le_of h = ground arith

  CopiedIn-refl : (s : Vm) (dst srcva len : ℕ) → len ≡ 0 → CopiedIn root s dst srcva len s
  CopiedIn-refl s dst srcva len none_left = record {
    same_ptes = refl;
    same_kmem = refl;
    bytes = λ i lt. absurd (omega (arith, lt, none_left));
    others = λ q h. refl;
  }

  copyin_from-CopiedIn :
      (left : ℕ) (s : Vm) (dst srcva len : ℕ)
      → len ≤ left
      → Readable root s dst srcva len
      → (t : Vm) × (copyin_from end sz own left root dst srcva len s ≡ ok (pos 0, t))
        × CopiedIn root s dst srcva len t
  unfolding copyin_from
  copyin_from-CopiedIn zero s dst srcva len le readable =
      (s, rw (no_bytes (omega (arith, le))) refl, CopiedIn-refl s dst srcva len (omega (arith, le)))
    where
      no_bytes : len ≡ 0 → (len == 0) ≡ true
      no_bytes h = ground arith
  copyin_from-CopiedIn (suc left) s dst srcva len le readable = elim (Bool-cases (len == 0)) [
    | inl z ↦ (s, rw z refl, CopiedIn-refl s dst srcva len (eq_of z))
    | inr z ↦
        let some_left : 0 < len = pos_of z in
        let size = chunk_size end sz own root s dst srcva len readable some_left in
        let (t, run, c) =
          copyin_from-CopiedIn left (copied end sz own root s dst srcva len readable some_left)
            (dst + chunk end sz own srcva len) (pgrounddown srcva + pgsize)
            (len - chunk end sz own srcva len) (omega (arith, le, size.0, size.1))
            (remaining-Readable s dst srcva len readable some_left) in
        (
          t,
          rw
              (
                z,
                user_page_at_lem end sz own root srcva s
                    (omega (arith, readable.in_space, some_left)) (first_mapped some_left),
                not_zero (first_mapped some_left),
              )
              run,
          first-CopiedIn end sz own root s dst srcva len readable some_left t c,
        )
  ]
    where
      eq_of : {i j : ℕ} → (i == j) ≡ true → i ≡ j
      eq_of h = ground arith

      pos_of : {i : ℕ} → (i == 0) ≡ false → 0 < i
      pos_of h = ground arith

      not_zero : {i : ℕ} → i ≢ 0 → (i == 0) ≡ false
      not_zero h = ground arith

      first_mapped : 0 < len → user_page (entry root srcva s) ≢ 0
      first_mapped lt =
          subst (λ a. user_page (entry root a s) ≢ 0) (omega arith) (readable.mapped 0 lt)

  -- `copyin` of bytes that the user may use, to a buffer that has none of them: it returns 0, the
  -- buffer has the bytes, and no other byte, no entry and nothing of the allocator changes.
  pub copyin_lem :
      (s : Vm) (dst srcva len : ℕ)
      → Readable root s dst srcva len
      → (t : Vm) × (copyin end sz own root dst srcva len s ≡ ok (pos 0, t))
        × CopiedIn root s dst srcva len t
  unfolding copyin
  copyin_lem s dst srcva len readable =
      copyin_from-CopiedIn len s dst srcva len (omega arith) readable
