-- ===== src/Vm/Tests.antt =====
-- A machine with one page that is free, and a process with one page of memory at address 0.
use so_final_proyect.Prelude.{
  ltb, ℕ, ◌+◌, ◌*◌, ◌≤◌, ◌<◌, ◌≡◌, ◌≢◌, refl, ap, sym, ◌∙◌, inl, inr, subst, arith, Bool-cases,
  true, false, Option, none, some, ◌==◌, if◌then◌else◌, List, [], ◌∷◌, length, All, Result, ok,
  panic, update, ◌%◌,
}
use so_final_proyect.Prelude.Int.{ℤ, pos}
use so_final_proyect.Kalloc.{Kmem, pgsize, get_ref_index}
use so_final_proyect.Kalloc.Inv.{IsPage, IsValid}
use so_final_proyect.Vm.{is_v, pa2pte, pte2pa, leaf_pte, Vm, set_pte, next_table, walk_from, walk}
use so_final_proyect.Vm.Trees.{leaf_from, IsTree}
use so_final_proyect.Vm.Walks.{IsMapped}
use so_final_proyect.Vm.Pages.{map_page, map_from, mappages, walkaddr, uvmunmap, uvmalloc}
use so_final_proyect.Vm.Entries.{entry, entry-page}
use so_final_proyect.Vm.Mapping.{Mapped}
use so_final_proyect.Vm.Ranges.{mappages_lem}
use so_final_proyect.Vm.Addresses.{user_page, mappages-walkaddr}
use so_final_proyect.Vm.Unmap.{IsUser, Unmapped}
use so_final_proyect.Vm.UserAlloc.{Resized, uvmalloc_lem}
use so_final_proyect.Vm.Copies.{copyin}
use so_final_proyect.Vm.CopyChunk.{phys, Readable, CopiedIn}
use so_final_proyect.Vm.CopyIn.{copyin_lem}
use so_final_proyect.Vm.UnmapRange.{uvmunmap_lem}

abbrev end : ℕ
end = 0x8000_8000

abbrev root : ℕ
root = 0x8000_9000

abbrev mid : ℕ
mid = 0x8000_A000

abbrev low : ℕ
low = 0x8000_B000

abbrev data_page : ℕ
data_page = 0x8000_C000

abbrev spare : ℕ
spare = 0x8000_D000

abbrev kmem : Kmem
kmem = record {
  freelist = spare;
  free_pages_count = pos 1;
  ref_counts = λ i. if i == get_ref_index spare then pos 0 else pos 1;
  next = λ p. 0;
  byte = λ p. 1;
}

kmem-IsValid : IsValid end kmem (spare ∷ [])
kmem-IsValid = record {
  chain = (refl, omega arith, refl);
  pages = (record { aligned = refl; above = omega arith; below = omega arith }, tt);
  distinct = (tt, tt);
  counted = refl;
  unreferenced = (refl, tt);
}

abbrev tables : ℕ → ℕ → ℕ
tables =
    set_pte low 0 (leaf_pte data_page 22)
      (set_pte mid 0 (pa2pte low + 1) (set_pte root 0 (pa2pte mid + 1) (λ p i. 0)))

abbrev process : Vm
process = record { kmem = kmem; ptes = tables; ram = λ a. 0 }

abbrev place : ℕ → Option (List ℕ)
place =
    update (update (update (λ p. none) root (some [])) mid (some (0 ∷ []))) low (some (0 ∷ 0 ∷ []))

some_inj : {a b : List ℕ} → some a ≡ some b → a ≡ b
some_inj e = cc

none-some : {a : List ℕ} → none ≡ some a → ⊥
none-some e = cc

zero_v : is_v 0 ≡ true → ⊥
zero_v e = ground arith

tables-IsTree : IsTree place tables
tables-IsTree page i above h inner v = elim (Bool-cases (low == page)) [
  | inl z ↦ absurd (too_long (ap length (some_inj (rw z at h))))
  | inr z ↦ elim (Bool-cases (mid == page)) [
    | inl y ↦ elim (Bool-cases (0 == i)) [
      | inl x ↦
          rw (z, y, x)
            (ap some (ap (λ k. k ∷ 0 ∷ []) (eq_of x) ∙ ap (λ k. i ∷ k) (some_inj (rw (z, y) at h))))
      | inr x ↦ absurd (zero_v (rw (z, y, x) at v))
    ]
    | inr y ↦ elim (Bool-cases (root == page)) [
      | inr w ↦ absurd (zero_v (rw (z, y, w) at v))
      | inl w ↦ elim (Bool-cases (0 == i)) [
        | inr x ↦ absurd (zero_v (rw (z, y, w, x) at v))
        | inl x ↦
            rw (z, y, w, x)
              (ap some
                (ap (λ k. k ∷ []) (eq_of x) ∙ ap (λ k. i ∷ k) (some_inj (rw (z, y, w) at h))))
      ]
    ]
  ]
]
  where
    eq_of : {a b : ℕ} → (a == b) ≡ true → a ≡ b
    eq_of e = ground arith

    too_long : 2 ≡ length above → ⊥
    too_long e = omega (arith, e, inner)

process-IsMapped : IsMapped end process place (spare ∷ [])
process-IsMapped = record { valid = kmem-IsValid; unplaced = (refl, tt); tree = tables-IsTree }

-- An address of the first page, and one of the second.
first_entry : (va : ℕ) → va < 4096 → entry root va process ≡ leaf_pte data_page 22
unfolding leaf_from
first_entry va lt = entry-page root va 0 process (omega (arith, lt)) ∙ refl

second_free : (va : ℕ) → 4096 ≤ va → va < 4096 + 1 * pgsize → is_v (entry root va process) ≡ false
unfolding leaf_from
second_free va lo hi = ap is_v (entry-page root va 4096 process (omega (arith, lo, hi))) ∙ refl

-- The page after the first.
mappages_lem_example :
    Mapped end
      (omega arith)
      root
      22
      process
      place
      (spare ∷ [])
      1
      4096
      0x8000_E000
      (mappages root 4096 (1 * pgsize) 0x8000_E000 22 process)
mappages_lem_example =
    mappages_lem end (omega arith) root 22 1 process 4096 0x8000_E000 place (spare ∷ [])
      (omega arith) process-IsMapped refl refl (omega arith) second_free

abbrev returned : Result (ℤ × Vm) → Vm
returned (ok r) = r.1
returned (panic m) = process

abbrev two_pages : Vm
unfolding mappages map_from map_page walk walk_from next_table
two_pages = returned (mappages root 4096 (1 * pgsize) 0x8000_E000 22 process)

mapped_twice : mappages root 4096 (1 * pgsize) 0x8000_E000 22 process ≡ ok (pos 0, two_pages)
unfolding mappages map_from map_page walk walk_from next_table
mapped_twice = refl

mappages-walkaddr_example : walkaddr root 5000 two_pages ≡ ok (0x8000_E000, two_pages)
mappages-walkaddr_example =
    mappages-walkaddr end (omega arith) root 22 1 process two_pages 4096 0x8000_E000 5000 place
      (spare ∷ []) (omega arith) process-IsMapped refl refl (omega arith) second_free refl
      (omega arith) refl mapped_twice (omega arith) (omega arith)

-- Below 8192 an address that is mapped is one of the first page.
first_page : (va : ℕ) → va < 8192 → is_v (entry root va process) ≡ true → va < 4096
first_page va lt v = elim (Bool-cases (ltb va 4096)) [
  | inl z ↦ lt_of z
  | inr z ↦ absurd (true-false (sym v ∙ second_free va (le_of z) lt))
]
  where
    true-false : true ≡ false → ⊥
    true-false e = ground arith

    lt_of : {i j : ℕ} → ltb i j ≡ true → i < j
    lt_of h = ground arith

    le_of : {i j : ℕ} → ltb i j ≡ false → j ≤ i
    le_of h = ground arith

process-IsUser : IsUser end root 8192 process place (spare ∷ [])
process-IsUser = record {
  mapped = process-IsMapped;
  rooted = refl;
  owned = λ va lt v.
      subst
        (λ e.
          IsPage end (pte2pa e)
          × (place (pte2pa e) ≡ none)
          × All (λ p. p ≢ pte2pa e) (spare ∷ [])
          × (kmem.ref_counts (get_ref_index (pte2pa e)) ≡ pos 1))
        (sym (first_entry va (first_page va lt v)))
        (
          record { aligned = refl; above = omega arith; below = omega arith },
          refl,
          ((λ e. omega (arith, e)), tt),
          refl,
        );
  apart = λ va vb l m v w e.
      let a : va < 4096 = first_page va l v in
      let b : vb < 4096 = first_page vb m w in omega (arith, a, b);
}

uvmunmap_lem_example :
    (t : Vm) × (free' : List ℕ) × (uvmunmap end root 0 1 true process ≡ ok t)
    × Unmapped end (omega arith) root 8192 (omega arith) place process (spare ∷ []) 1 0 t free'
uvmunmap_lem_example =
    uvmunmap_lem end (omega arith) root 8192 (omega arith) place 1 process 0 (spare ∷ [])
      process-IsUser refl (omega arith)

-- From 4,096 bytes to 5,000, with PTE_W.
uvmalloc_lem_example :
    Resized end
      (omega arith)
      root
      8192
      4
      (omega arith)
      (omega arith)
      refl
      process
      4096
      5000
      (uvmalloc end root 4096 5000 4 process)
uvmalloc_lem_example =
    uvmalloc_lem end (omega arith) root 8192 4 (omega arith) (omega arith) refl process place
      (spare ∷ []) 4096 5000 process-IsUser refl (omega arith) (omega arith) second_free

-- Three bytes of the first page.
process-Readable : Readable root process 0x8001_0000 10 3
process-Readable = record {
  in_space = omega arith;
  mapped = λ i lt.
      subst (λ e. user_page e ≢ 0) (sym (first_entry (10 + i) (omega (arith, lt))))
        (λ e. omega (arith, e));
  apart = λ i j lt k e.
      let at : phys root process (10 + i) ≡ data_page + (10 + i) % pgsize =
        ap (λ e. user_page e + (10 + i) % pgsize) (first_entry (10 + i) (omega (arith, lt))) in
      omega (arith, sym at ∙ e, lt, k);
}

copyin_lem_example :
    (t : Vm) × (copyin end 4096 root root 0x8001_0000 10 3 process ≡ ok (pos 0, t))
    × CopiedIn root process 0x8001_0000 10 3 t
copyin_lem_example = copyin_lem end 4096 root root process 0x8001_0000 10 3 process-Readable
