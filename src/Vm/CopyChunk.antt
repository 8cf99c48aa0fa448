-- ===== src/Vm/CopyChunk.antt =====
-- What a round of `copyin` of kernel/vm.c reads.
use so_final_proyect.Prelude.{
  ℕ, ◌+◌, ◌-◌, ◌%◌, ◌≤◌, ◌<◌, ◌≡◌, ◌≢◌, inl, inr, refl, ap, sym, ◌∙◌, subst, arith, Bool-cases,
  true, false, ltb, leb, ◌==◌, if◌then◌else◌, ok,
}
use so_final_proyect.Kalloc.{pgsize}
use so_final_proyect.Strings.{memmove}
use so_final_proyect.Strings.Blocks.{within, memmove_lem}
use so_final_proyect.Vm.{Vm, maxva}
use so_final_proyect.Vm.Entries.{entry, entry-page}
use so_final_proyect.Vm.Addresses.{user_page, walkaddr_lem}
use so_final_proyect.Vm.Copies.{pgrounddown, user_page_at, chunk}

-- The physical address of a user address.
abbrev pub phys : ℕ → Vm → ℕ → ℕ
phys root s va = user_page (entry root va s) + va % pgsize

-- The user may use each address of a range, and none of them is in the buffer.
pub record Readable (root : ℕ) (s : Vm) (dst srcva len : ℕ) : Type 0 where
  pub in_space : srcva + len ≤ maxva
  pub mapped : (i : ℕ) → i < len → user_page (entry root (srcva + i) s) ≢ 0
  pub apart : (i j : ℕ) → i < len → j < len → phys root s (srcva + i) ≢ dst + j

-- The buffer has the bytes of the range, and nothing else has changed.
pub record CopiedIn (root : ℕ) (s : Vm) (dst srcva len : ℕ) (t : Vm) : Type 0 where
  pub same_ptes : t.ptes ≡ s.ptes
  pub same_kmem : t.kmem ≡ s.kmem
  pub bytes : (i : ℕ) → i < len → t.ram (dst + i) ≡ s.ram (phys root s (srcva + i))
  pub others : (q : ℕ) → (dst ≤ q → q < dst + len → ⊥) → t.ram q ≡ s.ram q

module _ (end sz own root : ℕ) where
  pub user_page_at_lem :
      (va : ℕ) (s : Vm)
      → va < maxva
      → user_page (entry root va s) ≢ 0
      → user_page_at end sz own root (pgrounddown va) s ≡ ok (user_page (entry root va s), s)
  unfolding user_page_at
  user_page_at_lem va s lt some_page =
      rw
        (
          walkaddr_lem root (pgrounddown va) s,
          lt_of (omega (arith, lt)),
          entry-page root (pgrounddown va) va s (omega arith),
          not_zero some_page,
        )
        refl
    where
      lt_of : pgrounddown va < maxva → ltb (pgrounddown va) maxva ≡ true
      lt_of h = ground arith

      not_zero : {n : ℕ} → n ≢ 0 → (n == 0) ≡ false
      not_zero h = ground arith

  -- A byte of the part that the round copies.
  phys-chunk :
      (s : Vm) (va i : ℕ)
      → va % pgsize + i < pgsize
      → phys root s (va + i) ≡ user_page (entry root va s) + va % pgsize + i
  phys-chunk s va i lt =
      ap (λ e. user_page e + (va + i) % pgsize) (entry-page root (va + i) va s (omega (arith, lt)))
      ∙ sum (user_page (entry root va s)) (omega (arith, lt))
    where
      sum :
          (p : ℕ)
          → (va + i) % pgsize ≡ va % pgsize + i
          → p + (va + i) % pgsize ≡ p + va % pgsize + i
      sum p e = omega (arith, e)

  memmove_in : (dst src n i : ℕ) (m : ℕ → ℕ) → i < n → memmove dst src n m (dst + i) ≡ m (src + i)
  memmove_in dst src n i m lt =
      memmove_lem dst src n m (dst + i) ∙ rw (low, high lt) (ap (λ k. m (src + k)) (omega arith))
    where
      low : leb dst (dst + i) ≡ true
      low = ground arith

      high : i < n → ltb (dst + i) (dst + n) ≡ true
      high h = ground arith

  memmove_out :
      (dst src n q : ℕ) (m : ℕ → ℕ) → (dst ≤ q → q < dst + n → ⊥) → memmove dst src n m q ≡ m q
  memmove_out dst src n q m h = memmove_lem dst src n m q ∙ outside
    where
      le_of : {i j : ℕ} → leb i j ≡ true → i ≤ j
      le_of h = ground arith

      lt_of : {i j : ℕ} → ltb i j ≡ true → i < j
      lt_of h = ground arith

      outside : (if within dst n q then m (src + (q - dst)) else m q) ≡ m q
      outside = elim (Bool-cases (leb dst q)) [
        | inr z ↦ rw z refl
        | inl z ↦ elim (Bool-cases (ltb q (dst + n))) [
          | inr w ↦ rw (z, w) refl
          | inl w ↦ absurd (h (le_of z) (lt_of w))
        ]
      ]

  module _ (s : Vm) (dst srcva len : ℕ) (readable : Readable root s dst srcva len)
      (some_left : 0 < len) where
    abbrev n : ℕ
    n = chunk end sz own srcva len

    abbrev source : ℕ
    source = user_page (entry root srcva s) + (srcva - pgrounddown srcva)

    abbrev pub copied : Vm
    copied = record s { ram = memmove dst source n s.ram }

    source_lem : source ≡ user_page (entry root srcva s) + srcva % pgsize
    source_lem = ap (λ k. user_page (entry root srcva s) + k) (omega arith)

    pub chunk_size : (0 < n) × (n ≤ len) × (srcva % pgsize + n ≤ pgsize)
    chunk_size = (omega (arith, some_left), omega arith, omega arith)

    next_page : n < len → pgrounddown srcva + pgsize ≡ srcva + n
    next_page lt = omega (arith, lt)

    copied_phys :
        (i : ℕ) → i < len → copied.ram (phys root s (srcva + i)) ≡ s.ram (phys root s (srcva + i))
    copied_phys i lt =
        memmove_out dst source n _ s.ram
          (λ lo hi. readable.apart i (phys root s (srcva + i) - dst) lt (less lo hi) (back lo))
      where
        less : {p : ℕ} → dst ≤ p → p < dst + n → p - dst < len
        less lo hi = omega (arith, lo, hi, chunk_size.1)

        back : {p : ℕ} → dst ≤ p → p ≡ dst + (p - dst)
        back lo = omega (arith, lo)

    pub rest-Readable :
        n < len → Readable root copied (dst + n) (pgrounddown srcva + pgsize) (len - n)
    rest-Readable lt =
        subst (λ va. Readable root copied (dst + n) va (len - n)) (sym (next_page lt))
          (record {
            in_space = omega (arith, readable.in_space, chunk_size.1);
            mapped = λ i l.
                subst (λ a. user_page (entry root a s) ≢ 0) (sum i)
                  (readable.mapped (n + i) (omega (arith, l)));
            apart = λ i j l k e.
                readable.apart (n + i) (n + j) (omega (arith, l)) (omega (arith, k))
                  (ap (λ a. phys root s a) (sum i) ∙ e ∙ omega arith);
          })
      where
        sum : (i : ℕ) → srcva + (n + i) ≡ srcva + n + i
        sum i = omega arith

    pub first-CopiedIn :
        (t : Vm)
        → CopiedIn root copied (dst + n) (pgrounddown srcva + pgsize) (len - n) t
        → CopiedIn root s dst srcva len t
    first-CopiedIn t c = record {
      same_ptes = c.same_ptes;
      same_kmem = c.same_kmem;
      bytes = λ i lt. elim (Bool-cases (ltb i n)) [
        | inl z ↦
            let small : i < n = lt_of z in
            c.others (dst + i) (λ lo hi. omega (arith, small, lo))
            ∙ memmove_in dst source n i s.ram small
            ∙ ap (λ k. s.ram (k + i)) source_lem
            ∙ ap s.ram (sym (phys-chunk s srcva i (omega (arith, small, chunk_size.2))))
        | inr z ↦ later i (le_of z) lt
      ];
      others = λ q h.
          c.others q (λ lo hi. h (omega (arith, lo)) (omega (arith, hi, chunk_size.1)))
          ∙ memmove_out dst source n q s.ram (λ lo hi. h lo (omega (arith, hi, chunk_size.1)));
    }
      where
        lt_of : {i j : ℕ} → ltb i j ≡ true → i < j
        lt_of h = ground arith

        le_of : {i j : ℕ} → ltb i j ≡ false → j ≤ i
        le_of h = ground arith

        later : (i : ℕ) → n ≤ i → i < len → t.ram (dst + i) ≡ s.ram (phys root s (srcva + i))
        later i le lt =
            ap t.ram (omega (arith, le))
            ∙ c.bytes (i - n) (omega (arith, le, lt))
            ∙ ap (λ a. copied.ram (phys root s a)) (there (next_page (omega (arith, le, lt))))
            ∙ copied_phys i lt
          where
            there :
                pgrounddown srcva + pgsize ≡ srcva + n
                → pgrounddown srcva + pgsize + (i - n) ≡ srcva + i
            there e = omega (arith, e, le)
