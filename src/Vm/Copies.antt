-- ===== src/Vm/Copies.antt =====
-- The copies between kernel and user memory of kernel/vm.c.
-- `sz` and `own` are the size and the page table of the process that runs.
use so_final_proyect.Prelude.{
  ℕ, zero, suc, ◌+◌, ◌-◌, ◌%◌, Bool, false, not, Option, none, some, leb, ◌==◌, if◌then◌else◌, min,
  Result, ok, panic, ◌>>=◌,
}
use so_final_proyect.Prelude.Int.{ℤ, pos, negsuc}
use so_final_proyect.Kalloc.{pgsize, kalloc, kfree}
use so_final_proyect.Strings.{memset, memmove}
use so_final_proyect.Vm.{maxva, is_w, Vm, walk}
use so_final_proyect.Vm.Pages.{walkaddr, ismapped, mappages}

-- PGROUNDDOWN of kernel/riscv.h.
abbrev pub pgrounddown : ℕ → ℕ
pgrounddown a = a - a % pgsize

-- The loops have as many rounds as bytes, and each round copies a byte at least.
abbrev no_round : Result (ℤ × Vm)
no_round = panic "no round is left"

module _ (end sz own : ℕ) where
  -- What follows `mappages` in `vmfault`.
  pub keep_fault : ℕ → ℤ × Vm → Result (ℕ × Vm)
  keep_fault mem r = elim r.0 [
    | pos zero ↦ ok (mem, r.1)
    | pos (suc n) ↦ kfree end mem r.1.kmem >>= λ j. ok (0, record r.1 { kmem = j })
    | negsuc n ↦ kfree end mem r.1.kmem >>= λ j. ok (0, record r.1 { kmem = j })
  ]

  -- A cleared page for an address below the size with none, with PTE_W, PTE_U and PTE_R; or else 0.
  pub vmfault : ℕ → ℕ → Vm → Result (ℕ × Vm)
  unfolding keep_fault
  vmfault pagetable va s =
      if leb sz va
      then ok (0, s)
      else ismapped pagetable (pgrounddown va) s >>= λ mapped.
          let (mem, k) = kalloc s.kmem in
          if mapped
          then ok (0, s)
          else if mem == 0
          then ok (0, record s { kmem = k })
          else mappages own (pgrounddown va) pgsize mem 22
              (record s { kmem = k; ram = memset mem 0 pgsize s.ram })
            >>= keep_fault mem

  -- The page of an address that a copy uses, or 0.
  unfoldable pub user_page_at : ℕ → ℕ → Vm → Result (ℕ × Vm)
  unfolding vmfault
  user_page_at pagetable va0 s = walkaddr pagetable va0 s >>= λ r.
      let fault = vmfault pagetable va0 r.1 in if r.0 == 0 then fault else ok r

  -- How many bytes a round copies.
  abbrev pub chunk : ℕ → ℕ → ℕ
  chunk va len = min (pgsize - (va - pgrounddown va)) len

  unfoldable pub copyin_from : ℕ → ℕ → ℕ → ℕ → ℕ → Vm → Result (ℤ × Vm)
  unfolding user_page_at
  copyin_from zero pagetable dst srcva len s = if len == 0 then ok (pos 0, s) else no_round
  copyin_from (suc left) pagetable dst srcva len s =
      let va0 = pgrounddown srcva in
      let n = chunk srcva len in
      let round = user_page_at pagetable va0 s >>= λ r.
      let t = record r.1 { ram = memmove dst (r.0 + (srcva - va0)) n r.1.ram } in
      let rest = copyin_from left pagetable (dst + n) (va0 + pgsize) (len - n) t in
      if r.0 == 0 then ok (negsuc 0, r.1) else rest in
      if len == 0 then ok (pos 0, s) else round

  unfoldable pub copyin : ℕ → ℕ → ℕ → ℕ → Vm → Result (ℤ × Vm)
  unfolding copyin_from
  copyin pagetable dst srcva len s = copyin_from len pagetable dst srcva len s

  -- The test for a page that the user may write; the table of its entry is there.
  abbrev pub may_write : Option (ℕ × ℕ) × Vm → Bool
  may_write (found, t) = elim found [ none ↦ false | some slot ↦ is_w (t.ptes slot.0 slot.1) ]

  pub copyout_from : ℕ → ℕ → ℕ → ℕ → ℕ → Vm → Result (ℤ × Vm)
  unfolding user_page_at
  copyout_from zero pagetable dstva src len s = if len == 0 then ok (pos 0, s) else no_round
  copyout_from (suc left) pagetable dstva src len s =
      let va0 = pgrounddown dstva in
      let n = chunk dstva len in
      let round = user_page_at pagetable va0 s >>= λ r.
      let t = record r.1 { ram = memmove (r.0 + (dstva - va0)) src n r.1.ram } in
      let rest = copyout_from left pagetable (va0 + pgsize) (src + n) (len - n) t in
      let written = walk pagetable va0 false r.1 >>= λ w.
      if not (may_write w) then ok (negsuc 0, r.1) else rest in
      if r.0 == 0 then ok (negsuc 0, r.1) else written in
      if len == 0 then ok (pos 0, s) else if leb maxva va0 then ok (negsuc 0, s) else round

  pub copyout : ℕ → ℕ → ℕ → ℕ → Vm → Result (ℤ × Vm)
  unfolding copyout_from
  copyout pagetable dstva src len s = copyout_from len pagetable dstva src len s
