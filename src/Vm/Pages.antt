-- ===== src/Vm/Pages.antt =====
-- The calls of kernel/vm.c that map, unmap and allocate pages.
-- A loop has the rounds that its bounds leave it; `no_round` stands where they are used up, and the
-- theorems on these loops say that it is not reached.
use so_final_proyect.Prelude.{
  ℕ, zero, suc, ◌+◌, ◌-◌, ◌/◌, ◌%◌, Bool, true, false, not, Option, none, some, ltb, leb, ◌==◌,
  if◌then◌else◌, update, Result, ok, panic, ◌>>=◌, ◌>>◌, panic_if,
}
use so_final_proyect.Prelude.Int.{ℤ, pos, negsuc}
use so_final_proyect.Kalloc.{pgsize, pgroundup, kalloc, kfree}
use so_final_proyect.Strings.{memset}
use so_final_proyect.Vm.{maxva, is_v, is_u, pte2pa, leaf_pte, Vm, set_pte, walk}

-- Nothing for an address at or above MAXVA, or with no table, or whose entry is not valid or not for
-- user pages; 0 stands for it.
unfoldable pub walkaddr : ℕ → ℕ → Vm → Result (ℕ × Vm)
walkaddr pagetable va s =
    if leb maxva va
    then ok (0, s)
    else walk pagetable va false s >>= λ r. elim r.0 [
      | none ↦ ok (0, r.1)
      | some slot ↦
          let pte = r.1.ptes slot.0 slot.1 in
          if not (is_v pte)
          then ok (0, r.1)
          else if not (is_u pte)
          then ok (0, r.1)
          else ok (pte2pa pte, r.1)
    ]

-- The body of the loop of `mappages`; false is its return of -1.
abbrev pub put_pte : ℕ → ℕ → Option (ℕ × ℕ) × Vm → Result (Bool × Vm)
put_pte pa perm (found, t) = elim found [
  | none ↦ ok (false, t)
  | some slot ↦
      if is_v (t.ptes slot.0 slot.1)
      then panic "mappages: remap"
      else ok (true, record t { ptes = set_pte slot.0 slot.1 (leaf_pte pa perm) t.ptes })
]

unfoldable pub map_page : ℕ → ℕ → ℕ → ℕ → Vm → Result (Bool × Vm)
map_page pagetable a pa perm s = walk pagetable a true s >>= put_pte pa perm

abbrev no_round : {A : Type 0} → Result A
no_round = panic "no round is left"

unfoldable pub map_from : ℕ → ℕ → ℕ → ℕ → ℕ → ℕ → Vm → Result (ℤ × Vm)
unfolding map_page
map_from zero pagetable a last pa perm s = no_round
map_from (suc left) pagetable a last pa perm s = map_page pagetable a pa perm s >>= λ r.
    let rest = map_from left pagetable (a + pgsize) last (pa + pgsize) perm r.1 in
    if not r.0 then ok (negsuc 0, r.1) else if a == last then ok (pos 0, r.1) else rest

unfoldable pub mappages : ℕ → ℕ → ℕ → ℕ → ℕ → Vm → Result (ℤ × Vm)
unfolding map_from
mappages pagetable va size pa perm s =
    panic_if (not (va % pgsize == 0)) "mappages: va not aligned"
    >> (panic_if (not (size % pgsize == 0)) "mappages: size not aligned"
        >> (panic_if (size == 0) "mappages: size"
            >> map_from (size / pgsize) pagetable va (va + size - pgsize) pa perm s))

pub kvmmap : ℕ → ℕ → ℕ → ℕ → ℕ → Vm → Result Vm
unfolding mappages
kvmmap kpgtbl va pa sz perm s = mappages kpgtbl va sz pa perm s >>= λ r. elim r.0 [
  | pos zero ↦ ok r.1
  | pos (suc n) ↦ panic "kvmmap"
  | negsuc n ↦ panic "kvmmap"
]

-- The page, cleared, or 0.
unfoldable pub uvmcreate : Vm → ℕ × Vm
uvmcreate s =
    let (pagetable, k) = kalloc s.kmem in
    if pagetable == 0
    then (0, record s { kmem = k })
    else (pagetable, record s { kmem = k; ptes = update s.ptes pagetable (λ i. 0) })

unfoldable pub ismapped : ℕ → ℕ → Vm → Result Bool
ismapped pagetable va s = walk pagetable va false s >>= λ r. elim r.0 [
  | none ↦ ok false
  | some slot ↦ ok (is_v (r.1.ptes slot.0 slot.1))
]

-- `*pte &= ~PTE_U`
abbrev pub clear_u : ℕ → ℕ
clear_u pte = if is_u pte then pte - 16 else pte

unfoldable pub uvmclear : ℕ → ℕ → Vm → Result Vm
uvmclear pagetable va s = walk pagetable va false s >>= λ r. elim r.0 [
  | none ↦ panic "uvmclear"
  | some slot ↦
      ok (record r.1 { ptes = set_pte slot.0 slot.1 (clear_u (r.1.ptes slot.0 slot.1)) r.1.ptes })
]

module _ (end : ℕ) where
  -- The body of the loop of `uvmunmap`.
  abbrev pub clear_pte : Bool → Option (ℕ × ℕ) × Vm → Result Vm
  clear_pte do_free (found, t) = elim found [
    | none ↦ ok t
    | some slot ↦
        let pte = t.ptes slot.0 slot.1 in
        if not (is_v pte)
        then ok t
        else if do_free
        then (kfree end (pte2pa pte) t.kmem >>= λ k.
            ok (record t { kmem = k; ptes = set_pte slot.0 slot.1 0 t.ptes }))
        else ok (record t { ptes = set_pte slot.0 slot.1 0 t.ptes })
  ]

  unfoldable pub unmap_page : ℕ → ℕ → Bool → Vm → Result Vm
  unmap_page pagetable a do_free s = walk pagetable a false s >>= clear_pte do_free

  unfoldable pub unmap_from : ℕ → ℕ → ℕ → Bool → Vm → Result Vm
  unfolding unmap_page
  unmap_from zero pagetable a do_free s = ok s
  unmap_from (suc left) pagetable a do_free s =
      unmap_page pagetable a do_free s >>= unmap_from left pagetable (a + pgsize) do_free

  unfoldable pub uvmunmap : ℕ → ℕ → ℕ → Bool → Vm → Result Vm
  unfolding unmap_from
  uvmunmap pagetable va npages do_free s =
      panic_if (not (va % pgsize == 0)) "uvmunmap: not aligned"
      >> unmap_from npages pagetable va do_free s

  unfoldable pub uvmdealloc : ℕ → ℕ → ℕ → Vm → Result (ℕ × Vm)
  unfolding uvmunmap
  uvmdealloc pagetable oldsz newsz s =
      if leb oldsz newsz
      then ok (oldsz, s)
      else if ltb (pgroundup newsz) (pgroundup oldsz)
      then (uvmunmap pagetable (pgroundup newsz) ((pgroundup oldsz - pgroundup newsz) / pgsize) true
            s
          >>= λ t. ok (newsz, t))
      else ok (newsz, s)

  -- A call of `uvmdealloc` before a return of 0.
  abbrev pub undo : ℕ → ℕ → ℕ → Vm → Result (Bool × Vm)
  undo pagetable a oldsz t = uvmdealloc pagetable a oldsz t >>= λ r. ok (false, r.1)

  -- What follows `mappages` in the loop of `uvmalloc`.
  unfoldable pub keep_page : ℕ → ℕ → ℕ → ℕ → ℤ × Vm → Result (Bool × Vm)
  unfolding uvmdealloc
  keep_page pagetable a oldsz mem r = elim r.0 [
    | pos zero ↦ ok (true, r.1)
    | pos (suc n) ↦ kfree end mem r.1.kmem >>= λ j. undo pagetable a oldsz (record r.1 { kmem = j })
    | negsuc n ↦ kfree end mem r.1.kmem >>= λ j. undo pagetable a oldsz (record r.1 { kmem = j })
  ]

  -- A page for `a`, cleared, with PTE_R, PTE_U and `xperm`, which has other bits than these: the body
  -- of the loop of `uvmalloc`. False is its return of 0, once what it has mapped is taken away again.
  unfoldable pub grow_page : ℕ → ℕ → ℕ → ℕ → Vm → Result (Bool × Vm)
  unfolding keep_page
  grow_page pagetable a oldsz xperm s =
      let (mem, k) = kalloc s.kmem in
      if mem == 0
      then undo pagetable a oldsz (record s { kmem = k })
      else mappages pagetable a pgsize mem (18 + xperm)
          (record s { kmem = k; ram = memset mem 0 pgsize s.ram })
        >>= keep_page pagetable a oldsz mem

  unfoldable pub grow_from : ℕ → ℕ → ℕ → ℕ → ℕ → ℕ → Vm → Result (ℕ × Vm)
  unfolding grow_page
  grow_from zero pagetable a oldsz newsz xperm s = if ltb a newsz then no_round else ok (newsz, s)
  grow_from (suc left) pagetable a oldsz newsz xperm s =
      let rest = grow_page pagetable a oldsz xperm s >>= λ r.
      let later = grow_from left pagetable (a + pgsize) oldsz newsz xperm r.1 in
      if r.0 then later else ok (0, r.1) in
      if ltb a newsz then rest else ok (newsz, s)

  unfoldable pub uvmalloc : ℕ → ℕ → ℕ → ℕ → Vm → Result (ℕ × Vm)
  unfolding grow_from
  uvmalloc pagetable oldsz newsz xperm s =
      if ltb newsz oldsz
      then ok (oldsz, s)
      else grow_from ((newsz - oldsz) / pgsize + 1) pagetable (pgroundup oldsz) (pgroundup oldsz)
          newsz xperm s
