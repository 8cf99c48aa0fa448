-- ===== src/Kalloc.antt =====
-- The physical page allocator with reference counts: kernel/kalloc.c.
-- A page is named by its address, and 0 is the null pointer. Of a free page's contents only
-- `struct run` matters, the word at its start; `byte` is what the last `memset` left in the rest.
pub mod Inv
pub mod Free
pub mod Alloc
pub mod Owners
pub mod Init
pub mod Safety
mod Tests
use so_final_proyect.Prelude.{
  ℕ, zero, suc, ◌+◌, ◌-◌, ◌*◌, ◌/◌, ◌%◌, ◌^◌, Bool, ◌||◌, not, Option, none, some, ltb, leb, ◌==◌,
  if◌then◌else◌, update, Result, ok, panic,
}
use so_final_proyect.Prelude.Int.{ℤ, pos, negsuc, ◌+ℤ◌, ◌-ℤ◌, ltb_ℤ}

abbrev pub pgsize : ℕ
pgsize = 4096

-- kernel/memlayout.h
abbrev pub kernbase : ℕ
kernbase = 0x8000_0000

abbrev pub phystop : ℕ
phystop = kernbase + 128 * 1024 * 1024

-- PGROUNDUP of kernel/riscv.h, on uint64: `& ~(PGSIZE-1)` clears the twelve low bits.
abbrev pub pgroundup : ℕ → ℕ
pgroundup sz = let up = (sz + pgsize - 1) % 2 ^ 64 in up - up % pgsize

pub record Kmem : Type 0 where
  pub freelist : ℕ
  pub free_pages_count : ℤ
  pub ref_counts : ℕ → ℤ
  pub next : ℕ → ℕ
  pub byte : ℕ → ℕ

-- The quotient is cast to int.
abbrev pub get_ref_index : ℕ → ℕ
get_ref_index pa = pa / pgsize % 2 ^ 32

-- `memset(pa, c, PGSIZE)` on a page.
abbrev pub fill_page : ℕ → ℕ → Kmem → Kmem
fill_page pa c k = record k {
  next = update k.next pa (c * 0x0101_0101_0101_0101);
  byte = update k.byte pa c;
}

-- `ref_counts[i] = c` for an int `c`: 1, or what `inc_int` or `dec_int` makes of an int.
abbrev pub set_ref : ℕ → ℤ → Kmem → Kmem
set_ref pa c k = record k { ref_counts = update k.ref_counts (get_ref_index pa) c }

-- `++` and `--` of an int, which wraps around.
abbrev pub inc_int : ℤ → ℤ
inc_int (pos n) = if n == 2 ^ 31 - 1 then negsuc (2 ^ 31 - 1) else pos (n + 1)
inc_int (negsuc n) = if n == 0 then pos 0 else negsuc (n - 1)

abbrev pub dec_int : ℤ → ℤ
dec_int (pos n) = if n == 0 then negsuc 0 else pos (n - 1)
dec_int (negsuc n) = if n == 2 ^ 31 - 1 then pos (2 ^ 31 - 1) else negsuc (n + 1)

pub kref_inc : ℕ → Kmem → Kmem
kref_inc pa k = set_ref pa (inc_int (k.ref_counts (get_ref_index pa))) k

pub kref_dec : ℕ → Kmem → ℤ × Kmem
kref_dec pa k =
    let current_count = dec_int (k.ref_counts (get_ref_index pa)) in
    (current_count, set_ref pa current_count k)

-- The lines that put a page on the list.
pub push_free : ℕ → Kmem → Kmem
push_free pa k =
    let j = fill_page pa 1 k in
    record j {
      next = update j.next pa j.freelist;
      freelist = pa;
      free_pages_count = j.free_pages_count +ℤ pos 1;
    }

-- `end` is the first address after the kernel, which the linker sets.
module _ (end : ℕ) where
  abbrev pub is_bad : ℕ → Bool
  is_bad pa = not (pa % pgsize == 0) || (ltb pa end || leb phystop pa)

  pub kfree : ℕ → Kmem → Result Kmem
  unfolding kref_dec push_free
  kfree pa k =
      if is_bad pa
      then panic "kfree"
      else let (current_count, j) = kref_dec pa k in
        if ltb_ℤ (pos 0) current_count then ok j else ok (push_free pa j)

  -- The loop of `freerange` from `p` on; `none` is fuel that ran out.
  pub freerange_from : ℕ → ℕ → ℕ → Kmem → Option (Result Kmem)
  unfolding kfree
  freerange_from zero p pa_end k = none
  freerange_from (suc fuel) p pa_end k =
      let rest : Option (Result Kmem) = elim (kfree p (set_ref p (pos 1) k)) [
        | ok j ↦ freerange_from fuel (p + pgsize) pa_end j
        | panic m ↦ some (panic m)
      ] in
      if leb (p + pgsize) pa_end then rest else some (ok k)

  pub freerange : ℕ → ℕ → ℕ → Kmem → Option (Result Kmem)
  unfolding freerange_from
  freerange fuel pa_start pa_end k = freerange_from fuel (pgroundup pa_start) pa_end k

  pub kinit : ℕ → Kmem → Option (Result Kmem)
  unfolding freerange
  kinit fuel k = freerange fuel end phystop (record k { free_pages_count = pos 0 })

-- The page, or 0, with the new state. The line that `printf` shows is left out.
pub kalloc : Kmem → ℕ × Kmem
kalloc k =
    let r = k.freelist in
    let popped =
      if r == 0
      then k
      else record k { freelist = k.next r; free_pages_count = k.free_pages_count -ℤ pos 1 } in
    let filled = if r == 0 then popped else fill_page r 5 popped in (r, set_ref r (pos 1) filled)
