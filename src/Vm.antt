-- ===== src/Vm.antt =====
-- The page tables of kernel/vm.c: three levels of pages with 512 entries each.
-- Physical memory is seen in two ways: `ptes` has the entries of the pages that are tables, and `ram`
-- the bytes of the others. What `kalloc` and `kfree` fill a page with stands in `Kmem`: nothing reads
-- it here, since a page is cleared or copied to before it is used.
pub mod Bits
pub mod Trees
pub mod Grow
pub mod Walks
pub mod Pages
pub mod Entries
pub mod Mapping
pub mod Ranges
pub mod Addresses
pub mod Unmap
pub mod UnmapRange
pub mod NewPage
pub mod UserPage
pub mod UserGrow
pub mod GrowPage
pub mod UserAlloc
pub mod Copies
pub mod CopyChunk
pub mod CopyIn
mod Tests
use Prim.Native.Nat.{bit_or}
use so_final_proyect.Prelude.{
  ℕ, zero, suc, ◌+◌, ◌-◌, ◌*◌, ◌/◌, ◌%◌, ◌^◌, ◌≡◌, Bool, true, false, not, ◌&&◌, Option, none, some,
  ltb, leb, ◌==◌, if◌then◌else◌, update, Result, ok, panic,
}
use so_final_proyect.Prelude.Int.{ℤ, pos, negsuc}
use so_final_proyect.Kalloc.{pgsize, Kmem, kalloc, kfree}

-- MAXVA of kernel/riscv.h.
abbrev pub maxva : ℕ
maxva = 2 ^ 38

-- PX(level, va): nine bits for each level, above the twelve of the offset.
abbrev pub px : ℕ → ℕ → ℕ
px level va = va / 2 ^ (12 + 9 * level) % 512

-- The flags are the ten low bits of an entry.
abbrev pub is_v : ℕ → Bool
is_v pte = pte % 2 == 1

abbrev pub is_w : ℕ → Bool
is_w pte = pte / 4 % 2 == 1

abbrev pub is_u : ℕ → Bool
is_u pte = pte / 16 % 2 == 1

abbrev pub pa2pte : ℕ → ℕ
pa2pte pa = pa / 4096 * 1024

abbrev pub pte2pa : ℕ → ℕ
pte2pa pte = pte / 1024 * 4096

abbrev pub pte_flags : ℕ → ℕ
pte_flags pte = pte % 1024

abbrev pub leaf_pte : ℕ → ℕ → ℕ
leaf_pte pa perm = bit_or (bit_or (pa2pte pa) perm) 1

pub record Vm : Type 0 where
  pub kmem : Kmem
  pub ptes : ℕ → ℕ → ℕ
  pub ram : ℕ → ℕ

-- `*pte = v`, the pointer being an index into a page of entries.
abbrev pub set_pte : ℕ → ℕ → ℕ → (ℕ → ℕ → ℕ) → ℕ → ℕ → ℕ
set_pte page i v t = update t page (update (t page) i v)

-- The page is cleared and becomes the table that entry `i` of `page` refers to.
abbrev pub add_table : ℕ → ℕ → ℕ → (ℕ → ℕ → ℕ) → ℕ → ℕ → ℕ
add_table page i new t = set_pte page i (pa2pte new + 1) (update t new (λ j. 0))

-- One round of the loop of `walk`: the table of the next level, if there is one.
pub next_table : ℕ → ℕ → Bool → Vm → Option ℕ × Vm
next_table page i alloc s =
    let pte = s.ptes page i in
    if is_v pte
    then (some (pte2pa pte), s)
    else if not alloc
    then (none, s)
    else let (new, k) = kalloc s.kmem in
      if new == 0
      then (none, record s { kmem = k })
      else (some new, record s { kmem = k; ptes = add_table page i new s.ptes })

-- The loop from `level` on. The result is the page and the index of the entry.
pub walk_from : ℕ → ℕ → ℕ → Bool → Vm → Option (ℕ × ℕ) × Vm
unfolding next_table
walk_from zero page va alloc s = (some (page, px 0 va), s)
walk_from (suc level) page va alloc s =
    let (found, t) = next_table page (px (suc level) va) alloc s in
    elim found [ none ↦ (none, t) | some below ↦ walk_from level below va alloc t ]

pub walk : ℕ → ℕ → Bool → Vm → Result (Option (ℕ × ℕ) × Vm)
unfolding walk_from
walk pagetable va alloc s =
    if leb maxva va then panic "walk" else ok (walk_from 2 pagetable va alloc s)
