-- ===== src/Blocks.antt =====
-- The allocator of disk blocks: the first part of kernel/fs.c.
-- The disk is what the buffer cache and the log make of it: the bytes of each block. What a call
-- changes it changes in one transaction.
pub mod Bits
pub mod Bitmap
pub mod Alloc
mod Tests
use Prim.Native.Nat.{bit_and, bit_or}
use so_final_proyect.Prelude.{
  ℕ, zero, suc, ◌+◌, ◌-◌, ◌*◌, ◌/◌, ◌%◌, ◌^◌, Bool, true, false, ◌&&◌, Option, none, some, ltb,
  ◌==◌, if◌then◌else◌, update, Result, ok, panic,
}

-- BSIZE and BPB of kernel/fs.h.
abbrev pub bsize : ℕ
bsize = 1024

abbrev pub bpb : ℕ
bpb = bsize * 8

-- The fields of `struct superblock` that the allocator reads.
pub record Superblock : Type 0 where
  pub size : ℕ
  pub ninodes : ℕ
  pub inodestart : ℕ
  pub bmapstart : ℕ

abbrev pub Disk : Type 0
Disk = ℕ → ℕ → ℕ

abbrev pub bblock : ℕ → Superblock → ℕ
bblock b sb = b / bpb + sb.bmapstart

abbrev pub set_byte : ℕ → ℕ → ℕ → Disk → Disk
set_byte block i v d = update d block (update (d block) i v)

abbrev pub bzero : ℕ → Disk → Disk
bzero bno d = update d bno (λ i. 0)

-- `m` of `balloc` and `bfree`, and the test with it.
abbrev pub mask : ℕ → ℕ
mask bi = 2 ^ (bi % 8)

abbrev pub is_free : ℕ → ℕ → Bool
is_free byte bi = bit_and byte (mask bi) == 0

-- The inner loop of `balloc`, on the map block for `b`.
pub scan_block : ℕ → ℕ → ℕ → Superblock → Disk → Option ℕ
scan_block zero b bi sb d = none
scan_block (suc left) b bi sb d =
    let rest = scan_block left b (bi + 1) sb d in
    if ltb (b + bi) sb.size
    then (if is_free (d (bblock b sb) (bi / 8)) bi then some bi else rest)
    else none

abbrev pub or_else : ℕ → Option ℕ → Option ℕ → Option ℕ
or_else b none rest = rest
or_else b (some bi) rest = some (b + bi)

-- The outer loop; `rounds` bounds its rounds.
pub scan_map : ℕ → ℕ → Superblock → Disk → Option ℕ
unfolding scan_block
scan_map zero b sb d = none
scan_map (suc rounds) b sb d =
    let rest = scan_map rounds (b + bpb) sb d in
    if ltb b sb.size then or_else b (scan_block bpb b 0 sb d) rest else none

-- The block is marked and zeroed.
abbrev pub take_block : Option ℕ → Superblock → Disk → ℕ × Disk
take_block none sb d = (0, d)
take_block (some b) sb d =
    let bi = b % bpb in
    let byte = d (bblock b sb) (bi / 8) in
    (b, bzero b (set_byte (bblock b sb) (bi / 8) (bit_or byte (mask bi)) d))

-- The block, or 0; one round more than there are map blocks.
pub balloc : Superblock → Disk → ℕ × Disk
unfolding scan_map
balloc sb d = take_block (scan_map (sb.size / bpb + 1) 0 sb d) sb d

pub bfree : ℕ → Superblock → Disk → Result Disk
bfree b sb d =
    let bi = b % bpb in
    let byte = d (bblock b sb) (bi / 8) in
    if is_free byte bi
    then panic "freeing free block"
    else ok (set_byte (bblock b sb) (bi / 8) (bit_and byte (255 - mask bi)) d)
