-- ===== src/Blocks/Bitmap.antt =====
-- The free map of kernel/fs.c as a set of blocks.
use Prim.Native.Nat.{bit_and, bit_or}
use so_final_proyect.Prelude.{
  ℕ, ◌-◌, ◌/◌, ◌%◌, ◌^◌, ◌<◌, ◌≡◌, ◌≢◌, refl, ap, sym, ◌∙◌, subst, arith, Bool, true, false, not,
  ◌==◌, if◌then◌else◌, update, update_self, update_ne, ℕ_discrete,
}
use so_final_proyect.Blocks.{bpb, Superblock, Disk, bblock, set_byte, mask, is_free}
use so_final_proyect.Blocks.Bits.{bit, bit-or, bit-and}

-- The byte of the map that has the bit of block `n`.
abbrev pub map_byte : Superblock → Disk → ℕ → ℕ
map_byte sb d n = d (bblock n sb) (n % bpb / 8)

-- Block `n` is marked.
abbrev pub used : Superblock → Disk → ℕ → Bool
used sb d n = bit (map_byte sb d n) (n % 8)

mask-eq : (b : ℕ) → mask (b % bpb) ≡ 2 ^ (b % 8)
mask-eq b = ap (λ k. 2 ^ k) (omega arith)

pub is_free-used :
    (sb : Superblock) (d : Disk) (b : ℕ) → is_free (map_byte sb d b) (b % bpb) ≡ not (used sb d b)
is_free-used sb d b =
    ap (λ m. bit_and (map_byte sb d b) m == 0) (mask-eq b)
    ∙ double (bit_and (map_byte sb d b) (2 ^ (b % 8)) == 0)
  where
    double : (x : Bool) → x ≡ not (not x)
    double true = refl
    double false = refl

-- A write of the byte of block `b` that sets its bit to `r` and leaves the other seven.
write-used :
    (sb : Superblock) (d : Disk) (b v : ℕ) (r : Bool)
    → ((j : ℕ) → j < 8 → bit v j ≡ (if b % 8 == j then r else bit (map_byte sb d b) j))
    → (n : ℕ)
    → used sb (set_byte (bblock b sb) (b % bpb / 8) v d) n ≡ (if b == n then r else used sb d n)
write-used sb d b v r bits n = elim (ℕ_discrete (bblock b sb) (bblock n sb)) [
  | no ne ↦
      ap (λ (f : ℕ → ℕ). bit (f (n % bpb / 8)) (n % 8)) (update_ne d row ne)
      ∙ sym (if-no (λ e. ne (ap (λ k. bblock k sb) e)))
  | yes e ↦ elim (ℕ_discrete (b % bpb / 8) (n % bpb / 8)) [
    | no ne ↦
        ap (λ (f : ℕ → ℕ). bit (f (n % bpb / 8)) (n % 8)) (at_block e)
        ∙ ap (λ x. bit x (n % 8)) (update_ne (d (bblock b sb)) v ne)
        ∙ ap (λ k. bit (d k (n % bpb / 8)) (n % 8)) e
        ∙ sym (if-no (λ z. ne (ap (λ k. k % bpb / 8) z)))
    | yes f ↦
        ap (λ (g : ℕ → ℕ). bit (g (n % bpb / 8)) (n % 8)) (at_block e)
        ∙ ap (λ x. bit x (n % 8))
            (subst (λ k. update (d (bblock b sb)) (b % bpb / 8) v k ≡ v) f
              (update_self (d (bblock b sb)) (b % bpb / 8) v))
        ∙ bits (n % 8) (omega arith)
        ∙ elim (ℕ_discrete b n) [
          | yes z ↦
              if-yes (bit (map_byte sb d b) (n % 8)) (ap (λ k. k % 8) z)
              ∙ sym (if-yes (used sb d n) z)
          | no ne ↦
              if-no (λ z. ne (omega (arith, e, f, z)))
              ∙ ap (λ x. bit x (n % 8))
                  (ap (λ k. d k (b % bpb / 8)) e ∙ ap (λ k. d (bblock n sb) k) f)
              ∙ sym (if-no ne)
        ]
  ]
]
  where
    row : ℕ → ℕ
    row = update (d (bblock b sb)) (b % bpb / 8) v

    at_block : bblock b sb ≡ bblock n sb → update d (bblock b sb) row (bblock n sb) ≡ row
    at_block e = subst (λ k. update d (bblock b sb) row k ≡ row) e (update_self d (bblock b sb) row)

    if-no : {i j : ℕ} {x : Bool} → i ≢ j → (if i == j then r else x) ≡ x
    if-no ne = ground arith

    if-yes : {i j : ℕ} (x : Bool) → i ≡ j → (if i == j then r else x) ≡ r
    if-yes x e = ground arith

-- Each block of the map is bytes.
abbrev pub Bytes : Disk → Type 0
Bytes d = (block i : ℕ) → d block i < 256

-- The block is marked, and no other.
pub mark-used :
    (sb : Superblock) (d : Disk) (b : ℕ)
    → Bytes d
    → (n : ℕ)
    → used sb (set_byte (bblock b sb) (b % bpb / 8) (bit_or (map_byte sb d b) (mask (b % bpb))) d) n
      ≡ (if b == n then true else used sb d n)
mark-used sb d b bytes n =
    write-used sb d b _ true
      (λ j jl.
        ap (λ m. bit (bit_or (map_byte sb d b) m) j) (mask-eq b)
        ∙ bit-or (map_byte sb d b) (b % 8) (bytes _ _) (omega arith) j jl)
      n

-- The mark is taken away, and no other.
pub unmark-used :
    (sb : Superblock) (d : Disk) (b : ℕ)
    → Bytes d
    → (n : ℕ)
    → used sb
        (set_byte (bblock b sb) (b % bpb / 8) (bit_and (map_byte sb d b) (255 - mask (b % bpb))) d)
        n
      ≡ (if b == n then false else used sb d n)
unmark-used sb d b bytes n =
    write-used sb d b _ false
      (λ j jl.
        ap (λ m. bit (bit_and (map_byte sb d b) (255 - m)) j) (mask-eq b)
        ∙ bit-and (map_byte sb d b) (b % 8) (bytes _ _) (omega arith) j jl)
      n
