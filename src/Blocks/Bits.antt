-- ===== src/Blocks/Bits.antt =====
-- The bits of a byte, as `balloc` and `bfree` of kernel/fs.c set and clear them.
use Prim.Native.Nat.{bit_and, bit_or}
use so_final_proyect.Prelude.{
  ℕ, zero, suc, ◌-◌, ◌^◌, ◌<◌, ◌≡◌, refl, arith, Bool, true, false, not, ◌&&◌, ltb, ltb→lt, ◌==◌,
  if◌then◌else◌,
}

-- Every value below a bound, by evaluation.
all_below : ℕ → (ℕ → Bool) → Bool
all_below zero p = true
all_below (suc n) p = p n && all_below n p

all_below-at : (n : ℕ) (p : ℕ → Bool) (x : ℕ) → all_below n p ≡ true → x < n → p x ≡ true
unfolding all_below
all_below-at zero p x h lt = absurd (omega arith)
all_below-at (suc n) p x h lt = ground (arith, all_below-at n p x)

abbrev pub bit : ℕ → ℕ → Bool
bit byte k = not (bit_and byte (2 ^ k) == 0)

abbrev same : Bool → Bool → Bool
same a b = if a then b else not b

same-eq : (a b : Bool) → same a b ≡ true → a ≡ b
same-eq a b h = ground arith

abbrev row : ℕ → ℕ → ℕ → Bool
row x k j =
    same (bit (bit_or x (2 ^ k)) j) (if k == j then true else bit x j)
    && same (bit (bit_and x (255 - 2 ^ k)) j) (if k == j then false else bit x j)
    && ltb (bit_or x (2 ^ k)) 256
    && ltb (bit_and x (255 - 2 ^ k)) 256

table : all_below 256 (λ x. all_below 8 (λ k. all_below 8 (λ j. row x k j))) ≡ true
unfolding all_below
table = refl

row_holds : (x k j : ℕ) → x < 256 → k < 8 → j < 8 → row x k j ≡ true
row_holds x k j xl kl jl =
    all_below-at 8 (λ j. row x k j) j
      (all_below-at 8 (λ k. all_below 8 (λ j. row x k j)) k
        (all_below-at 256 (λ x. all_below 8 (λ k. all_below 8 (λ j. row x k j))) x table xl) kl)
      jl

and_left : (a b : Bool) → (a && b) ≡ true → a ≡ true
and_left a b h = ground arith

and_right : (a b : Bool) → (a && b) ≡ true → b ≡ true
and_right a b h = ground arith

module _ (x k : ℕ) (xl : x < 256) (kl : k < 8) where
  -- Setting bit `k` changes that bit alone, and gives a byte.
  pub bit-or : (j : ℕ) → j < 8 → bit (bit_or x (2 ^ k)) j ≡ (if k == j then true else bit x j)
  bit-or j jl = same-eq _ _ (and_left _ _ (and_left _ _ (and_left _ _ (row_holds x k j xl kl jl))))

  pub or_byte : bit_or x (2 ^ k) < 256
  or_byte = ltb→lt _ _ (and_right _ _ (and_left _ _ (row_holds x k 0 xl kl (omega arith))))

  -- And so does clearing it.
  pub bit-and :
      (j : ℕ) → j < 8 → bit (bit_and x (255 - 2 ^ k)) j ≡ (if k == j then false else bit x j)
  bit-and j jl =
      same-eq _ _ (and_right _ _ (and_left _ _ (and_left _ _ (row_holds x k j xl kl jl))))

  pub and_byte : bit_and x (255 - 2 ^ k) < 256
  and_byte = ltb→lt _ _ (and_right _ _ (row_holds x k 0 xl kl (omega arith)))
