-- ===== src/Vm/Bits.antt =====
-- The `|` of kernel/vm.c on the address and the flags of an entry, which have no bit in common.
use Prim.Native.Nat.{bit_or, bit_or-bitwise, digits, max}
use so_final_proyect.Prelude.{
  ℕ, zero, suc, ◌+◌, ◌*◌, ◌/◌, ◌%◌, ◌^◌, ◌≤◌, ◌<◌, ◌≡◌, refl, ap, ◌∙◌, arith,
}
use so_final_proyect.Vm.{pa2pte, leaf_pte}

-- No digit of `b` is left after `k` of them, and the last `k` digits of `a` are 0.
abbrev Apart : ℕ → ℕ → ℕ → Type 0
Apart zero a b = b ≡ 0
Apart (suc k) a b = (a % 2 ≡ 0) × Apart k (a / 2) (b / 2)

digits-or_zero : (n a : ℕ) → a ≤ n → digits (λ b. b) max n a 0 ≡ a
digits-or_zero zero a le = omega (arith, le)
digits-or_zero (suc n) zero le = refl
digits-or_zero (suc n) (suc a) le =
    rw (digits-or_zero n (suc a / 2) (omega (arith, le))) (omega (arith, le))

digits-or_Apart : (k n a b : ℕ) → a ≤ n → Apart k a b → digits (λ b. b) max n a b ≡ a + b
digits-or_Apart zero n a b le h = rw h (digits-or_zero n a le ∙ omega arith)
digits-or_Apart (suc k) zero a b le h = omega (arith, le)
digits-or_Apart (suc k) (suc n) zero b le h = omega arith
digits-or_Apart (suc k) (suc n) (suc a) b le h =
    rw (digits-or_Apart k n (suc a / 2) (b / 2) (omega (arith, le)) h.1) (omega (arith, h.0))

or_Apart : (k a b : ℕ) → Apart k a b → bit_or a b ≡ a + b
or_Apart k a b h = bit_or-bitwise a b ∙ digits-or_Apart k a a b (omega arith) h

or_last : (a : ℕ) → bit_or a 1 ≡ a / 2 * 2 + 1
or_last a = bit_or-bitwise a 1 ∙ last a
  where
    last : (a : ℕ) → digits (λ b. b) max a a 1 ≡ a / 2 * 2 + 1
    last zero = refl
    last (suc a) = rw (digits-or_zero a (suc a / 2) (omega arith)) (omega arith)

Apart-flags : (c perm : ℕ) → perm < 2 ^ 10 → Apart 10 (c * 1024) perm
Apart-flags c perm small = (
  omega arith,
  (
    omega arith,
    (
      omega arith,
      (
        omega arith,
        (
          omega arith,
          (
            omega arith,
            (omega arith, (omega arith, (omega arith, (omega arith, omega (arith, small))))),
          ),
        ),
      ),
    ),
  ),
)

-- Flags below 2 ^ 10 have no bit in common with the address: they are added, and bit 0 is set.
pub leaf_pte_lem : (pa perm : ℕ) → perm < 2 ^ 10 → leaf_pte pa perm ≡ pa2pte pa + (perm / 2 * 2 + 1)
leaf_pte_lem pa perm small =
    or_last (bit_or (pa2pte pa) perm)
    ∙ ap (λ x. x / 2 * 2 + 1) (or_Apart 10 (pa2pte pa) perm (Apart-flags (pa / 4096) perm small))
    ∙ omega arith

pub leaf_pte_odd : (pa perm : ℕ) → leaf_pte pa perm % 2 ≡ 1
leaf_pte_odd pa perm = ap (λ x. x % 2) (or_last (bit_or (pa2pte pa) perm)) ∙ omega arith
