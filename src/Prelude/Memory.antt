-- ===== src/Prelude/Memory.antt =====
-- Memories and tables as functions of an address or index, with the update at one place.
use Prim.Native.Nat.{ℕ, zero, suc, ◌+◌}
use mathlib.Core.Path.{◌≡◌}
use mathlib.Core.Logic.{◌≢◌}
use native.Mathlib.Omega.{arith}
use mathlib.Core.Bool.{◌&&◌}
use so_final_proyect.Prelude.Tests.{ltb, leb, ◌==◌, if◌then◌else◌}

module _ {ℓ} {A : Type ℓ} where
  abbrev pub update : (ℕ → A) → ℕ → A → ℕ → A
  update f p v q = if p == q then v else f q

  pub update_self : (f : ℕ → A) (p : ℕ) (v : A) → update f p v p ≡ v
  update_self f p v = ground arith

  pub update_ne : (f : ℕ → A) {p q : ℕ} (v : A) → p ≢ q → update f p v q ≡ f q
  update_ne f v h = ground arith

  -- `for(p = table; p < &table[n]; p++)` with a body that changes `*p` alone: `left` rounds from `i`.
  unfoldable pub sweep : ℕ → ℕ → (ℕ → A → A) → (ℕ → A) → ℕ → A
  sweep zero i body t = t
  sweep (suc left) i body t = sweep left (i + 1) body (update t i (body i (t i)))

  sweep_from_lem :
      (left i : ℕ) (body : ℕ → A → A) (t : ℕ → A) (j : ℕ)
      → sweep left i body t j ≡ (if leb i j && ltb j (i + left) then body j (t j) else t j)
  unfolding sweep
  sweep_from_lem zero i body t j = ground arith
  sweep_from_lem (suc left) i body t j =
      ground (arith, sweep_from_lem left (i + 1) body (update t i (body i (t i))) j)

  -- Each entry below `n` is changed once, and no other.
  pub sweep_lem :
      (n : ℕ) (body : ℕ → A → A) (t : ℕ → A) (j : ℕ)
      → sweep n 0 body t j ≡ (if ltb j n then body j (t j) else t j)
  sweep_lem n body t j = ground (arith, sweep_from_lem n 0 body t j)
