-- ===== src/Strings/Compare.antt =====
-- `memcmp`, `strncmp` and `strlen` of kernel/string.c.
use so_final_proyect.Prelude.{
  ℕ, zero, suc, ◌+◌, ◌<◌, ◌≡◌, ◌≢◌, ◌⊎◌, inl, inr, refl, arith, not, ◌&&◌, ◌==◌, Bool-cases, some,
}
use so_final_proyect.Prelude.Int.{pos, ◌-ℤ◌}
use so_final_proyect.Strings.{Memory, memcmp, strncmp, strlen_from, strlen}

-- The blocks at `a` and `b` agree in their first `n` bytes.
abbrev pub Agree : Memory → ℕ → ℕ → ℕ → Type 0
Agree m a b n = (i : ℕ) → i < n → m (a + i) ≡ m (b + i)

-- They agree before byte `i` and differ in it.
pub record DifferAt (m : Memory) (a b i : ℕ) : Type 0 where
  pub agree : Agree m a b i
  pub differ : m (a + i) ≢ m (b + i)

-- They agree in the first `n` bytes, none of which ends the string.
abbrev pub SameText : Memory → ℕ → ℕ → ℕ → Type 0
SameText m a b n = (i : ℕ) → i < n → (m (a + i) ≡ m (b + i)) × (m (a + i) ≢ 0)

Agree-suc : (m : Memory) (a b n : ℕ) → m a ≡ m b → Agree m (a + 1) (b + 1) n → Agree m a b (suc n)
Agree-suc m a b n e h zero lt = ground arith
Agree-suc m a b n e h (suc i) lt = ground (arith, h i)

SameText-suc :
    (m : Memory) (a b n : ℕ)
    → m a ≡ m b
    → m a ≢ 0
    → SameText m (a + 1) (b + 1) n
    → SameText m a b (suc n)
SameText-suc m a b n e nz h zero lt = (ground arith, ground arith)
SameText-suc m a b n e nz h (suc i) lt = (ground (arith, h i), ground (arith, h i))

-- `memcmp` returns 0 if the two blocks agree in `n` bytes, and otherwise the difference of the first
-- two bytes that differ.
pub memcmp_lem :
    (s1 s2 n : ℕ) (m : Memory)
    → (Agree m s1 s2 n × (memcmp s1 s2 n m ≡ pos 0))
      ⊎ ((i : ℕ) × (i < n)
          × DifferAt m s1 s2 i
          × (memcmp s1 s2 n m ≡ pos (m (s1 + i)) -ℤ pos (m (s2 + i))))
unfolding memcmp
memcmp_lem s1 s2 zero m = inl (λ i lt. absurd (omega arith), refl)
memcmp_lem s1 s2 (suc n) m = elim (Bool-cases (m s1 == m s2)) [
  | inl same ↦ elim (memcmp_lem (s1 + 1) (s2 + 1) n m) [
    | inl (agree, r) ↦ inl (Agree-suc m s1 s2 n (ground arith) agree, rw same r)
    | inr (i, lt, d, r) ↦ inr (
      suc i,
      omega arith,
      record {
        agree = Agree-suc m s1 s2 i (ground arith) d.agree;
        differ = λ e. d.differ (ground arith);
      },
      ground arith,
    )
  ]
  | inr differs ↦ inr (
    0,
    omega arith,
    record { agree = λ i lt. absurd (omega arith); differ = λ e. ground arith },
    ground arith,
  )
]

-- `strncmp` returns 0 if the texts are the same for `n` bytes and neither ends there, and otherwise
-- the difference of the first two bytes where they differ or both end.
pub strncmp_lem :
    (p q n : ℕ) (m : Memory)
    → (SameText m p q n × (strncmp p q n m ≡ pos 0))
      ⊎ ((i : ℕ) × (i < n)
          × SameText m p q i
          × ((m (p + i) ≡ 0) ⊎ (m (p + i) ≢ m (q + i)))
          × (strncmp p q n m ≡ pos (m (p + i)) -ℤ pos (m (q + i))))
unfolding strncmp
strncmp_lem p q zero m = inl (λ i lt. absurd (omega arith), refl)
strncmp_lem p q (suc n) m = elim (Bool-cases (not (m p == 0) && m p == m q)) [
  | inl same ↦ elim (strncmp_lem (p + 1) (q + 1) n m) [
    | inl (texts, r) ↦ inl (SameText-suc m p q n (ground arith) (ground arith) texts, rw same r)
    | inr (i, lt, texts, why, r) ↦ inr (
      suc i,
      omega arith,
      SameText-suc m p q i (ground arith) (ground arith) texts,
      ground arith,
      ground arith,
    )
  ]
  | inr stops ↦ inr (0, omega arith, λ i lt. absurd (omega arith), ground arith, ground arith)
]

strlen_from_lem :
    (fuel s n k : ℕ) (m : Memory)
    → k < fuel
    → ((j : ℕ) → j < k → m (s + n + j) ≢ 0)
    → m (s + n + k) ≡ 0
    → strlen_from fuel s n m ≡ some (n + k)
unfolding strlen_from
strlen_from_lem zero s n k m lt before e = absurd (omega arith)
strlen_from_lem (suc fuel) s n zero m lt before e = ground arith
strlen_from_lem (suc fuel) s n (suc k) m lt before e = ground (
  arith,
  before 0,
  strlen_from_lem fuel s (n + 1) k m (omega arith) (λ j jk. ground (arith, before (suc j)))
      (ground arith),
)

-- With more fuel than the string has bytes, `strlen` returns the place of the first 0 byte.
pub strlen_lem :
    (fuel s k : ℕ) (m : Memory)
    → k < fuel
    → ((j : ℕ) → j < k → m (s + j) ≢ 0)
    → m (s + k) ≡ 0
    → strlen fuel s m ≡ some k
unfolding strlen
strlen_lem fuel s k m lt before e =
    ground
      (arith, strlen_from_lem fuel s 0 k m lt (λ j jk. ground (arith, before j)) (ground arith))
