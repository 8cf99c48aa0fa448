-- ===== src/Numbers/Digits.antt =====
-- What `printint` of user/printf.c prints in base 10, and what `atoi` of user/ulib.c makes of it.
use so_final_proyect.Prelude.{
  ℕ, zero, suc, ◌+◌, ◌-◌, ◌*◌, ◌/◌, ◌%◌, ◌^◌, ◌≤◌, ◌<◌, ◌≡◌, inl, inr, ap, ◌∙◌, arith, Bool,
  Bool-cases, true, false, List, [], ◌∷◌, length, length-append, leb, ◌==◌,
}
use so_final_proyect.Prelude.Int.{ℤ, pos, negsuc}
use mathlib.Core.List.{append-nil}
use so_final_proyect.Numbers.{digit, fill, max_rounds, buffer, put_back, printint, atoi_from, atoi}

-- The range of `long long`.
abbrev pub IsLong : ℤ → Type 0
IsLong (pos n) = n < 2 ^ 63
IsLong (negsuc n) = n < 2 ^ 63

abbrev power : ℕ → ℕ
power zero = 1
power (suc k) = 10 * power k

fill-length : (rounds k x : ℕ) → x < power (suc k) → length (fill rounds 10 x) ≤ suc k
unfolding fill
fill-length zero k x lt = omega arith
fill-length (suc rounds) zero x lt = elim (Bool-cases (x / 10 == 0)) [
  | inl z ↦ rw z (omega arith)
  | inr z ↦ absurd (ground (arith, z, lt))
]
fill-length (suc rounds) (suc k) x lt = elim (Bool-cases (x / 10 == 0)) [
  | inl z ↦ rw z (omega arith)
  | inr z ↦ rw z (omega (arith, fill-length rounds k (x / 10) (omega (arith, lt))))
]

digit_small : (d : ℕ) → d < 10 → digit d ≡ 48 + d
digit_small d lt = ground arith

-- A digit is read back.
atoi_from-digit :
    (n d : ℕ) (s : List ℕ)
    → d < 10
    → n * 10 + d < 2 ^ 32
    → atoi_from n (digit d ∷ s) ≡ atoi_from (n * 10 + d) s
unfolding atoi_from
atoi_from-digit n d s lt fits =
    ap (λ c. atoi_from n (c ∷ s)) (digit_small d lt)
    ∙ rw (low, high) (ap (λ m. atoi_from m s) (omega (arith, fits)))
  where
    low : leb 48 (48 + d) ≡ true
    low = ground arith

    high : leb (48 + d) 57 ≡ true
    high = ground arith

fill-atoi_from :
    (rounds x : ℕ) (s : List ℕ)
    → x < power rounds
    → x < 2 ^ 32
    → atoi_from 0 (put_back (fill rounds 10 x) s) ≡ atoi_from x s
unfolding fill
fill-atoi_from zero x s lt fits = ap (λ n. atoi_from n s) (omega (arith, lt))
fill-atoi_from (suc rounds) x s lt fits = elim (Bool-cases (x / 10 == 0)) [
  | inl z ↦ rw z (
      atoi_from-digit 0 (x % 10) s (omega arith) (omega arith)
      ∙ ap (λ n. atoi_from n s) (ground (arith, z)))
  | inr z ↦ rw z (
      fill-atoi_from rounds (x / 10) (digit (x % 10) ∷ s) (omega (arith, lt)) (omega (arith, fits))
      ∙ atoi_from-digit (x / 10) (x % 10) s (omega arith) (omega (arith, fits))
      ∙ ap (λ n. atoi_from n s) (omega arith))
]

-- A number below 2 ^ 31 that `printint` prints in base 10 is the one that `atoi` reads.
pub atoi-printint : (n : ℕ) (sgn : Bool) → n < 2 ^ 31 → atoi (printint (pos n) 10 sgn) ≡ n
unfolding atoi buffer
atoi-printint n sgn lt =
    ap (λ buf. atoi_from 0 (put_back buf [])) (append-nil (fill max_rounds 10 n))
    ∙ fill-atoi_from max_rounds n [] (omega (arith, lt)) (omega (arith, lt))

-- For a `long long`, in base 10, `printint` fills at most the 20 bytes of `buf`, the sign included.
pub buffer_fits : (xx : ℤ) (sgn : Bool) → IsLong xx → length (buffer xx 10 sgn) ≤ 20
unfolding buffer
buffer_fits (pos n) sgn fits = omega (
  arith,
  length-append (fill max_rounds 10 n) [],
  fill-length max_rounds 18 n (omega (arith, fits)),
)
buffer_fits (negsuc n) true fits = omega (
  arith,
  length-append (fill max_rounds 10 (n + 1)) (45 ∷ []),
  fill-length max_rounds 18 (n + 1) (omega (arith, fits)),
)
buffer_fits (negsuc n) false fits = omega (
  arith,
  length-append (fill max_rounds 10 (2 ^ 64 - (n + 1))) [],
  fill-length max_rounds 19 (2 ^ 64 - (n + 1)) (omega (arith, fits)),
)
