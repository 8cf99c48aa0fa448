-- ===== src/Numbers.antt =====
-- Numbers as text: `printint` of user/printf.c and `atoi` of user/ulib.c.
-- A string is the list of its characters before the NUL.
pub mod Digits
mod Tests
use so_final_proyect.Prelude.{
  ℕ, zero, suc, ◌+◌, ◌-◌, ◌*◌, ◌/◌, ◌%◌, ◌^◌, Bool, true, false, ◌&&◌, List, [], ◌∷◌, ◌++◌, ltb,
  leb, ◌==◌, if◌then◌else◌,
}
use so_final_proyect.Prelude.Int.{ℤ, pos, negsuc}

-- The table "0123456789ABCDEF".
abbrev pub digit : ℕ → ℕ
digit d = if ltb d 10 then 48 + d else 55 + d

-- The loop that fills `buf`, the lowest digit first; `rounds` bounds its rounds.
pub fill : ℕ → ℕ → ℕ → List ℕ
fill zero base x = []
fill (suc rounds) base x =
    let rest = fill rounds base (x / base) in
    digit (x % base) ∷ (if x / base == 0 then [] else rest)

-- A 64-bit number has at most 64 digits.
abbrev pub max_rounds : ℕ
max_rounds = 64

-- `neg` and `x`: the sign is printed, or the number is read as an `unsigned long long`.
abbrev pub magnitude : ℤ → Bool → Bool × ℕ
magnitude (pos n) sgn = (false, n)
magnitude (negsuc n) sgn = if sgn then (true, n + 1) else (false, 2 ^ 64 - (n + 1))

-- `buf` when it is full.
pub buffer : ℤ → ℕ → Bool → List ℕ
buffer xx base sgn =
    let (neg, x) = magnitude xx sgn in fill max_rounds base x ++ (if neg then 45 ∷ [] else [])

-- The loop that prints `buf` from its end, before what is printed later.
abbrev pub put_back : List ℕ → List ℕ → List ℕ
put_back [] out = out
put_back (c ∷ buf) out = put_back buf (c ∷ out)

-- What `printint` prints.
abbrev pub printint : ℤ → ℕ → Bool → List ℕ
printint xx base sgn = put_back (buffer xx base sgn) []

-- The loop of `atoi`; an `int` is its 32 bits.
pub atoi_from : ℕ → List ℕ → ℕ
atoi_from n [] = n
atoi_from n (c ∷ s) =
    let rest = atoi_from ((n * 10 + c - 48) % 2 ^ 32) s in if leb 48 c && leb c 57 then rest else n

pub atoi : List ℕ → ℕ
unfolding atoi_from
atoi s = atoi_from 0 s
