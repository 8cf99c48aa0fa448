-- ===== src/Strings.antt =====
-- The memory and string routines of kernel/string.c over a byte memory.
-- A pointer is an address; addresses do not wrap. Bytes are numbers below 256, and a comparison
-- returns the difference of two of them as an int.
pub mod Blocks
pub mod Compare
pub mod Copy
mod Tests
use so_final_proyect.Prelude.{
  ℕ, zero, suc, ◌+◌, ◌-◌, ◌%◌, Bool, true, false, not, ◌&&◌, ltb, ◌==◌, if◌then◌else◌, update,
  Option, none, some,
}
use so_final_proyect.Prelude.Int.{ℤ, pos, negsuc, pos_part, ◌-ℤ◌}

abbrev pub Memory : Type 0
Memory = ℕ → ℕ

-- The rounds `i`, `i + 1`, … of the loop of `memset`, `left` of them.
pub memset_from : ℕ → ℕ → ℕ → ℕ → Memory → Memory
memset_from zero i dst c m = m
memset_from (suc left) i dst c m = memset_from left (i + 1) dst c (update m (dst + i) (c % 256))

pub memset : ℕ → ℕ → ℕ → Memory → Memory
unfolding memset_from
memset dst c n m = memset_from n 0 dst c m

pub memcmp : ℕ → ℕ → ℕ → Memory → ℤ
memcmp s1 s2 zero m = pos 0
memcmp s1 s2 (suc n) m =
    let rest = memcmp (s1 + 1) (s2 + 1) n m in
    if not (m s1 == m s2) then pos (m s1) -ℤ pos (m s2) else rest

-- `*d++ = *s++`
pub copy_up : ℕ → ℕ → ℕ → Memory → Memory
copy_up d s zero m = m
copy_up d s (suc n) m = copy_up (d + 1) (s + 1) n (update m d (m s))

-- `*--d = *--s`
pub copy_down : ℕ → ℕ → ℕ → Memory → Memory
copy_down d s zero m = m
copy_down d s (suc n) m = copy_down (d - 1) (s - 1) n (update m (d - 1) (m (s - 1)))

pub memmove : ℕ → ℕ → ℕ → Memory → Memory
unfolding copy_up copy_down
memmove dst src n m =
    if n == 0
    then m
    else if ltb src dst && ltb dst (src + n)
    then copy_down (dst + n) (src + n) n m
    else copy_up dst src n m

pub memcpy : ℕ → ℕ → ℕ → Memory → Memory
unfolding memmove
memcpy dst src n m = memmove dst src n m

-- With `n` left at 0 the loop stops, and the result is 0.
pub strncmp : ℕ → ℕ → ℕ → Memory → ℤ
strncmp p q zero m = pos 0
strncmp p q (suc n) m =
    let rest = strncmp (p + 1) (q + 1) n m in
    if not (m p == 0) && m p == m q then rest else pos (m p) -ℤ pos (m q)

-- `while(n-- > 0) *s++ = 0;`
pub pad : ℕ → ℕ → Memory → Memory
pad s zero m = m
pad s (suc n) m = pad (s + 1) n (update m s 0)

-- Both loops of `strncpy`. Where the first one stops at `n`, nothing is left for the second.
pub strncpy_from : ℕ → ℕ → ℕ → Memory → Memory
unfolding pad
strncpy_from s t zero m = m
strncpy_from s t (suc n) m =
    let written = update m s (m t) in
    let rest = strncpy_from (s + 1) (t + 1) n written in
    if m t == 0 then pad (s + 1) n written else rest

pub strncpy : ℕ → ℕ → ℤ → Memory → Memory
unfolding strncpy_from
strncpy s t n m = strncpy_from s t (pos_part n) m

-- The loop of `safestrcpy`, with the terminator behind it.
pub safestrcpy_from : ℕ → ℕ → ℕ → Memory → Memory
safestrcpy_from s t zero m = update m s 0
safestrcpy_from s t (suc left) m =
    let written = update m s (m t) in
    let rest = safestrcpy_from (s + 1) (t + 1) left written in
    if m t == 0 then update written (s + 1) 0 else rest

pub safestrcpy : ℕ → ℕ → ℤ → Memory → Memory
unfolding safestrcpy_from
safestrcpy s t (negsuc n) m = m
safestrcpy s t (pos zero) m = m
safestrcpy s t (pos (suc left)) m = safestrcpy_from s t left m

-- `none` is a string with no end within the fuel.
pub strlen_from : ℕ → ℕ → ℕ → Memory → Option ℕ
strlen_from zero s n m = none
strlen_from (suc fuel) s n m =
    let rest = strlen_from fuel s (n + 1) m in if m (s + n) == 0 then some n else rest

pub strlen : ℕ → ℕ → Memory → Option ℕ
unfolding strlen_from
strlen fuel s m = strlen_from fuel s 0 m
