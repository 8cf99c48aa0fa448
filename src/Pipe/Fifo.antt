-- ===== src/Pipe/Fifo.antt =====
-- A valid pipe of kernel/pipe.c holds a queue of at most 512 bytes, also after its counters wrap.
use so_final_proyect.Prelude.{
  ℕ, zero, suc, ◌+◌, ◌-◌, ◌%◌, ◌^◌, ◌≤◌, ◌<◌, ◌≡◌, ◌≢◌, ◌↔◌, ◌∙◌, refl, ap, List, [], ◌∷◌, ◌++◌,
  arith, length, get_or, set, length-set, true, false,
}
use so_final_proyect.Pipe.{Pipe, pipesize, uint, put, is_full, is_empty, pipe_init}

pub record IsValid (pi : Pipe) : Type 0 where
  pub storage : length pi.buf ≡ pipesize
  pub nread_uint : pi.nread < 2 ^ 32
  pub nwrite_uint : pi.nwrite < 2 ^ 32
  pub fits : (pi.nwrite + 2 ^ 32 - pi.nread) % 2 ^ 32 ≤ pipesize

-- The `n` bytes from counter `r` on.
abbrev pub window : List ℕ → ℕ → ℕ → List ℕ
window buf r zero = []
window buf r (suc n) = get_or buf (r % pipesize) 0 ∷ window buf (uint (r + 1)) n

-- How many bytes were written and not read, as uints.
abbrev pub stored : Pipe → ℕ
stored pi = (pi.nwrite + 2 ^ 32 - pi.nread) % 2 ^ 32

abbrev pub contents : Pipe → List ℕ
contents pi = window pi.buf pi.nread (stored pi)

length-window : (buf : List ℕ) (r n : ℕ) → length (window buf r n) ≡ n
length-window buf r zero = refl
length-window buf r (suc n) = ap suc (length-window buf (uint (r + 1)) n)

pub length-contents : (pi : Pipe) → length (contents pi) ≡ stored pi
length-contents pi = length-window pi.buf pi.nread (stored pi)

get_or-set_self : (xs : List ℕ) (i v : ℕ) → i < length xs → get_or (set xs i v) i 0 ≡ v
get_or-set_self [] i v h = absurd (omega arith)
get_or-set_self (x ∷ xs) zero v h = refl
get_or-set_self (x ∷ xs) (suc i) v h = get_or-set_self xs i v (omega arith)

get_or-set_ne : (xs : List ℕ) (i j v : ℕ) → i ≢ j → get_or (set xs i v) j 0 ≡ get_or xs j 0
get_or-set_ne [] i j v h = refl
get_or-set_ne (x ∷ xs) zero zero v h = absurd (h refl)
get_or-set_ne (x ∷ xs) zero (suc j) v h = refl
get_or-set_ne (x ∷ xs) (suc i) zero v h = refl
get_or-set_ne (x ∷ xs) (suc i) (suc j) v h = get_or-set_ne xs i j v (λ e. h (ap suc e))

-- A write just past a window that leaves room extends it.
window-set :
    (buf : List ℕ) (ch n r w : ℕ)
    → length buf ≡ pipesize
    → r < 2 ^ 32
    → n < pipesize
    → w ≡ uint (r + n)
    → window (set buf (w % pipesize) ch) r (suc n) ≡ window buf r n ++ (ch ∷ [])
window-set buf ch zero r w hs hr hn e = ground (arith, get_or-set_self buf (w % pipesize) ch)
window-set buf ch (suc n) r w hs hr hn e = ground (
  arith,
  window-set buf ch n (uint (r + 1)) w,
  get_or-set_ne buf (w % pipesize) (r % pipesize) ch,
)

-- The counters tell a full pipe and an empty one by the number of bytes stored.
pub is_full_iff : (pi : Pipe) → IsValid pi → (is_full pi ≡ true) ↔ (stored pi ≡ pipesize)
is_full_iff pi v = ground arith

pub is_empty_iff : (pi : Pipe) → IsValid pi → (is_empty pi ≡ true) ↔ (stored pi ≡ 0)
is_empty_iff pi v = ground arith

stored-put :
    (pi : Pipe) (ch : ℕ)
    → IsValid pi
    → is_full pi ≡ false
    → (stored pi < pipesize) × (stored (put ch pi) ≡ suc (stored pi))
unfolding put
stored-put pi ch v room = ground arith

-- `put` on a pipe that is not full adds the byte at the end of the queue.
pub put-contents :
    (pi : Pipe) (ch : ℕ)
    → IsValid pi
    → is_full pi ≡ false
    → IsValid (put ch pi) × (contents (put ch pi) ≡ contents pi ++ (ch ∷ []))
unfolding put
put-contents pi ch v room = (
  record {
    storage = length-set pi.buf (pi.nwrite % pipesize) ch ∙ v.storage;
    nread_uint = v.nread_uint;
    nwrite_uint = omega arith;
    fits = omega (arith, grown.0, grown.1);
  },
  rw grown.1 (
      window-set pi.buf ch (stored pi) pi.nread pi.nwrite v.storage v.nread_uint grown.0
        (omega arith)),
)
  where
    grown : (stored pi < pipesize) × (stored (put ch pi) ≡ suc (stored pi))
    grown = stored-put pi ch v room

-- The pipe without its oldest byte.
abbrev pub advance : Pipe → Pipe
advance pi = record pi { nread = uint (pi.nread + 1) }

abbrev pub oldest : Pipe → ℕ
oldest pi = get_or pi.buf (pi.nread % pipesize) 0

window-first :
    (buf : List ℕ) (r n : ℕ)
    → n ≢ 0
    → window buf r n ≡ get_or buf (r % pipesize) 0 ∷ window buf (uint (r + 1)) (n - 1)
window-first buf r zero h = absurd (h refl)
window-first buf r (suc n) h = ap (λ k. window buf r (suc k)) (omega arith)

-- Reading moves past the first byte of the queue.
pub advance-contents :
    (pi : Pipe)
    → IsValid pi
    → is_empty pi ≡ false
    → IsValid (advance pi) × (contents pi ≡ oldest pi ∷ contents (advance pi))
advance-contents pi v some_left = (
  record {
    storage = v.storage;
    nread_uint = omega arith;
    nwrite_uint = v.nwrite_uint;
    fits = omega (arith, shrunk.0, shrunk.1);
  },
  rw shrunk.1 (window-first pi.buf pi.nread (stored pi) shrunk.0),
)
  where
    shrunk : (stored pi ≢ 0) × (stored (advance pi) ≡ stored pi - 1)
    shrunk = ground arith

-- A fresh pipe is empty.
pub pipe_init-IsValid :
    (page : List ℕ)
    → length page ≡ pipesize
    → IsValid (pipe_init page) × (contents (pipe_init page) ≡ [])
unfolding pipe_init
pipe_init-IsValid page h = (
  record { storage = h; nread_uint = omega arith; nwrite_uint = omega arith; fits = omega arith },
  refl,
)
