-- ===== src/Bcache/Refs.antt =====
-- The buffers of kernel/bio.c under the processes that hold references to them.
use so_final_proyect.Prelude.{ℕ, suc, ◌+◌, ◌<◌, ◌≡◌, ◌≢◌, List, All, Among, length, ok, update}
use so_final_proyect.Bcache.{Bcache, Buf, nbuf, bget, set_buf, brelse, bpin, bunpin}
use so_final_proyect.Bcache.Moves.{Ring}

-- `held b` is the number of references to buffer `b`.
pub record System : Type 0 where
  pub cache : Bcache
  pub held : ℕ → ℕ

-- The holders of a buffer lock it, read and write it, pin it and give it back.
pub data Step (s : System) : System → Type 0 where
  gets :
      (dev blockno b : ℕ) (u : Bcache)
      → dev ≢ 0
      → bget dev blockno s.cache ≡ ok (b, u)
      → Step s (record { cache = u; held = update s.held b (s.held b + 1) })
  changes :
      (b : ℕ) (v : Buf)
      → 0 < s.held b
      → v.dev ≡ (s.cache.buf b).dev
      → v.blockno ≡ (s.cache.buf b).blockno
      → v.refcnt ≡ (s.cache.buf b).refcnt
      → Step s (record s { cache = set_buf b v s.cache })
  releases :
      (pid b n : ℕ) (u : Bcache)
      → b < nbuf
      → s.held b ≡ suc n
      → brelse pid b s.cache ≡ ok u
      → Step s (record { cache = u; held = update s.held b n })
  pins :
      (b : ℕ)
      → 0 < s.held b
      → Step s (record { cache = bpin b s.cache; held = update s.held b (s.held b + 1) })
  unpins :
      (b n : ℕ)
      → s.held b ≡ suc n
      → Step s (record { cache = bunpin b s.cache; held = update s.held b n })

pub data Reach (s : System) : System → Type 0 where
  here : Reach s s
  next : {t u : System} → Reach s t → Step t u → Reach s u

-- The list has all the buffers, each counts its references, and no two have one block of a device.
pub record Kept (s : System) (l : List ℕ) : Type 0 where
  pub ring : Ring s.cache l
  pub size : length l ≡ nbuf
  pub all : (b : ℕ) → b < nbuf → Among b l
  pub within : All (λ b. b < nbuf) l
  pub counts : (b : ℕ) → (s.cache.buf b).refcnt ≡ s.held b
  pub unique :
      (i j : ℕ)
      → i < nbuf
      → j < nbuf
      → (s.cache.buf i).dev ≢ 0
      → (s.cache.buf j).dev ≡ (s.cache.buf i).dev
      → (s.cache.buf j).blockno ≡ (s.cache.buf i).blockno
      → i ≡ j
