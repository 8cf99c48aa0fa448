-- ===== src/Bcache/Tests.antt =====
-- A cache after `binit`, in which process 5 holds buffer 29 and block 7 of device 1 is asked for.
use so_final_proyect.Prelude.{
  ℕ, ◌<◌, ◌≡◌, ◌≢◌, ◌⊎◌, refl, arith, true, false, some, [], ◌∷◌, ok, panic, update,
}
use so_final_proyect.Bcache.{Bcache, Buf, nbuf, binit, bget, brelse, set_buf, is_pid, releasesleep}
use so_final_proyect.Bcache.Moves.{Ring}
use so_final_proyect.Bcache.Ops.{Got, bget_lem, brelse_lem, dropped, list_after}
use so_final_proyect.Bcache.Refs.{System, Step, Reach, here, next}
use so_final_proyect.Bcache.Unique.{counted, zero_buf, zero_cache, start, binit-Ring, cached_once}

bget_lem_example : Got (binit zero_cache) (counted nbuf 0 []) 1 7 (bget 1 7 (binit zero_cache))
bget_lem_example = bget_lem (binit zero_cache) (counted nbuf 0 []) 1 7 binit-Ring.0 (omega arith)

abbrev locked : Bcache
locked =
    set_buf 29 (record zero_buf { dev = 1; blockno = 7; refcnt = 1; holder = some 5 })
      (binit zero_cache)

locked-Ring : Ring locked (29 ∷ counted 29 0 [])
locked-Ring = record { links = binit-Ring.0.links; distinct = binit-Ring.0.distinct }

brelse_lem_example :
    ((is_pid 5 (locked.buf 29).holder ≡ false) × (brelse 5 29 locked ≡ panic "brelse"))
    ⊎ ((is_pid 5 (locked.buf 29).holder ≡ true)
        × (u : Bcache) × (brelse 5 29 locked ≡ ok u)
        × (u.buf ≡ update locked.buf 29 (releasesleep (dropped (locked.buf 29))))
        × Ring u (list_after locked 29 [] (counted 29 0 [])))
brelse_lem_example = brelse_lem locked 5 29 [] (counted 29 0 []) locked-Ring

abbrev asked : Bcache
asked = set_buf 0 (record zero_buf { dev = 1; blockno = 7; refcnt = 1 }) (binit zero_cache)

-- Buffer 0 is at the back.
first_get : bget 1 7 (binit zero_cache) ≡ ok (0, asked)
unfolding bget binit so_final_proyect.Bcache.binit_from so_final_proyect.Bcache.push_front
    so_final_proyect.Bcache.find_from so_final_proyect.Bcache.unused_from
first_get = refl

abbrev got : System
got = record { cache = asked; held = update (λ b. 0) 0 1 }

abbrev one_get : Reach start got
one_get = next here (Step.gets 1 7 0 asked (λ e. omega (arith, e)) first_get)

cached_once_example :
    ((i j : ℕ)
      → i < nbuf
      → j < nbuf
      → (got.cache.buf i).dev ≢ 0
      → (got.cache.buf j).dev ≡ (got.cache.buf i).dev
      → (got.cache.buf j).blockno ≡ (got.cache.buf i).blockno
      → i ≡ j)
    × ((b : ℕ) → (got.cache.buf b).refcnt ≡ got.held b)
cached_once_example = cached_once one_get
