-- ===== src/Log/Disks.antt =====
-- The disk under the writes of kernel/log.c, and what a restart after a crash makes of it.
use so_final_proyect.Prelude.{
  ℕ, zero, suc, ◌<◌, ◌≡◌, ◌≢◌, ◌⊎◌, inl, inr, refl, List, [], ◌∷◌, ◌++◌, All, take, update,
}
use so_final_proyect.Log.{
  Data, Write, write_block, write_header, logblocks, log_block, recover_from_log,
}

pub record Disk : Type 0 where
  pub head : List ℕ
  pub block : ℕ → Data

abbrev pub apply : Write → Disk → Disk
apply (write_block b v) d = record d { block = update d.block b v }
apply (write_header h) d = record d { head = h }

abbrev pub run : List Write → Disk → Disk
run [] d = d
run (w ∷ ws) d = run ws (apply w d)

pub run-append : (ws xs : List Write) (d : Disk) → run (ws ++ xs) d ≡ run xs (run ws d)
run-append [] xs d = refl
run-append (w ∷ ws) xs d = run-append ws xs (apply w d)

-- A crash after some of a list of writes.
abbrev pub crash : ℕ → List Write → Disk → Disk
crash k ws d = run (take k ws) d

-- Some writes of two lists are some of the first, or all of it and some of the second.
pub crash-append :
    (k : ℕ) (ws xs : List Write) (d : Disk)
    → ((j : ℕ) × (crash k (ws ++ xs) d ≡ crash j ws d))
      ⊎ ((j : ℕ) × (crash k (ws ++ xs) d ≡ crash j xs (run ws d)))
crash-append k [] xs d = inr (k, refl)
crash-append zero (w ∷ ws) xs d = inl (0, refl)
crash-append (suc k) (w ∷ ws) xs d = elim (crash-append k ws xs (apply w d)) [
  | inl (j, e) ↦ inl (suc j, e)
  | inr (j, e) ↦ inr (j, e)
]

-- If each write of a list keeps a property, so does a crash among them.
pub crash-keeps :
    (P : Disk → Type 0) (Q : Write → Type 0)
    → ((w : Write) (d : Disk) → Q w → P d → P (apply w d))
    → (k : ℕ) (ws : List Write) (d : Disk) → All Q ws
    → P d
    → P (crash k ws d)
crash-keeps P Q keep zero ws d q p = p
crash-keeps P Q keep (suc k) [] d q p = p
crash-keeps P Q keep (suc k) (w ∷ ws) d q p =
    crash-keeps P Q keep k ws (apply w d) q.1 (keep w d q.0 p)

-- And so do all of them.
pub run-keeps :
    (P : Disk → Type 0) (Q : Write → Type 0)
    → ((w : Write) (d : Disk) → Q w → P d → P (apply w d))
    → (ws : List Write) (d : Disk) → All Q ws
    → P d
    → P (run ws d)
run-keeps P Q keep [] d q p = p
run-keeps P Q keep (w ∷ ws) d q p = run-keeps P Q keep ws (apply w d) q.1 (keep w d q.0 p)

module _ (start : ℕ) where
  -- The disk after a restart that runs to its end.
  abbrev pub recovered : Disk → Disk
  recovered d = run (recover_from_log start d.head d.block).writes d

  -- Not a block of the log.
  abbrev pub IsHome : ℕ → Type 0
  IsHome a = (k : ℕ) → k < logblocks → a ≢ log_block start k
