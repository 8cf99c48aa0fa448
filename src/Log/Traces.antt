-- ===== src/Log/Traces.antt =====
-- The writes that the loops of kernel/log.c make, and the buffers that they leave.
use so_final_proyect.Prelude.{
  ℕ, ◌+◌, ◌≤◌, ◌<◌, ◌≡◌, ◌≢◌, refl, ap, sym, ◌∙◌, arith, List, [], ◌∷◌, ◌++◌, All, All-imp, length,
  update_self, update_ne,
}
use mathlib.Core.List.{append_assoc, append-nil}
use so_final_proyect.Log.{
  Data, Write, write_block, Buffers, logblocks, log_block, write_log, install_trans, bwrite,
  copy_block,
}
use so_final_proyect.Log.Disks.{IsHome}

module _ (start : ℕ) where
  -- `write_log` writes the blocks in order to the log, from place `tail` on.
  abbrev pub logged : (ℕ → Data) → ℕ → List ℕ → List Write
  logged c tail [] = []
  logged c tail (b ∷ bs) = write_block (log_block start tail) (c b) ∷ logged c (tail + 1) bs

  -- `install_trans` writes the places of the log in order to the blocks.
  abbrev pub installed : (ℕ → Data) → ℕ → List ℕ → List Write
  installed f tail [] = []
  installed f tail (b ∷ bs) = write_block b (f (log_block start tail)) ∷ installed f (tail + 1) bs

  -- The places of the log from `tail` on hold the blocks' new contents.
  abbrev pub Holds : (ℕ → Data) → (ℕ → Data) → ℕ → List ℕ → Type 0
  Holds c f tail [] = Unit
  Holds c f tail (b ∷ bs) = (f (log_block start tail) ≡ c b) × Holds c f (tail + 1) bs

  pub Holds-same :
      (c f g : ℕ → Data) (tail : ℕ) (bs : List ℕ)
      → ((k : ℕ) → k < logblocks → f (log_block start k) ≡ g (log_block start k))
      → tail + length bs ≤ logblocks
      → Holds c g tail bs
      → Holds c f tail bs
  Holds-same c f g tail [] same fits h = tt
  Holds-same c f g tail (b ∷ bs) same fits h = (
    same tail (omega (arith, fits)) ∙ h.0,
    Holds-same c f g (tail + 1) bs same (omega (arith, fits)) h.1,
  )

  Holds-values :
      (c e f : ℕ → Data) (tail : ℕ) (bs : List ℕ)
      → All (λ b. c b ≡ e b) bs
      → Holds c f tail bs
      → Holds e f tail bs
  Holds-values c e f tail [] same h = tt
  Holds-values c e f tail (b ∷ bs) same h =
      (h.0 ∙ same.0, Holds-values c e f (tail + 1) bs same.1 h.1)

  installed-same :
      (f g : ℕ → Data) (tail : ℕ) (bs : List ℕ)
      → ((k : ℕ) → k < logblocks → f (log_block start k) ≡ g (log_block start k))
      → tail + length bs ≤ logblocks
      → installed f tail bs ≡ installed g tail bs
  installed-same f g tail [] same fits = refl
  installed-same f g tail (b ∷ bs) same fits =
      ap (λ v. write_block b v ∷ installed f (tail + 1) bs) (same tail (omega (arith, fits)))
      ∙ ap (λ ws. write_block b (g (log_block start tail)) ∷ ws)
          (installed-same f g (tail + 1) bs same (omega (arith, fits)))

  logged-same :
      (f g : ℕ → Data) (tail : ℕ) (bs : List ℕ)
      → All (λ b. f b ≡ g b) bs
      → logged f tail bs ≡ logged g tail bs
  logged-same f g tail [] same = refl
  logged-same f g tail (b ∷ bs) same =
      ap (λ v. write_block (log_block start tail) v ∷ logged f (tail + 1) bs) same.0
      ∙ ap (λ ws. write_block (log_block start tail) (g b) ∷ ws)
          (logged-same f g (tail + 1) bs same.1)

  -- The writes of `install_trans`.
  pub install_trans-writes :
      (tail : ℕ) (bs : List ℕ) (s : Buffers)
      → All (IsHome start) bs
      → tail + length bs ≤ logblocks
      → (install_trans start tail bs s).writes ≡ s.writes ++ installed s.cache tail bs
  unfolding install_trans
  install_trans-writes tail [] s home fits = sym (append-nil s.writes)
  install_trans-writes tail (b ∷ bs) s home fits =
      install_trans-writes (tail + 1) bs one home.1 (omega (arith, fits))
      ∙ ap (λ ws. one.writes ++ ws)
          (installed-same one.cache s.cache (tail + 1) bs off (omega (arith, fits)))
      ∙ append_assoc s.writes _ _
      ∙ ap (λ v. s.writes ++ (write_block b v ∷ installed s.cache (tail + 1) bs))
          (update_self s.cache b (s.cache (log_block start tail)))
    where
      one : Buffers
      one = bwrite b (copy_block b (log_block start tail) s)

      off : (k : ℕ) → k < logblocks → one.cache (log_block start k) ≡ s.cache (log_block start k)
      off k lt = update_ne s.cache _ (home.0 k lt)

  unlogged :
      (tail b : ℕ) (bs : List ℕ) (s : Buffers)
      → All (IsHome start) bs
      → tail + length (b ∷ bs) ≤ logblocks
      → All (λ a. (copy_block (log_block start tail) b s).cache a ≡ s.cache a) bs
  unlogged tail b bs s home fits =
      All-imp _ _ (λ a h. update_ne s.cache (s.cache b) (λ e. h tail (omega (arith, fits)) (sym e)))
        bs home

  -- The writes of `write_log`, and the places of the log afterwards.
  pub write_log-writes :
      (tail : ℕ) (bs : List ℕ) (s : Buffers)
      → All (IsHome start) bs
      → tail + length bs ≤ logblocks
      → (write_log start tail bs s).writes ≡ s.writes ++ logged s.cache tail bs
  unfolding write_log
  write_log-writes tail [] s home fits = sym (append-nil s.writes)
  write_log-writes tail (b ∷ bs) s home fits =
      write_log-writes (tail + 1) bs one home.1 (omega (arith, fits))
      ∙ ap (λ ws. one.writes ++ ws)
          (logged-same one.cache s.cache (tail + 1) bs (unlogged tail b bs s home.1 fits))
      ∙ append_assoc s.writes _ _
      ∙ ap (λ v. s.writes ++ (write_block (log_block start tail) v ∷ logged s.cache (tail + 1) bs))
          (update_self s.cache (log_block start tail) (s.cache b))
    where
      one : Buffers
      one = bwrite (log_block start tail) (copy_block (log_block start tail) b s)

  write_log-earlier :
      (tail : ℕ) (bs : List ℕ) (s : Buffers) (a : ℕ)
      → ((k : ℕ) → tail ≤ k → a ≢ log_block start k)
      → (write_log start tail bs s).cache a ≡ s.cache a
  unfolding write_log
  write_log-earlier tail [] s a ne = refl
  write_log-earlier tail (b ∷ bs) s a ne =
      write_log-earlier (tail + 1) bs _ a (λ k le. ne k (omega (arith, le)))
      ∙ update_ne s.cache (s.cache b) (λ e. ne tail (omega arith) (sym e))

  pub write_log-Holds :
      (tail : ℕ) (bs : List ℕ) (s : Buffers)
      → All (IsHome start) bs
      → tail + length bs ≤ logblocks
      → Holds s.cache (write_log start tail bs s).cache tail bs
  unfolding write_log
  write_log-Holds tail [] s home fits = tt
  write_log-Holds tail (b ∷ bs) s home fits = (
    write_log-earlier (tail + 1) bs one (log_block start tail) (λ k le e. omega (arith, le, e))
        ∙ update_self s.cache (log_block start tail) (s.cache b),
    Holds-values one.cache s.cache (write_log start (tail + 1) bs one).cache (tail + 1) bs
        (unlogged tail b bs s home.1 fits)
        (write_log-Holds (tail + 1) bs one home.1 (omega (arith, fits))),
  )
    where
      one : Buffers
      one = bwrite (log_block start tail) (copy_block (log_block start tail) b s)
