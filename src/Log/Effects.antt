-- ===== src/Log/Effects.antt =====
-- What the writes of `write_log` and `install_trans` of kernel/log.c do to the disk.
use so_final_proyect.Prelude.{
  ℕ, ◌+◌, ◌≤◌, ◌<◌, ◌≡◌, ◌≢◌, ◌⊎◌, inl, inr, refl, sym, ◌∙◌, subst, arith, List, [], ◌∷◌, All,
  Among, length, update, update_self, update_ne, ℕ_discrete,
}
use so_final_proyect.Log.{Data, Write, write_block, logblocks, log_block}
use so_final_proyect.Log.Disks.{Disk, apply, run, IsHome}
use so_final_proyect.Log.Traces.{logged, installed, Holds}

module _ (start : ℕ) where
  -- Installing from a log that holds the new contents.
  pub installed-new :
      (c f : ℕ → Data) (tail : ℕ) (bs : List ℕ) (d : Disk) (a : ℕ)
      → Holds start c f tail bs
      → (d.block a ≡ c a) ⊎ Among a bs
      → (run (installed start f tail bs) d).block a ≡ c a
  installed-new c f tail [] d a h (inl e) = e
  installed-new c f tail [] d a h (inr m) = absurd m
  installed-new c f tail (b ∷ bs) d a h m =
      installed-new c f (tail + 1) bs (apply (write_block b (f (log_block start tail))) d) a h.1
        (elim (ℕ_discrete b a) [
          | yes e ↦ inl (
              subst (λ i. update d.block b (f (log_block start tail)) i ≡ c i) e
                (update_self d.block b _ ∙ h.0))
          | no ne ↦ later ne m
        ])
    where
      later :
          b ≢ a
          → (d.block a ≡ c a) ⊎ Among a (b ∷ bs)
          → (update d.block b (f (log_block start tail)) a ≡ c a) ⊎ Among a bs
      later ne (inl e) = inl (update_ne d.block _ ne ∙ e)
      later ne (inr (inl e)) = absurd (ne (sym e))
      later ne (inr (inr n)) = inr n

  pub installed-other :
      (f : ℕ → Data) (tail : ℕ) (bs : List ℕ) (d : Disk) (a : ℕ)
      → (Among a bs → ⊥)
      → (run (installed start f tail bs) d).block a ≡ d.block a
  installed-other f tail [] d a out = refl
  installed-other f tail (b ∷ bs) d a out =
      installed-other f (tail + 1) bs _ a (λ m. out (inr m))
      ∙ update_ne d.block _ (λ e. out (inl (sym e)))

  pub installed-head :
      (f : ℕ → Data) (tail : ℕ) (bs : List ℕ) (d : Disk)
      → (run (installed start f tail bs) d).head ≡ d.head
  installed-head f tail [] d = refl
  installed-head f tail (b ∷ bs) d = installed-head f (tail + 1) bs _

  logged-earlier :
      (c : ℕ → Data) (tail : ℕ) (bs : List ℕ) (d : Disk) (a : ℕ)
      → ((k : ℕ) → tail ≤ k → a ≢ log_block start k)
      → (run (logged start c tail bs) d).block a ≡ d.block a
  logged-earlier c tail [] d a ne = refl
  logged-earlier c tail (b ∷ bs) d a ne =
      logged-earlier c (tail + 1) bs _ a (λ k le. ne k (omega (arith, le)))
      ∙ update_ne d.block _ (λ e. ne tail (omega arith) (sym e))

  pub logged-Holds :
      (c : ℕ → Data) (tail : ℕ) (bs : List ℕ) (d : Disk)
      → Holds start c (run (logged start c tail bs) d).block tail bs
  logged-Holds c tail [] d = tt
  logged-Holds c tail (b ∷ bs) d = (
    logged-earlier c (tail + 1) bs _ (log_block start tail) (λ k le e. omega (arith, le, e))
        ∙ update_self d.block (log_block start tail) (c b),
    logged-Holds c (tail + 1) bs _,
  )

  -- What a write of `write_log` is, and one of `install_trans`.
  abbrev pub InLog : Write → Type 0
  InLog w = (k : ℕ) × (v : Data) × (k < logblocks) × (w ≡ write_block (log_block start k) v)

  pub logged-InLog :
      (c : ℕ → Data) (tail : ℕ) (bs : List ℕ)
      → tail + length bs ≤ logblocks
      → All InLog (logged start c tail bs)
  logged-InLog c tail [] fits = tt
  logged-InLog c tail (b ∷ bs) fits =
      ((tail, c b, omega (arith, fits), refl), logged-InLog c (tail + 1) bs (omega (arith, fits)))

  abbrev pub ToHome : List ℕ → Write → Type 0
  ToHome lh w = (b : ℕ) × (v : Data) × IsHome start b × Among b lh × (w ≡ write_block b v)

  pub installed-ToHome :
      (f : ℕ → Data) (tail : ℕ) (bs lh : List ℕ)
      → All (IsHome start) bs
      → ((b : ℕ) → Among b bs → Among b lh)
      → All (ToHome lh) (installed start f tail bs)
  installed-ToHome f tail [] lh home sub = tt
  installed-ToHome f tail (b ∷ bs) lh home sub = (
    (b, f (log_block start tail), home.0, sub b (inl refl), refl),
    installed-ToHome f (tail + 1) bs lh home.1 (λ a m. sub a (inr m)),
  )
