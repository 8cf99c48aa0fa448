-- ===== src/Log/Restart.antt =====
-- `recover_from_log` of kernel/log.c after a crash in a transaction, and after crashes of its own.
use so_final_proyect.Prelude.{
  ℕ, zero, suc, ◌≤◌, ◌≡◌, ◌⊎◌, inl, inr, refl, ap, sym, ◌∙◌, subst, arith, List, [], ◌∷◌, ◌++◌, All,
  length,
}
use so_final_proyect.Log.{Data, write_header, logblocks, recover_from_log}
use so_final_proyect.Log.Disks.{Disk, run, run-append, crash, recovered, IsHome}
use so_final_proyect.Log.Traces.{installed, install_trans-writes}
use so_final_proyect.Log.Phases.{
  IsOld, IsNew, Before, Committed, After, installed-After, installing-crash,
}

recover-writes :
    (start : ℕ) (head : List ℕ) (block : ℕ → Data)
    → All (IsHome start) head
    → length head ≤ logblocks
    → (recover_from_log start head block).writes
      ≡ installed start block 0 head ++ (write_header [] ∷ [])
unfolding recover_from_log
recover-writes start head block home fits =
    ap (λ ws. ws ++ (write_header [] ∷ []))
      (install_trans-writes start 0 head (record { cache = block; writes = [] }) home
        (omega (arith, fits)))

-- The machine crashes, and then any number of times while `recover_from_log` runs.
pub data Restarted (start : ℕ) (e : Disk) : Disk → Type 0 where
  crashed : Restarted start e e
  again :
      {x : Disk}
      → Restarted start e x
      → (k : ℕ) → Restarted start e (crash k (recover_from_log start x.head x.block).writes x)

erase_again : (k : ℕ) (e : Disk) → e.head ≡ [] → crash k (write_header [] ∷ []) e ≡ e
erase_again zero e z = refl
erase_again (suc zero) e z = ap (λ h. record e { head = h }) (sym z)
erase_again (suc (suc k)) e z = ap (λ h. record e { head = h }) (sym z)

module _ (start : ℕ) where
  -- A restart with no transaction in the log.
  recover_empty :
      (k : ℕ) (e : Disk)
      → e.head ≡ []
      → crash k (recover_from_log start e.head e.block).writes e ≡ e
  recover_empty k e z =
      ap (λ h. crash k (recover_from_log start h e.block).writes e) z
      ∙ ap (λ ws. crash k ws e) (recover-writes start [] e.block tt (omega arith))
      ∙ erase_again k e z

  recovered_empty : (e : Disk) → e.head ≡ [] → recovered start e ≡ e
  recovered_empty e z =
      ap (λ h. run (recover_from_log start h e.block).writes e) z
      ∙ ap (λ ws. run ws e) (recover-writes start [] e.block tt (omega arith))
      ∙ ap (λ h. record e { head = h }) (sym z)

  module _ (c : ℕ → Data) (lh : List ℕ) (d : Disk) (home : All (IsHome start) lh)
      (fits : length lh ≤ logblocks) where
    Committed-writes :
        (e : Disk)
        → Committed start c lh d e
        → (recover_from_log start e.head e.block).writes
          ≡ installed start e.block 0 lh ++ (write_header [] ∷ [])
    Committed-writes e m =
        ap (λ h. (recover_from_log start h e.block).writes) m.head
        ∙ recover-writes start lh e.block home fits

    pub Restarted-Before :
        {e x : Disk} → Before start c lh d e → Restarted start e x → Before start c lh d x
    Restarted-Before b crashed = b
    Restarted-Before b (again {x} r k) =
        let y = Restarted-Before b r in
        subst (Before start c lh d) (sym (recover_empty k x y.head)) y

    pub Restarted-Committed :
        {e x : Disk}
        → Committed start c lh d e ⊎ After start c lh d e
        → Restarted start e x
        → Committed start c lh d x ⊎ After start c lh d x
    Restarted-Committed m crashed = m
    Restarted-Committed m (again {x} r k) = elim (Restarted-Committed m r) [
      | inl y ↦
          subst (λ ws. Committed start c lh d (crash k ws x) ⊎ After start c lh d (crash k ws x))
            (sym (Committed-writes x y))
            (installing-crash start c lh d home fits k x.block x y.log y)
      | inr y ↦ inr (subst (After start c lh d) (sym (recover_empty k x y.head)) y)
    ]

    pub recovered-Before :
        (e : Disk) → Before start c lh d e → IsOld start c lh d (recovered start e)
    recovered-Before e b = subst (IsOld start c lh d) (sym (recovered_empty e b.head)) b.old

    pub recovered-Committed :
        (e : Disk)
        → Committed start c lh d e ⊎ After start c lh d e
        → IsNew start c lh d (recovered start e)
    recovered-Committed e (inr a) =
        subst (IsNew start c lh d) (sym (recovered_empty e a.head)) a.new
    recovered-Committed e (inl m) =
        subst (IsNew start c lh d)
          (sym (
            ap (λ ws. run ws e) (Committed-writes e m)
            ∙ run-append (installed start e.block 0 lh) (write_header [] ∷ []) e))
          (installed-After start c lh d home fits e.block e m.log m).new
