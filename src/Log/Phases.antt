-- ===== src/Log/Phases.antt =====
-- The phases of the disk in a transaction of kernel/log.c: before the header is written, from then to
-- its erasure, and after it.
use so_final_proyect.Prelude.{
  ℕ, zero, suc, ◌≤◌, ◌≡◌, ◌⊎◌, inl, inr, refl, sym, ◌∙◌, subst, arith, List, [], ◌∷◌, ◌++◌, All,
  Among, length, update, update_ne,
}
use so_final_proyect.Log.{Data, Write, write_header, logblocks}
use so_final_proyect.Log.Disks.{
  Disk, apply, run, crash, crash-append, crash-keeps, run-keeps, IsHome,
}
use so_final_proyect.Log.Traces.{logged, installed, Holds, Holds-same}
use so_final_proyect.Log.Effects.{
  installed-new, installed-other, logged-Holds, InLog, logged-InLog, ToHome, installed-ToHome,
}

-- A transaction: the blocks `lh` are to get the contents `c`, on the disk `d`.
module _ (start : ℕ) (c : ℕ → Data) (lh : List ℕ) (d : Disk) where
  -- No block but those of the log differs from the disk before the transaction.
  abbrev pub IsOld : Disk → Type 0
  IsOld e = (a : ℕ) → IsHome start a → e.block a ≡ d.block a

  -- The blocks of the transaction have their new contents, and the others those from before.
  abbrev pub IsNew : Disk → Type 0
  IsNew e =
      (a : ℕ)
      → IsHome start a
      → (Among a lh → e.block a ≡ c a) × ((Among a lh → ⊥) → e.block a ≡ d.block a)

  pub record Before (e : Disk) : Type 0 where
    pub head : e.head ≡ []
    pub old : IsOld e

  pub record Committed (e : Disk) : Type 0 where
    pub head : e.head ≡ lh
    pub log : Holds start c e.block 0 lh
    pub others : (a : ℕ) → IsHome start a → (Among a lh → ⊥) → e.block a ≡ d.block a

  pub record After (e : Disk) : Type 0 where
    pub head : e.head ≡ []
    pub new : IsNew e

  pub Before-InLog : (w : Write) (e : Disk) → InLog start w → Before e → Before (apply w e)
  Before-InLog w e (k, v, lt, is) b =
      subst (λ x. Before (apply x e)) (sym is)
        (record {
          head = b.head;
          old = λ a home. update_ne e.block v (λ z. home k lt (sym z)) ∙ b.old a home;
        })

  module _ (home : All (IsHome start) lh) (fits : length lh ≤ logblocks) where
    pub Committed-ToHome :
        (w : Write) (e : Disk) → ToHome start lh w → Committed e → Committed (apply w e)
    Committed-ToHome w e (b, v, is_home, among, is) m =
        subst (λ x. Committed (apply x e)) (sym is)
          (record {
            head = m.head;
            log =
                Holds-same start c (update e.block b v) e.block 0 lh
                  (λ k lt. update_ne e.block v (is_home k lt)) (omega (arith, fits)) m.log;
            others = λ a ha out.
                update_ne e.block v (λ z. out (subst (λ i. Among i lh) z among))
                ∙ m.others a ha out;
          })

    -- All writes of the log, and the header.
    pub logged-Before : (e : Disk) → Before e → Before (run (logged start c 0 lh) e)
    logged-Before e b =
        run-keeps Before (InLog start) Before-InLog _ e
          (logged-InLog start c 0 lh (omega (arith, fits))) b

    pub header-Committed :
        (e : Disk) → Before e → Committed (apply (write_header lh) (run (logged start c 0 lh) e))
    header-Committed e b = record {
      head = refl;
      log = logged-Holds start c 0 lh e;
      others = λ a ha out. (logged-Before e b).old a ha;
    }

    -- All writes of `install_trans` from a log that holds the new contents, and the header erased.
    pub installed-After :
        (f : ℕ → Data) (e : Disk)
        → Holds start c f 0 lh
        → Committed e
        → After (apply (write_header []) (run (installed start f 0 lh) e))
    installed-After f e h m = record {
      head = refl;
      new = λ a ha. (
        λ among. installed-new start c f 0 lh e a h (inr among),
        λ out. installed-other start f 0 lh e a out ∙ m.others a ha out,
      );
    }

    -- A crash while the blocks are installed, or after.
    pub installing-crash :
        (k : ℕ) (f : ℕ → Data) (e : Disk)
        → Holds start c f 0 lh
        → Committed e
        → Committed (crash k (installed start f 0 lh ++ (write_header [] ∷ [])) e)
          ⊎ After (crash k (installed start f 0 lh ++ (write_header [] ∷ [])) e)
    installing-crash k f e h m =
        elim (crash-append k (installed start f 0 lh) (write_header [] ∷ []) e) [
          | inl (j, is) ↦ inl (
              subst Committed (sym is) (
                crash-keeps Committed (ToHome start lh) Committed-ToHome j _ e
                  (installed-ToHome start f 0 lh lh home (λ b z. z)) m))
          | inr (j, is) ↦ erase j is
        ]
      where
        full : Committed (run (installed start f 0 lh) e)
        full =
            run-keeps Committed (ToHome start lh) Committed-ToHome _ e
              (installed-ToHome start f 0 lh lh home (λ b z. z)) m

        erase :
            (j : ℕ)
            → crash k (installed start f 0 lh ++ (write_header [] ∷ [])) e
              ≡ crash j (write_header [] ∷ []) (run (installed start f 0 lh) e)
            → Committed (crash k (installed start f 0 lh ++ (write_header [] ∷ [])) e)
              ⊎ After (crash k (installed start f 0 lh ++ (write_header [] ∷ [])) e)
        erase zero is = inl (subst Committed (sym is) full)
        erase (suc zero) is = inr (subst After (sym is) (installed-After f e h m))
        erase (suc (suc j)) is = inr (subst After (sym is) (installed-After f e h m))
