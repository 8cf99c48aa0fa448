-- ===== src/Log/Crash.antt =====
-- A transaction of kernel/log.c that crashes may cut short.
use so_final_proyect.Prelude.{
  ℕ, zero, suc, ◌≤◌, ◌<◌, ◌≡◌, ◌⊎◌, inl, inr, refl, ap, sym, ◌∙◌, subst, arith, List, [], ◌∷◌, ◌++◌,
  All, length, Bool-cases, true, false, ltb, nil_of_length,
}
use mathlib.Core.List.{append_assoc}
use so_final_proyect.Log.{Data, Write, write_header, Buffers, Log, logblocks, write_log, commit}
use so_final_proyect.Log.Disks.{
  Disk, run, run-append, crash, crash-append, crash-keeps, recovered, IsHome,
}
use so_final_proyect.Log.Traces.{
  logged, installed, Holds, install_trans-writes, write_log-writes, write_log-Holds,
}
use so_final_proyect.Log.Effects.{InLog, logged-InLog}
use so_final_proyect.Log.Phases.{
  IsOld, IsNew, Before, Committed, After, Before-InLog, header-Committed, logged-Before,
  installed-After, installing-crash,
}
use so_final_proyect.Log.Restart.{
  Restarted, Restarted-Before, Restarted-Committed, recovered-Before, recovered-Committed,
}

-- The buffers when `commit` starts, with the writes from then on.
abbrev pub modified : (ℕ → Data) → Buffers
modified c = record { cache = c; writes = [] }

abbrev erasing : List Write
erasing = write_header [] ∷ []

pub commit-log :
    (start : ℕ) (l : Log) (bufs : Buffers) → (commit start l bufs).0 ≡ record l { lh = [] }
unfolding commit
commit-log start l bufs = elim (Bool-cases (ltb 0 (length l.lh))) [
  | inl e ↦ rw e
  | inr e ↦ rw e (ap (λ xs. record l { lh = xs }) (nil_of_length l.lh (ground arith)))
]

module _ (start : ℕ) (c : ℕ → Data) (l : Log) where
  -- The places of the log when `install_trans` reads them.
  abbrev log_of : ℕ → Data
  log_of = (write_log start 0 l.lh (modified c)).cache

  -- The writes up to the header, which commit the transaction, and those after it.
  abbrev committing_writes : List Write
  committing_writes = logged start c 0 l.lh ++ (write_header l.lh ∷ [])

  abbrev installing_writes : List Write
  installing_writes = installed start log_of 0 l.lh ++ erasing

  -- The disk before `commit`, with all blocks of the transaction in the right places.
  module _ (d : Disk) (home : All (IsHome start) l.lh) (fits : length l.lh ≤ logblocks)
      (z : d.head ≡ []) where
    log-Holds : Holds start c log_of 0 l.lh
    log-Holds = write_log-Holds start 0 l.lh (modified c) home (omega (arith, fits))

    commit-writes :
        ltb 0 (length l.lh) ≡ true
        → (commit start l (modified c)).1.writes ≡ committing_writes ++ installing_writes
    unfolding commit
    commit-writes some_lh = rw some_lh (
        ap (λ ws. ws ++ erasing)
          (install_trans-writes start 0 l.lh _ home (omega (arith, fits))
            ∙ ap (λ ws. (ws ++ (write_header l.lh ∷ [])) ++ installed start log_of 0 l.lh)
                (write_log-writes start 0 l.lh (modified c) home (omega (arith, fits))))
        ∙ append_assoc committing_writes (installed start log_of 0 l.lh) erasing)

    commit-empty : ltb 0 (length l.lh) ≡ false → (commit start l (modified c)).1.writes ≡ []
    unfolding commit
    commit-empty no_lh = rw no_lh

    before : Before start c l.lh d d
    before = record { head = z; old = λ a h. refl }

    committed : Committed start c l.lh d (run committing_writes d)
    committed =
        subst (Committed start c l.lh d)
          (sym (run-append (logged start c 0 l.lh) (write_header l.lh ∷ []) d))
          (header-Committed start c l.lh d home fits d before)

    abbrev Phase : Disk → Type 0
    Phase e = Before start c l.lh d e ⊎ (Committed start c l.lh d e ⊎ After start c l.lh d e)

    committing_crash : (k : ℕ) → Phase (crash k committing_writes d)
    committing_crash k = elim (crash-append k (logged start c 0 l.lh) (write_header l.lh ∷ []) d) [
      | inl (j, is) ↦ inl (
          subst (Before start c l.lh d) (sym is) (
            crash-keeps (Before start c l.lh d) (InLog start) (Before-InLog start c l.lh d) j _ d
              (logged-InLog start c 0 l.lh (omega (arith, fits))) before))
      | inr (j, is) ↦ subst Phase (sym is) (at_header j)
    ]
      where
        at_header :
            (j : ℕ) → Phase (crash j (write_header l.lh ∷ []) (run (logged start c 0 l.lh) d))
        at_header zero = inl (logged-Before start c l.lh d home fits d before)
        at_header (suc zero) = inr (inl (header-Committed start c l.lh d home fits d before))
        at_header (suc (suc j)) = inr (inl (header-Committed start c l.lh d home fits d before))

    commit-crash : (k : ℕ) → Phase (crash k (commit start l (modified c)).1.writes d)
    commit-crash k = elim (Bool-cases (ltb 0 (length l.lh))) [
      | inr no_lh ↦ subst (λ ws. Phase (crash k ws d)) (sym (commit-empty no_lh)) (nothing k)
      | inl some_lh ↦
          subst (λ ws. Phase (crash k ws d)) (sym (commit-writes some_lh))
            (elim (crash-append k committing_writes installing_writes d) [
              | inl (j, is) ↦ subst Phase (sym is) (committing_crash j)
              | inr (j, is) ↦
                  subst Phase (sym is)
                    (inr (installing-crash start c l.lh d home fits j log_of _ log-Holds committed))
            ])
    ]
      where
        nothing : (k : ℕ) → Phase (crash k [] d)
        nothing zero = inl before
        nothing (suc k) = inl before

    -- Atomicity: with the blocks of a transaction all outside of the log, no more of them than the log has
    -- places, and no transaction in the log on the disk: if the machine crashes after any of the
    -- writes of `commit`, and then any number of times in `recover_from_log`, then either each
    -- restart that runs to its end leaves all blocks outside of the log as they were before
    -- `commit`, or each leaves the blocks of the transaction with their new contents and the
    -- others as they were.
    pub commit_atomic :
        (k : ℕ)
        → ((x : Disk)
            → Restarted start (crash k (commit start l (modified c)).1.writes d) x
            → IsOld start c l.lh d (recovered start x))
          ⊎ ((x : Disk)
              → Restarted start (crash k (commit start l (modified c)).1.writes d) x
              → IsNew start c l.lh d (recovered start x))
    commit_atomic k = elim (commit-crash k) [
      | inl b ↦ inl (λ x r.
          recovered-Before start c l.lh d home fits x
            (Restarted-Before start c l.lh d home fits b r))
      | inr m ↦ inr (λ x r.
          recovered-Committed start c l.lh d home fits x
            (Restarted-Committed start c l.lh d home fits m r))
    ]

    -- With the blocks of a transaction, of which there is one at least, all outside of the log, no more of
    -- them than the log has places, and no transaction in the log on the disk: all the writes of
    -- `commit` leave the blocks of the transaction with their new contents, the others outside of
    -- the log as they were, and no transaction in the log.
    pub commit_lem :
        0 < length l.lh
        → IsNew start c l.lh d (run (commit start l (modified c)).1.writes d)
          × ((run (commit start l (modified c)).1.writes d).head ≡ [])
          × ((commit start l (modified c)).0.lh ≡ [])
    commit_lem some_lh =
        (done.new, done.head, ap (λ (k : Log). k.lh) (commit-log start l (modified c)))
      where
        done : After start c l.lh d (run (commit start l (modified c)).1.writes d)
        done =
            subst (After start c l.lh d)
              (sym (
                ap (λ ws. run ws d) (commit-writes (ground arith))
                ∙ run-append committing_writes installing_writes d
                ∙ run-append (installed start log_of 0 l.lh) erasing (run committing_writes d)))
              (installed-After start c l.lh d home fits log_of (run committing_writes d) log-Holds
                committed)
