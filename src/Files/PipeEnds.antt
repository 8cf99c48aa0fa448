-- ===== src/Files/PipeEnds.antt =====
-- `pipealloc` of kernel/pipe.c on the table of open files.
use so_final_proyect.Prelude.{
  ℕ, ◌<◌, ◌≡◌, ◌≢◌, inl, inr, refl, ap, sym, ◌∙◌, subst, arith, Option, none, some, List, [], ◌∷◌,
  ◌++◌, All, Bool-cases, ◌==◌, true, false, update, update_self, update_ne, ℕ_discrete, ok, Result,
}
use so_final_proyect.Files.{
  nfile, File, Ftable, fd_none, fd_pipe, fileclose, Closing, nothing, closing, read_end, write_end,
  close_if, bad, connect, second, pipealloc,
}
use so_final_proyect.Files.Slots.{Allocated, full, slot, filealloc_lem, fileclose_lem}

-- How `pipealloc` ends: the table is as it was, and nothing behind a file is given back; or two free
-- slots are the ends of the pipe: a file to read from and a file to write to, with one reference each.
pub data PipeAlloc (page : ℕ) (t : Ftable)
    : Result (Option (ℕ × ℕ) × List Closing × Ftable) → Type 0 where
  failed :
      (cs : List Closing) (u : Ftable)
      → All (λ c. c ≡ nothing) cs
      → ((j : ℕ) → u j ≡ t j)
      → PipeAlloc page t (ok (none, cs, u))
  connected :
      (a b : ℕ) (u : Ftable)
      → a < nfile
      → b < nfile
      → a ≢ b
      → (t a).ref ≡ 0
      → (t b).ref ≡ 0
      → page ≢ 0
      → u a
        ≡ record (t a) { type = fd_pipe; ref = 1; readable = true; writable = false; pipe = page }
      → u b
        ≡ record (t b) { type = fd_pipe; ref = 1; readable = false; writable = true; pipe = page }
      → ((j : ℕ) → j ≢ a → j ≢ b → u j ≡ t j)
      → PipeAlloc page t (ok (some (a, b), [], u))

reset : (g : File) → g.ref ≡ 0 → g.type ≡ fd_none → record g { ref = 0; type = fd_none } ≡ g
reset g z y =
    ap (λ r. record g { ref = r; type = fd_none }) (sym z)
    ∙ ap (λ ty. record g { type = ty }) (sym y)

closing-untyped : (g : File) → g.type ≡ fd_none → closing g ≡ nothing
closing-untyped g e = rw e

-- Closing a file that was just allocated gives its slot back as it was.
close_fresh :
    (k : ℕ) (g : File) (w : Ftable)
    → w k ≡ record g { ref = 1 }
    → g.ref ≡ 0
    → g.type ≡ fd_none
    → fileclose k w ≡ ok (nothing, update w k g)
close_fresh k g w fresh z y =
    fileclose_lem k 0 w (ap (λ h. h.ref) fresh)
    ∙ ap (λ h. ok (closing h, update w k (record h { ref = 0; type = fd_none }))) fresh
    ∙ ap (λ c. ok (c, update w k (record g { ref = 0; type = fd_none })))
        (closing-untyped (record g { ref = 1 }) y)
    ∙ ap (λ h. ok (nothing, update w k h)) (reset g z y)

update-undone : (t : Ftable) (k j : ℕ) (g : File) → update (update t k g) k (t k) j ≡ t j
update-undone t k j g = elim (ℕ_discrete k j) [
  | yes e ↦
      subst (λ i. update (update t k g) k (t k) i ≡ t i) e (update_self (update t k g) k (t k))
  | no e ↦ update_ne (update t k g) (t k) e ∙ update_ne t g e
]

bad_lem :
    (f0 f1 : Option ℕ) (t u w : Ftable) (c d : List Closing)
    → close_if f0 t ≡ ok (c, u)
    → close_if f1 u ≡ ok (d, w)
    → bad f0 f1 t ≡ ok (none, c ++ d, w)
bad_lem f0 f1 t u w c d e f = rw (e, f) refl

close_if_lem :
    (k : ℕ) (g : File) (w : Ftable)
    → w k ≡ record g { ref = 1 }
    → g.ref ≡ 0
    → g.type ≡ fd_none
    → close_if (some k) w ≡ ok (nothing ∷ [], update w k g)
close_if_lem k g w fresh z y = rw (close_fresh k g w fresh z y) refl

module _ (page : ℕ) (t : Ftable)
    (untyped : (j : ℕ) → j < nfile → (t j).ref ≡ 0 → (t j).type ≡ fd_none) where
  abbrev taken : Ftable → ℕ → Ftable
  taken u a = update u a (record (u a) { ref = 1 })

  no_second : (a : ℕ) → a < nfile → (t a).ref ≡ 0 → PipeAlloc page t (bad (some a) none (taken t a))
  no_second a lt z =
      subst (PipeAlloc page t)
        (sym (
          bad_lem (some a) none (taken t a) _ _ _ _
            (close_if_lem a (t a) (taken t a) (update_self t a _) z (untyped a lt z)) refl))
        (failed (nothing ∷ []) (update (taken t a) a (t a)) (refl, tt) (λ j. update-undone t a j _))

  -- Both files are there.
  both :
      (a b : ℕ)
      → a < nfile
      → b < nfile
      → (t a).ref ≡ 0
      → (taken t a b).ref ≡ 0
      → PipeAlloc page t (connect page (some a) (some b) (taken (taken t a) b))
  both a b al bl za zb = elim (Bool-cases (page == 0)) [
    | inl p ↦ rw p (
        subst (PipeAlloc page t) (sym (bad_lem (some a) (some b) two one w _ _ first last))
          (failed _ w (refl, (refl, tt)) same))
    | inr p ↦ rw p (
        connected a b ends al bl ne za free_b (λ z. ground arith)
          (update_ne x _ (λ e. ne (sym e)) ∙ update_self two a _ ∙ ap (read_end page) has_a)
          (update_self x b _ ∙ ap (write_end page) (update_ne two _ ne ∙ has_b))
          (λ j ja jb.
            update_ne x _ (λ e. jb (sym e))
            ∙ update_ne two _ (λ e. ja (sym e))
            ∙ update_ne (taken t a) _ (λ e. jb (sym e))
            ∙ update_ne t _ (λ e. ja (sym e))))
  ]
    where
      ne : a ≢ b
      ne e = omega (
        arith,
        ap (λ (g : File). g.ref) (sym (update_self t a (record (t a) { ref = 1 }))),
        subst (λ i. (taken t a i).ref ≡ 0) (sym e) zb,
      )

      b_same : taken t a b ≡ t b
      b_same = update_ne t (record (t a) { ref = 1 }) ne

      two : Ftable
      two = taken (taken t a) b

      has_a : two a ≡ record (t a) { ref = 1 }
      has_a = update_ne (taken t a) _ (λ e. ne (sym e)) ∙ update_self t a _

      has_b : two b ≡ record (t b) { ref = 1 }
      has_b = update_self (taken t a) b _ ∙ ap (λ (g : File). record g { ref = 1 }) b_same

      one : Ftable
      one = update two a (t a)

      w : Ftable
      w = update one b (t b)

      free_b : (t b).ref ≡ 0
      free_b = ap (λ (g : File). g.ref) (sym b_same) ∙ zb

      first : close_if (some a) two ≡ ok (nothing ∷ [], one)
      first = close_if_lem a (t a) two has_a za (untyped a al za)

      last : close_if (some b) one ≡ ok (nothing ∷ [], w)
      last = close_if_lem b (t b) one (update_ne two (t a) ne ∙ has_b) free_b (untyped b bl free_b)

      same : (j : ℕ) → w j ≡ t j
      same j = elim (ℕ_discrete b j) [
        | yes e ↦ subst (λ i. w i ≡ t i) e (update_self one b (t b))
        | no e ↦ update_ne one (t b) e ∙ elim (ℕ_discrete a j) [
          | yes d ↦ subst (λ i. one i ≡ t i) d (update_self two a (t a))
          | no d ↦ update_ne two (t a) d ∙ update_ne (taken t a) _ e ∙ update_ne t _ d
        ]
      ]

      x : Ftable
      x = update two a (read_end page (two a))

      ends : Ftable
      ends = update x b (write_end page (x b))

  with_first :
      (a : ℕ) {r : Option ℕ × Ftable}
      → a < nfile
      → (t a).ref ≡ 0
      → Allocated (taken t a) r
      → PipeAlloc page t (connect page (some a) r.0 r.1)
  with_first a al z (full all) = no_second a al z
  with_first a al z (slot b bl zb) = both a b al bl z zb

  -- `pipealloc`, on a table whose free slots have no type, panics nowhere and ends in one of two ways:
  -- with no result, with the table as it was and nothing given back; or, with a page for the pipe, with
  -- two free slots made files of the pipe with one reference each, the first to read from and not to
  -- write to, the second to write to and not to read from, and the other slots alone.
  pub pipealloc_lem : PipeAlloc page t (pipealloc page t)
  unfolding pipealloc
  pipealloc_lem = go (filealloc_lem t)
    where
      go :
          {r : Option ℕ × Ftable}
          → Allocated t r
          → PipeAlloc page t (connect page r.0 (second r.0 r.1).0 (second r.0 r.1).1)
      go (full all) = failed [] t tt (λ j. refl)
      go (slot a al z) = with_first a al z (filealloc_lem (taken t a))
