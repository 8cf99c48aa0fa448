-- ===== src/Files/Refs.antt =====
-- The table of kernel/file.c under the descriptors that refer to it: `held f` is the number of
-- references to file `f`.
use so_final_proyect.Prelude.{
  ℕ, zero, suc, ◌+◌, ◌<◌, ◌≡◌, ◌≢◌, ◌⊎◌, inl, inr, refl, ap, sym, ◌∙◌, subst, arith, Option, none,
  some, false, update, update_self, update_ne, ℕ_discrete, ok, ok_inj,
}
use so_final_proyect.Files.{
  nfile, File, Ftable, fd_none, fd_pipe, fd_inode, fd_device, filealloc, filedup, fileclose,
  Closing, nothing, close_pipe, put_inode, closing,
}
use so_final_proyect.Files.Slots.{
  Allocated, full, slot, filealloc_lem, filedup_lem, closed, fileclose_lem,
}

pub record System : Type 0 where
  pub table : Ftable
  pub held : ℕ → ℕ

-- A file is shared, changed or closed by a holder only.
pub data Step (s : System) : System → Type 0 where
  allocates :
      (f : ℕ) (u : Ftable)
      → filealloc s.table ≡ (some f, u)
      → Step s (record { table = u; held = update s.held f (s.held f + 1) })
  dups :
      (f : ℕ) (u : Ftable)
      → 0 < s.held f
      → filedup f s.table ≡ ok u
      → Step s (record { table = u; held = update s.held f (s.held f + 1) })
  closes :
      (f n : ℕ) (c : Closing) (u : Ftable)
      → s.held f ≡ suc n
      → fileclose f s.table ≡ ok (c, u)
      → Step s (record { table = u; held = update s.held f n })
  -- Any change of the file but of its count, as `sys_open` and the offset need.
  writes :
      (f : ℕ) (g : File)
      → 0 < s.held f
      → g.ref ≡ (s.table f).ref
      → Step s (record s { table = update s.table f g })

pub data Reach (s : System) : System → Type 0 where
  here : Reach s s
  next : {t u : System} → Reach s t → Step t u → Reach s u

-- A slot counts its references, and has no type while there is none.
pub record Counted (g : File) (n : ℕ) : Type 0 where
  pub count : g.ref ≡ n
  pub untyped : n ≡ 0 → g.type ≡ fd_none

abbrev pub Inv : System → Type 0
Inv s = (f : ℕ) → Counted (s.table f) (s.held f)

-- A step at one slot.
update-Inv :
    (f n : ℕ) (g : File) (s : System)
    → Inv s
    → Counted g n
    → Inv (record { table = update s.table f g; held = update s.held f n })
update-Inv f n g s v c j = elim (ℕ_discrete f j) [
  | yes e ↦
      subst (λ i. Counted (update s.table f g i) (update s.held f n i)) e
        (subst (λ m. Counted (update s.table f g f) m) (sym (update_self s.held f n))
          (subst (λ h. Counted h n) (sym (update_self s.table f g)) c))
  | no e ↦
      subst (λ m. Counted (update s.table f g j) m) (sym (update_ne s.held n e))
        (subst (λ h. Counted h (s.held j)) (sym (update_ne s.table g e)) (v j))
]

some_inj : {a b : ℕ} → some a ≡ some b → a ≡ b
some_inj e = cc

closed-Counted : (n : ℕ) (g : File) → Counted (closed n g).1 n
closed-Counted zero g = record { count = refl; untyped = λ e. refl }
closed-Counted (suc n) g = record { count = refl; untyped = λ e. absurd (omega (arith, e)) }

Step-Inv : {s u : System} → Step s u → Inv s → Inv u
Step-Inv {s} (Step.allocates f u e) v = go (filealloc_lem s.table) e
  where
    go :
        {r : Option ℕ × Ftable}
        → Allocated s.table r
        → r ≡ (some f, u)
        → Inv (record { table = u; held = update s.held f (s.held f + 1) })
    go (full all) d = absurd (cc (ap (λ (x : Option ℕ × Ftable). x.0) d))
    go (slot k lt z) d =
        let same = ap (λ (x : Option ℕ × Ftable). x.0) d in
        subst (λ t. Inv (record { table = t; held = update s.held f (s.held f + 1) }))
          (ap (λ (x : Option ℕ × Ftable). x.1) d)
          (subst
            (λ i. Inv (record {
              table = update s.table k (record (s.table k) { ref = 1 });
              held = update s.held i (s.held i + 1);
            }))
            (some_inj same)
            (update-Inv k (s.held k + 1) _ s v (record {
              count = omega (arith, z, (v k).count);
              untyped = λ e. absurd (omega (arith, e));
            })))
Step-Inv {s} (Step.dups f u held e) v =
    subst (λ t. Inv (record { table = t; held = update s.held f (s.held f + 1) }))
      (ok_inj (sym (filedup_lem f s.table (omega (arith, (v f).count))) ∙ e))
      (update-Inv f (s.held f + 1) _ s v
        (record { count = omega (arith, (v f).count); untyped = λ z. absurd (omega (arith, z)) }))
Step-Inv {s} (Step.closes f n c u held e) v =
    subst (λ t. Inv (record { table = t; held = update s.held f n }))
      (ap (λ (r : Closing × Ftable). r.1)
        (ok_inj (sym (fileclose_lem f n s.table ((v f).count ∙ held)) ∙ e)))
      (update-Inv f n _ s v (closed-Counted n (s.table f)))
Step-Inv {s} (Step.writes f g held e) v = λ j. elim (ℕ_discrete f j) [
  | yes d ↦
      subst (λ i. Counted (update s.table f g i) (s.held i)) d
        (subst (λ h. Counted h (s.held f)) (sym (update_self s.table f g))
          (record { count = e ∙ (v f).count; untyped = λ z. absurd (omega (arith, z, held)) }))
  | no d ↦ subst (λ h. Counted h (s.held j)) (sym (update_ne s.table g d)) (v j)
]

Reach-Inv : {s u : System} → Reach s u → Inv s → Inv u
Reach-Inv here v = v
Reach-Inv (next r st) v = Step-Inv st (Reach-Inv r v)

-- A kernel starts with the table zeroed.
abbrev pub empty_slot : File
empty_slot = record {
  type = fd_none;
  ref = 0;
  readable = false;
  writable = false;
  pipe = 0;
  ip = 0;
  off = 0;
  major = 0;
}

abbrev pub start : System
start = record { table = λ f. empty_slot; held = λ f. 0 }

start-Inv : Inv start
start-Inv f = record { count = refl; untyped = λ e. refl }

-- From the zeroed table, whatever descriptors are made, copied, written through and closed, the count of
-- each file is the number of references to it that are held, and a slot with no reference has no type.
pub refs_exact :
    {u : System}
    → Reach start u
    → (f : ℕ) → ((u.table f).ref ≡ u.held f) × (u.held f ≡ 0 → (u.table f).type ≡ fd_none)
refs_exact r f = ((Reach-Inv r start-Inv f).count, (Reach-Inv r start-Inv f).untyped)

-- From the zeroed table, whatever the holders of files did: `filealloc` returns a file that nobody holds,
-- or null, and then every file is held by somebody.
pub filealloc_safe :
    {u : System}
    → Reach start u
    → ((filealloc u.table).0 ≡ none) × ((j : ℕ) → j < nfile → 0 < u.held j)
      ⊎ ((k : ℕ) × (k < nfile) × (u.held k ≡ 0) × ((filealloc u.table).0 ≡ some k))
filealloc_safe {u} r = go (filealloc_lem u.table)
  where
    go :
        {a : Option ℕ × Ftable}
        → Allocated u.table a
        → ((a.0 ≡ none) × ((j : ℕ) → j < nfile → 0 < u.held j))
          ⊎ ((k : ℕ) × (k < nfile) × (u.held k ≡ 0) × (a.0 ≡ some k))
    go (full all) = inl (refl, λ j lt. ground (arith, all j lt, (refs_exact r j).0))
    go (slot k lt z) = inr (k, lt, sym (refs_exact r k).0 ∙ z, refl)

count_of : {u : System} → Reach start u → (f n : ℕ) → u.held f ≡ suc n → (u.table f).ref ≡ suc n
count_of r f n e = (refs_exact r f).0 ∙ e

filedup_counts :
    {u : System}
    → Reach start u
    → (f n : ℕ) → u.held f ≡ suc n
    → filedup f u.table ≡ ok (update u.table f (record (u.table f) { ref = suc (suc n) }))
filedup_counts {u} r f n e =
    filedup_lem f u.table (omega (arith, count_of r f n e))
    ∙ ap (λ m. ok (update u.table f (record (u.table f) { ref = m })))
        (omega (arith, count_of r f n e))

-- What stands behind a file, by its type: an end of a pipe, an inode, or nothing.
pub record GivesBack (g : File) (c : Closing) : Type 0 where
  pub no_file : g.type ≡ fd_none → c ≡ nothing
  pub of_pipe : g.type ≡ fd_pipe → c ≡ close_pipe g.pipe g.writable
  pub of_inode : g.type ≡ fd_inode → c ≡ put_inode g.ip
  pub of_device : g.type ≡ fd_device → c ≡ put_inode g.ip

closing-GivesBack : (g : File) → GivesBack g (closing g)
closing-GivesBack g = record {
  no_file = λ e. rw e refl;
  of_pipe = λ e. rw e refl;
  of_inode = λ e. rw e refl;
  of_device = λ e. rw e refl;
}

-- From the zeroed table, whatever the holders of files did: `filedup` and `fileclose` of a file that is
-- held do not panic, and change its count by one, and no other file. `fileclose` of the last reference
-- takes the file's type, and gives back what stands behind it: its end to `pipeclose` for a pipe, its
-- inode to `iput` for an inode or a device, and nothing for a file with no type. Of another reference it
-- gives back nothing.
pub fileclose_safe :
    {u : System}
    → Reach start u
    → (f n : ℕ) → u.held f ≡ suc n
    → (filedup f u.table ≡ ok (update u.table f (record (u.table f) { ref = suc (suc n) })))
      × (n ≡ 0
          → (c : Closing) × (fileclose f u.table
              ≡ ok (c, update u.table f (record (u.table f) { ref = 0; type = fd_none })))
            × GivesBack (u.table f) c)
      × (n ≢ 0
          → fileclose f u.table ≡ ok (nothing, update u.table f (record (u.table f) { ref = n })))
fileclose_safe {u} r f zero e = (
  filedup_counts r f zero e,
  λ z. (
    closing (u.table f),
    fileclose_lem f zero u.table (count_of r f zero e),
    closing-GivesBack (u.table f),
  ),
  λ z. absurd (z refl),
)
fileclose_safe {u} r f (suc n) e = (
  filedup_counts r f (suc n) e,
  λ z. absurd (omega (arith, z)),
  λ z. fileclose_lem f (suc n) u.table (count_of r f (suc n) e),
)
