-- ===== src/Pipe/Write.antt =====
-- What a stretch of `pipewrite` of kernel/pipe.c does to the queue.
use so_final_proyect.Prelude.{
  ℕ, zero, suc, ◌+◌, ◌-◌, ◌<◌, ◌≡◌, ◌⊎◌, inl, inr, refl, subst, ap, sym, ◌∙◌, List, [], ◌∷◌, ◌++◌,
  arith, length, true, false, Bool, Bool-cases, Option-cases, Option, none, some, ◌||◌, not,
}
use mathlib.Core.List.{append-nil, append_assoc}
use so_final_proyect.Prelude.Int.{pos, negsuc}
use so_final_proyect.Pipe.{
  Pipe, pipesize, put, is_full, nread_chan, nwrite_chan, returned, sleeping, Run, moving,
  write_from, pipewrite,
}
use so_final_proyect.Pipe.Fifo.{IsValid, contents, length-contents, is_full_iff, put-contents}

module _ (copyin : ℕ → Option ℕ) (killed : ℕ → Bool) where
  -- The bytes are those of user memory from the address on.
  abbrev pub Loaded : ℕ → List ℕ → Type 0
  Loaded addr [] = Unit
  Loaded addr (b ∷ bs) = (copyin addr ≡ some b) × Loaded (addr + 1) bs

  -- How a stretch that began at byte `i`, with `left` to go, ends after `n` more bytes.
  pub data Ends (left addr i n : ℕ) (r : Run) : Type 0 where
    -- all bytes were written, or the next one cannot be read from user memory
    done :
        r.outcome ≡ returned (pos (i + n))
        → r.woken ≡ nread_chan ∷ []
        → (n ≡ left) ⊎ ((n < left) × (copyin (addr + i + n) ≡ none))
        → Ends left addr i n r
    -- the pipe is full, and readers were woken
    full :
        r.outcome ≡ sleeping nwrite_chan (i + n)
        → r.woken ≡ nread_chan ∷ []
        → n < left
        → length (contents r.pipe) ≡ pipesize
        → Ends left addr i n r
    -- no reader is left, or the writer was killed
    broken :
        r.outcome ≡ returned (negsuc 0)
        → r.woken ≡ []
        → n < left
        → (r.pipe.readopen ≡ false) ⊎ (killed (i + n) ≡ true)
        → Ends left addr i n r

  pub record Wrote (pi : Pipe) (left addr i : ℕ) (r : Run) : Type 0 where
    pub valid : IsValid r.pipe
    pub loaded : Loaded (addr + i) r.moved
    pub appended : contents r.pipe ≡ contents pi ++ r.moved
    pub ends_same : (r.pipe.readopen ≡ pi.readopen) × (r.pipe.writeopen ≡ pi.writeopen)
    pub ends : Ends left addr i (length r.moved) r

  Ends-suc :
      (left addr i n ch : ℕ) (r : Run)
      → Ends left addr (i + 1) n r
      → Ends (suc left) addr i (suc n) (moving ch r)
  Ends-suc left addr i n ch r (done o w e) =
      done (o ∙ ap (λ k. returned (pos k)) (omega arith)) w (ground (arith, e))
  Ends-suc left addr i n ch r (full o w lt f) =
      full (o ∙ ap (sleeping nwrite_chan) (omega arith)) w (omega arith) f
  Ends-suc left addr i n ch r (broken o w lt why) = broken o w (omega arith) (ground (arith, why))

  -- What a stretch has done from the state after one more byte, said of the state before it.
  Wrote-moving :
      (pi pj : Pipe) (left addr i ch : ℕ) (r : Run)
      → copyin (addr + i) ≡ some ch
      → contents pj ≡ contents pi ++ (ch ∷ [])
      → (pj.readopen ≡ pi.readopen) × (pj.writeopen ≡ pi.writeopen)
      → Wrote pj left addr (i + 1) r
      → Wrote pi (suc left) addr i (moving ch r)
  Wrote-moving pi pj left addr i ch r e grown same w = record {
    valid = w.valid;
    loaded = (e, subst (λ a. Loaded a r.moved) (omega arith) w.loaded);
    appended =
        w.appended ∙ ap (λ c. c ++ r.moved) grown ∙ append_assoc (contents pi) (ch ∷ []) r.moved;
    ends_same = (w.ends_same.0 ∙ same.0, w.ends_same.1 ∙ same.1);
    ends = Ends-suc left addr i (length r.moved) ch r w.ends;
  }

  stopped :
      (pi : Pipe) (left addr i : ℕ) (r : Run)
      → IsValid pi
      → r.pipe ≡ pi
      → r.moved ≡ []
      → Ends left addr i 0 r
      → Wrote pi left addr i r
  stopped pi left addr i r v p m e = record {
    valid = rw p v;
    loaded = rw m tt;
    appended = rw (p, m) (sym (append-nil (contents pi)));
    ends_same = rw p (refl, refl);
    ends = subst (λ ms. Ends left addr i (length ms) r) (sym m) e;
  }

  pub write_from-Wrote :
      (left addr i : ℕ) (pi : Pipe)
      → IsValid pi
      → Wrote pi left addr i (write_from copyin killed left addr i pi)
  unfolding write_from put
  write_from-Wrote zero addr i pi v =
      stopped pi 0 addr i _ v refl refl
        (done (ap (λ k. returned (pos k)) (omega arith)) refl (inl refl))
  write_from-Wrote (suc left) addr i pi v = elim (Bool-cases (not pi.readopen || killed i)) [
    | inl broke ↦
        rw broke (
          stopped pi (suc left) addr i _ v refl refl
            (broken refl refl (omega arith) (ground arith)))
    | inr open_end ↦ elim (Bool-cases (is_full pi)) [
      | inl no_room ↦
          rw (open_end, no_room)
            (stopped pi (suc left) addr i _ v refl refl (
              full (ap (sleeping nwrite_chan) (omega arith)) refl (omega arith)
                (length-contents pi ∙ (is_full_iff pi v).0 no_room)))
      | inr room ↦ elim (Option-cases (copyin (addr + i))) [
        | inl bad ↦
            rw (open_end, room, bad)
              (stopped pi (suc left) addr i _ v refl refl (
                done (ap (λ k. returned (pos k)) (omega arith)) refl
                  (inr (omega arith, ground arith))))
        | inr (ch, good) ↦
            rw (open_end, room, good)
              (Wrote-moving pi (put ch pi) left addr i ch _ good (put-contents pi ch v room).1
                (refl, refl)
                (write_from-Wrote left addr (i + 1) (put ch pi) (put-contents pi ch v room).0))
      ]
    ]
  ]

-- A stretch of `pipewrite` from byte `i` on adds at the end of the queue bytes of user memory, in
-- order from `addr + i` on. It ends with all bytes written or at an address that cannot be read, and
-- returns the number of bytes; or it sleeps, with the pipe full; in both cases readers are woken. Or it
-- returns -1, with no reader left or the writer killed. It changes neither end's flag.
pub pipewrite_lem :
    (copyin : ℕ → Option ℕ) (killed : ℕ → Bool) (pi : Pipe) (addr n i : ℕ)
    → IsValid pi
    → Wrote copyin killed pi (n - i) addr i (pipewrite copyin killed pi addr (pos n) i)
unfolding pipewrite
pipewrite_lem copyin killed pi addr n i v = write_from-Wrote copyin killed (n - i) addr i pi v
