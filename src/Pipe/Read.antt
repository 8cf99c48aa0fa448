-- ===== src/Pipe/Read.antt =====
-- What a stretch of `piperead` of kernel/pipe.c does to the queue.
use so_final_proyect.Prelude.{
  ℕ, zero, suc, ◌+◌, ◌<◌, ◌≡◌, ◌≢◌, ◌⊎◌, inl, inr, refl, subst, ap, sym, ◌∙◌, [], ◌∷◌, ◌++◌, arith,
  length, true, false, Bool, Bool-cases, ◌==◌, if◌then◌else◌, ◌&&◌, nil_of_length,
}
use so_final_proyect.Prelude.Int.{pos, negsuc}
use so_final_proyect.Pipe.{
  Pipe, is_empty, nread_chan, nwrite_chan, returned, sleeping, Run, stop, moving, read_from,
  piperead,
}
use so_final_proyect.Pipe.Fifo.{
  IsValid, contents, length-contents, is_empty_iff, advance, oldest, advance-contents,
}

module _ (copyout : ℕ → Bool) (killed : Bool) where
  pub data Ends (left addr i n : ℕ) (r : Run) : Type 0 where
    -- as many as were asked for, or all that there were
    done :
        r.outcome ≡ returned (pos (i + n))
        → r.woken ≡ nwrite_chan ∷ []
        → (n ≡ left) ⊎ ((n < left) × (contents r.pipe ≡ []))
        → Ends left addr i n r
    -- the next byte cannot be stored in user memory, and stays in the pipe
    faulted :
        r.outcome ≡ returned (if i + n == 0 then negsuc 0 else pos (i + n))
        → r.woken ≡ nwrite_chan ∷ []
        → n < left
        → contents r.pipe ≢ []
        → copyout (addr + i + n) ≡ false
        → Ends left addr i n r

  pub record Took (pi : Pipe) (left addr i : ℕ) (r : Run) : Type 0 where
    pub valid : IsValid r.pipe
    pub taken : contents pi ≡ r.moved ++ contents r.pipe
    pub ends_same : (r.pipe.readopen ≡ pi.readopen) × (r.pipe.writeopen ≡ pi.writeopen)
    pub ends : Ends left addr i (length r.moved) r

  Ends-suc :
      (left addr i n ch : ℕ) (r : Run)
      → Ends left addr (i + 1) n r
      → Ends (suc left) addr i (suc n) (moving ch r)
  Ends-suc left addr i n ch r (done o w e) =
      done (o ∙ ap (λ k. returned (pos k)) (omega arith)) w (ground (arith, e))
  Ends-suc left addr i n ch r (faulted o w lt some_left bad) =
      faulted (o ∙ ap (λ k. returned (if k == 0 then negsuc 0 else pos k)) (omega arith)) w
        (omega arith) some_left (ap copyout (omega arith) ∙ bad)

  contents-eq-nil : (pi : Pipe) → IsValid pi → is_empty pi ≡ true → contents pi ≡ []
  contents-eq-nil pi v e =
      nil_of_length (contents pi) (length-contents pi ∙ (is_empty_iff pi v).0 e)

  pub read_from-Took :
      (left addr i : ℕ) (pi : Pipe)
      → IsValid pi
      → Took pi left addr i (read_from copyout killed left addr i pi)
  unfolding read_from
  read_from-Took zero addr i pi v = record {
    valid = v;
    taken = refl;
    ends_same = (refl, refl);
    ends = done (ap (λ k. returned (pos k)) (omega arith)) refl (inl refl);
  }
  read_from-Took (suc left) addr i pi v = elim (Bool-cases (is_empty pi)) [
    | inl nothing ↦ rw nothing (record {
      valid = v;
      taken = refl;
      ends_same = (refl, refl);
      ends =
          done (ap (λ k. returned (pos k)) (omega arith)) refl
            (inr (omega arith, contents-eq-nil pi v nothing));
    })
    | inr something ↦ elim (Bool-cases (copyout (addr + i))) [
      | inr bad ↦
          rw (something, bad)
            (record {
              valid = v;
              taken = refl;
              ends_same = (refl, refl);
              ends =
                  faulted (ap (λ k. returned (if k == 0 then negsuc 0 else pos k)) (omega arith))
                    refl (omega arith) (λ e. ground (arith, (advance-contents pi v something).1))
                    (ap copyout (omega arith) ∙ bad);
            })
      | inl good ↦
          rw (something, good)
            (one_more (advance-contents pi v something)
              (read_from-Took left addr (i + 1) (advance pi) (advance-contents pi v something).0))
    ]
  ]
    where
      one_more :
          {r : Run}
          → IsValid (advance pi) × (contents pi ≡ oldest pi ∷ contents (advance pi))
          → Took (advance pi) left addr (i + 1) r
          → Took pi (suc left) addr i (moving (oldest pi) r)
      one_more {r} first t = record {
        valid = t.valid;
        taken = first.1 ∙ ap (λ c. oldest pi ∷ c) t.taken;
        ends_same = t.ends_same;
        ends = Ends-suc left addr i (length r.moved) (oldest pi) r t.ends;
      }

piperead_open :
    (copyout : ℕ → Bool) (killed : Bool) (pi : Pipe) (addr n : ℕ)
    → (is_empty pi && pi.writeopen) ≡ false
    → piperead copyout killed pi addr (pos n) ≡ read_from copyout killed n addr 0 pi
unfolding piperead
piperead_open copyout killed pi addr n h = simp h

-- A stretch of `piperead`. On an empty pipe with a write end open it changes nothing, and returns -1
-- if the reader was killed, or else sleeps. In any other case it takes bytes from the front of the
-- queue: as many as were asked for, or all there are, and returns their number; or it stops at an
-- address that cannot be written and leaves that byte in the pipe, and returns the number before it,
-- or -1 if that is 0. Then writers are woken. It changes neither end's flag.
pub piperead_lem :
    (copyout : ℕ → Bool) (killed : Bool) (pi : Pipe) (addr n : ℕ)
    → IsValid pi
    → ((contents pi ≡ [])
        × (pi.writeopen ≡ true)
        × (piperead copyout killed pi addr (pos n)
            ≡ stop pi (if killed then returned (negsuc 0) else sleeping nread_chan 0) []))
      ⊎ (((contents pi ≢ []) ⊎ (pi.writeopen ≡ false))
          × Took copyout killed pi n addr 0 (piperead copyout killed pi addr (pos n)))
unfolding piperead
piperead_lem copyout killed pi addr n v = elim (Bool-cases (is_empty pi)) [
  | inl nothing ↦ elim (Bool-cases pi.writeopen) [
    | inl open_end ↦ inl (contents-eq-nil copyout killed pi v nothing, open_end, ground arith)
    | inr closed ↦ inr (inr closed, took (ground arith))
  ]
  | inr something ↦
      inr (inl (λ e. ground (arith, (advance-contents pi v something).1)), took (ground arith))
]
  where
    took :
        (is_empty pi && pi.writeopen) ≡ false
        → Took copyout killed pi n addr 0 (piperead copyout killed pi addr (pos n))
    took h =
        subst (Took copyout killed pi n addr 0) (sym (piperead_open copyout killed pi addr n h))
          (read_from-Took copyout killed n addr 0 pi v)
