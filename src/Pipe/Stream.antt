-- ===== src/Pipe/Stream.antt =====
-- A pipe of kernel/pipe.c between any number of readers and writers, whose stretches come in any
-- order: the pipe's lock keeps each stretch whole.
use so_final_proyect.Prelude.{
  ℕ, ◌≤◌, ◌≡◌, refl, ap, sym, ◌∙◌, List, [], ◌++◌, arith, length, Bool, Option, inl, inr,
}
use mathlib.Core.List.{append_assoc}
use so_final_proyect.Prelude.Int.{pos}
use so_final_proyect.Pipe.{Pipe, pipesize, Run, pipe_init, pipewrite, piperead, pipeclose}
use so_final_proyect.Pipe.Fifo.{IsValid, contents, length-contents, pipe_init-IsValid}
use so_final_proyect.Pipe.Write.{pipewrite_lem}
use so_final_proyect.Pipe.Read.{piperead_lem}

-- `sent` and `received` are the bytes that went in and came out so far.
pub record System : Type 0 where
  pub pipe : Pipe
  pub sent : List ℕ
  pub received : List ℕ

pub data Step (s : System) : System → Type 0 where
  write :
      (copyin : ℕ → Option ℕ) (killed : ℕ → Bool) (addr n i : ℕ) (r : Run)
      → pipewrite copyin killed s.pipe addr (pos n) i ≡ r
      → Step s (record { pipe = r.pipe; sent = s.sent ++ r.moved; received = s.received })
  read :
      (copyout : ℕ → Bool) (killed : Bool) (addr n : ℕ) (r : Run)
      → piperead copyout killed s.pipe addr (pos n) ≡ r
      → Step s (record { pipe = r.pipe; sent = s.sent; received = s.received ++ r.moved })
  close : (writable : Bool) → Step s (record s { pipe = (pipeclose s.pipe writable).0 })

pub data Reach (s : System) : System → Type 0 where
  here : Reach s s
  next : {t u : System} → Reach s t → Step t u → Reach s u

-- What was sent is what was received, and behind it what the pipe holds.
pub record InOrder (s : System) : Type 0 where
  pub valid : IsValid s.pipe
  pub order : s.sent ≡ s.received ++ contents s.pipe

read_order :
    (copyout : ℕ → Bool) (killed : Bool) (addr n : ℕ) (s : System)
    → InOrder s
    → let r = piperead copyout killed s.pipe addr (pos n) in
      IsValid r.pipe × (contents s.pipe ≡ r.moved ++ contents r.pipe)
read_order copyout killed addr n s h = elim (piperead_lem copyout killed s.pipe addr n h.valid) [
  | inl (_, _, same) ↦ rw same (h.valid, refl)
  | inr (_, t) ↦ (t.valid, t.taken)
]

pub Step-InOrder : {s t : System} → Step s t → InOrder s → InOrder t
unfolding pipeclose
Step-InOrder {s} (write copyin killed addr n i r e) h =
    let w = pipewrite_lem copyin killed s.pipe addr n i h.valid in
    record {
      valid = rw (← e) w.valid;
      order = rw (h.order, append_assoc) (ap (λ c. s.received ++ c) (rw (← e) (sym w.appended)));
    }
Step-InOrder {s} (read copyout killed addr n r e) h =
    let (v, taken) = read_order copyout killed addr n s h in
    record {
      valid = rw (← e) v;
      order = h.order ∙ rw append_assoc (ap (λ c. s.received ++ c) (rw (← e) taken));
    }
Step-InOrder {s} (close writable) h = ground (arith, h)

-- Whatever readers and writers do with a fresh pipe, and wherever its counters wrap, the bytes that
-- were sent are those received, in order, and then those that the pipe holds, at most 512.
pub stream_fifo :
    (page : List ℕ) (s : System)
    → length page ≡ pipesize
    → Reach (record { pipe = pipe_init page; sent = []; received = [] }) s
    → (s.sent ≡ s.received ++ contents s.pipe) × (length (contents s.pipe) ≤ pipesize)
stream_fifo page s h r = (inv.order, rw (length-contents s.pipe) inv.valid.fits)
  where
    start : InOrder (record { pipe = pipe_init page; sent = []; received = [] })
    start = record {
      valid = (pipe_init-IsValid page h).0;
      order = sym (pipe_init-IsValid page h).1;
    }

    all :
        {t : System}
        → Reach (record { pipe = pipe_init page; sent = []; received = [] }) t
        → InOrder t
    all here = start
    all (next q st) = Step-InOrder st (all q)

    inv : InOrder s
    inv = all r
