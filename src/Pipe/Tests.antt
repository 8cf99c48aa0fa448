-- ===== src/Pipe/Tests.antt =====
-- Runs of kernel/pipe.c on a pipe whose counters are about to wrap.
use so_final_proyect.Prelude.{
  ℕ, ◌-◌, ◌^◌, ◌≤◌, ◌≡◌, ◌≢◌, ◌⊎◌, refl, List, [], ◌∷◌, ◌++◌, arith, length, true, false, Option,
  none, some, replicate, if◌then◌else◌, ltb,
}
use so_final_proyect.Prelude.Int.{pos, negsuc}
use so_final_proyect.Pipe.{
  Pipe, pipesize, nread_chan, returned, sleeping, Run, stop, pipe_init, pipewrite, piperead,
}
use so_final_proyect.Pipe.Fifo.{IsValid, contents}
use so_final_proyect.Pipe.Write.{Wrote, pipewrite_lem}
use so_final_proyect.Pipe.Read.{Took, piperead_lem}
use so_final_proyect.Pipe.Stream.{System, write, here, next, stream_fifo}

abbrev page : List ℕ
page = replicate 512 0

abbrev near_wrap : Pipe
near_wrap = record {
  buf = page;
  nread = 2 ^ 32 - 1;
  nwrite = 2 ^ 32 - 1;
  readopen = true;
  writeopen = true;
}

-- User memory holds its address at each address below 100.
abbrev user : ℕ → Option ℕ
user a = if ltb a 100 then some a else none

near_wrap-IsValid : IsValid near_wrap
near_wrap-IsValid = record {
  storage = refl;
  nread_uint = omega arith;
  nwrite_uint = omega arith;
  fits = omega arith;
}

wraps :
    let r = pipewrite user (λ _. false) near_wrap 97 (pos 9) 0 in
    (r.outcome ≡ returned (pos 3)) × (r.pipe.nwrite ≡ 2) × (contents r.pipe ≡ 97 ∷ 98 ∷ 99 ∷ [])
unfolding pipewrite
wraps = (refl, refl, refl)

pipewrite_lem_example :
    Wrote user (λ _. false) near_wrap 9 97 0 (pipewrite user (λ _. false) near_wrap 97 (pos 9) 0)
pipewrite_lem_example = pipewrite_lem user (λ _. false) near_wrap 97 9 0 near_wrap-IsValid

piperead_lem_example :
    ((contents near_wrap ≡ [])
      × (near_wrap.writeopen ≡ true)
      × (piperead (λ _. true) false near_wrap 50 (pos 4)
          ≡ stop near_wrap (sleeping nread_chan 0) []))
    ⊎ (((contents near_wrap ≢ []) ⊎ (near_wrap.writeopen ≡ false))
        × Took (λ _. true) false near_wrap 4 50 0 (piperead (λ _. true) false near_wrap 50 (pos 4)))
piperead_lem_example = piperead_lem (λ _. true) false near_wrap 50 4 near_wrap-IsValid

abbrev after_write : Run
after_write = pipewrite user (λ _. false) (pipe_init page) 97 (pos 9) 0

abbrev written : System
written = record { pipe = after_write.pipe; sent = [] ++ after_write.moved; received = [] }

stream_fifo_example :
    (written.sent ≡ [] ++ contents written.pipe) × (length (contents written.pipe) ≤ pipesize)
stream_fifo_example =
    stream_fifo page written refl (next here (write user (λ _. false) 97 9 0 after_write refl))

-- A writer that is killed after its first byte returns -1 and wakes no reader, though the byte is in
-- the pipe.
killed_is_silent :
    let r = pipewrite user (λ i. ltb 0 i) near_wrap 97 (pos 9) 0 in
    (r.outcome ≡ returned (negsuc 0)) × (r.woken ≡ []) × (contents r.pipe ≡ 97 ∷ [])
unfolding pipewrite
killed_is_silent = (refl, refl, refl)
