-- ===== src/Files/Tests.antt =====
-- Two files opened, and a pipe made of two others.
use so_final_proyect.Prelude.{ℕ, ◌<◌, ◌≡◌, ◌≢◌, ◌+◌, ◌⊎◌, refl, none, some, update, ok}
use so_final_proyect.Files.{
  nfile, fd_none, filealloc, filedup, fileclose, pipealloc, Closing, nothing,
}
use so_final_proyect.Files.Refs.{
  System, Step, Reach, here, next, start, empty_slot, refs_exact, filealloc_safe, fileclose_safe,
  GivesBack,
}
use so_final_proyect.Files.PipeEnds.{PipeAlloc, pipealloc_lem}

first_slot : filealloc start.table ≡ (some 0, update start.table 0 (record empty_slot { ref = 1 }))
unfolding filealloc so_final_proyect.Files.filealloc_from
first_slot = refl

abbrev one_open : System
one_open = record {
  table = update start.table 0 (record empty_slot { ref = 1 });
  held = update start.held 0 (start.held 0 + 1);
}

abbrev opened : Reach start one_open
opened = next here (Step.allocates 0 one_open.table first_slot)

refs_exact_example :
    ((one_open.table 0).ref ≡ one_open.held 0)
    × (one_open.held 0 ≡ 0 → (one_open.table 0).type ≡ fd_none)
refs_exact_example = refs_exact opened 0

opened_is_safe :
    ((filealloc one_open.table).0 ≡ none) × ((j : ℕ) → j < nfile → 0 < one_open.held j)
    ⊎ ((k : ℕ) × (k < nfile) × (one_open.held k ≡ 0) × ((filealloc one_open.table).0 ≡ some k))
opened_is_safe = filealloc_safe opened

fileclose_safe_example :
    (filedup 0 one_open.table
      ≡ ok (update one_open.table 0 (record (one_open.table 0) { ref = 2 })))
    × (◌≡◌ {A = ℕ} 0 0
        → (c : Closing) × (fileclose 0 one_open.table
            ≡ ok (
              c,
              update one_open.table 0 (record (one_open.table 0) { ref = 0; type = fd_none }),
            ))
          × GivesBack (one_open.table 0) c)
    × (◌≢◌ {A = ℕ} 0 0
        → fileclose 0 one_open.table
          ≡ ok (nothing, update one_open.table 0 (record (one_open.table 0) { ref = 0 })))
fileclose_safe_example = fileclose_safe opened 0 0 refl

pipealloc_lem_example : PipeAlloc 8192 start.table (pipealloc 8192 start.table)
pipealloc_lem_example = pipealloc_lem 8192 start.table (λ j lt z. refl)
