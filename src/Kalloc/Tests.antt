-- ===== src/Kalloc/Tests.antt =====
-- Runs of kernel/kalloc.c on a machine with two pages.
use so_final_proyect.Prelude.{
  ℕ, ◌-◌, ◌*◌, ◌≡◌, ◌≢◌, ◌<◌, ◌⊎◌, ◌↔◌, length, Among, Distinct, update, refl, List, [], arith,
  some, none, ok, panic, Result, Option,
}
use so_final_proyect.Prelude.Int.{pos, ◌+ℤ◌, ◌-ℤ◌}
use so_final_proyect.Kalloc.{Kmem, pgsize, phystop, get_ref_index, kalloc, kfree, kinit}
use so_final_proyect.Kalloc.Owners.{System, alloc, Reach, here, next}
use so_final_proyect.Kalloc.Inv.{IsPage, IsValid}
use so_final_proyect.Kalloc.Free.{kfree_lem}
use so_final_proyect.Kalloc.Alloc.{kalloc-kfree}
use so_final_proyect.Kalloc.Init.{kinit_frees_all}
use so_final_proyect.Kalloc.Safety.{kalloc_safe, free_pages_count_exact}

abbrev end : ℕ
end = phystop - 2 * pgsize

abbrev first_page : ℕ
first_page = phystop - pgsize

abbrev blank : Kmem
blank = record {
  freelist = 0;
  free_pages_count = pos 7;
  ref_counts = λ _. pos 0;
  next = λ _. 0;
  byte = λ _. 0;
}

abbrev fuel : ℕ
fuel = 600_000

abbrev result : Option (Result Kmem) → Kmem
result (some (ok k)) = k
result (some (panic _)) = blank
result none = blank

abbrev booted : Kmem
unfolding kinit ◌+ℤ◌ ◌-ℤ◌
booted = result (kinit end fuel blank)

kinit_runs : kinit end fuel blank ≡ some (ok booted)
unfolding kinit ◌+ℤ◌ ◌-ℤ◌
kinit_runs = refl

kinit_counts : (booted.freelist ≡ first_page) × (booted.free_pages_count ≡ pos 2)
unfolding kinit ◌+ℤ◌ ◌-ℤ◌
kinit_counts = (refl, refl)

abbrev after_boot : System
after_boot = record { mem = booted; held = λ _. 0 }

-- One page is taken.
abbrev one_taken : System
one_taken = record { mem = (kalloc booted).1; held = update (λ _. 0) (kalloc booted).0 1 }

taken : Reach end after_boot one_taken
unfolding kalloc kinit ◌+ℤ◌ ◌-ℤ◌
taken = next here (alloc (omega arith))

kalloc_safe_example :
    (((kalloc one_taken.mem).0 ≡ 0) × ((p : ℕ) → IsPage end p → 0 < one_taken.held p))
    ⊎ (IsPage end (kalloc one_taken.mem).0 × (one_taken.held (kalloc one_taken.mem).0 ≡ 0))
kalloc_safe_example =
    kalloc_safe end fuel blank booted (omega arith) (omega arith) (omega arith) refl kinit_runs
      one_taken taken

free_pages_count_exact_example :
    (free : List ℕ) × (one_taken.mem.free_pages_count ≡ pos (length free))
    × Distinct free
    × ((p : ℕ) → Among p free ↔ (IsPage end p × (one_taken.held p ≡ 0)))
    × ((p : ℕ) → IsPage end p → one_taken.mem.ref_counts (get_ref_index p) ≡ pos (one_taken.held p))
free_pages_count_exact_example =
    free_pages_count_exact end fuel blank booted (omega arith) (omega arith) (omega arith) refl
      kinit_runs one_taken taken

kinit_frees_all_example :
    (j : Kmem) × (free : List ℕ) × (kinit end fuel blank ≡ some (ok j))
    × IsValid end j free
    × ((q : ℕ) → IsPage end q → (j.ref_counts (get_ref_index q) ≡ pos 0) × Among q free)
kinit_frees_all_example =
    kinit_frees_all end fuel blank (omega arith) (omega arith) (omega arith) refl

-- A machine whose first page has one owner and whose list is empty.
abbrev owned : Kmem
owned = record {
  freelist = 0;
  free_pages_count = pos 0;
  ref_counts = λ _. pos 1;
  next = λ _. 0;
  byte = λ _. 0;
}

kalloc-kfree_run :
    (j : Kmem) × (kfree end first_page owned ≡ ok j)
    × ((kalloc j).0 ≡ first_page)
    × ((kalloc j).1.free_pages_count ≡ pos 0)
    × IsValid end (kalloc j).1 []
kalloc-kfree_run =
    kalloc-kfree end first_page owned [] (omega arith) (omega arith) tt refl
      (record { chain = refl; pages = tt; distinct = tt; counted = refl; unreferenced = tt })

kfree_lem_example :
    (j : Kmem) × (kfree end first_page (record owned { ref_counts = λ _. pos 2 }) ≡ ok j)
    × (j.ref_counts (get_ref_index first_page) ≡ pos 1)
    × ((q : ℕ) → IsPage end q → q ≢ first_page → j.ref_counts (get_ref_index q) ≡ pos 2)
    × IsValid end j []
kfree_lem_example =
    kfree_lem end first_page 1 (record owned { ref_counts = λ _. pos 2 }) [] (omega arith)
      (omega arith) tt refl
      (record { chain = refl; pages = tt; distinct = tt; counted = refl; unreferenced = tt })
