-- ===== src/Kalloc/Init.antt =====
-- `kinit` and `freerange` of kernel/kalloc.c: every page of the range ends on the free list.
use so_final_proyect.Prelude.{
  ℕ, zero, suc, ◌+◌, ◌-◌, ◌*◌, ◌/◌, ◌%◌, ◌≤◌, ◌<◌, ◌≡◌, ◌≢◌, inl, inr, refl, List, [], ◌∷◌, arith,
  All, Among, All-imp, update_self, some, ok, sym, ℕ_discrete,
}
use so_final_proyect.Prelude.Int.{pos}
use so_final_proyect.Kalloc.{
  Kmem, pgsize, phystop, pgroundup, get_ref_index, set_ref, push_free, freerange_from, kinit,
}
use so_final_proyect.Kalloc.Inv.{IsPage, get_ref_index_inj, IsValid}
use so_final_proyect.Kalloc.Free.{set_ref-IsValid, push_free-IsValid, kfree_last}

module _ (end : ℕ) where
  -- The pages below `p` are free: they are on the list, with no reference.
  pub record Freed (k : Kmem) (free : List ℕ) (p : ℕ) : Type 0 where
    pub valid : IsValid end k free
    pub before : All (λ q. q < p) free
    pub unused : (q : ℕ) → IsPage end q → q < p → k.ref_counts (get_ref_index q) ≡ pos 0
    pub listed : (q : ℕ) → IsPage end q → q < p → Among q free

  -- One round of the loop: the count is set to 1, and `kfree` takes it to 0.
  abbrev round : ℕ → Kmem → Kmem
  round p k = push_free p (set_ref p (pos 0) (set_ref p (pos 1) k))

  round-Freed :
      (p : ℕ) (k : Kmem) (free : List ℕ)
      → 0 < end
      → IsPage end p
      → Freed k free p
      → Freed (round p k) (p ∷ free) (p + pgsize)
  unfolding push_free
  round-Freed p k free pe v f = record {
    valid =
        push_free-IsValid end p cleared free pe v out
          (update_self (set_ref p (pos 1) k).ref_counts (get_ref_index p) (pos 0))
          (set_ref-IsValid end p (pos 0) _ free v out
            (set_ref-IsValid end p (pos 1) k free v out f.valid));
    before = (omega arith, All-imp _ _ (λ q h. omega arith) free f.before);
    unused = λ q u h. elim (ℕ_discrete p q) [
      | yes e ↦ ground arith
      | no ne ↦ ground (arith, get_ref_index_inj end p q v u, f.unused q u (below q u ne h))
    ];
    listed = λ q u h. elim (ℕ_discrete p q) [
      | yes e ↦ inl (sym e)
      | no ne ↦ inr (f.listed q u (below q u ne h))
    ];
  }
    where
      cleared : Kmem
      cleared = set_ref p (pos 0) (set_ref p (pos 1) k)

      out : All (λ q. q ≢ p) free
      out = All-imp _ _ (λ q h e. omega arith) free f.before

      below : (q : ℕ) → IsPage end q → p ≢ q → q < p + pgsize → q < p
      below q u ne h = omega (arith, v.aligned, u.aligned)

  freerange_from-Freed :
      (n fuel p : ℕ) (k : Kmem) (free : List ℕ)
      → 0 < end
      → end ≤ p
      → p % pgsize ≡ 0
      → p + n * pgsize ≡ phystop
      → n < fuel
      → Freed k free p
      → (j : Kmem) × (rest : List ℕ) × (freerange_from end fuel p phystop k ≡ some (ok j))
        × Freed j rest phystop
  unfolding freerange_from
  freerange_from-Freed n zero p k free pe ep al e lt f = absurd (omega arith)
  freerange_from-Freed zero (suc fuel) p k free pe ep al e lt f =
      (k, free, ground arith, rw (← at_end) f)
    where
      at_end : p ≡ phystop
      at_end = omega arith
  freerange_from-Freed (suc n) (suc fuel) p k free pe ep al e lt f =
      let (j, rest, runs, done) =
        freerange_from-Freed n fuel (p + pgsize) (round p k) (p ∷ free) pe (omega arith)
          (omega arith) (omega arith) (omega arith) (round-Freed p k free pe page f) in
      (
        j,
        rest,
        ground (
          arith,
          runs,
          kfree_last end p (set_ref p (pos 1) k) page
              (update_self k.ref_counts (get_ref_index p) (pos 1)),
        ),
        done,
      )
    where
      page : IsPage end p
      page = record { aligned = al; above = ep; below = omega arith }

  -- `kinit`, on a list that is empty, ends with every page of the range on the list, with no
  -- reference; a round of fuel for each page is enough.
  pub kinit_frees_all :
      (fuel : ℕ) (k : Kmem)
      → 0 < end
      → end ≤ phystop
      → phystop / pgsize < fuel
      → k.freelist ≡ 0
      → (j : Kmem) × (free : List ℕ) × (kinit end fuel k ≡ some (ok j))
        × IsValid end j free
        × ((q : ℕ) → IsPage end q → (j.ref_counts (get_ref_index q) ≡ pos 0) × Among q free)
  unfolding kinit
  kinit_frees_all fuel k pe le enough nil =
      let (j, free, runs, f) =
        freerange_from-Freed ((phystop - pgroundup end) / pgsize) fuel (pgroundup end) empty [] pe
          (omega arith) (omega arith) (omega arith) (omega arith) start in
      (j, free, runs, f.valid, λ q u. (f.unused q u u.below, f.listed q u u.below))
    where
      empty : Kmem
      empty = record k { free_pages_count = pos 0 }

      start : Freed empty [] (pgroundup end)
      start = record {
        valid = record {
          chain = nil;
          pages = tt;
          distinct = tt;
          counted = refl;
          unreferenced = tt;
        };
        before = tt;
        unused = λ q u h. absurd (omega (arith, u.aligned, u.above, h));
        listed = λ q u h. absurd (omega (arith, u.aligned, u.above, h));
      }
