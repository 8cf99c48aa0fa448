-- ===== src/Kalloc/Alloc.antt =====
-- What `kalloc` of kernel/kalloc.c takes from the free list, and the pair of `kalloc` and `kfree`.
use so_final_proyect.Prelude.{
  ℕ, ◌<◌, ◌≡◌, ◌≢◌, refl, List, [], ◌∷◌, arith, All, ok, update, update_self, sym, ◌∙◌,
}
use so_final_proyect.Prelude.Int.{pos, ◌-ℤ◌}
use so_final_proyect.Kalloc.{Kmem, fill_page, get_ref_index, set_ref, push_free, kalloc, kfree}
use so_final_proyect.Kalloc.Inv.{Chain-update, IsPage, IsValid}
use so_final_proyect.Kalloc.Free.{set_ref-IsValid, push_free-IsValid, kfree_last}

-- The count that `kalloc` writes.
pub kalloc-refs :
    (k : Kmem) → (kalloc k).1.ref_counts ≡ update k.ref_counts (get_ref_index (kalloc k).0) (pos 1)
unfolding kalloc
kalloc-refs k = ground arith

-- With no free page `kalloc` returns 0 and leaves the free list as it was.
pub kalloc_empty :
    (end : ℕ) (k : Kmem) → IsValid end k [] → ((kalloc k).0 ≡ 0) × IsValid end (kalloc k).1 []
unfolding kalloc
kalloc_empty end k h = (
  h.chain,
  record {
    chain = ground (arith, h.chain);
    pages = tt;
    distinct = tt;
    counted = ground (arith, h.chain, h.counted);
    unreferenced = tt;
  },
)

-- The state without its first page `p`.
abbrev without_first : ℕ → Kmem → Kmem
without_first p k =
    fill_page p 5 (record k { freelist = k.next p; free_pages_count = k.free_pages_count -ℤ pos 1 })

kalloc_taken :
    (k : Kmem) (p : ℕ)
    → k.freelist ≡ p
    → 0 < p
    → kalloc k ≡ (p, set_ref p (pos 1) (without_first p k))
unfolding kalloc
kalloc_taken k p e pos_p = rw e (ground arith)

without_first-IsValid :
    (end p : ℕ) (k : Kmem) (free : List ℕ)
    → IsValid end k (p ∷ free)
    → IsValid end (without_first p k) free
unfolding ◌-ℤ◌
without_first-IsValid end p k free h = record {
  chain = Chain-update _ p _ _ free h.distinct.0 h.chain.2;
  pages = h.pages.1;
  distinct = h.distinct.1;
  counted = ground (arith, h.counted);
  unreferenced = h.unreferenced.1;
}

-- Otherwise it takes the first page, with one owner, and the rest of the list stays.
pub kalloc_first :
    (end p : ℕ) (k : Kmem) (free : List ℕ)
    → IsValid end k (p ∷ free)
    → ((kalloc k).0 ≡ p)
      × ((kalloc k).1.ref_counts (get_ref_index p) ≡ pos 1)
      × IsValid end (kalloc k).1 free
kalloc_first end p k free h =
    rw (kalloc_taken k p h.chain.0 h.chain.1)
      (refl, update_self k.ref_counts (get_ref_index p) (pos 1), valid)
  where
    valid : IsValid end (set_ref p (pos 1) (without_first p k)) free
    valid =
        set_ref-IsValid end p (pos 1) (without_first p k) free h.pages.0 h.distinct.0
          (without_first-IsValid end p k free h)

-- A page freed by its last owner is the next one that `kalloc` hands out, and the pair leaves the
-- free list and its length as they were.
pub kalloc-kfree :
    (end p : ℕ) (k : Kmem) (free : List ℕ)
    → 0 < end
    → IsPage end p
    → All (λ q. q ≢ p) free
    → k.ref_counts (get_ref_index p) ≡ pos 1
    → IsValid end k free
    → (j : Kmem) × (kfree end p k ≡ ok j)
      × ((kalloc j).0 ≡ p)
      × ((kalloc j).1.free_pages_count ≡ k.free_pages_count)
      × IsValid end (kalloc j).1 free
kalloc-kfree end p k free pe v out one h = (
  push_free p (set_ref p (pos 0) k),
  kfree_last end p k v one,
  first.0,
  first.2.counted ∙ sym h.counted,
  first.2,
)
  where
    dropped : IsValid end (set_ref p (pos 0) k) free
    dropped = set_ref-IsValid end p (pos 0) k free v out h

    first :
        ((kalloc (push_free p (set_ref p (pos 0) k))).0 ≡ p)
        × ((kalloc (push_free p (set_ref p (pos 0) k))).1.ref_counts (get_ref_index p) ≡ pos 1)
        × IsValid end (kalloc (push_free p (set_ref p (pos 0) k))).1 free
    first = kalloc_first end p (push_free p (set_ref p (pos 0) k)) free (
        push_free-IsValid end p _ free pe v out (update_self k.ref_counts (get_ref_index p) (pos 0))
          dropped)
