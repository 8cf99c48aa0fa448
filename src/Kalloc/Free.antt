-- ===== src/Kalloc/Free.antt =====
-- What `kfree` of kernel/kalloc.c does to a page on each of its branches.
use so_final_proyect.Prelude.{
  ℕ, zero, suc, ◌*◌, ◌<◌, ◌≡◌, ◌≢◌, refl, true, List, ◌∷◌, arith, All, All-imp, All-zip, update, ok,
  panic, update_ne, update_self, sym, ◌∙◌,
}
use so_final_proyect.Prelude.Int.{ℤ, pos, ◌+ℤ◌, ◌-ℤ◌}
use so_final_proyect.Kalloc.{Kmem, is_bad, get_ref_index, set_ref, push_free, kfree}
use so_final_proyect.Kalloc.Inv.{Chain-update, IsPage, get_ref_index_inj, IsValid}

module _ (end p : ℕ) (k : Kmem) where
  -- A page that is not shared any more goes to the front of the free list.
  pub kfree_last :
      IsPage end p
      → k.ref_counts (get_ref_index p) ≡ pos 1
      → kfree end p k ≡ ok (push_free p (set_ref p (pos 0) k))
  unfolding kfree ◌-ℤ◌
  kfree_last v one = ground arith

  -- A page with other owners only loses one reference.
  pub kfree_shared :
      (n : ℕ)
      → IsPage end p
      → k.ref_counts (get_ref_index p) ≡ pos (suc (suc n))
      → kfree end p k ≡ ok (set_ref p (pos (suc n)) k)
  unfolding kfree ◌-ℤ◌
  kfree_shared n v many = ground arith

  -- An address that is no page of the allocator's range is refused.
  pub kfree_bad : ¬ IsPage end p → kfree end p k ≡ panic "kfree"
  unfolding kfree
  kfree_bad h = ground (arith, bad)
    where
      bad : is_bad end p ≡ true
      bad = grind arith

-- A reference count that no page of the list uses may change.
pub set_ref-IsValid :
    (end p : ℕ) (c : ℤ) (k : Kmem) (free : List ℕ)
    → IsPage end p
    → All (λ q. q ≢ p) free
    → IsValid end k free
    → IsValid end (set_ref p c k) free
set_ref-IsValid end p c k free v out h = record {
  chain = h.chain;
  pages = h.pages;
  distinct = h.distinct;
  counted = h.counted;
  unreferenced =
      All-imp _ _ same free (All-zip _ _ free h.unreferenced (All-zip _ _ free h.pages out));
}
  where
    same :
        (q : ℕ)
        → (k.ref_counts (get_ref_index q) ≡ pos 0) × (IsPage end q × (q ≢ p))
        → update k.ref_counts (get_ref_index p) c (get_ref_index q) ≡ pos 0
    same q (zero_refs, (u, ne)) =
        update_ne k.ref_counts c (λ e. ne (get_ref_index_inj end q p u v (sym e))) ∙ zero_refs

-- A page with no references joins the list.
pub push_free-IsValid :
    (end p : ℕ) (k : Kmem) (free : List ℕ)
    → 0 < end
    → IsPage end p
    → All (λ q. q ≢ p) free
    → k.ref_counts (get_ref_index p) ≡ pos 0
    → IsValid end k free
    → IsValid end (push_free p k) (p ∷ free)
unfolding push_free ◌+ℤ◌
push_free-IsValid end p k free pe v out none_left h = record {
  chain = (
    refl,
    omega arith,
    rw (update_self (update k.next p (1 * 0x0101_0101_0101_0101)) p k.freelist)
        (Chain-update _ p _ _ free out (Chain-update _ p _ _ free out h.chain)),
  );
  pages = (v, h.pages);
  distinct = (out, h.distinct);
  counted = ground (arith, h.counted);
  unreferenced = (none_left, h.unreferenced);
}

-- Freeing a page that has `n + 1` references, and is not on the free list, leaves it `n`, and the
-- counts of the other pages alone; the page joins the free list exactly if `n` is 0.
pub kfree_lem :
    (end p n : ℕ) (k : Kmem) (free : List ℕ)
    → 0 < end
    → IsPage end p
    → All (λ q. q ≢ p) free
    → k.ref_counts (get_ref_index p) ≡ pos (suc n)
    → IsValid end k free
    → (j : Kmem) × (kfree end p k ≡ ok j)
      × (j.ref_counts (get_ref_index p) ≡ pos n)
      × ((q : ℕ)
          → IsPage end q
          → q ≢ p
          → j.ref_counts (get_ref_index q) ≡ k.ref_counts (get_ref_index q))
      × IsValid end j (elim n [ zero ↦ p ∷ free | suc _ ↦ free ])
unfolding push_free
kfree_lem end p zero k free pe v out one h = (
  push_free p (set_ref p (pos 0) k),
  kfree_last end p k v one,
  update_self k.ref_counts (get_ref_index p) (pos 0),
  λ q u ne. update_ne k.ref_counts (pos 0) (λ e. ne (get_ref_index_inj end q p u v (sym e))),
  push_free-IsValid end p (set_ref p (pos 0) k) free pe v out
      (update_self k.ref_counts (get_ref_index p) (pos 0))
      (set_ref-IsValid end p (pos 0) k free v out h),
)
kfree_lem end p (suc n) k free pe v out many h = (
  set_ref p (pos (suc n)) k,
  kfree_shared end p k n v many,
  update_self k.ref_counts (get_ref_index p) (pos (suc n)),
  λ q u ne. update_ne k.ref_counts (pos (suc n)) (λ e. ne (get_ref_index_inj end q p u v (sym e))),
  set_ref-IsValid end p (pos (suc n)) k free v out h,
)
