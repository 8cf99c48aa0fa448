-- ===== src/Kalloc/Owners.antt =====
-- The allocator of kernel/kalloc.c under its callers, who allocate, share and free pages: `held p`
-- is the number of references to page `p` that they hold.
use so_final_proyect.Prelude.{
  ℕ_discrete, ap, ok_inj, ℕ, zero, suc, ◌+◌, ◌-◌, ◌^◌, ◌<◌, ◌≡◌, ◌≢◌, inl, inr, List, [], ◌∷◌,
  arith, All, Among, All-imp, All-zip, update, ok, update_ne, update_self, sym, ◌∙◌,
}
use so_final_proyect.Prelude.Int.{pos}
use so_final_proyect.Kalloc.{
  Kmem, get_ref_index, inc_int, set_ref, push_free, kalloc, kfree, kref_inc,
}
use so_final_proyect.Kalloc.Inv.{IsPage, get_ref_index_inj, IsValid}
use so_final_proyect.Kalloc.Free.{set_ref-IsValid, push_free-IsValid, kfree_last, kfree_shared}
use so_final_proyect.Kalloc.Alloc.{kalloc_first, kalloc_empty, kalloc-refs}

pub record System : Type 0 where
  pub mem : Kmem
  pub held : ℕ → ℕ

module _ (end : ℕ) where
  -- The callers' steps: each frees only what it holds, and shares only what it holds, and no page
  -- with 2 ^ 31 - 1 references, the most that an int counts, is shared once more.
  pub data Step (s : System) : System → Type 0 where
    alloc :
        (kalloc s.mem).0 ≢ 0
        → Step s (record { mem = (kalloc s.mem).1; held = update s.held (kalloc s.mem).0 1 })
    alloc_fails : (kalloc s.mem).0 ≡ 0 → Step s (record { mem = (kalloc s.mem).1; held = s.held })
    share :
        (p : ℕ)
        → 0 < s.held p
        → s.held p < 2 ^ 31 - 1
        → Step s (record { mem = kref_inc p s.mem; held = update s.held p (s.held p + 1) })
    free :
        (p : ℕ) (k : Kmem)
        → 0 < s.held p
        → kfree end p s.mem ≡ ok k
        → Step s (record { mem = k; held = update s.held p (s.held p - 1) })

  pub data Reach (s : System) : System → Type 0 where
    here : Reach s s
    next : {t u : System} → Reach s t → Step t u → Reach s u

  -- Each page's reference count is the number of references held, only pages are held, and a page
  -- stands on the free list exactly when nobody holds it.
  pub record Accounted (s : System) (free_list : List ℕ) : Type 0 where
    pub valid : IsValid end s.mem free_list
    pub counts : (p : ℕ) → IsPage end p → s.mem.ref_counts (get_ref_index p) ≡ pos (s.held p)
    pub only_pages : (p : ℕ) → 0 < s.held p → IsPage end p
    pub all_free : (p : ℕ) → IsPage end p → s.held p ≡ 0 → Among p free_list

  off_list :
      (s : System) (p : ℕ) (free_list : List ℕ)
      → Accounted s free_list
      → 0 < s.held p
      → All (λ q. q ≢ p) free_list
  off_list s p free_list a g =
      All-imp _ _ apart free_list (All-zip _ _ free_list a.valid.unreferenced a.valid.pages)
    where
      apart : (q : ℕ) → (s.mem.ref_counts (get_ref_index q) ≡ pos 0) × IsPage end q → q ≢ p
      apart q h d = ground (arith, a.counts q h.1, h.0)

  -- A write to one page's count and the same write to what is held agree on every page.
  counts-update :
      (s : System) (p n q : ℕ)
      → IsPage end p
      → IsPage end q
      → s.mem.ref_counts (get_ref_index q) ≡ pos (s.held q)
      → update s.mem.ref_counts (get_ref_index p) (pos n) (get_ref_index q)
        ≡ pos (update s.held p n q)
  counts-update s p n q v u h = ground (arith, get_ref_index_inj end p q v u)

  pages-update :
      (s : System) (p n q : ℕ)
      → IsPage end p
      → ((r : ℕ) → 0 < s.held r → IsPage end r)
      → 0 < update s.held p n q
      → IsPage end q
  pages-update s p n q v only g = elim (ℕ_discrete p q) [
    | yes e ↦ rw (← e) v
    | no ne ↦ only q (rw (update_ne s.held n ne) at g)
  ]

  module _ (pe : 0 < end) where
    alloc-Accounted :
        (s : System) (free_list : List ℕ)
        → Accounted s free_list
        → (kalloc s.mem).0 ≢ 0
        → (rest : List ℕ) × Accounted
            (record { mem = (kalloc s.mem).1; held = update s.held (kalloc s.mem).0 1 })
            rest
    alloc-Accounted s [] a ne = absurd (ne (kalloc_empty end s.mem a.valid).0)
    alloc-Accounted s (p ∷ rest) a ne = (
      rest,
      record {
        valid = first.2;
        counts =
            λ q u. rw (kalloc-refs s.mem, first.0) (counts-update s p 1 q page u (a.counts q u));
        only_pages = λ q g. pages-update s p 1 q page a.only_pages (rw first.0 at g);
        all_free = λ q u z. ground (arith, a.all_free q u, first.0);
      },
    )
      where
        page : IsPage end p
        page = a.valid.pages.0

        first :
            ((kalloc s.mem).0 ≡ p)
            × ((kalloc s.mem).1.ref_counts (get_ref_index p) ≡ pos 1)
            × IsValid end (kalloc s.mem).1 rest
        first = kalloc_first end p s.mem rest a.valid

    alloc_fails-Accounted :
        (s : System) (free_list : List ℕ)
        → Accounted s free_list
        → (kalloc s.mem).0 ≡ 0
        → Accounted (record { mem = (kalloc s.mem).1; held = s.held }) free_list
    alloc_fails-Accounted s [] a z = record {
      valid = (kalloc_empty end s.mem a.valid).1;
      counts = λ q u. rw (kalloc-refs s.mem, z) (ground (arith, a.counts q u));
      only_pages = a.only_pages;
      all_free = a.all_free;
    }
    alloc_fails-Accounted s (p ∷ rest) a z =
        absurd (omega (arith, (kalloc_first end p s.mem rest a.valid).0, a.valid.chain.1))

    share-Accounted :
        (s : System) (p : ℕ) (free_list : List ℕ)
        → Accounted s free_list
        → 0 < s.held p
        → s.held p < 2 ^ 31 - 1
        → Accounted
            (record { mem = kref_inc p s.mem; held = update s.held p (s.held p + 1) })
            free_list
    unfolding kref_inc
    share-Accounted s p free_list a g few = record {
      valid = set_ref-IsValid end p _ s.mem free_list page (off_list s p free_list a g) a.valid;
      counts = λ q u.
          rw (a.counts p page, one_more) (counts-update s p (s.held p + 1) q page u (a.counts q u));
      only_pages = λ q h. pages-update s p (s.held p + 1) q page a.only_pages h;
      all_free = λ q u z. a.all_free q u (ground arith);
    }
      where
        page : IsPage end p
        page = a.only_pages p g

        one_more : inc_int (pos (s.held p)) ≡ pos (s.held p + 1)
        one_more = ground (arith, few)

    -- The last owner's page joins the list.
    free_last-Accounted :
        (s : System) (p : ℕ) (free_list : List ℕ)
        → Accounted s free_list
        → s.held p ≡ 1
        → Accounted
            (record { mem = push_free p (set_ref p (pos 0) s.mem); held = update s.held p 0 })
            (p ∷ free_list)
    unfolding push_free
    free_last-Accounted s p free_list a one = record {
      valid =
          push_free-IsValid end p (set_ref p (pos 0) s.mem) free_list pe page out
            (update_self s.mem.ref_counts (get_ref_index p) (pos 0)) dropped;
      counts = λ q u. counts-update s p 0 q page u (a.counts q u);
      only_pages = λ q h. pages-update s p 0 q page a.only_pages h;
      all_free = λ q u z. elim (ℕ_discrete p q) [
        | yes e ↦ inl (sym e)
        | no ne ↦ inr (a.all_free q u (sym (update_ne s.held 0 ne) ∙ z))
      ];
    }
      where
        page : IsPage end p
        page = a.only_pages p (omega arith)

        out : All (λ q. q ≢ p) free_list
        out = off_list s p free_list a (omega arith)

        dropped : IsValid end (set_ref p (pos 0) s.mem) free_list
        dropped = set_ref-IsValid end p (pos 0) s.mem free_list page out a.valid

    -- A shared page only loses an owner.
    free_shared-Accounted :
        (s : System) (p n : ℕ) (free_list : List ℕ)
        → Accounted s free_list
        → s.held p ≡ suc (suc n)
        → Accounted
            (record { mem = set_ref p (pos (suc n)) s.mem; held = update s.held p (suc n) })
            free_list
    free_shared-Accounted s p n free_list a many = record {
      valid =
          set_ref-IsValid end p _ s.mem free_list page (off_list s p free_list a (omega arith))
            a.valid;
      counts = λ q u. counts-update s p (suc n) q page u (a.counts q u);
      only_pages = λ q h. pages-update s p (suc n) q page a.only_pages h;
      all_free = λ q u z. a.all_free q u (ground arith);
    }
      where
        page : IsPage end p
        page = a.only_pages p (omega arith)

    free-Accounted :
        (s : System) (p n : ℕ) (free_list : List ℕ) (k : Kmem)
        → Accounted s free_list
        → s.held p ≡ suc n
        → kfree end p s.mem ≡ ok k
        → (rest : List ℕ) × Accounted (record { mem = k; held = update s.held p n }) rest
    free-Accounted s p zero free_list k a one e = (
      p ∷ free_list,
      rw (ok_inj (sym e ∙ kfree_last end p s.mem page (a.counts p page ∙ ap pos one)))
          (free_last-Accounted s p free_list a one),
    )
      where
        page : IsPage end p
        page = a.only_pages p (omega arith)
    free-Accounted s p (suc n) free_list k a many e = (
      free_list,
      rw (ok_inj (sym e ∙ kfree_shared end p s.mem n page (a.counts p page ∙ ap pos many)))
          (free_shared-Accounted s p n free_list a many),
    )
      where
        page : IsPage end p
        page = a.only_pages p (omega arith)

    -- Every step of the callers keeps the accounts.
    pub Step-Accounted :
        {s t : System} (free_list : List ℕ)
        → Accounted s free_list
        → Step s t
        → (rest : List ℕ) × Accounted t rest
    Step-Accounted {s} free_list a (alloc ne) = alloc-Accounted s free_list a ne
    Step-Accounted {s} free_list a (alloc_fails z) =
        (free_list, alloc_fails-Accounted s free_list a z)
    Step-Accounted {s} free_list a (share p g few) =
        (free_list, share-Accounted s p free_list a g few)
    Step-Accounted {s} free_list a (free p k g e) =
        free-Accounted s p (s.held p - 1) free_list k a (omega arith) e

    pub Reach-Accounted :
        {s t : System} (free_list : List ℕ)
        → Accounted s free_list
        → Reach s t
        → (rest : List ℕ) × Accounted t rest
    Reach-Accounted free_list a here = (free_list, a)
    Reach-Accounted free_list a (next r st) =
        let (rest, b) = Reach-Accounted free_list a r in Step-Accounted rest b st
