-- ===== src/Vm/UnmapRange.antt =====
-- The loop of `uvmunmap` of kernel/vm.c, and `uvmdealloc`.
use so_final_proyect.Prelude.{
  ◌-◌, ◌/◌, ltb, refl, sym, subst, ap, Among, ℕ, zero, suc, ◌+◌, ◌*◌, ◌%◌, ◌≤◌, ◌<◌, ◌≡◌, inl, inr,
  ◌∙◌, arith, Bool-cases, true, false, Option, none, some, leb, List, Result, ok,
}
use so_final_proyect.Kalloc.{pgroundup, pgsize}
use so_final_proyect.Vm.{px, is_v, pte2pa, Vm, maxva}
use so_final_proyect.Vm.Trees.{leaf_from, at_leaf}
use so_final_proyect.Vm.Entries.{entry}
use so_final_proyect.Vm.Pages.{uvmdealloc, clear_pte, unmap_page, unmap_from, uvmunmap}
use so_final_proyect.Vm.Addresses.{slot, walk_look}
use so_final_proyect.Vm.Unmap.{IsUser, Unmapped, untouched, page_freed}

module _ (end : ℕ) (pe : 0 < end) (root top : ℕ) (in_space : top ≤ maxva)
    (place : ℕ → Option (List ℕ)) where
  abbrev Unmapping : Vm → List ℕ → ℕ → ℕ → Result Vm → Type 0
  Unmapping s free n a r =
      (t : Vm) × (free' : List ℕ) × (r ≡ ok t)
      × Unmapped end pe root top in_space place s free n a t free'

  unmap_page_lem :
      (s : Vm) (a : ℕ) (free : List ℕ)
      → IsUser end root top s place free
      → a % pgsize ≡ 0
      → a < top
      → Unmapping s free 1 a (unmap_page end root a true s)
  unfolding unmap_page
  unmap_page_lem s a free u al lt =
      rw (walk_look root a s (omega (arith, lt, in_space)))
        (by_leaf (leaf_from 2 root a s.ptes) refl)
    where
      by_leaf :
          (o : Option ℕ)
          → leaf_from 2 root a s.ptes ≡ o
          → Unmapping s free 1 a (clear_pte end true (slot a o, s))
      by_leaf none way = (
        s,
        free,
        refl,
        untouched end pe root top in_space place s a free u al
            (ap (λ o. is_v (at_leaf a o s.ptes)) way ∙ zero_v),
      )
        where
          zero_v : is_v 0 ≡ false
          zero_v = refl
      by_leaf (some leaf) way = elim (Bool-cases (is_v (s.ptes leaf (px 0 a)))) [
        | inr z ↦ (
          s,
          free,
          rw z refl,
          untouched end pe root top in_space place s a free u al
              (ap (λ o. is_v (at_leaf a o s.ptes)) way ∙ z),
        )
        | inl z ↦
            page_freed end pe root top in_space place s a leaf free u al lt way
              (ap (λ o. is_v (at_leaf a o s.ptes)) way ∙ z)
      ]

  Unmapped-next :
      (s t v : Vm) (n a : ℕ) (free free' free'' : List ℕ)
      → a + pgsize + n * pgsize ≤ maxva
      → Unmapped end pe root top in_space place s free 1 a t free'
      → Unmapped end pe root top in_space place t free' n (a + pgsize) v free''
      → Unmapped end pe root top in_space place s free (suc n) a v free''
  Unmapped-next s t v n a free free' free'' le f g = record {
    user = g.user;
    same_ram = g.same_ram ∙ f.same_ram;
    gone = λ va lo hi. elim (Bool-cases (leb (a + pgsize) va)) [
      | inl z ↦ g.gone va (le_of z) (omega (arith, hi))
      | inr z ↦
          let low : va < a + pgsize = lt_of z in
          ap is_v (g.others va (omega (arith, low, le)) (λ l h. omega (arith, low, l)))
          ∙ f.gone va lo (omega (arith, low))
    ];
    others = λ va lt h.
        g.others va lt (λ l k. h (omega (arith, l)) (omega (arith, k)))
        ∙ f.others va lt (λ l k. h l (omega (arith, k)));
    given_back = λ va lo hi ok_v. elim (Bool-cases (leb (a + pgsize) va)) [
      | inl z ↦
          let same = later va (le_of z) (omega (arith, hi)) in
          subst (λ e. Among (pte2pa e) free'') same
            (g.given_back va (le_of z) (omega (arith, hi)) (ap is_v same ∙ ok_v))
      | inr z ↦
          let low : va < a + pgsize = lt_of z in
          g.still_free _ (f.given_back va lo (omega (arith, low)) ok_v)
    ];
    still_free = λ p h. g.still_free p (f.still_free p h);
    no_other = λ p h. elim (g.no_other p h) [
      | inl h' ↦ elim (f.no_other p h') [
        | inl h'' ↦ inl h''
        | inr (va, lo, hi, ok_v, e) ↦ inr (va, lo, omega (arith, hi), ok_v, e)
      ]
      | inr (va, lo, hi, ok_v, e) ↦
          let same = later va lo (omega (arith, hi)) in
          inr (
            va,
            omega (arith, lo),
            omega (arith, hi),
            sym (ap is_v same) ∙ ok_v,
            sym (ap pte2pa same) ∙ e,
          )
    ];
  }
    where
      later :
          (va : ℕ) → a + pgsize ≤ va → va < a + suc n * pgsize → entry root va t ≡ entry root va s
      later va lo hi = f.others va (omega (arith, hi, le)) (λ l k. omega (arith, lo, k))

      le_of : {i j : ℕ} → leb i j ≡ true → i ≤ j
      le_of h = ground arith

      lt_of : {i j : ℕ} → leb i j ≡ false → j < i
      lt_of h = ground arith

  unmap_from_lem :
      (n : ℕ) (s : Vm) (a : ℕ) (free : List ℕ)
      → IsUser end root top s place free
      → a % pgsize ≡ 0
      → a + n * pgsize ≤ top
      → Unmapping s free n a (unmap_from end n root a true s)
  unfolding unmap_from
  unmap_from_lem zero s a free u al le = (
    s,
    free,
    refl,
    record {
      user = u;
      same_ram = refl;
      gone = λ va lo hi. absurd (omega (arith, lo, hi));
      others = λ va lt h. refl;
      given_back = λ va lo hi v. absurd (omega (arith, lo, hi));
      still_free = λ p h. h;
      no_other = λ p h. inl h;
    },
  )
  unmap_from_lem (suc n) s a free u al le =
      let (t, free', run, f) = unmap_page_lem s a free u al (omega (arith, le)) in
      let (v, free'', run', g) =
        unmap_from_lem n t (a + pgsize) free' f.user (omega (arith, al)) (omega (arith, le)) in
      (
        v,
        free'',
        rw (run, run') refl,
        Unmapped-next s t v n a free free' free'' (omega (arith, le, in_space)) f g,
      )

  -- `uvmunmap` with `do_free`, of `n` pages from an aligned address on, in the memory of a process
  -- that owns each of its pages alone: it does not panic, no address of the `n` pages is mapped any
  -- more, the process still owns the rest alone, and no byte of a page that stays and the entry of no
  -- other address changes. The free list of the allocator has the pages that were mapped
  -- there, those that were free before, and no others.
  pub uvmunmap_lem :
      (n : ℕ) (s : Vm) (va : ℕ) (free : List ℕ)
      → IsUser end root top s place free
      → va % pgsize ≡ 0
      → va + n * pgsize ≤ top
      → (t : Vm) × (free' : List ℕ) × (uvmunmap end root va n true s ≡ ok t)
        × Unmapped end pe root top in_space place s free n va t free'
  unfolding uvmunmap
  uvmunmap_lem n s va free u al le = rw al (unmap_from_lem n s va free u al le)

  -- `uvmdealloc` from `m` pages above an aligned size down to that size.
  pub uvmdealloc_lem :
      (m : ℕ) (s : Vm) (newsz : ℕ) (free : List ℕ)
      → IsUser end root top s place free
      → newsz % pgsize ≡ 0
      → newsz + m * pgsize ≤ top
      → (t : Vm) × (free' : List ℕ) × (uvmdealloc end root (newsz + m * pgsize) newsz s
          ≡ ok (newsz, t))
        × Unmapped end pe root top in_space place s free m newsz t free'
  unfolding uvmdealloc
  uvmdealloc_lem zero s newsz free u al le =
      let (t, free', run, f) = unmap_from_lem 0 s newsz free u al le in
      (
        s,
        free,
        rw nothing_left (ap returned (omega arith)),
        record {
          user = u;
          same_ram = refl;
          gone = λ va lo hi. absurd (omega (arith, lo, hi));
          others = λ va lt h. refl;
          given_back = λ va lo hi v. absurd (omega (arith, lo, hi));
          still_free = λ p h. h;
          no_other = λ p h. inl h;
        },
      )
    where
      returned : ℕ → Result (ℕ × Vm)
      returned size = ok (size, s)

      nothing_left : leb (newsz + 0 * pgsize) newsz ≡ true
      nothing_left = ground arith
  uvmdealloc_lem (suc m) s newsz free u al le =
      let (t, free', run, f) = uvmunmap_lem (suc m) s newsz free u al le in
      (
        t,
        free',
        rw
            (
              some_left,
              rounded newsz al (omega (arith, le, in_space)),
              rounded (newsz + suc m * pgsize) (omega (arith, al)) (omega (arith, le, in_space)),
              below,
              pages,
              run,
            )
            refl,
        f,
      )
    where
      some_left : leb (newsz + suc m * pgsize) newsz ≡ false
      some_left = ground arith

      below : ltb newsz (newsz + suc m * pgsize) ≡ true
      below = ground arith

      rounded : (sz : ℕ) → sz % pgsize ≡ 0 → sz ≤ maxva → pgroundup sz ≡ sz
      rounded sz h le = omega (arith, h, le)

      pages : (newsz + suc m * pgsize - newsz) / pgsize ≡ suc m
      pages = omega arith
