-- ===== src/Kalloc/Safety.antt =====
-- What the callers of kernel/kalloc.c may rely on, from `kinit` on.
use so_final_proyect.Prelude.{
  ℕ, ◌/◌, ◌≤◌, ◌<◌, ◌≡◌, List, [], ◌∷◌, arith, Among, All-Among, Distinct, ◌⊎◌, ◌↔◌, inl, inr, some,
  ok, ok_inj, sym, ◌∙◌, length,
}
use so_final_proyect.Prelude.Int.{pos}
use so_final_proyect.Kalloc.{Kmem, pgsize, phystop, get_ref_index, kalloc, kinit}
use so_final_proyect.Kalloc.Inv.{IsPage}
use so_final_proyect.Kalloc.Alloc.{kalloc_first, kalloc_empty}
use so_final_proyect.Kalloc.Init.{kinit_frees_all}
use so_final_proyect.Kalloc.Owners.{System, Reach, Accounted, Reach-Accounted}

some_inj : {A : Type 0} {a b : A} → some a ≡ some b → a ≡ b
some_inj e = cc

module _ (end fuel : ℕ) (boot j : Kmem) (pe : 0 < end) (le : end ≤ phystop)
    (enough : phystop / pgsize < fuel) (nil : boot.freelist ≡ 0)
    (booted : kinit end fuel boot ≡ some (ok j)) where
  -- After `kinit` nobody holds a page.
  abbrev start : System
  start = record { mem = j; held = λ _. 0 }

  start-Accounted : (free : List ℕ) × Accounted end start free
  start-Accounted =
      let (i, free, runs, v, all) = kinit_frees_all end fuel boot pe le enough nil in
      let same : i ≡ j = ok_inj (some_inj (sym runs ∙ booted)) in
      (
        free,
        record {
          valid = rw same at v;
          counts = λ p u. rw same at (all p u).0;
          only_pages = λ p g. absurd (omega arith);
          all_free = λ p u z. (all p u).1;
        },
      )

  module _ (s : System) (r : Reach end start s) where
    accounts : (free : List ℕ) × Accounted end s free
    accounts = let (free, a) = start-Accounted in Reach-Accounted end pe free a r

    -- Started from a successful `kinit` and after any steps of callers who free and share only what they
    -- hold, and share no page that has 2 ^ 31 - 1 references already, `kalloc` returns either 0, and
    -- then every page is held by somebody, or a page that nobody holds.
    pub kalloc_safe :
        (((kalloc s.mem).0 ≡ 0) × ((p : ℕ) → IsPage end p → 0 < s.held p))
        ⊎ (IsPage end (kalloc s.mem).0 × (s.held (kalloc s.mem).0 ≡ 0))
    kalloc_safe = let (free, a) = accounts in go free a
      where
        go :
            (free : List ℕ)
            → Accounted end s free
            → (((kalloc s.mem).0 ≡ 0) × ((p : ℕ) → IsPage end p → 0 < s.held p))
              ⊎ (IsPage end (kalloc s.mem).0 × (s.held (kalloc s.mem).0 ≡ 0))
        go [] a = inl ((kalloc_empty end s.mem a.valid).0, λ p u. ground (arith, a.all_free p u))
        go (q ∷ rest) a =
            let (first, _, _) = kalloc_first end q s.mem rest a.valid in
            let page = a.valid.pages.0 in
            inr (rw first (page, ground (arith, a.counts q page, a.valid.unreferenced.0)))

    -- Started from a successful `kinit` and after any steps of callers who free and share only what they
    -- hold, and share no page that has 2 ^ 31 - 1 references already, `free_pages_count` is the
    -- length of a list that names each page once and names exactly the pages that nobody holds, and
    -- the reference count of each page is the number of references to it that are held.
    pub free_pages_count_exact :
        (free : List ℕ) × (s.mem.free_pages_count ≡ pos (length free))
        × Distinct free
        × ((p : ℕ) → Among p free ↔ (IsPage end p × (s.held p ≡ 0)))
        × ((p : ℕ) → IsPage end p → s.mem.ref_counts (get_ref_index p) ≡ pos (s.held p))
    free_pages_count_exact =
        let (free, a) = accounts in
        (
          free,
          a.valid.counted,
          a.valid.distinct,
          λ p. (listed p free a, λ u. a.all_free p u.0 u.1),
          a.counts,
        )
      where
        listed :
            (p : ℕ) (free : List ℕ)
            → Accounted end s free
            → Among p free
            → IsPage end p × (s.held p ≡ 0)
        listed p free a m = (page, ground (arith, a.counts p page, none_left))
          where
            page : IsPage end p
            page = All-Among (IsPage end) p free (λ x e h. rw e h) a.valid.pages m

            none_left : s.mem.ref_counts (get_ref_index p) ≡ pos 0
            none_left = All-Among _ p free (λ x e h. rw e h) a.valid.unreferenced m
