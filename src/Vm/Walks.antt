-- ===== src/Vm/Walks.antt =====
-- `walk` of kernel/vm.c over the tree of tables and the free list of kernel/kalloc.c.
use so_final_proyect.Prelude.{
  ℕ, zero, suc, ◌+◌, ◌<◌, ◌≡◌, ◌≢◌, inl, inr, refl, ap, sym, ◌∙◌, subst, arith, Bool-cases, true,
  false, Option, none, some, ◌==◌, if◌then◌else◌, update, update_self, update_ne, List, [], ◌∷◌,
  All, All-zip, All-imp, length,
}
use so_final_proyect.Prelude.Int.{pos}
use so_final_proyect.Kalloc.{get_ref_index, kalloc}
use so_final_proyect.Kalloc.Inv.{IsPage, get_ref_index_inj, IsValid}
use so_final_proyect.Kalloc.Alloc.{kalloc_first, kalloc_empty, kalloc-refs}
use so_final_proyect.Vm.{px, is_v, pte2pa, Vm, add_table, next_table, walk_from}
use so_final_proyect.Vm.Trees.{leaf_from, IsTree}
use so_final_proyect.Vm.Grow.{Grown, Grown-refl, Grown-trans, add_table_lem}

-- The free pages are no tables, and the tables are a tree.
pub record IsMapped (end : ℕ) (s : Vm) (place : ℕ → Option (List ℕ)) (free : List ℕ) : Type 0 where
  pub valid : IsValid end s.kmem free
  pub unplaced : All (λ p. place p ≡ none) free
  pub tree : IsTree place s.ptes

-- A page that is no table and not free is none then, and its count is as it was.
abbrev pub Spared :
    ℕ → Vm → (ℕ → Option (List ℕ)) → List ℕ → Vm → (ℕ → Option (List ℕ)) → List ℕ → Type 0
Spared end s place free t place' free' =
    (p : ℕ)
    → IsPage end p
    → place p ≡ none
    → All (λ q. q ≢ p) free
    → (place' p ≡ none)
      × All (λ q. q ≢ p) free'
      × (t.kmem.ref_counts (get_ref_index p) ≡ s.kmem.ref_counts (get_ref_index p))

pub Spared-trans :
    (end : ℕ) (s t u : Vm) (place place' place'' : ℕ → Option (List ℕ)) (free free' free'' : List ℕ)
    → Spared end s place free t place' free'
    → Spared end t place' free' u place'' free''
    → Spared end s place free u place'' free''
Spared-trans end s t u place place' place'' free free' free'' g h p is_page no_table off_list =
    let (a, b, c) = g p is_page no_table off_list in
    let (d, e, f) = h p is_page a b in (d, e, f ∙ c)

module _ (end : ℕ) (pe : 0 < end) where
  -- What a round of `walk` that may allocate comes back with, at entry `i` of the page at `above`.
  data Stepped (s : Vm) (place : ℕ → Option (List ℕ)) (free : List ℕ) (page i : ℕ) (above : List ℕ)
      : Option ℕ × Vm → Type 0 where
    stuck :
        (t : Vm)
        → free ≡ []
        → IsMapped end t place free
        → t.ptes ≡ s.ptes
        → t.ram ≡ s.ram
        → Spared end s place free t place free
        → Stepped s place free page i above (none, t)
    to :
        (below : ℕ) (t : Vm) (place' : ℕ → Option (List ℕ)) (free' : List ℕ)
        → IsMapped end t place' free'
        → Grown place s.ptes place' t.ptes
        → t.ram ≡ s.ram
        → is_v (t.ptes page i) ≡ true
        → pte2pa (t.ptes page i) ≡ below
        → place' below ≡ some (i ∷ above)
        → Spared end s place free t place' free'
        → Stepped s place free page i above (some below, t)

  next_table-Stepped :
      (s : Vm) (place : ℕ → Option (List ℕ)) (free : List ℕ) (page i : ℕ) (above : List ℕ)
      → IsMapped end s place free
      → place page ≡ some above
      → length above < 2
      → Stepped s place free page i above (next_table page i true s)
  unfolding next_table
  next_table-Stepped s place free page i above inv at_page inner =
      elim (Bool-cases (is_v (s.ptes page i))) [
        | inl z ↦ rw z (
            to (pte2pa (s.ptes page i)) s place free inv (Grown-refl place s.ptes) refl z refl
              (inv.tree page i above at_page inner z) (λ q is_page a b. (a, b, refl)))
        | inr z ↦ rw z (by_free z free inv)
      ]
    where
      positive : {n : ℕ} → 0 < n → (n == 0) ≡ false
      positive h = ground arith

      still :
          (p : ℕ) (xs : List ℕ)
          → All (λ q. (place q ≡ none) × (q ≢ p)) xs
          → All (λ q. update place p (some (i ∷ above)) q ≡ none) xs
      still p xs h = All-imp _ _ (λ q c. update_ne place _ (λ e. c.1 (sym e)) ∙ c.0) xs h

      same_refs :
          (q : ℕ)
          → get_ref_index (kalloc s.kmem).0 ≢ get_ref_index q
          → (kalloc s.kmem).1.ref_counts (get_ref_index q) ≡ s.kmem.ref_counts (get_ref_index q)
      same_refs q ne =
          ap (λ f. f (get_ref_index q)) (kalloc-refs s.kmem)
          ∙ update_ne s.kmem.ref_counts (pos 1) ne

      by_free :
          is_v (s.ptes page i) ≡ false
          → (free : List ℕ) → IsMapped end s place free
          → Stepped s place free page i above (
              if (kalloc s.kmem).0 == 0 then (none, record s { kmem = (kalloc s.kmem).1 }) else (
                some (kalloc s.kmem).0,
                record s {
                  kmem = (kalloc s.kmem).1;
                  ptes = add_table page i (kalloc s.kmem).0 s.ptes;
                },
              ))
      by_free z [] inv =
          let (e, v) = kalloc_empty end s.kmem inv.valid in
          rw e (
            stuck _ refl (record { valid = v; unplaced = tt; tree = inv.tree }) refl refl
              (λ q is_page no_table off_list. (
                no_table,
                off_list,
                same_refs q (λ f. omega (
                  arith,
                  f,
                  ap get_ref_index e,
                  is_page.aligned,
                  is_page.above,
                  is_page.below,
                  pe,
                )),
              )))
      by_free z (p ∷ rest) inv =
          let (e, one, v) = kalloc_first end p s.kmem rest inv.valid in
          let (tree, grown, valid, refers) =
            add_table_lem place s.ptes inv.tree page i p above at_page inner inv.unplaced.0
              inv.valid.pages.0.aligned z in
          rw (e, positive inv.valid.chain.1)
            (to p _ (update place p (some (i ∷ above))) rest
              (record {
                valid = v;
                unplaced = still p rest (All-zip _ _ rest inv.unplaced.1 inv.valid.distinct.0);
                tree = tree;
              })
              grown refl valid refers (update_self place p _)
              (λ q is_page no_table off_list. (
                update_ne place _ off_list.0 ∙ no_table,
                off_list.1,
                same_refs q (λ f. off_list.0 (
                    get_ref_index_inj end p q inv.valid.pages.0 is_page
                      (sym (ap get_ref_index e) ∙ f))),
              )))

  -- What `walk` that may allocate comes back with: with no page free, no entry; or else the table of
  -- level 0 for the address, and its index there. The entry of each address is as it was.
  pub data Walked (s : Vm) (place : ℕ → Option (List ℕ)) (free : List ℕ) (level page va : ℕ)
      : Option (ℕ × ℕ) × Vm → Type 0 where
    out_of_pages :
        (t : Vm) (place' : ℕ → Option (List ℕ))
        → IsMapped end t place' []
        → Grown place s.ptes place' t.ptes
        → t.ram ≡ s.ram
        → Spared end s place free t place' []
        → Walked s place free level page va (none, t)
    arrived :
        (leaf : ℕ) (t : Vm) (place' : ℕ → Option (List ℕ)) (free' : List ℕ)
        → IsMapped end t place' free'
        → Grown place s.ptes place' t.ptes
        → t.ram ≡ s.ram
        → leaf_from level page va t.ptes ≡ some leaf
        → Spared end s place free t place' free'
        → Walked s place free level page va (some (leaf, px 0 va), t)

  pub walk_from-Walked :
      (level : ℕ) (s : Vm) (place : ℕ → Option (List ℕ)) (free : List ℕ) (page va : ℕ)
      (above : List ℕ)
      → IsMapped end s place free
      → place page ≡ some above
      → length above + level ≡ 2
      → Walked s place free level page va (walk_from level page va true s)
  unfolding walk_from leaf_from
  walk_from-Walked zero s place free page va above inv at_page e =
      arrived page s place free inv (Grown-refl place s.ptes) refl refl
        (λ q is_page a b. (a, b, refl))
  walk_from-Walked (suc level) s place free page va above inv at_page e =
      by_round (next_table page (px (suc level) va) true s)
        (next_table-Stepped s place free page (px (suc level) va) above inv at_page
          (omega (arith, e)))
        (λ below t place' free' inv' at_below.
          walk_from-Walked level t place' free' below va (px (suc level) va ∷ above) inv' at_below
            (omega (arith, e)))
    where
      onward :
          (below : ℕ) (t : Vm) (place' : ℕ → Option (List ℕ)) (free' : List ℕ)
          → Grown place s.ptes place' t.ptes
          → t.ram ≡ s.ram
          → is_v (t.ptes page (px (suc level) va)) ≡ true
          → pte2pa (t.ptes page (px (suc level) va)) ≡ below
          → place' below ≡ some (px (suc level) va ∷ above)
          → Spared end s place free t place' free'
          → (r : Option (ℕ × ℕ) × Vm) → Walked t place' free' level below va r
          → Walked s place free (suc level) page va r
      onward below t place' free' g rt v ref at_below sp (none, _)
            (out_of_pages u place'' inv h ru spared) =
          out_of_pages u place'' inv (Grown-trans g h) (ru ∙ rt)
            (Spared-trans end s t u place place' place'' free free' [] sp spared)
      onward below t place' free' g rt v ref at_below sp (some _, _)
            (arrived leaf u place'' free'' inv h ru way spared) =
          let same =
            h.kept page (px (suc level) va) above (g.extends page above at_page) (omega (arith, e))
              v in
          arrived leaf u place'' free'' inv (Grown-trans g h) (ru ∙ rt) (rw (same, v, ref) way)
            (Spared-trans end s t u place place' place'' free free' free'' sp spared)

      by_round :
          (r : Option ℕ × Vm)
          → Stepped s place free page (px (suc level) va) above r
          → ((below : ℕ) (t : Vm) (place' : ℕ → Option (List ℕ)) (free' : List ℕ)
              → IsMapped end t place' free'
              → place' below ≡ some (px (suc level) va ∷ above)
              → Walked t place' free' level below va (walk_from level below va true t))
          → Walked s place free
              (suc level)
              page
              va
              (elim r.0 [ none ↦ (none, r.1) | some below ↦ walk_from level below va true r.1 ])
      by_round (none, _) (stuck t no_page inv' pt rt sp) rest =
          out_of_pages t place (subst (λ f. IsMapped end t place f) no_page inv')
            (subst (λ p. Grown place s.ptes place p) (sym pt) (Grown-refl place s.ptes)) rt
            (subst (λ f. Spared end s place free t place f) no_page sp)
      by_round (some _, _) (to below t place' free' inv' g rt v ref at_below sp) rest =
          onward below t place' free' g rt v ref at_below sp _
            (rest below t place' free' inv' at_below)
