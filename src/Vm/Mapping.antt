-- ===== src/Vm/Mapping.antt =====
-- One page that `mappages` of kernel/vm.c maps.
use so_final_proyect.Prelude.{
  ℕ, ◌+◌, ◌-◌, ◌*◌, ◌/◌, ◌%◌, ◌≤◌, ◌<◌, ◌≡◌, ◌≢◌, inl, inr, refl, ap, sym, ◌∙◌, arith, Bool,
  Bool-cases, true, false, ◌&&◌, Option, none, some, ltb, leb, ◌==◌, if◌then◌else◌, ℕ_discrete,
  List, [], Result, ok,
}
use so_final_proyect.Prelude.Int.{ℤ, pos, negsuc}
use so_final_proyect.Kalloc.{pgsize}
use so_final_proyect.Vm.{px, is_v, leaf_pte, Vm, walk, maxva}
use so_final_proyect.Vm.Trees.{leaf_from-path, at_leaf, set_pte-IsTree}
use so_final_proyect.Vm.Walks.{Spared, IsMapped, Walked, out_of_pages, arrived, walk_from-Walked}
use so_final_proyect.Vm.Pages.{put_pte, map_page}
use so_final_proyect.Vm.Entries.{entry, entry-set}

-- The entries after `n` pages from `a` on are mapped to those from `pa` on.
abbrev pub filled : ℕ → ℕ → ℕ → ℕ → ℕ → ℕ → ℕ
filled n a pa perm va old =
    if leb a va && ltb va (a + n * pgsize)
    then leaf_pte (pa + (va - a) / pgsize * pgsize) perm
    else old

module _ (end : ℕ) (pe : 0 < end) (root perm : ℕ) where
  -- What a state has in common with one in which `n` more pages are mapped.
  pub record Filled (s : Vm) (place : ℕ → Option (List ℕ)) (free : List ℕ) (n a pa : ℕ) (t : Vm)
      (place' : ℕ → Option (List ℕ)) (free' : List ℕ) : Type 0 where
    pub mapped : IsMapped end t place' free'
    pub rooted : place' root ≡ some []
    pub spared : Spared end s place free t place' free'
    pub same_ram : t.ram ≡ s.ram
    pub entries : (va : ℕ) → va < maxva → entry root va t ≡ filled n a pa perm va (entry root va s)

  -- All pages are mapped, or as many as there were tables for, with no page free.
  pub data Mapped (s : Vm) (place : ℕ → Option (List ℕ)) (free : List ℕ) (n a pa : ℕ)
      : Result (ℤ × Vm) → Type 0 where
    all :
        (t : Vm) (place' : ℕ → Option (List ℕ)) (free' : List ℕ)
        → Filled s place free n a pa t place' free'
        → Mapped s place free n a pa (ok (pos 0, t))
    part :
        (m : ℕ) (t : Vm) (place' : ℕ → Option (List ℕ))
        → m < n
        → Filled s place free m a pa t place' []
        → Mapped s place free n a pa (ok (negsuc 0, t))

  pub data PageMapped (s : Vm) (place : ℕ → Option (List ℕ)) (free : List ℕ) (a pa : ℕ)
      : Result (Bool × Vm) → Type 0 where
    done :
        (t : Vm) (place' : ℕ → Option (List ℕ)) (free' : List ℕ)
        → Filled s place free 1 a pa t place' free'
        → PageMapped s place free a pa (ok (true, t))
    no_page :
        (t : Vm) (place' : ℕ → Option (List ℕ))
        → Filled s place free 0 a pa t place' []
        → PageMapped s place free a pa (ok (false, t))

  pub filled_none : (a pa va old : ℕ) → filled 0 a pa perm va old ≡ old
  filled_none a pa va old = ground arith

  pub filled_one :
      (a pa va old : ℕ)
      → a % pgsize ≡ 0
      → filled 1 a pa perm va old ≡ (if a / pgsize == va / pgsize then leaf_pte pa perm else old)
  filled_one a pa va old al = elim (ℕ_discrete (a / pgsize) (va / pgsize)) [
    | yes e ↦
        let low : leb a va ≡ true = le (omega (arith, e, al)) in
        let high : ltb va (a + 1 * pgsize) ≡ true = lt (omega (arith, e, al)) in
        let off : (va - a) / pgsize ≡ 0 = omega (arith, e, al) in
        rw (low, high, off, eq e) (ap (λ k. leaf_pte k perm) (omega arith))
    | no ne ↦ rw (neq ne) (outside (λ l h. ne (omega (arith, l, h, al))))
  ]
    where
      le : {i j : ℕ} → i ≤ j → leb i j ≡ true
      le h = ground arith

      lt : {i j : ℕ} → i < j → ltb i j ≡ true
      lt h = ground arith

      eq : {i j : ℕ} → i ≡ j → (i == j) ≡ true
      eq h = ground arith

      neq : {i j : ℕ} → i ≢ j → (i == j) ≡ false
      neq h = ground arith

      le_of : {i j : ℕ} → leb i j ≡ true → i ≤ j
      le_of h = ground arith

      lt_of : {i j : ℕ} → ltb i j ≡ true → i < j
      lt_of h = ground arith

      outside : (a ≤ va → va < a + 1 * pgsize → ⊥) → filled 1 a pa perm va old ≡ old
      outside h = elim (Bool-cases (leb a va)) [
        | inr z ↦ rw z refl
        | inl z ↦ elim (Bool-cases (ltb va (a + 1 * pgsize))) [
          | inr w ↦ rw (z, w) refl
          | inl w ↦ absurd (h (le_of z) (lt_of w))
        ]
      ]

  pub map_page_lem :
      (s : Vm) (a pa : ℕ) (place : ℕ → Option (List ℕ)) (free : List ℕ)
      → IsMapped end s place free
      → place root ≡ some []
      → a < maxva
      → a % pgsize ≡ 0
      → is_v (entry root a s) ≡ false
      → PageMapped s place free a pa (map_page root a pa perm s)
  unfolding map_page walk
  map_page_lem s a pa place free inv rooted lt al vacant =
      rw (below lt) (by_walk _ (walk_from-Walked end pe 2 s place free root a [] inv rooted refl))
    where
      below : a < maxva → leb maxva a ≡ false
      below h = ground arith

      by_walk :
          (r : Option (ℕ × ℕ) × Vm)
          → Walked end pe s place free 2 root a r
          → PageMapped s place free a pa (put_pte pa perm r)
      by_walk (none, _) (out_of_pages t place' inv' g rt sp) = no_page t place' (record {
        mapped = inv';
        rooted = g.extends root [] rooted;
        spared = sp;
        same_ram = rt;
        entries = λ va l. g.entries 2 root va [] rooted refl ∙ sym (filled_none a pa va _);
      })
      by_walk (some _, _) (arrived leaf t place' free' inv' g rt way sp) =
          let root' = g.extends root [] rooted in
          let still : is_v (t.ptes leaf (px 0 a)) ≡ false =
            ap is_v (sym (ap (λ o. at_leaf a o t.ptes) way) ∙ g.entries 2 root a [] rooted refl)
            ∙ vacant in
          let there = leaf_from-path place' t.ptes inv'.tree 2 root a leaf [] root' refl way in
          rw still (
            done _ place' free' (record {
              mapped = record {
                valid = inv'.valid;
                unplaced = inv'.unplaced;
                tree =
                    set_pte-IsTree place' t.ptes inv'.tree leaf (px 0 a) (leaf_pte pa perm) _ there
                      refl;
              };
              rooted = root';
              spared = sp;
              same_ram = rt;
              entries = λ va l.
                  entry-set end root a (leaf_pte pa perm) leaf t place' free' inv' root' way lt va l
                  ∙ ap (λ old. if a / pgsize == va / pgsize then leaf_pte pa perm else old)
                      (g.entries 2 root va [] rooted refl)
                  ∙ sym (filled_one a pa va _ al);
            }))
