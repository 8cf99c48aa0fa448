-- ===== src/Vm/Trees.antt =====
-- The tree that the page tables make. `place` gives the path from the root to each page that is a
-- table: the last index first, and none for the root.
use so_final_proyect.Prelude.{
  ℕ, zero, suc, ◌+◌, ◌≤◌, ◌<◌, ◌≡◌, ◌≢◌, inl, inr, refl, ap, sym, ◌∙◌, subst, arith, Bool-cases,
  true, Option, none, some, if◌then◌else◌, update_self, update_ne, ℕ_discrete, List, ◌∷◌, length,
}
use so_final_proyect.Vm.{px, is_v, pte2pa, set_pte}

-- The table of level 0 for an address, on `level` levels of the tree.
unfoldable pub leaf_from : ℕ → ℕ → ℕ → (ℕ → ℕ → ℕ) → Option ℕ
leaf_from zero page va t = some page
leaf_from (suc level) page va t =
    let pte = t page (px (suc level) va) in
    let rest = leaf_from level (pte2pa pte) va t in if is_v pte then rest else none

abbrev pub at_leaf : ℕ → Option ℕ → (ℕ → ℕ → ℕ) → ℕ
at_leaf va none t = 0
at_leaf va (some leaf) t = t leaf (px 0 va)

-- The entry for an address, or 0.
abbrev pub entry_from : ℕ → ℕ → ℕ → (ℕ → ℕ → ℕ) → ℕ
entry_from level page va t = at_leaf va (leaf_from level page va t) t

-- The path that an address takes from a page on.
abbrev pub path : ℕ → ℕ → List ℕ → List ℕ
path zero va above = above
path (suc level) va above = path level va (px (suc level) va ∷ above)

-- Each entry of a table that is not of level 0 refers to the table at the place below it.
abbrev pub IsTree : (ℕ → Option (List ℕ)) → (ℕ → ℕ → ℕ) → Type 0
IsTree place t =
    (page i : ℕ) (above : List ℕ)
    → place page ≡ some above
    → length above < 2
    → is_v (t page i) ≡ true
    → place (pte2pa (t page i)) ≡ some (i ∷ above)

-- Two addresses with the same indices have one table of level 0.
pub leaf_from-indices :
    (level page va other : ℕ) (t : ℕ → ℕ → ℕ)
    → ((k : ℕ) → k ≤ level → px k va ≡ px k other)
    → leaf_from level page va t ≡ leaf_from level page other t
unfolding leaf_from
leaf_from-indices zero page va other t same = refl
leaf_from-indices (suc level) page va other t same =
    rw
      (
        same (suc level) (omega arith),
        leaf_from-indices level (pte2pa (t page (px (suc level) other))) va other t
            (λ k le. same k (omega (arith, le))),
      )
      refl

pub length-path :
    (level va : ℕ) (above : List ℕ) → length above + level ≡ 2 → length (path level va above) ≡ 2
length-path zero va above e = omega (arith, e)
length-path (suc level) va above e = length-path level va _ (omega (arith, e))

some_inj : {A : Type 0} {a b : A} → some a ≡ some b → a ≡ b
some_inj e = cc

module _ (place : ℕ → Option (List ℕ)) (t : ℕ → ℕ → ℕ) (tree : IsTree place t) where
  pub leaf_from-path :
      (level page va leaf : ℕ) (above : List ℕ)
      → place page ≡ some above
      → length above + level ≡ 2
      → leaf_from level page va t ≡ some leaf
      → place leaf ≡ some (path level va above)
  unfolding leaf_from
  leaf_from-path zero page va leaf above h e l = subst (λ k. place k ≡ some above) (cc) h
  leaf_from-path (suc level) page va leaf above h e l =
      elim (Bool-cases (is_v (t page (px (suc level) va)))) [
        | inr z ↦ absurd (none-some (rw z at l))
        | inl z ↦
            leaf_from-path level _ va leaf _
              (tree page (px (suc level) va) above h (omega (arith, e)) z) (omega (arith, e))
              (rw z at l)
      ]
    where
      none-some : {A : Type 0} {a : A} → none ≡ some a → ⊥
      none-some e = cc

  -- A write to a table of level 0 leaves the way to any such table.
  pub leaf_from-write :
      (level page va leaf k v : ℕ) (above there : List ℕ)
      → place page ≡ some above
      → length above + level ≡ 2
      → place leaf ≡ some there
      → length there ≡ 2
      → leaf_from level page va (set_pte leaf k v t) ≡ leaf_from level page va t
  unfolding leaf_from
  leaf_from-write zero page va leaf k v above there h e hl el = refl
  leaf_from-write (suc level) page va leaf k v above there h e hl el =
      rw untouched (elim (Bool-cases (is_v (t page (px (suc level) va)))) [
        | inr z ↦ rw z refl
        | inl z ↦ rw z (
            leaf_from-write level _ va leaf k v _ there
              (tree page (px (suc level) va) above h (omega (arith, e)) z) (omega (arith, e)) hl el)
      ])
    where
      apart : leaf ≢ page
      apart same =
          let eq : some there ≡ some above = sym hl ∙ ap place same ∙ h in
          let len : length there ≡ length above = ap length (some_inj eq) in
          omega (arith, len, el, e)

      untouched : set_pte leaf k v t page (px (suc level) va) ≡ t page (px (suc level) va)
      untouched = ap (λ f. f (px (suc level) va)) (update_ne t _ apart)

  -- A write to the table of level 0 for an address changes its entry, and no entry of an address on
  -- another way or with another last index.
  pub entry_from-same :
      (level page va leaf v : ℕ) (above : List ℕ)
      → place page ≡ some above
      → length above + level ≡ 2
      → leaf_from level page va t ≡ some leaf
      → entry_from level page va (set_pte leaf (px 0 va) v t) ≡ v
  entry_from-same level page va leaf v above h e l =
      rw
        (
          leaf_from-write level page va leaf (px 0 va) v above (path level va above) h e
              (leaf_from-path level page va leaf above h e l) (length-path level va above e),
          l,
        )
        (ap (λ f. f (px 0 va)) (update_self t leaf _) ∙ update_self (t leaf) (px 0 va) v)

  pub entry_from-other :
      (level page va other leaf v : ℕ) (above : List ℕ)
      → place page ≡ some above
      → length above + level ≡ 2
      → leaf_from level page va t ≡ some leaf
      → (path level va above ≡ path level other above → px 0 va ≢ px 0 other)
      → entry_from level page other (set_pte leaf (px 0 va) v t) ≡ entry_from level page other t
  entry_from-other level page va other leaf v above h e l apart =
      rw
        (leaf_from-write level page other leaf (px 0 va) v above (path level va above) h e
          (leaf_from-path level page va leaf above h e l) (length-path level va above e))
        (by_leaf (leaf_from level page other t) refl)
    where
      by_leaf :
          (o : Option ℕ)
          → leaf_from level page other t ≡ o
          → at_leaf other o (set_pte leaf (px 0 va) v t) ≡ at_leaf other o t
      by_leaf none eq = refl
      by_leaf (some there) eq = elim (ℕ_discrete leaf there) [
        | no ne ↦ ap (λ f. f (px 0 other)) (update_ne t _ ne)
        | yes same ↦
            subst (λ k. set_pte leaf (px 0 va) v t k (px 0 other) ≡ t k (px 0 other)) same
              (ap (λ f. f (px 0 other)) (update_self t leaf _)
                ∙ update_ne (t leaf) v (
                    apart (
                      some_inj (
                        sym (leaf_from-path level page va leaf above h e l)
                        ∙ ap place same
                        ∙ leaf_from-path level page other there above h e eq))))
      ]

  pub set_pte-IsTree :
      (leaf k v : ℕ) (there : List ℕ)
      → place leaf ≡ some there
      → length there ≡ 2
      → IsTree place (set_pte leaf k v t)
  set_pte-IsTree leaf k v there hl el page i above h inner valid =
      ap (λ f. place (pte2pa (f i))) same
      ∙ tree page i above h inner (sym (ap (λ f. is_v (f i)) same) ∙ valid)
    where
      same : set_pte leaf k v t page ≡ t page
      same = update_ne t _ (λ e.
          let len = ap length (some_inj (sym hl ∙ ap place e ∙ h)) in omega (arith, len, el, inner))
