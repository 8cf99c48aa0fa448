-- ===== src/Vm/Entries.antt =====
-- The page table of kernel/vm.c as a map from the pages of the address space to entries.
use so_final_proyect.Prelude.{
  ℕ, zero, suc, ◌/◌, ◌≤◌, ◌<◌, ◌≡◌, ◌≢◌, refl, ap, sym, ◌∙◌, arith, Option, none, some, ◌==◌,
  if◌then◌else◌, ℕ_discrete, List, [], ◌∷◌,
}
use so_final_proyect.Kalloc.{pgsize}
use so_final_proyect.Vm.{px, Vm, set_pte, maxva}
use so_final_proyect.Vm.Trees.{
  leaf_from, leaf_from-indices, at_leaf, entry_from, entry_from-same, entry_from-other, path,
}
use so_final_proyect.Vm.Walks.{IsMapped}

-- The entry for an address in the table at `root`, or 0.
abbrev pub entry : ℕ → ℕ → Vm → ℕ
entry root va s = entry_from 2 root va s.ptes

two_pages :
    (va other : ℕ)
    → va < maxva
    → other < maxva
    → va / pgsize ≢ other / pgsize
    → path 2 va [] ≡ path 2 other []
    → px 0 va ≢ px 0 other
two_pages va other lt lo ne same low = ne (omega (arith, lt, lo, first same, second same, low))
  where
    first : {a b c d : ℕ} → a ∷ b ∷ [] ≡ c ∷ d ∷ [] → a ≡ c
    first e = cc

    second : {a b c d : ℕ} → a ∷ b ∷ [] ≡ c ∷ d ∷ [] → b ≡ d
    second e = cc

-- A write to the entry of an address changes it for the addresses of that page alone.
pub entry-set :
    (end root va v leaf : ℕ) (s : Vm) (place : ℕ → Option (List ℕ)) (free : List ℕ)
    → IsMapped end s place free
    → place root ≡ some []
    → leaf_from 2 root va s.ptes ≡ some leaf
    → va < maxva
    → (other : ℕ) → other < maxva
    → entry_from 2 root other (set_pte leaf (px 0 va) v s.ptes)
      ≡ (if va / pgsize == other / pgsize then v else entry root other s)
entry-set end root va v leaf s place free inv rooted way lt other lo =
    elim (ℕ_discrete (va / pgsize) (other / pgsize)) [
      | no ne ↦
          entry_from-other place s.ptes inv.tree 2 root va other leaf v [] rooted refl way
            (two_pages va other lt lo ne)
          ∙ sym (if-no ne)
      | yes e ↦ same_page e ∙ sym (if-yes _ _ (entry root other s) e)
    ]
  where
    if-no : {i j x : ℕ} → i ≢ j → (if i == j then v else x) ≡ x
    if-no ne = ground arith

    if-yes : (i j x : ℕ) → i ≡ j → (if i == j then v else x) ≡ v
    if-yes i j x e = ground arith

    at_top : ℕ → Option ℕ → (ℕ → ℕ → ℕ) → ℕ
    at_top i none t = 0
    at_top i (some leaf) t = t leaf i

    indices : va / pgsize ≡ other / pgsize → (k : ℕ) → k ≤ 2 → px k va ≡ px k other
    indices e zero le = omega (arith, e)
    indices e (suc zero) le = omega (arith, e)
    indices e (suc (suc zero)) le = omega (arith, e)
    indices e (suc (suc (suc k))) le = absurd (omega (arith, le))

    same_page :
        va / pgsize ≡ other / pgsize → entry_from 2 root other (set_pte leaf (px 0 va) v s.ptes) ≡ v
    same_page e =
        let w = set_pte leaf (px 0 va) v s.ptes in
        ap (λ o. at_leaf other o w) (sym (leaf_from-indices 2 root va other w (indices e)))
        ∙ ap (λ k. at_top k (leaf_from 2 root va w) w) (sym (indices e 0 (omega arith)))
        ∙ entry_from-same place s.ptes inv.tree 2 root va leaf v [] rooted refl way

-- The addresses of a page have one entry.
pub entry-page :
    (root va other : ℕ) (s : Vm)
    → va / pgsize ≡ other / pgsize
    → entry root va s ≡ entry root other s
entry-page root va other s e =
    ap (λ o. at_leaf va o s.ptes) (leaf_from-indices 2 root va other s.ptes indices)
    ∙ same_slot (leaf_from 2 root other s.ptes)
  where
    indices : (k : ℕ) → k ≤ 2 → px k va ≡ px k other
    indices zero le = omega (arith, e)
    indices (suc zero) le = omega (arith, e)
    indices (suc (suc zero)) le = omega (arith, e)
    indices (suc (suc (suc k))) le = absurd (omega (arith, le))

    same_slot : (o : Option ℕ) → at_leaf va o s.ptes ≡ at_leaf other o s.ptes
    same_slot none = refl
    same_slot (some leaf) = ap (λ k. s.ptes leaf k) (indices 0 (omega arith))
