-- ===== src/Vm/Addresses.antt =====
-- What the calls of kernel/vm.c that only read a page table find there.
use so_final_proyect.Prelude.{
  ℕ, zero, suc, ◌+◌, ◌-◌, ◌*◌, ◌/◌, ◌%◌, ◌^◌, ◌≤◌, ◌<◌, ◌≡◌, inl, inr, refl, ap, ◌∙◌, subst, arith,
  Bool, Bool-cases, true, false, not, ◌&&◌, Option, none, some, ltb, leb, ◌==◌, if◌then◌else◌, List,
  [], Result, ok, panic,
}
use so_final_proyect.Prelude.Int.{ℤ, pos, negsuc}
use so_final_proyect.Kalloc.{pgsize}
use so_final_proyect.Vm.{px, is_v, is_u, pte2pa, leaf_pte, Vm, next_table, walk_from, walk, maxva}
use so_final_proyect.Vm.Bits.{leaf_pte_lem, leaf_pte_odd}
use so_final_proyect.Vm.Trees.{leaf_from, at_leaf}
use so_final_proyect.Vm.Walks.{IsMapped}
use so_final_proyect.Vm.Pages.{walkaddr, mappages}
use so_final_proyect.Vm.Entries.{entry}
use so_final_proyect.Vm.Mapping.{filled, Mapped, all, part}
use so_final_proyect.Vm.Ranges.{mappages_lem}

-- The index that goes with a table of level 0.
abbrev pub slot : ℕ → Option ℕ → Option (ℕ × ℕ)
slot va none = none
slot va (some leaf) = some (leaf, px 0 va)

next_table_look :
    (page i : ℕ) (s : Vm)
    → next_table page i false s
      ≡ ((if is_v (s.ptes page i) then some (pte2pa (s.ptes page i)) else none), s)
unfolding next_table
next_table_look page i s = elim (Bool-cases (is_v (s.ptes page i))) [
  | inr z ↦ rw z refl
  | inl z ↦ rw z refl
]

abbrev onward : ℕ → ℕ → Option ℕ × Vm → Option (ℕ × ℕ) × Vm
onward level va r = elim r.0 [
  | none ↦ (none, r.1)
  | some below ↦ walk_from level below va false r.1
]

-- A walk that may not allocate changes nothing.
pub walk_from_look :
    (level page va : ℕ) (s : Vm)
    → walk_from level page va false s ≡ (slot va (leaf_from level page va s.ptes), s)
unfolding walk_from leaf_from
walk_from_look zero page va s = refl
walk_from_look (suc level) page va s = elim (Bool-cases (is_v (s.ptes page (px (suc level) va)))) [
  | inr z ↦ ap (onward level va) (next_table_look page (px (suc level) va) s) ∙ rw z refl
  | inl z ↦
      ap (onward level va) (next_table_look page (px (suc level) va) s)
      ∙ rw z (walk_from_look level (pte2pa (s.ptes page (px (suc level) va))) va s)
]

pub walk_look :
    (root va : ℕ) (s : Vm)
    → va < maxva
    → walk root va false s ≡ ok (slot va (leaf_from 2 root va s.ptes), s)
unfolding walk
walk_look root va s lt = rw (below lt, walk_from_look 2 root va s) refl
  where
    below : va < maxva → leb maxva va ≡ false
    below h = ground arith

-- The page that a user address is mapped to, or 0.
abbrev pub user_page : ℕ → ℕ
user_page pte = if is_v pte && is_u pte then pte2pa pte else 0

pub walkaddr_lem :
    (root va : ℕ) (s : Vm)
    → walkaddr root va s ≡ ok ((if ltb va maxva then user_page (entry root va s) else 0), s)
unfolding walkaddr
walkaddr_lem root va s = elim (Bool-cases (leb maxva va)) [
  | inl z ↦ rw (z, above z) refl
  | inr z ↦ rw (z, below z, walk_look root va s (lt z)) (by_leaf (leaf_from 2 root va s.ptes))
]
  where
    above : leb maxva va ≡ true → ltb va maxva ≡ false
    above h = ground (arith, h)

    below : leb maxva va ≡ false → ltb va maxva ≡ true
    below h = ground (arith, h)

    lt : leb maxva va ≡ false → va < maxva
    lt h = ground (arith, h)

    found : Bool → Bool → ℕ → Result (ℕ × Vm)
    found valid user page =
        if not valid then ok (0, s) else if not user then ok (0, s) else ok (page, s)

    answer : ℕ → Result (ℕ × Vm)
    answer page = ok (page, s)

    found_lem : (x y : Bool) (p : ℕ) → found x y p ≡ answer (if x && y then p else 0)
    found_lem true true p = refl
    found_lem true false p = refl
    found_lem false y p = refl

    by_leaf :
        (o : Option ℕ)
        → (elim (slot va o) [
          | none ↦ ok (0, s)
          | some at ↦
              found (is_v (s.ptes at.0 at.1)) (is_u (s.ptes at.0 at.1)) (pte2pa (s.ptes at.0 at.1))
        ])
          ≡ answer (user_page (at_leaf va o s.ptes))
    by_leaf none = refl
    by_leaf (some leaf) =
        found_lem (is_v (s.ptes leaf (px 0 va))) (is_u (s.ptes leaf (px 0 va)))
          (pte2pa (s.ptes leaf (px 0 va)))

abbrev returned : ℤ → Vm → Result (ℤ × Vm)
returned x u = ok (x, u)

-- Once `mappages` has mapped `n` pages for the user, an address among them leads to the page that
-- lies as far from `pa` as its own page from `va`, for `pa` aligned and flags below 2 ^ 10.
pub mappages-walkaddr :
    (end : ℕ) (pe : 0 < end) (root perm n : ℕ) (s t : Vm) (va pa a : ℕ)
    (place : ℕ → Option (List ℕ)) (free : List ℕ)
    → 0 < n
    → IsMapped end s place free
    → place root ≡ some []
    → va % pgsize ≡ 0
    → va + n * pgsize ≤ maxva
    → ((b : ℕ) → va ≤ b → b < va + n * pgsize → is_v (entry root b s) ≡ false)
    → pa % pgsize ≡ 0
    → perm < 2 ^ 10
    → is_u perm ≡ true
    → mappages root va (n * pgsize) pa perm s ≡ ok (pos 0, t)
    → va ≤ a
    → a < va + n * pgsize
    → walkaddr root a t ≡ ok (pa + (a - va) / pgsize * pgsize, t)
mappages-walkaddr end pe root perm n s t va pa a place free some_left inv rooted al top vacant pal
      small user run lo hi =
    walkaddr_lem root a t
    ∙ ap (λ e. ok ((if ltb a maxva then user_page e else 0), t)) found
    ∙ rw (lt_of (below_top hi)) (ap (λ k. ok (k, t)) page)
  where
    lt_of : {i j : ℕ} → i < j → ltb i j ≡ true
    lt_of h = ground arith

    le_of : {i j : ℕ} → i ≤ j → leb i j ≡ true
    le_of h = ground arith

    below_top : a < va + n * pgsize → a < maxva
    below_top h = omega (arith, h, top)

    target : ℕ
    target = pa + (a - va) / pgsize * pgsize

    by_result :
        (r : Result (ℤ × Vm))
        → Mapped end pe root perm s place free n va pa r
        → r ≡ ok (pos 0, t)
        → entry root a t ≡ filled n va pa perm a (entry root a s)
    by_result (ok _) (all u place' free' f) e =
        subst (λ v. entry root a v ≡ filled n va pa perm a (entry root a s)) (state e)
          (f.entries a (omega (arith, hi, top)))
      where
        state : {u : Vm} → returned (pos 0) u ≡ returned (pos 0) t → u ≡ t
        state e = cc
    by_result (ok _) (part m u place' lt f) e = absurd (differ e)
      where
        differ : {u : Vm} → returned (negsuc 0) u ≡ returned (pos 0) t → ⊥
        differ e = cc
    by_result (panic _) m e = elim m [ ]

    found : entry root a t ≡ leaf_pte target perm
    found =
        by_result _
          (mappages_lem end pe root perm n s va pa place free some_left inv rooted al top vacant)
          run
        ∙ rw (le_of lo, lt_of hi) refl

    page : user_page (leaf_pte target perm) ≡ target
    page = rw (valid, flag) (ap pte2pa (leaf_pte_lem target perm small) ∙ omega (arith, pal, small))
      where
        valid : is_v (leaf_pte target perm) ≡ true
        valid = eq_of (leaf_pte_odd target perm)
          where
            eq_of : {i : ℕ} → i ≡ 1 → (i == 1) ≡ true
            eq_of h = ground arith

        flag : is_u (leaf_pte target perm) ≡ true
        flag =
            ap is_u (leaf_pte_lem target perm small)
            ∙ ap (λ k. k == 1) (omega (arith, small))
            ∙ user
