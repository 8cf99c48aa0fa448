-- ===== src/Vm/Grow.antt =====
-- A table that `walk` of kernel/vm.c adds to the tree.
use so_final_proyect.Prelude.{
  ℕ, zero, suc, ◌+◌, ◌%◌, ◌<◌, ◌≡◌, ◌≢◌, inl, inr, refl, ap, sym, ◌∙◌, subst, arith, Bool-cases,
  true, false, Option, none, some, update, update_self, update_ne, ℕ_discrete, List, ◌∷◌, length,
}
use so_final_proyect.Vm.{px, is_v, pa2pte, pte2pa, add_table}
use so_final_proyect.Vm.Trees.{leaf_from, entry_from, IsTree}

-- Two places of tables, and the entries then and now: what was a table still is, valid entries that
-- refer to tables are as they were, and so is the entry of each address.
pub record Grown (place : ℕ → Option (List ℕ)) (t : ℕ → ℕ → ℕ) (place' : ℕ → Option (List ℕ))
    (t' : ℕ → ℕ → ℕ) : Type 0 where
  pub extends : (page : ℕ) (above : List ℕ) → place page ≡ some above → place' page ≡ some above
  pub kept :
      (page i : ℕ) (above : List ℕ)
      → place page ≡ some above
      → length above < 2
      → is_v (t page i) ≡ true
      → t' page i ≡ t page i
  pub entries :
      (level page va : ℕ) (above : List ℕ)
      → place page ≡ some above
      → length above + level ≡ 2
      → entry_from level page va t' ≡ entry_from level page va t

pub Grown-refl : (place : ℕ → Option (List ℕ)) (t : ℕ → ℕ → ℕ) → Grown place t place t
Grown-refl place t = record {
  extends = λ page above h. h;
  kept = λ page i above h l v. refl;
  entries = λ level page va above h e. refl;
}

pub Grown-trans :
    {place place' place'' : ℕ → Option (List ℕ)} {t t' t'' : ℕ → ℕ → ℕ}
    → Grown place t place' t'
    → Grown place' t' place'' t''
    → Grown place t place'' t''
Grown-trans g h = record {
  extends = λ page above p. h.extends page above (g.extends page above p);
  kept = λ page i above p l v.
      let same = g.kept page i above p l v in
      h.kept page i above (g.extends page above p) l (ap is_v same ∙ v) ∙ same;
  entries = λ level page va above p e.
      h.entries level page va above (g.extends page above p) e ∙ g.entries level page va above p e;
}

none-some : {A : Type 0} {a : A} → none ≡ some a → ⊥
none-some e = cc

some_inj : {A : Type 0} {a b : A} → some a ≡ some b → a ≡ b
some_inj e = cc

-- The entries below a table that is all zero are 0.
entry_from-zero :
    (level page va : ℕ) (t : ℕ → ℕ → ℕ) → ((j : ℕ) → t page j ≡ 0) → entry_from level page va t ≡ 0
unfolding leaf_from
entry_from-zero zero page va t z = z (px 0 va)
entry_from-zero (suc level) page va t z = rw (z (px (suc level) va)) refl

module _ (place : ℕ → Option (List ℕ)) (t : ℕ → ℕ → ℕ) (tree : IsTree place t) (page i new : ℕ)
    (above : List ℕ) (at_page : place page ≡ some above) (inner : length above < 2)
    (fresh : place new ≡ none) (aligned : new % 4096 ≡ 0) (vacant : is_v (t page i) ≡ false) where
  abbrev pub grown_place : ℕ → Option (List ℕ)
  grown_place = update place new (some (i ∷ above))

  apart : new ≢ page
  apart e = none-some (sym fresh ∙ ap place e ∙ at_page)

  in_new : (j : ℕ) → add_table page i new t new j ≡ 0
  in_new j =
      ap (λ f. f j) (update_ne (update t new (λ j. 0)) _ (λ e. apart (sym e)))
      ∙ ap (λ f. f j) (update_self t new (λ j. 0))

  in_page : add_table page i new t page i ≡ pa2pte new + 1
  in_page =
      ap (λ f. f i) (update_self (update t new (λ j. 0)) page _)
      ∙ update_self (update t new (λ j. 0) page) i _

  elsewhere : (q j : ℕ) → new ≢ q → (page ≡ q → i ≢ j) → add_table page i new t q j ≡ t q j
  elsewhere q j ne other = elim (ℕ_discrete page q) [
    | no nq ↦
        ap (λ f. f j) (update_ne (update t new (λ j. 0)) _ nq) ∙ ap (λ f. f j) (update_ne t _ ne)
    | yes e ↦
        subst (λ k. add_table page i new t k j ≡ t k j) e
          (ap (λ f. f j) (update_self (update t new (λ j. 0)) page _)
            ∙ update_ne (update t new (λ j. 0) page) _ (other e)
            ∙ ap (λ f. f j) (update_ne t _ apart))
  ]

  placed : (q : ℕ) (there : List ℕ) → place q ≡ some there → new ≢ q
  placed q there h e = none-some (sym fresh ∙ ap place e ∙ h)

  placed_still : (q : ℕ) (there : List ℕ) → place q ≡ some there → grown_place q ≡ some there
  placed_still q there h = update_ne place _ (placed q there h) ∙ h

  refers : pte2pa (pa2pte new + 1) ≡ new
  refers = omega (arith, aligned)

  valid_entry : is_v (pa2pte new + 1) ≡ true
  valid_entry = ground arith

  added_valid : is_v (add_table page i new t page i) ≡ true
  added_valid = ap is_v in_page ∙ valid_entry

  added_refers : pte2pa (add_table page i new t page i) ≡ new
  added_refers = ap pte2pa in_page ∙ refers

  -- An entry that is valid is not the one that was vacant.
  not_vacant : (q j : ℕ) → is_v (t q j) ≡ true → page ≡ q → i ≢ j
  not_vacant q j v e f =
      true-false
        (sym v ∙ ap (λ k. is_v (t k j)) (sym e) ∙ ap (λ k. is_v (t page k)) (sym f) ∙ vacant)
    where
      true-false : true ≡ false → ⊥
      true-false e = ground arith

  add_table-IsTree : IsTree grown_place (add_table page i new t)
  add_table-IsTree q j there h len v = elim (ℕ_discrete new q) [
    | yes e ↦
        absurd
          (zero_v (sym (ap is_v (subst (λ k. add_table page i new t k j ≡ 0) e (in_new j))) ∙ v))
    | no ne ↦ elim (ℕ_discrete page q) [
      | no nq ↦ old ne (λ e. absurd (nq e))
      | yes e ↦ elim (ℕ_discrete i j) [
        | no nj ↦ old ne (λ e. nj)
        | yes f ↦
            let entry : add_table page i new t q j ≡ pa2pte new + 1 =
              ap (λ k. add_table page i new t k j) (sym e)
              ∙ ap (λ k. add_table page i new t page k) (sym f)
              ∙ in_page in
            let same : there ≡ above =
              some_inj (sym (sym (update_ne place _ ne) ∙ h) ∙ ap place (sym e) ∙ at_page) in
            ap (λ k. grown_place (pte2pa k)) entry
            ∙ ap grown_place refers
            ∙ update_self place new _
            ∙ ap some (ap (λ k. k ∷ above) f ∙ ap (λ k. j ∷ k) (sym same))
      ]
    ]
  ]
    where
      zero_v : is_v 0 ≡ true → ⊥
      zero_v e = ground arith

      old :
          new ≢ q
          → (page ≡ q → i ≢ j)
          → grown_place (pte2pa (add_table page i new t q j)) ≡ some (j ∷ there)
      old ne other =
          let entry = elsewhere q j ne other in
          ap (λ k. grown_place (pte2pa k)) entry
          ∙ placed_still _ _
              (tree q j there (sym (update_ne place _ ne) ∙ h) len (ap is_v (sym entry) ∙ v))

  grown_entries :
      (level q va : ℕ) (there : List ℕ)
      → place q ≡ some there
      → length there + level ≡ 2
      → entry_from level q va (add_table page i new t) ≡ entry_from level q va t
  unfolding leaf_from
  grown_entries zero q va there h e = elsewhere q (px 0 va) (placed q there h) (λ same.
      let eq = some_inj (sym at_page ∙ ap place same ∙ h) in
      absurd (omega (arith, ap length eq, e, inner)))
  grown_entries (suc level) q va there h e = elim (ℕ_discrete page q) [
    | no nq ↦
        old (λ same. absurd (nq same))
          (λ z.
            grown_entries level _ va _ (tree q (px (suc level) va) there h (omega (arith, e)) z)
              (omega (arith, e)))
    | yes same ↦ elim (ℕ_discrete i (px (suc level) va)) [
      | no ni ↦
          old (λ same. ni)
            (λ z.
              grown_entries level _ va _ (tree q (px (suc level) va) there h (omega (arith, e)) z)
                (omega (arith, e)))
      | yes f ↦
          let entry : add_table page i new t q (px (suc level) va) ≡ pa2pte new + 1 =
            ap (λ k. add_table page i new t k (px (suc level) va)) (sym same)
            ∙ ap (λ k. add_table page i new t page k) (sym f)
            ∙ in_page in
          let was : is_v (t q (px (suc level) va)) ≡ false =
            ap (λ k. is_v (t k (px (suc level) va))) (sym same)
            ∙ ap (λ k. is_v (t page k)) (sym f)
            ∙ vacant in
          rw (entry, valid_entry, refers, was)
            (entry_from-zero level new va (add_table page i new t) in_new)
    ]
  ]
    where
      old :
          (page ≡ q → i ≢ px (suc level) va)
          → (is_v (t q (px (suc level) va)) ≡ true
              → entry_from level (pte2pa (t q (px (suc level) va))) va (add_table page i new t)
                ≡ entry_from level (pte2pa (t q (px (suc level) va))) va t)
          → entry_from (suc level) q va (add_table page i new t) ≡ entry_from (suc level) q va t
      old other rest =
          rw (elsewhere q (px (suc level) va) (placed q there h) other)
            (elim (Bool-cases (is_v (t q (px (suc level) va)))) [
              | inr z ↦ rw z refl
              | inl z ↦ rw z (rest z)
            ])

  add_table-Grown : Grown place t grown_place (add_table page i new t)
  add_table-Grown = record {
    extends = placed_still;
    kept = λ q j there h len v. elsewhere q j (placed q there h) (not_vacant q j v);
    entries = grown_entries;
  }

  -- A cleared table at a vacant entry leaves a tree that has grown by it.
  pub add_table_lem :
      IsTree grown_place (add_table page i new t)
      × Grown place t grown_place (add_table page i new t)
      × (is_v (add_table page i new t page i) ≡ true)
      × (pte2pa (add_table page i new t page i) ≡ new)
  add_table_lem = (add_table-IsTree, add_table-Grown, added_valid, added_refers)
