-- ===== src/Vm/UserPage.antt =====
-- A new page in the memory of a process, as `uvmalloc` of kernel/vm.c maps it.
use so_final_proyect.Prelude.{
  ℕ, ◌/◌, ◌%◌, ◌^◌, ◌≤◌, ◌<◌, ◌≡◌, ◌≢◌, ◌⊎◌, inl, inr, ap, sym, ◌∙◌, subst, arith, true, false,
  Option, none, ◌==◌, if◌then◌else◌, List, ◌∷◌, All, ℕ_discrete,
}
use so_final_proyect.Prelude.Int.{pos}
use so_final_proyect.Kalloc.{pgsize, get_ref_index}
use so_final_proyect.Kalloc.Inv.{IsPage}
use so_final_proyect.Vm.{is_v, pte2pa, leaf_pte, Vm, maxva}
use so_final_proyect.Vm.Bits.{leaf_pte_lem, leaf_pte_odd}
use so_final_proyect.Vm.Walks.{Spared}
use so_final_proyect.Vm.Entries.{entry}
use so_final_proyect.Vm.Mapping.{Filled, filled_one}
use so_final_proyect.Vm.Unmap.{IsUser}

pub leaf_page : (mem perm : ℕ) → mem % pgsize ≡ 0 → perm < 2 ^ 10 → pte2pa (leaf_pte mem perm) ≡ mem
leaf_page mem perm al small = ap pte2pa (leaf_pte_lem mem perm small) ∙ omega (arith, al, small)

pub leaf_valid : (mem perm : ℕ) → is_v (leaf_pte mem perm) ≡ true
leaf_valid mem perm = eq_of (leaf_pte_odd mem perm)
  where
    eq_of : {i : ℕ} → i ≡ 1 → (i == 1) ≡ true
    eq_of h = ground arith

-- `t` is the state once `mem` was taken, and `u` that in which it is mapped at `a`.
module _ (end : ℕ) (pe : 0 < end) (root top perm : ℕ) (in_space : top ≤ maxva)
    (small : perm < 2 ^ 10) (s t u : Vm) (place place' : ℕ → Option (List ℕ)) (mem a : ℕ)
    (rest free' : List ℕ) (user : IsUser end root top s place (mem ∷ rest))
    (is_page : IsPage end mem) (no_table : place mem ≡ none) (off_list : All (λ q. q ≢ mem) rest)
    (one : t.kmem.ref_counts (get_ref_index mem) ≡ pos 1)
    (took : Spared end s place (mem ∷ rest) t place rest)
    (same : (va : ℕ) → va < maxva → entry root va t ≡ entry root va s)
    (f : Filled end pe root perm t place rest 1 a mem u place' free') (al : a % pgsize ≡ 0) where
  -- The entry of an address now: the new page's, or what it was.
  pub entry_now :
      (va : ℕ)
      → va < maxva
      → ((a / pgsize ≡ va / pgsize) × (entry root va u ≡ leaf_pte mem perm))
        ⊎ ((a / pgsize ≢ va / pgsize) × (entry root va u ≡ entry root va s))
  entry_now va lt = elim (ℕ_discrete (a / pgsize) (va / pgsize)) [
    | yes e ↦ inl (e, now ∙ ap (λ b. if b then leaf_pte mem perm else entry root va t) (equal e))
    | no ne ↦ inr (
      ne,
      now ∙ ap (λ b. if b then leaf_pte mem perm else entry root va t) (differ ne) ∙ same va lt,
    )
  ]
    where
      now :
          entry root va u
          ≡ (if a / pgsize == va / pgsize then leaf_pte mem perm else entry root va t)
      now = f.entries va lt ∙ filled_one end pe root perm a mem va (entry root va t) al

      equal : {i j : ℕ} → i ≡ j → (i == j) ≡ true
      equal h = ground arith

      differ : {i j : ℕ} → i ≢ j → (i == j) ≡ false
      differ h = ground arith

  abbrev Owned : ℕ → Type 0
  Owned pte =
      IsPage end (pte2pa pte)
      × (place' (pte2pa pte) ≡ none)
      × All (λ q. q ≢ pte2pa pte) free'
      × (u.kmem.ref_counts (get_ref_index (pte2pa pte)) ≡ pos 1)

  new_page : Owned (leaf_pte mem perm)
  new_page =
      let (b, c, d) = f.spared mem is_page no_table off_list in
      subst
        (λ p.
          IsPage end p
          × (place' p ≡ none)
          × All (λ q. q ≢ p) free'
          × (u.kmem.ref_counts (get_ref_index p) ≡ pos 1))
        (sym (leaf_page mem perm is_page.aligned small)) (is_page, b, c, d ∙ one)

  old_page : (va : ℕ) → va < top → is_v (entry root va s) ≡ true → Owned (entry root va s)
  old_page va lt v =
      let (page, b, c, d) = user.owned va lt v in
      let (b', c', d') = took _ page b c in
      let (b'', c'', d'') = f.spared _ page b' c' in (page, b'', c'', d'' ∙ d' ∙ d)

  pub added-IsUser : IsUser end root top u place' free'
  added-IsUser = record {
    mapped = f.mapped;
    rooted = f.rooted;
    owned = λ va lt v. elim (entry_now va (omega (arith, lt, in_space))) [
      | inl c ↦ subst Owned (sym c.1) new_page
      | inr c ↦ subst Owned (sym c.1) (old_page va lt (sym (ap is_v c.1) ∙ v))
    ];
    apart = λ va vb l m v w e. elim (entry_now va (omega (arith, l, in_space))) [
      | inl c ↦ elim (entry_now vb (omega (arith, m, in_space))) [
        | inl d ↦ sym c.0 ∙ d.0
        | inr d ↦ absurd (
            (user.owned vb m (sym (ap is_v d.1) ∙ w)).2.0 (
              sym (leaf_page mem perm is_page.aligned small)
              ∙ sym (ap pte2pa c.1)
              ∙ e
              ∙ ap pte2pa d.1))
      ]
      | inr c ↦ elim (entry_now vb (omega (arith, m, in_space))) [
        | inl d ↦ absurd (
            (user.owned va l (sym (ap is_v c.1) ∙ v)).2.0 (
              sym (leaf_page mem perm is_page.aligned small)
              ∙ sym (ap pte2pa d.1)
              ∙ sym e
              ∙ ap pte2pa c.1))
        | inr d ↦
            user.apart va vb l m (sym (ap is_v c.1) ∙ v) (sym (ap is_v d.1) ∙ w)
              (sym (ap pte2pa c.1) ∙ e ∙ ap pte2pa d.1)
      ]
    ];
  }
