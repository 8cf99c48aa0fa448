-- ===== src/Vm/Unmap.antt =====
-- `uvmunmap` of kernel/vm.c on the memory of a process, which owns its pages alone.
use so_final_proyect.Prelude.{
  ℕ, ◌+◌, ◌*◌, ◌/◌, ◌%◌, ◌≤◌, ◌<◌, ◌≡◌, ◌≢◌, ◌⊎◌, inl, inr, refl, ap, sym, ◌∙◌, subst, arith,
  Bool-cases, true, false, Option, none, some, ◌==◌, if◌then◌else◌, List, [], ◌∷◌, All, Among, ok,
  ℕ_discrete,
}
use so_final_proyect.Prelude.Int.{pos}
use so_final_proyect.Kalloc.{Kmem, pgsize, get_ref_index}
use so_final_proyect.Kalloc.Inv.{IsPage, IsValid}
use so_final_proyect.Kalloc.Free.{kfree_lem}
use so_final_proyect.Vm.{px, is_v, pte2pa, Vm, set_pte, maxva}
use so_final_proyect.Vm.Trees.{path, leaf_from, leaf_from-path, at_leaf, set_pte-IsTree}
use so_final_proyect.Vm.Walks.{IsMapped}
use so_final_proyect.Vm.Pages.{clear_pte}
use so_final_proyect.Vm.Entries.{entry, entry-set, entry-page}

-- Below `top` each page that is mapped has one owner, and stands for one page of addresses.
pub record IsUser (end root top : ℕ) (s : Vm) (place : ℕ → Option (List ℕ)) (free : List ℕ)
    : Type 0 where
  pub mapped : IsMapped end s place free
  pub rooted : place root ≡ some []
  pub owned :
      (va : ℕ)
      → va < top
      → is_v (entry root va s) ≡ true
      → IsPage end (pte2pa (entry root va s))
        × (place (pte2pa (entry root va s)) ≡ none)
        × All (λ p. p ≢ pte2pa (entry root va s)) free
        × (s.kmem.ref_counts (get_ref_index (pte2pa (entry root va s))) ≡ pos 1)
  pub apart :
      (va vb : ℕ)
      → va < top
      → vb < top
      → is_v (entry root va s) ≡ true
      → is_v (entry root vb s) ≡ true
      → pte2pa (entry root va s) ≡ pte2pa (entry root vb s)
      → va / pgsize ≡ vb / pgsize

module _ (end : ℕ) (pe : 0 < end) (root top : ℕ) (in_space : top ≤ maxva)
    (place : ℕ → Option (List ℕ)) where
  -- `n` pages from `a` on are not mapped any more, and the entry of any other address is as it was.
  -- The free pages are those of `free` and those that were mapped there.
  pub record Unmapped (s : Vm) (free : List ℕ) (n a : ℕ) (t : Vm) (free' : List ℕ) : Type 0 where
    pub user : IsUser end root top t place free'
    pub same_ram : t.ram ≡ s.ram
    pub gone : (va : ℕ) → a ≤ va → va < a + n * pgsize → is_v (entry root va t) ≡ false
    pub others :
        (va : ℕ)
        → va < maxva
        → (a ≤ va → va < a + n * pgsize → ⊥)
        → entry root va t ≡ entry root va s
    pub given_back :
        (va : ℕ)
        → a ≤ va
        → va < a + n * pgsize
        → is_v (entry root va s) ≡ true
        → Among (pte2pa (entry root va s)) free'
    pub still_free : (p : ℕ) → Among p free → Among p free'
    pub no_other :
        (p : ℕ)
        → Among p free'
        → Among p free
          ⊎ ((va : ℕ) × (a ≤ va)
              × (va < a + n * pgsize)
              × (is_v (entry root va s) ≡ true)
              × (pte2pa (entry root va s) ≡ p))

  in_page : (a va : ℕ) → a % pgsize ≡ 0 → a ≤ va → va < a + 1 * pgsize → a / pgsize ≡ va / pgsize
  in_page a va al lo hi = omega (arith, al, lo, hi)

  pub untouched :
      (s : Vm) (a : ℕ) (free : List ℕ)
      → IsUser end root top s place free
      → a % pgsize ≡ 0
      → is_v (entry root a s) ≡ false
      → Unmapped s free 1 a s free
  untouched s a free u al out = record {
    user = u;
    same_ram = refl;
    gone = λ va lo hi. ap is_v (entry-page root va a s (sym (in_page a va al lo hi))) ∙ out;
    others = λ va lt h. refl;
    given_back = λ va lo hi v.
        absurd (cc (sym v ∙ ap is_v (entry-page root va a s (sym (in_page a va al lo hi))) ∙ out));
    still_free = λ p h. h;
    no_other = λ p h. inl h;
  }

  module _ (s : Vm) (a leaf : ℕ) (free : List ℕ) (u : IsUser end root top s place free)
      (al : a % pgsize ≡ 0) (lt : a < top) (way : leaf_from 2 root a s.ptes ≡ some leaf)
      (valid : is_v (entry root a s) ≡ true) where
    abbrev page : ℕ
    page = pte2pa (entry root a s)

    abbrev without : Kmem → Vm
    without j = record s { kmem = j; ptes = set_pte leaf (px 0 a) 0 s.ptes }

    entry-without :
        (j : Kmem) (va : ℕ)
        → va < maxva
        → entry root va (without j) ≡ (if a / pgsize == va / pgsize then 0 else entry root va s)
    entry-without j =
        entry-set end root a 0 leaf s place free u.mapped u.rooted way (omega (arith, lt, in_space))

    entry-cases :
        (j : Kmem) (va : ℕ)
        → va < maxva
        → ((a / pgsize ≡ va / pgsize) × (entry root va (without j) ≡ 0))
          ⊎ ((a / pgsize ≢ va / pgsize) × (entry root va (without j) ≡ entry root va s))
    entry-cases j va l = elim (ℕ_discrete (a / pgsize) (va / pgsize)) [
      | yes e ↦ inl (e, entry-without j va l ∙ if-yes e)
      | no ne ↦ inr (ne, entry-without j va l ∙ if-no ne)
    ]
      where
        if-yes :
            a / pgsize ≡ va / pgsize
            → (if a / pgsize == va / pgsize then 0 else entry root va s) ≡ 0
        if-yes e = ap (λ b. if b then 0 else entry root va s) (equal e)
          where
            equal : {i j : ℕ} → i ≡ j → (i == j) ≡ true
            equal h = ground arith

        if-no :
            a / pgsize ≢ va / pgsize
            → (if a / pgsize == va / pgsize then 0 else entry root va s) ≡ entry root va s
        if-no ne = ap (λ b. if b then 0 else entry root va s) (differ ne)
          where
            differ : {i j : ℕ} → i ≢ j → (i == j) ≡ false
            differ h = ground arith

    -- What is valid now was valid, and is of another page.
    survives :
        (j : Kmem) (va : ℕ)
        → va < maxva
        → is_v (entry root va (without j)) ≡ true
        → (a / pgsize ≢ va / pgsize) × (entry root va (without j) ≡ entry root va s)
    survives j va l v = elim (entry-cases j va l) [
      | inl (e, z) ↦ absurd (zero_v (sym (ap is_v z) ∙ v))
      | inr other ↦ other
    ]
      where
        zero_v : is_v 0 ≡ true → ⊥
        zero_v e = ground arith

    without-IsUser :
        (j : Kmem)
        → ((q : ℕ)
            → IsPage end q
            → q ≢ page
            → j.ref_counts (get_ref_index q) ≡ s.kmem.ref_counts (get_ref_index q))
        → IsValid end j (page ∷ free)
        → IsUser end root top (without j) place (page ∷ free)
    without-IsUser j frame jvalid = record {
      mapped = record {
        valid = jvalid;
        unplaced = ((u.owned a lt valid).1, u.mapped.unplaced);
        tree =
            set_pte-IsTree place s.ptes u.mapped.tree leaf (px 0 a) 0 (path 2 a [])
              (leaf_from-path place s.ptes u.mapped.tree 2 root a leaf [] u.rooted refl way) refl;
      };
      rooted = u.rooted;
      owned = λ va l v.
          let (ne, same) = survives j va (omega (arith, l, in_space)) v in
          let was = sym (ap is_v same) ∙ v in
          let (is_page, no_table, off_list, one) = u.owned va l was in
          let other : page ≢ pte2pa (entry root va s) = λ e. ne (u.apart a va lt l valid was e) in
          subst
            (λ p.
              IsPage end (pte2pa p)
              × (place (pte2pa p) ≡ none)
              × All (λ q. q ≢ pte2pa p) (page ∷ free)
              × (j.ref_counts (get_ref_index (pte2pa p)) ≡ pos 1))
            (sym same)
            (is_page, no_table, (other, off_list), frame _ is_page (λ e. other (sym e)) ∙ one);
      apart = λ va vb l m v w e.
          let (ne, same) = survives j va (omega (arith, l, in_space)) v in
          let (nb, sameb) = survives j vb (omega (arith, m, in_space)) w in
          u.apart va vb l m (sym (ap is_v same) ∙ v) (sym (ap is_v sameb) ∙ w)
            (sym (ap pte2pa same) ∙ e ∙ ap pte2pa sameb);
    }

    pub page_freed :
        (t : Vm) × (free' : List ℕ) × (clear_pte end true (some (leaf, px 0 a), s) ≡ ok t)
        × Unmapped s free 1 a t free'
    page_freed =
        let (is_page, no_table, off_list, one) = u.owned a lt valid in
        let (j, run, zero_refs, frame, jvalid) =
          kfree_lem end page 0 s.kmem free pe is_page off_list one u.mapped.valid in
        let at : s.ptes leaf (px 0 a) ≡ entry root a s = sym (ap (λ o. at_leaf a o s.ptes) way) in
        (
          without j,
          page ∷ free,
          rw (at, valid, run) refl,
          record {
            user = without-IsUser j frame jvalid;
            same_ram = refl;
            gone = λ va lo hi. elim (Bool-cases (is_v (entry root va (without j)))) [
              | inr z ↦ z
              | inl z ↦ absurd (
                  (survives j va (omega (arith, al, lo, hi, lt, in_space)) z).0
                    (in_page a va al lo hi))
            ];
            others = λ va l h. elim (entry-cases j va l) [
              | inl c ↦ absurd (h (omega (arith, al, c.0)) (omega (arith, al, c.0)))
              | inr c ↦ c.1
            ];
            given_back = λ va lo hi v.
                inl (ap pte2pa (entry-page root va a s (sym (in_page a va al lo hi))));
            still_free = λ p h. inr h;
            no_other = λ p h. elim h [
              | inl e ↦ inr (a, omega arith, omega arith, valid, sym e)
              | inr h' ↦ inl h'
            ];
          },
        )
