-- ===== src/Vm/NewPage.antt =====
-- A page that `uvmalloc` of kernel/vm.c takes from the allocator for a process.
use so_final_proyect.Prelude.{
  ℕ, ◌≤◌, ◌<◌, ◌≡◌, ◌≢◌, ap, sym, ◌∙◌, subst, arith, Option, none, some, List, [], ◌∷◌, All,
  update_ne,
}
use so_final_proyect.Prelude.Int.{pos}
use so_final_proyect.Kalloc.{get_ref_index, kalloc}
use so_final_proyect.Kalloc.Inv.{IsPage, get_ref_index_inj}
use so_final_proyect.Kalloc.Alloc.{kalloc_first, kalloc_empty, kalloc-refs}
use so_final_proyect.Vm.{is_v, pte2pa, Vm, maxva}
use so_final_proyect.Vm.Walks.{IsMapped, Spared}
use so_final_proyect.Vm.Entries.{entry}
use so_final_proyect.Vm.Unmap.{IsUser}

-- The process owns its pages in any state with the same entries that spares them.
pub IsUser-carry :
    (end root top : ℕ) (s t : Vm) (place place' : ℕ → Option (List ℕ)) (free free' : List ℕ)
    → top ≤ maxva
    → IsUser end root top s place free
    → IsMapped end t place' free'
    → place' root ≡ some []
    → Spared end s place free t place' free'
    → ((va : ℕ) → va < maxva → entry root va t ≡ entry root va s)
    → IsUser end root top t place' free'
IsUser-carry end root top s t place place' free free' in_space u inv rooted spared same = record {
  mapped = inv;
  rooted = rooted;
  owned = λ va lt v.
      let e : entry root va t ≡ entry root va s = same va (omega (arith, lt, in_space)) in
      let (is_page, no_table, off_list, one) = u.owned va lt (sym (ap is_v e) ∙ v) in
      let (a, b, c) = spared _ is_page no_table off_list in
      subst
        (λ p.
          IsPage end (pte2pa p)
          × (place' (pte2pa p) ≡ none)
          × All (λ q. q ≢ pte2pa p) free'
          × (t.kmem.ref_counts (get_ref_index (pte2pa p)) ≡ pos 1))
        (sym e) (is_page, a, b, c ∙ one);
  apart = λ va vb l m v w e.
      let f : entry root va t ≡ entry root va s = same va (omega (arith, l, in_space)) in
      let g : entry root vb t ≡ entry root vb s = same vb (omega (arith, m, in_space)) in
      u.apart va vb l m (sym (ap is_v f) ∙ v) (sym (ap is_v g) ∙ w)
        (sym (ap pte2pa f) ∙ e ∙ ap pte2pa g);
}

-- What `kalloc` gives a process: nothing, with no page free, or a page that nobody has.
pub data Taken (end : ℕ) (s : Vm) (place : ℕ → Option (List ℕ)) : List ℕ → Type 0 where
  nothing :
      (kalloc s.kmem).0 ≡ 0
      → IsMapped end (record s { kmem = (kalloc s.kmem).1 }) place []
      → Spared end s place [] (record s { kmem = (kalloc s.kmem).1 }) place []
      → Taken end s place []
  taken :
      (mem : ℕ) (rest : List ℕ)
      → (kalloc s.kmem).0 ≡ mem
      → 0 < mem
      → IsPage end mem
      → place mem ≡ none
      → All (λ q. q ≢ mem) rest
      → (kalloc s.kmem).1.ref_counts (get_ref_index mem) ≡ pos 1
      → IsMapped end (record s { kmem = (kalloc s.kmem).1 }) place rest
      → Spared end s place (mem ∷ rest) (record s { kmem = (kalloc s.kmem).1 }) place rest
      → Taken end s place (mem ∷ rest)

pub kalloc-Taken :
    (end : ℕ) (s : Vm) (place : ℕ → Option (List ℕ)) (free : List ℕ)
    → 0 < end
    → IsMapped end s place free
    → Taken end s place free
kalloc-Taken end s place [] pe inv =
    let (e, v) = kalloc_empty end s.kmem inv.valid in
    nothing e (record { valid = v; unplaced = tt; tree = inv.tree })
      (λ q is_page a b. (
        a,
        b,
        same_refs q (λ f.
            omega
              (arith, f, ap get_ref_index e, is_page.aligned, is_page.above, is_page.below, pe)),
      ))
  where
    same_refs :
        (q : ℕ)
        → get_ref_index (kalloc s.kmem).0 ≢ get_ref_index q
        → (kalloc s.kmem).1.ref_counts (get_ref_index q) ≡ s.kmem.ref_counts (get_ref_index q)
    same_refs q ne =
        ap (λ f. f (get_ref_index q)) (kalloc-refs s.kmem) ∙ update_ne s.kmem.ref_counts (pos 1) ne
kalloc-Taken end s place (p ∷ rest) pe inv =
    let (e, one, v) = kalloc_first end p s.kmem rest inv.valid in
    taken p rest e inv.valid.chain.1 inv.valid.pages.0 inv.unplaced.0 inv.valid.distinct.0 one
      (record { valid = v; unplaced = inv.unplaced.1; tree = inv.tree })
      (λ q is_page a b. (
        a,
        b.1,
        ap (λ f. f (get_ref_index q)) (kalloc-refs s.kmem)
            ∙ update_ne s.kmem.ref_counts (pos 1) (λ f.
              b.0 (
                get_ref_index_inj end p q inv.valid.pages.0 is_page
                  (sym (ap get_ref_index e) ∙ f))),
      ))
