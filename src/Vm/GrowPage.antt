-- ===== src/Vm/GrowPage.antt =====
-- What a round of `uvmalloc` of kernel/vm.c comes back with.
use so_final_proyect.Prelude.{
  ℕ, zero, suc, ◌+◌, ◌*◌, ◌/◌, ◌%◌, ◌^◌, ◌≤◌, ◌<◌, ◌≡◌, ◌≢◌, ◌⊎◌, inl, inr, refl, ap, sym, ◌∙◌,
  arith, Bool, true, false, Option, none, ltb, leb, ◌==◌, if◌then◌else◌, List, [], ◌∷◌, All, Result,
  ok, panic, ◌>>=◌, ◌&&◌,
}
use so_final_proyect.Prelude.Int.{ℤ, pos, negsuc}
use so_final_proyect.Kalloc.{pgsize, get_ref_index, kalloc, kfree}
use so_final_proyect.Kalloc.Inv.{IsPage}
use so_final_proyect.Kalloc.Free.{kfree_lem}
use so_final_proyect.Strings.{memset}
use so_final_proyect.Strings.Blocks.{memset_lem}
use so_final_proyect.Vm.{is_v, is_u, pte2pa, leaf_pte, Vm, maxva}
use so_final_proyect.Vm.Walks.{Spared}
use so_final_proyect.Vm.Pages.{mappages, uvmdealloc, grow_page}
use so_final_proyect.Vm.Entries.{entry}
use so_final_proyect.Vm.Mapping.{Filled, filled_none, Mapped, all, part}
use so_final_proyect.Vm.Ranges.{mappages_lem}
use so_final_proyect.Vm.Unmap.{IsUser}
use so_final_proyect.Vm.NewPage.{IsUser-carry, Taken, nothing, taken, kalloc-Taken}
use so_final_proyect.Vm.Bits.{leaf_pte_lem}
use so_final_proyect.Vm.UserPage.{entry_now, added-IsUser, leaf_page, leaf_valid}
use so_final_proyect.Vm.UserGrow.{Grew, more, undo_lem, cleared_kept}

module _ (end : ℕ) (pe : 0 < end) (root top xperm : ℕ) (in_space : top ≤ maxva)
    (small : 18 + xperm < 2 ^ 10) (for_user : is_u (18 + xperm) ≡ true) (s : Vm)
    (place : ℕ → Option (List ℕ)) (m up : ℕ) (al : up % pgsize ≡ 0) (le : up + suc m * pgsize ≤ top)
    (vacant : (va : ℕ)
      → up + m * pgsize ≤ va
      → va < up + suc m * pgsize
      → is_v (entry root va s) ≡ false) where
  abbrev Outcome : Result (Bool × Vm) → Type 0
  Outcome r = Grew end pe root top xperm in_space small for_user s m up r

  abbrev a : ℕ
  a = up + m * pgsize

  abbrev holding : ℕ → Vm
  holding mem = record s { kmem = (kalloc s.kmem).1; ram = memset mem 0 pgsize s.ram }

  module _ (mem : ℕ) (rest : List ℕ) (u : IsUser end root top s place (mem ∷ rest))
      (is_page : IsPage end mem) (no_table : place mem ≡ none) (off_list : All (λ q. q ≢ mem) rest)
      (one : (kalloc s.kmem).1.ref_counts (get_ref_index mem) ≡ pos 1)
      (took : Spared end s place (mem ∷ rest) (holding mem) place rest) where
    mapped_page :
        (t : Vm) (place' : ℕ → Option (List ℕ)) (free' : List ℕ)
        → Filled end pe root (18 + xperm) (holding mem) place rest 1 a mem t place' free'
        → Outcome (ok (true, t))
    mapped_page t place' free' f = more t place' free' (record {
      user =
          added-IsUser end pe root top (18 + xperm) in_space small s (holding mem) t place place'
            mem a rest free' u is_page no_table off_list one took (λ va l. refl) f aligned;
      fresh = λ va lo hi. elim (now va (omega (arith, hi, le, in_space))) [
        | inr c ↦ absurd (c.0 (omega (arith, al, lo, hi)))
        | inl c ↦ (
          ap is_v c.1 ∙ leaf_valid mem (18 + xperm),
          ap is_u c.1 ∙ user_bit,
          (λ k kl.
              ap (λ g. g (pte2pa (entry root va t) + k)) f.same_ram
              ∙ ap (λ e. memset mem 0 pgsize s.ram (pte2pa e + k)) c.1
              ∙ ap (λ p. memset mem 0 pgsize s.ram (p + k))
                  (leaf_page mem (18 + xperm) is_page.aligned small)
              ∙ memset_lem mem 0 pgsize s.ram (mem + k)
              ∙ zeroed k kl),
        )
      ];
      others = λ va l h. elim (now va l) [
        | inl c ↦ absurd (h (omega (arith, al, c.0)) (omega (arith, al, c.0)))
        | inr c ↦ c.1
      ];
      ram_kept = λ va i l v il.
          ap (λ g. g (pte2pa (entry root va s) + i)) f.same_ram
          ∙ cleared_kept end pe root top xperm in_space small for_user s place mem rest u is_page va
              i l v il;
    })
      where
        aligned : a % pgsize ≡ 0
        aligned = omega (arith, al)

        user_bit : is_u (leaf_pte mem (18 + xperm)) ≡ true
        user_bit =
            ap is_u (leaf_pte_lem mem (18 + xperm) small)
            ∙ ap (λ k. k == 1) (omega (arith, small))
            ∙ for_user

        zeroed :
            (k : ℕ)
            → k < pgsize
            → (if leb mem (mem + k) && ltb (mem + k) (mem + pgsize)
                then 0 % 256
                else s.ram (mem + k))
              ≡ 0
        zeroed k kl = rw (le_true, lt_true kl) refl
          where
            le_true : leb mem (mem + k) ≡ true
            le_true = ground arith

            lt_true : k < pgsize → ltb (mem + k) (mem + pgsize) ≡ true
            lt_true h = ground arith

        now :
            (va : ℕ)
            → va < maxva
            → ((a / pgsize ≡ va / pgsize) × (entry root va t ≡ leaf_pte mem (18 + xperm)))
              ⊎ ((a / pgsize ≢ va / pgsize) × (entry root va t ≡ entry root va s))
        now =
            entry_now end pe root top (18 + xperm) in_space small s (holding mem) t place place' mem
              a rest free' u is_page no_table off_list one took (λ va l. refl) f aligned

    -- With no page for a table, `mem` goes back, and what was mapped before it.
    no_table_left :
        (n : ℕ) (t : Vm) (place' : ℕ → Option (List ℕ))
        → n < 1
        → Filled end pe root (18 + xperm) (holding mem) place rest n a mem t place' []
        → Outcome (
            kfree end mem t.kmem >>= λ j.
            uvmdealloc end root a up (record t { kmem = j }) >>= λ r. ok (false, r.1))
    no_table_left (suc n) t place' lt f = absurd (omega (arith, lt))
    no_table_left zero t place' lt f =
        let (no_table', tt', one') = f.spared mem is_page no_table off_list in
        let (j, run, zero_refs, frame, jvalid) =
          kfree_lem end mem 0 t.kmem [] pe is_page tt (one' ∙ one) f.mapped.valid in
        let same : (va : ℕ) → va < maxva → entry root va t ≡ entry root va s = λ va l.
          f.entries va l ∙ filled_none end pe root (18 + xperm) a mem va (entry root va s) in
        rw run (
          undo_lem end pe root top xperm in_space small for_user s (record t { kmem = j }) m up
            place' (mem ∷ [])
            (IsUser-carry end root top s (record t { kmem = j }) place place' (mem ∷ rest)
              (mem ∷ []) in_space u
              (record { valid = jvalid; unplaced = (no_table', tt); tree = f.mapped.tree }) f.rooted
              (λ p page no off.
                let (b, c, d) = took p page no off in
                let (b', c', d') = f.spared p page b c in
                (b', (off.0, tt), frame p page (λ e. off.0 (sym e)) ∙ d' ∙ d))
              same)
            same
            (λ va i l v il.
              ap (λ g. g (pte2pa (entry root va s) + i)) f.same_ram
              ∙ cleared_kept end pe root top xperm in_space small for_user s place mem rest u
                  is_page va i l v il)
            al (omega (arith, le)))

  pub grow_page_lem :
      (free : List ℕ) → IsUser end root top s place free → Outcome (grow_page end root a up xperm s)
  unfolding grow_page
  grow_page_lem free u = by_page free u (kalloc-Taken end s place free pe u.mapped)
    where
      zero_test : {n : ℕ} → 0 < n → (n == 0) ≡ false
      zero_test h = ground arith

      by_map :
          (mem : ℕ) (rest : List ℕ)
          → IsUser end root top s place (mem ∷ rest)
          → IsPage end mem
          → place mem ≡ none
          → All (λ q. q ≢ mem) rest
          → (kalloc s.kmem).1.ref_counts (get_ref_index mem) ≡ pos 1
          → Spared end s place (mem ∷ rest) (holding mem) place rest
          → (r : Result (ℤ × Vm))
          → Mapped end pe root (18 + xperm) (holding mem) place rest 1 a mem r
          → Outcome (
              r >>= λ r. elim r.0 [
                | pos zero ↦ ok (true, r.1)
                | pos (suc n) ↦ kfree end mem r.1.kmem >>= λ j.
                    uvmdealloc end root a up (record r.1 { kmem = j }) >>= λ r. ok (false, r.1)
                | negsuc n ↦ kfree end mem r.1.kmem >>= λ j.
                    uvmdealloc end root a up (record r.1 { kmem = j }) >>= λ r. ok (false, r.1)
              ])
      by_map mem rest u is_page no_table off_list one took (ok _) (all t place' free' f) =
          mapped_page mem rest u is_page no_table off_list one took t place' free' f
      by_map mem rest u is_page no_table off_list one took (ok _) (part n t place' lt f) =
          no_table_left mem rest u is_page no_table off_list one took n t place' lt f
      by_map mem rest u is_page no_table off_list one took (panic _) g = elim g [ ]

      by_page :
          (free : List ℕ)
          → IsUser end root top s place free
          → Taken end s place free
          → Outcome (grow_page end root a up xperm s)
      by_page _ u (nothing e inv spared) = rw e (
          undo_lem end pe root top xperm in_space small for_user s
            (record s { kmem = (kalloc s.kmem).1 }) m up place []
            (IsUser-carry end root top s (record s { kmem = (kalloc s.kmem).1 }) place place [] []
              in_space u inv u.rooted spared (λ va l. refl))
            (λ va l. refl) (λ va i l v il. refl) al (omega (arith, le)))
      by_page _ u (taken mem rest e positive is_page no_table off_list one inv spared) =
          rw (e, zero_test positive)
            (by_map mem rest u is_page no_table off_list one spared
              (mappages root a (1 * pgsize) mem (18 + xperm) (holding mem))
              (mappages_lem end pe root (18 + xperm) 1 (holding mem) a mem place rest (omega arith)
                (record { valid = inv.valid; unplaced = inv.unplaced; tree = inv.tree }) u.rooted
                (omega (arith, al)) (omega (arith, le, in_space))
                (λ va lo hi. vacant va lo (omega (arith, hi)))))
