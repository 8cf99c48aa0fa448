-- ===== src/Vm/UserGrow.antt =====
-- A round of the loop of `uvmalloc` of kernel/vm.c.
use so_final_proyect.Prelude.{
  ℕ, ◌+◌, ◌*◌, ◌%◌, ◌^◌, ◌≤◌, ◌<◌, ◌≡◌, ◌≢◌, inl, inr, refl, ap, ◌∙◌, arith, Bool, Bool-cases, true,
  false, Option, ltb, leb, if◌then◌else◌, List, ◌∷◌, Result, ok, ◌>>=◌, ◌&&◌,
}
use so_final_proyect.Kalloc.{pgsize}
use so_final_proyect.Kalloc.Inv.{IsPage}
use so_final_proyect.Strings.{memset}
use so_final_proyect.Strings.Blocks.{memset_lem}
use so_final_proyect.Vm.{is_v, is_u, pte2pa, Vm, maxva}
use so_final_proyect.Vm.Pages.{uvmdealloc}
use so_final_proyect.Vm.Entries.{entry}
use so_final_proyect.Vm.Unmap.{IsUser}
use so_final_proyect.Vm.UnmapRange.{uvmdealloc_lem}

module _ (end : ℕ) (pe : 0 < end) (root top xperm : ℕ) (in_space : top ≤ maxva)
    (small : 18 + xperm < 2 ^ 10) (for_user : is_u (18 + xperm) ≡ true) where
  -- The bytes of the pages that the process has in `s` are as they were.
  abbrev pub RamKept : Vm → Vm → Type 0
  RamKept s t =
      (va i : ℕ)
      → va < top
      → is_v (entry root va s) ≡ true
      → i < pgsize
      → t.ram (pte2pa (entry root va s) + i) ≡ s.ram (pte2pa (entry root va s) + i)

  -- The address is mapped for the user, to a page that is all zero.
  abbrev pub IsZeroPage : Vm → ℕ → Type 0
  IsZeroPage t va =
      (is_v (entry root va t) ≡ true)
      × (is_u (entry root va t) ≡ true)
      × ((i : ℕ) → i < pgsize → t.ram (pte2pa (entry root va t) + i) ≡ 0)

  -- `n` pages more from `a` on.
  pub record Extended (s : Vm) (n a : ℕ) (t : Vm) (place' : ℕ → Option (List ℕ)) (free' : List ℕ)
      : Type 0 where
    pub user : IsUser end root top t place' free'
    pub fresh : (va : ℕ) → a ≤ va → va < a + n * pgsize → IsZeroPage t va
    pub others :
        (va : ℕ)
        → va < maxva
        → (a ≤ va → va < a + n * pgsize → ⊥)
        → entry root va t ≡ entry root va s
    pub ram_kept : RamKept s t

  -- The `m` pages from `up` on are gone.
  pub record Undone (s : Vm) (m up : ℕ) (t : Vm) (place' : ℕ → Option (List ℕ)) (free' : List ℕ)
      : Type 0 where
    pub user : IsUser end root top t place' free'
    pub gone : (va : ℕ) → up ≤ va → va < up + m * pgsize → is_v (entry root va t) ≡ false
    pub others :
        (va : ℕ)
        → va < maxva
        → (up ≤ va → va < up + m * pgsize → ⊥)
        → entry root va t ≡ entry root va s
    pub ram_kept : RamKept s t

  pub data Grew (s : Vm) (m up : ℕ) : Result (Bool × Vm) → Type 0 where
    more :
        (t : Vm) (place' : ℕ → Option (List ℕ)) (free' : List ℕ)
        → Extended s 1 (up + m * pgsize) t place' free'
        → Grew s m up (ok (true, t))
    undone :
        (t : Vm) (place' : ℕ → Option (List ℕ)) (free' : List ℕ)
        → Undone s m up t place' free'
        → Grew s m up (ok (false, t))

  -- What the code does where it gives up, in a state with the entries of `s`.
  pub undo_lem :
      (s t : Vm) (m up : ℕ) (place' : ℕ → Option (List ℕ)) (free' : List ℕ)
      → IsUser end root top t place' free'
      → ((va : ℕ) → va < maxva → entry root va t ≡ entry root va s)
      → RamKept s t
      → up % pgsize ≡ 0
      → up + m * pgsize ≤ top
      → Grew s m up (uvmdealloc end root (up + m * pgsize) up t >>= λ r. ok (false, r.1))
  undo_lem s t m up place' free' u same kept al le =
      let (v, free'', run, f) =
        uvmdealloc_lem end pe root top in_space place' m t up free' u al le in
      rw run (
        undone v place' free'' (record {
          user = f.user;
          gone = f.gone;
          others = λ va lt h. f.others va lt h ∙ same va lt;
          ram_kept = λ va i lt w il.
              ap (λ g. g (pte2pa (entry root va s) + i)) f.same_ram ∙ kept va i lt w il;
        }))

  -- Two pages have no byte in common.
  pages_apart :
      (p q i : ℕ)
      → p % pgsize ≡ 0
      → q % pgsize ≡ 0
      → p ≢ q
      → i < pgsize
      → q + i < p + pgsize
      → p ≤ q + i
      → ⊥
  pages_apart p q i hp hq ne il hi lo = ne (omega (arith, hp, hq, il, hi, lo))

  pub cleared_kept :
      (s : Vm) (place : ℕ → Option (List ℕ)) (mem : ℕ) (rest : List ℕ)
      → IsUser end root top s place (mem ∷ rest)
      → IsPage end mem
      → (va i : ℕ) → va < top
      → is_v (entry root va s) ≡ true
      → i < pgsize
      → memset mem 0 pgsize s.ram (pte2pa (entry root va s) + i)
        ≡ s.ram (pte2pa (entry root va s) + i)
  cleared_kept s place mem rest u is_page va i lt v il =
      let (page, no_table, off_list, one) = u.owned va lt v in
      memset_lem mem 0 pgsize s.ram (pte2pa (entry root va s) + i)
      ∙ outside
          (pages_apart mem (pte2pa (entry root va s)) i is_page.aligned page.aligned off_list.0 il)
    where
      le_of : {i j : ℕ} → leb i j ≡ true → i ≤ j
      le_of h = ground arith

      lt_of : {i j : ℕ} → ltb i j ≡ true → i < j
      lt_of h = ground arith

      outside :
          {q x : ℕ}
          → (q < mem + pgsize → mem ≤ q → ⊥)
          → (if leb mem q && ltb q (mem + pgsize) then 0 % 256 else x) ≡ x
      outside {q} h = elim (Bool-cases (leb mem q)) [
        | inr z ↦ rw z refl
        | inl z ↦ elim (Bool-cases (ltb q (mem + pgsize))) [
          | inr w ↦ rw (z, w) refl
          | inl w ↦ absurd (h (lt_of w) (le_of z))
        ]
      ]
