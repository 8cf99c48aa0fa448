-- ===== src/Kalloc/Inv.antt =====
-- The free list as a list of pages, and what holds of it between two operations of kernel/kalloc.c.
use so_final_proyect.Prelude.{
  ℕ, ◌%◌, ◌/◌, ◌≤◌, ◌<◌, ◌≡◌, ◌≢◌, List, [], ◌∷◌, arith, All, Distinct, update, length,
}
use so_final_proyect.Prelude.Int.{pos}
use so_final_proyect.Kalloc.{Kmem, pgsize, phystop, get_ref_index}

-- Following `next` from `h` gives the pages of the list, up to the null pointer.
abbrev pub Chain : (ℕ → ℕ) → ℕ → List ℕ → Type 0
Chain next h [] = h ≡ 0
Chain next h (p ∷ ps) = (h ≡ p) × (0 < p) × Chain next (next p) ps

-- A write to a page that is not on the list leaves the list.
pub Chain-update :
    (next : ℕ → ℕ) (p v h : ℕ) (ps : List ℕ)
    → All (λ q. q ≢ p) ps
    → Chain next h ps
    → Chain (update next p v) h ps
Chain-update next p v h [] out c = c
Chain-update next p v h (q ∷ ps) out c =
    (c.0, c.1, step (Chain-update next p v (next q) ps out.1 c.2))
  where
    same : update next p v q ≡ next q
    same = ground arith

    step : Chain (update next p v) (next q) ps → Chain (update next p v) (update next p v q) ps
    step d = rw same d

-- A page that `kfree` accepts.
pub record IsPage (end p : ℕ) : Type 0 where
  pub aligned : p % pgsize ≡ 0
  pub above : end ≤ p
  pub below : p < phystop

-- Two pages have two reference counts.
pub get_ref_index_inj :
    (end p q : ℕ) → IsPage end p → IsPage end q → get_ref_index p ≡ get_ref_index q → p ≡ q
get_ref_index_inj end p q a b e = omega arith

-- Every count of a page lies inside the array `ref_counts`.
pub get_ref_index-lt : (end p : ℕ) → IsPage end p → get_ref_index p < phystop / pgsize
get_ref_index-lt end p a = omega arith

pub record IsValid (end : ℕ) (k : Kmem) (free : List ℕ) : Type 0 where
  pub chain : Chain k.next k.freelist free
  pub pages : All (IsPage end) free
  pub distinct : Distinct free
  pub counted : k.free_pages_count ≡ pos (length free)
  pub unreferenced : All (λ p. k.ref_counts (get_ref_index p) ≡ pos 0) free
