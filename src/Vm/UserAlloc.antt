-- ===== src/Vm/UserAlloc.antt =====
-- The loop of `uvmalloc` of kernel/vm.c.
use so_final_proyect.Prelude.{
  ℕ, zero, suc, ◌+◌, ◌-◌, ◌*◌, ◌/◌, ◌%◌, ◌^◌, ◌≤◌, ◌<◌, ◌≡◌, inl, inr, refl, ap, sym, ◌∙◌, subst,
  arith, Bool, Bool-cases, true, false, Option, ltb, leb, if◌then◌else◌, List, Result, ok, panic,
  ◌>>=◌,
}
use so_final_proyect.Kalloc.{pgsize, pgroundup}
use so_final_proyect.Vm.{is_v, is_u, pte2pa, Vm, maxva}
use so_final_proyect.Vm.Pages.{grow_page, grow_from, uvmalloc}
use so_final_proyect.Vm.Entries.{entry}
use so_final_proyect.Vm.Unmap.{IsUser}
use so_final_proyect.Vm.UserGrow.{RamKept, Extended, Undone, Grew, more, undone}
use so_final_proyect.Vm.GrowPage.{grow_page_lem}

module _ (end : ℕ) (pe : 0 < end) (root top xperm : ℕ) (in_space : top ≤ maxva)
    (small : 18 + xperm < 2 ^ 10) (for_user : is_u (18 + xperm) ≡ true) where
  abbrev Longer : Vm → ℕ → ℕ → Vm → (ℕ → Option (List ℕ)) → List ℕ → Type 0
  Longer = Extended end pe root top xperm in_space small for_user

  abbrev Shorter : Vm → ℕ → ℕ → Vm → (ℕ → Option (List ℕ)) → List ℕ → Type 0
  Shorter = Undone end pe root top xperm in_space small for_user

  -- All pages up to `newsz`, or none of them.
  pub data Resized (s : Vm) (up newsz : ℕ) : Result (ℕ × Vm) → Type 0 where
    reached :
        (n : ℕ) (t : Vm) (place' : ℕ → Option (List ℕ)) (free' : List ℕ)
        → Extended end pe root top xperm in_space small for_user s n up t place' free'
        → newsz ≤ up + n * pgsize
        → up + n * pgsize < newsz + pgsize
        → Resized s up newsz (ok (newsz, t))
    failed :
        (n : ℕ) (t : Vm) (place' : ℕ → Option (List ℕ)) (free' : List ℕ)
        → Undone end pe root top xperm in_space small for_user s n up t place' free'
        → Resized s up newsz (ok (0, t))

  module _ (s : Vm) (up newsz : ℕ) (al : up % pgsize ≡ 0) (tal : top % pgsize ≡ 0)
      (le : newsz ≤ top)
      (vacant : (va : ℕ) → up ≤ va → va < top → is_v (entry root va s) ≡ false) where
    true-false : true ≡ false → ⊥
    true-false e = ground arith

    -- What the process had lies below `up`.
    had : (va n : ℕ) → va < top → is_v (entry root va s) ≡ true → up ≤ va → va < up + n * pgsize → ⊥
    had va n lt v lo hi = true-false (sym v ∙ vacant va lo lt)

    ram_trans :
        (t v : Vm) (n : ℕ) (place : ℕ → Option (List ℕ)) (free : List ℕ)
        → Longer s n up t place free
        → RamKept end pe root top xperm in_space small for_user t v
        → RamKept end pe root top xperm in_space small for_user s v
    ram_trans t v n place free x kept va i lt valid il =
        let same : entry root va t ≡ entry root va s =
          x.others va (omega (arith, lt, in_space)) (had va n lt valid) in
        subst (λ e. v.ram (pte2pa e + i) ≡ t.ram (pte2pa e + i)) same
          (kept va i lt (ap is_v same ∙ valid) il)
        ∙ x.ram_kept va i lt valid il

    Extended-next :
        (t v : Vm) (n : ℕ) (place place' : ℕ → Option (List ℕ)) (free free' : List ℕ)
        → up + n * pgsize ≤ top
        → Longer s n up t place free
        → Longer t 1 (up + n * pgsize) v place' free'
        → Longer s (suc n) up v place' free'
    Extended-next t v n place place' free free' below x y = record {
      user = y.user;
      fresh = λ va lo hi. elim (Bool-cases (leb (up + n * pgsize) va)) [
        | inl z ↦ y.fresh va (le_of z) (omega (arith, hi))
        | inr z ↦
            let low : va < up + n * pgsize = lt_of z in
            let lt : va < top = omega (arith, low, below) in
            let same : entry root va v ≡ entry root va t =
              y.others va (omega (arith, lt, in_space)) (λ l h. omega (arith, low, l)) in
            let (valid, user, zeros) = x.fresh va lo low in
            (
              ap is_v same ∙ valid,
              ap is_u same ∙ user,
              (λ i il.
                  ap (λ e. v.ram (pte2pa e + i)) same ∙ y.ram_kept va i lt valid il ∙ zeros i il),
            )
      ];
      others = λ va lt h.
          y.others va lt (λ l k. h (omega (arith, l)) (omega (arith, k)))
          ∙ x.others va lt (λ l k. h l (omega (arith, k)));
      ram_kept = ram_trans t v n place free x y.ram_kept;
    }
      where
        le_of : {i j : ℕ} → leb i j ≡ true → i ≤ j
        le_of h = ground arith

        lt_of : {i j : ℕ} → leb i j ≡ false → j < i
        lt_of h = ground arith

    Undone-next :
        (t v : Vm) (n : ℕ) (place place' : ℕ → Option (List ℕ)) (free free' : List ℕ)
        → Longer s n up t place free
        → Shorter t n up v place' free'
        → Shorter s n up v place' free'
    Undone-next t v n place place' free free' x y = record {
      user = y.user;
      gone = y.gone;
      others = λ va lt h. y.others va lt h ∙ x.others va lt h;
      ram_kept = ram_trans t v n place free x y.ram_kept;
    }

    grow_from-Resized :
        (left n : ℕ) (t : Vm) (place : ℕ → Option (List ℕ)) (free : List ℕ)
        → Longer s n up t place free
        → newsz ≤ up + (n + left) * pgsize
        → up + n * pgsize < newsz + pgsize
        → Resized s up newsz (grow_from end left root (up + n * pgsize) up newsz xperm t)
    unfolding grow_from
    grow_from-Resized zero n t place free x enough near =
        rw (done (omega (arith, enough))) (reached n t place free x (omega (arith, enough)) near)
      where
        done : newsz ≤ up + n * pgsize → ltb (up + n * pgsize) newsz ≡ false
        done h = ground arith
    grow_from-Resized (suc left) n t place free x enough near =
        elim (Bool-cases (ltb (up + n * pgsize) newsz)) [
          | inr z ↦ rw z (reached n t place free x (le_of z) near)
          | inl z ↦ rw z (
              by_round (room (lt_of z)) (lt_of z) (grow_page end root (up + n * pgsize) up xperm t)
                (grow_page_lem end pe root top xperm in_space small for_user t place n up al
                  (room (lt_of z)) (λ va lo hi. still_vacant va lo (below_top (room (lt_of z)) hi))
                  free x.user)
                (λ v place' free' y.
                  grow_from-Resized left (suc n) v place' free' y (omega (arith, enough))
                    (next_near (lt_of z))))
        ]
      where
        le_of : {i j : ℕ} → ltb i j ≡ false → j ≤ i
        le_of h = ground arith

        lt_of : {i j : ℕ} → ltb i j ≡ true → i < j
        lt_of h = ground arith

        room : up + n * pgsize < newsz → up + suc n * pgsize ≤ top
        room h = omega (arith, al, tal, le, h)

        next_near : up + n * pgsize < newsz → up + suc n * pgsize < newsz + pgsize
        next_near h = omega (arith, h)

        below_top : {va : ℕ} → up + suc n * pgsize ≤ top → va < up + suc n * pgsize → va < top
        below_top h k = omega (arith, h, k)

        still_vacant : (va : ℕ) → up + n * pgsize ≤ va → va < top → is_v (entry root va t) ≡ false
        still_vacant va lo lt =
            ap is_v (x.others va (omega (arith, lt, in_space)) (λ l h. omega (arith, lo, h)))
            ∙ vacant va (omega (arith, lo)) lt

        by_round :
            up + suc n * pgsize ≤ top
            → up + n * pgsize < newsz
            → (r : Result (Bool × Vm)) → Grew end pe root top xperm in_space small for_user t n up r
            → ((v : Vm) (place' : ℕ → Option (List ℕ)) (free' : List ℕ)
                → Longer s (suc n) up v place' free'
                → Resized s up newsz
                    (grow_from end left root (up + suc n * pgsize) up newsz xperm v))
            → Resized s up newsz (
                r >>= λ r.
                let later = grow_from end left root (up + n * pgsize + pgsize) up newsz xperm r.1 in
                if r.0 then later else ok (0, r.1))
        by_round top_left lt (ok _) (more v place' free' y) rest =
            subst (λ a. Resized s up newsz (grow_from end left root a up newsz xperm v)) next
              (rest v place' free'
                (Extended-next t v n place place' free free' (omega (arith, top_left)) x y))
          where
            next : up + suc n * pgsize ≡ up + n * pgsize + pgsize
            next = omega arith
        by_round top_left lt (ok _) (undone v place' free' y) rest =
            failed n v place' free' (Undone-next t v n place place' free free' x y)
        by_round top_left lt (panic _) g rest = elim g [ ]

  -- `uvmalloc` from `oldsz` up to `newsz` in the memory of a process that owns each of its pages
  -- alone and has none above its size: it returns `newsz` with each address of a new page mapped for
  -- the user to a page of zeros, or 0 with no page left there. It does not panic, the process still
  -- owns each of its pages alone, and the bytes of the pages that it had and the entry of any other
  -- address are as they were.
  pub uvmalloc_lem :
      (s : Vm) (place : ℕ → Option (List ℕ)) (free : List ℕ) (oldsz newsz : ℕ)
      → IsUser end root top s place free
      → top % pgsize ≡ 0
      → oldsz ≤ newsz
      → newsz ≤ top
      → ((va : ℕ) → pgroundup oldsz ≤ va → va < top → is_v (entry root va s) ≡ false)
      → Resized s (pgroundup oldsz) newsz (uvmalloc end root oldsz newsz xperm s)
  unfolding uvmalloc
  uvmalloc_lem s place free oldsz newsz u tal grows le vacant = rw (no_less grows) (
      subst
        (λ a.
          Resized s (pgroundup oldsz) newsz
            (grow_from end ((newsz - oldsz) / pgsize + 1) root a (pgroundup oldsz) newsz xperm s))
        from
        (grow_from-Resized s (pgroundup oldsz) newsz (omega (arith, grows, le, in_space)) tal le
          vacant ((newsz - oldsz) / pgsize + 1) 0 s place free
          (record {
            user = u;
            fresh = λ va lo hi. absurd (omega (arith, lo, hi));
            others = λ va lt h. refl;
            ram_kept = λ va i lt v il. refl;
          })
          (omega (arith, grows, le, in_space)) (omega (arith, grows, le, in_space))))
    where
      no_less : oldsz ≤ newsz → ltb newsz oldsz ≡ false
      no_less h = ground arith

      from : pgroundup oldsz + 0 * pgsize ≡ pgroundup oldsz
      from = omega arith
