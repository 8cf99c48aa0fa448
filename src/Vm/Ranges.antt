-- ===== src/Vm/Ranges.antt =====
-- The loop of `mappages` of kernel/vm.c.
use so_final_proyect.Prelude.{
  ℕ, zero, suc, ◌+◌, ◌-◌, ◌*◌, ◌/◌, ◌%◌, ◌≤◌, ◌<◌, ◌≡◌, ◌≢◌, inl, inr, refl, ap, ◌∙◌, subst, arith,
  Bool, Bool-cases, true, false, not, Option, some, ltb, leb, ◌==◌, if◌then◌else◌, List, [], Result,
  ok, panic,
}
use so_final_proyect.Prelude.{◌>>=◌}
use so_final_proyect.Prelude.Int.{ℤ, pos, negsuc}
use so_final_proyect.Kalloc.{pgsize}
use so_final_proyect.Vm.{is_v, Vm, maxva}
use so_final_proyect.Vm.Walks.{Spared-trans, IsMapped}
use so_final_proyect.Vm.Pages.{map_page, map_from, mappages}
use so_final_proyect.Vm.Entries.{entry}
use so_final_proyect.Vm.Mapping.{
  filled, Filled, Mapped, all, part, PageMapped, done, no_page, map_page_lem,
}

module _ (end : ℕ) (pe : 0 < end) (root perm : ℕ) where
  -- The first page and the `m` that follow it.
  filled_next :
      (m a pa va old : ℕ)
      → filled m (a + pgsize) (pa + pgsize) perm va (filled 1 a pa perm va old)
        ≡ filled (suc m) a pa perm va old
  filled_next m a pa va old = elim (Bool-cases (leb a va)) [
    | inr z ↦ rw (z, before z) refl
    | inl z ↦ elim (Bool-cases (leb (a + pgsize) va)) [
      | inr w ↦ rw (z, w, first z w, inside z w) refl
      | inl w ↦ rw (z, w, second w, shifted w, later w) refl
    ]
  ]
    where
      before : leb a va ≡ false → leb (a + pgsize) va ≡ false
      before h = ground (arith, h)

      first : leb a va ≡ true → leb (a + pgsize) va ≡ false → ltb va (a + 1 * pgsize) ≡ true
      first h k = ground (arith, h, k)

      inside : leb a va ≡ true → leb (a + pgsize) va ≡ false → ltb va (a + suc m * pgsize) ≡ true
      inside h k = ground (arith, h, k)

      second : leb (a + pgsize) va ≡ true → ltb va (a + 1 * pgsize) ≡ false
      second h = ground (arith, h)

      shifted :
          leb (a + pgsize) va ≡ true
          → ltb va (a + pgsize + m * pgsize) ≡ ltb va (a + suc m * pgsize)
      shifted h = ap (λ k. ltb va k) (omega arith)

      le_of : {i j : ℕ} → leb i j ≡ true → i ≤ j
      le_of h = ground arith

      later :
          leb (a + pgsize) va ≡ true
          → pa + pgsize + (va - (a + pgsize)) / pgsize * pgsize ≡ pa + (va - a) / pgsize * pgsize
      later h = let le : a + pgsize ≤ va = le_of h in omega (arith, le)

  Filled-next :
      (s t u : Vm) (m a pa : ℕ) (place place' place'' : ℕ → Option (List ℕ))
      (free free' free'' : List ℕ)
      → Filled end pe root perm s place free 1 a pa t place' free'
      → Filled end pe root perm t place' free' m (a + pgsize) (pa + pgsize) u place'' free''
      → Filled end pe root perm s place free (suc m) a pa u place'' free''
  Filled-next s t u m a pa place place' place'' free free' free'' f g = record {
    mapped = g.mapped;
    rooted = g.rooted;
    spared = Spared-trans end s t u place place' place'' free free' free'' f.spared g.spared;
    same_ram = g.same_ram ∙ f.same_ram;
    entries = λ va lt.
        g.entries va lt
        ∙ ap (λ old. filled m (a + pgsize) (pa + pgsize) perm va old) (f.entries va lt)
        ∙ filled_next m a pa va (entry root va s);
  }

  map_from-Mapped :
      (n : ℕ) (s : Vm) (a last pa : ℕ) (place : ℕ → Option (List ℕ)) (free : List ℕ)
      → 0 < n
      → IsMapped end s place free
      → place root ≡ some []
      → last + pgsize ≡ a + n * pgsize
      → a + n * pgsize ≤ maxva
      → a % pgsize ≡ 0
      → ((va : ℕ) → a ≤ va → va < a + n * pgsize → is_v (entry root va s) ≡ false)
      → Mapped end pe root perm s place free n a pa (map_from n root a last pa perm s)
  unfolding map_from
  map_from-Mapped zero s a last pa place free some_left inv rooted el top al vacant =
      absurd (omega (arith, some_left))
  map_from-Mapped (suc left) s a last pa place free some_left inv rooted el top al vacant =
      by_page (map_page root a pa perm s)
        (map_page_lem end pe root perm s a pa place free inv rooted (omega (arith, top)) al
          (vacant a (omega arith) (omega arith)))
        (λ t place' free' f more.
          map_from-Mapped left t (a + pgsize) last (pa + pgsize) place' free' more f.mapped f.rooted
            (omega (arith, el)) (omega (arith, top)) (omega (arith, al))
            (λ va lo hi.
              ap is_v (f.entries va (omega (arith, hi, top)) ∙ beyond va _ lo)
              ∙ vacant va (omega (arith, lo)) (omega (arith, hi))))
    where
      beyond : (va old : ℕ) → a + pgsize ≤ va → filled 1 a pa perm va old ≡ old
      beyond va old le =
          let out : ltb va (a + 1 * pgsize) ≡ false = past (omega (arith, le)) in
          elim (Bool-cases (leb a va)) [ inl z ↦ rw (z, out) refl | inr z ↦ rw z refl ]
        where
          past : {i j : ℕ} → j ≤ i → ltb i j ≡ false
          past h = ground arith

      eq_of : {i j : ℕ} → (i == j) ≡ true → i ≡ j
      eq_of h = ground arith

      ne_of : {i j : ℕ} → (i == j) ≡ false → i ≢ j
      ne_of h = ground arith

      one_left : a ≡ last → 1 ≡ suc left
      one_left e = omega (arith, e, el)

      more_left : a ≢ last → 0 < left
      more_left ne = omega (arith, ne, el)

      onward :
          (t : Vm) (place' : ℕ → Option (List ℕ)) (free' : List ℕ)
          → Filled end pe root perm s place free 1 a pa t place' free'
          → (r : Result (ℤ × Vm))
          → Mapped end pe root perm t place' free' left (a + pgsize) (pa + pgsize) r
          → Mapped end pe root perm s place free (suc left) a pa r
      onward t place' free' f (ok _) (all u place'' free'' g) =
          all u place'' free'' (Filled-next s t u left a pa _ _ _ _ _ _ f g)
      onward t place' free' f (ok _) (part m u place'' lt g) =
          part (suc m) u place'' (omega (arith, lt)) (Filled-next s t u m a pa _ _ _ _ _ _ f g)
      onward t place' free' f (panic _) g = elim g [ ]

      by_page :
          (r : Result (Bool × Vm))
          → PageMapped end pe root perm s place free a pa r
          → ((t : Vm) (place' : ℕ → Option (List ℕ)) (free' : List ℕ)
              → Filled end pe root perm s place free 1 a pa t place' free'
              → 0 < left
              → Mapped end pe root perm t place' free' left
                  (a + pgsize)
                  (pa + pgsize)
                  (map_from left root (a + pgsize) last (pa + pgsize) perm t))
          → Mapped end pe root perm s place free (suc left) a pa (
              r >>= λ r.
              let rest = map_from left root (a + pgsize) last (pa + pgsize) perm r.1 in
              if not r.0 then ok (negsuc 0, r.1) else if a == last then ok (pos 0, r.1) else rest)
      by_page (ok _) (no_page t place' f) rest = part 0 t place' (omega arith) f
      by_page (ok _) (done t place' free' f) rest = elim (Bool-cases (a == last)) [
        | inl e ↦ rw e (
            all t place' free' (
              subst (λ n. Filled end pe root perm s place free n a pa t place' free')
                (one_left (eq_of e)) f))
        | inr ne ↦ rw ne (onward t place' free' f _ (rest t place' free' f (more_left (ne_of ne))))
      ]
      by_page (panic _) g rest = elim g [ ]

  -- `mappages` of `n` pages from `va` on, none of which is mapped: with the address and the size
  -- aligned and below MAXVA it maps all of them, or returns -1 with no page free and some of them
  -- mapped, the first ones. The entry of each other address is as it was.
  pub mappages_lem :
      (n : ℕ) (s : Vm) (va pa : ℕ) (place : ℕ → Option (List ℕ)) (free : List ℕ)
      → 0 < n
      → IsMapped end s place free
      → place root ≡ some []
      → va % pgsize ≡ 0
      → va + n * pgsize ≤ maxva
      → ((a : ℕ) → va ≤ a → a < va + n * pgsize → is_v (entry root a s) ≡ false)
      → Mapped end pe root perm s place free n va pa (mappages root va (n * pgsize) pa perm s)
  unfolding mappages
  mappages_lem n s va pa place free some_left inv rooted al top vacant =
      rw (al, size_aligned, size_some some_left, size_pages)
        (map_from-Mapped n s va (va + n * pgsize - pgsize) pa place free some_left inv rooted
          (omega (arith, some_left)) top al vacant)
    where
      size_aligned : n * pgsize % pgsize ≡ 0
      size_aligned = omega arith

      size_some : 0 < n → (n * pgsize == 0) ≡ false
      size_some h = ground arith

      size_pages : n * pgsize / pgsize ≡ n
      size_pages = omega arith
