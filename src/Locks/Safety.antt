-- ===== src/Locks/Safety.antt =====
-- Mutual exclusion, and the calls of kernel/spinlock.c that do not panic.
use so_final_proyect.Prelude.{
  ℕ, ◌<◌, ◌≡◌, ◌⊎◌, inl, inr, refl, [], ◌∷◌, arith, Bool, Bool-cases, false, none, some, Among,
  All-Among, ok, ap, sym, ◌∙◌, subst, panic,
}
use so_final_proyect.Locks.{Cpu, initlock, push_off, holding, acquire_begin, release}
use so_final_proyect.Locks.Owners.{
  System, without, put_hart, put_lock, Step, Reach, here, next, pending, taken_by, Inv,
  without-length,
}
use so_final_proyect.Locks.Sound.{
  put_hart-Inv, put_lock-Inv, taken_by_inj, holding-taken_by, taken_by-holding, pop_off_lem, popped,
  release_ok, acquire_ok, swap_some, unlocked, take-Sound, release-Sound,
}

Step-Inv : {s u : System} → Step s u → Inv s → Inv u
Step-Inv {s} (Step.masks k idle) v =
    let x = v k in
    put_hart-Inv k _ s v (record {
      depth = omega (arith, x.depth);
      off = λ p. refl;
      mine = x.mine;
      owned = x.owned;
      distinct = x.distinct;
    })
Step-Inv {s} (Step.unmasks k n c idle b e) v =
    let x = v k in
    let (depth, off) =
      popped (s.hart k).cpu c (x.off (omega (arith, x.depth, b))) (omega (arith, x.depth, b)) e in
    put_hart-Inv k _ s v (record {
      depth = omega (arith, x.depth, b, depth);
      off = off;
      mine = x.mine;
      owned = x.owned;
      distinct = x.distinct;
    })
Step-Inv {s} (Step.switches k on z) v =
    let x = v k in
    put_hart-Inv k _ s v (record {
      depth = x.depth;
      off = λ p. absurd (omega (arith, z));
      mine = x.mine;
      owned = x.owned;
      distinct = x.distinct;
    })
Step-Inv {s} (Step.begins k l c idle e) v =
    let x = v k in
    let (free, pushed) = acquire_ok k (s.lock l) (s.hart k).cpu c e in
    subst (λ d. Inv (put_hart k (record (s.hart k) { cpu = d; spins = some l }) s)) pushed
      (put_hart-Inv k _ s v (record {
        depth = omega (arith, x.depth, ap pending idle);
        off = λ p. refl;
        mine = x.mine;
        owned = x.owned;
        distinct = x.distinct;
      }))
Step-Inv {s} (Step.takes k l lk spin e) v =
    let x = v k in
    let (free, new) = swap_some k (s.lock l) lk e in
    subst
      (λ n. Inv (
        put_lock l n
          (put_hart k (record (s.hart k) { spins = none; held = l ∷ (s.hart k).held }) s)))
      new
      (put_lock-Inv k l _ (taken_by k) s v (λ j ne h. unlocked free h)
        (λ j ne h. ne (taken_by_inj h)) (take-Sound l x free spin))
Step-Inv {s} (Step.releases k l lk c idle e) v =
    let x = v k in
    let (h, free, pop) = release_ok k (s.lock l) lk (s.hart k).cpu c e in
    let taken = holding-taken_by k (s.lock l) h in
    subst
      (λ n. Inv (
        put_lock l n
          (put_hart k (record (s.hart k) { cpu = c; held = without l (s.hart k).held }) s)))
      (sym free)
      (put_lock-Inv k l _ initlock s v (λ j ne g. ne (taken_by_inj (sym taken ∙ g)))
        (λ j ne g. cc g) (release-Sound l c x taken pop))

-- All locks free, and no CPU in a call.
abbrev pub start : (ℕ → Bool) → System
start on = record {
  lock = λ _. initlock;
  hart = λ k. record {
    cpu = record { noff = 0; intena = false; intr = on k };
    held = [];
    bare = 0;
    spins = none;
  };
}

Reach-Inv : {s u : System} → Reach s u → Inv s → Inv u
Reach-Inv here v = v
Reach-Inv (next r st) v = Step-Inv st (Reach-Inv r v)

start-Inv : (on : ℕ → Bool) → Inv (start on)
start-Inv on k = record {
  depth = refl;
  off = λ p. absurd (omega (arith, p));
  mine = tt;
  owned = λ l e. unlocked refl e;
  distinct = tt;
}

module _ (on : ℕ → Bool) {u : System} (r : Reach (start on) u) where
  sound : Inv u
  sound = Reach-Inv r (start-Inv on)

  has : (i l : ℕ) → Among l (u.hart i).held → u.lock l ≡ taken_by i
  has i l a =
      All-Among (λ m. u.lock m ≡ taken_by i) l (u.hart i).held
        (λ m e h. subst (λ n. u.lock n ≡ taken_by i) (sym e) h) (sound i).mine a

  -- With all locks free at the start, and whatever the CPUs do in any order, a lock that two CPUs have
  -- taken and not released is one CPU's, and that CPU's interrupts are off.
  pub mutual_exclusion :
      (j k l : ℕ)
      → Among l (u.hart j).held
      → Among l (u.hart k).held
      → (j ≡ k) × ((u.hart k).cpu.intr ≡ false)
  mutual_exclusion j k l a b = (taken_by_inj (sym (has j l a) ∙ has k l b), off k b)
    where
      off : (i : ℕ) → Among l (u.hart i).held → (u.hart i).cpu.intr ≡ false
      off i a = (sound i).off (omega (arith, (sound i).depth, without-length l (u.hart i).held a))

  -- With all locks free at the start, and whatever the CPUs did: `acquire` panics exactly if the CPU has
  -- taken the lock and not released it, and then `release` frees the lock and does not panic; if not,
  -- `acquire` turns interrupts off, and `release` panics.
  pub acquire-release_lem :
      (k l : ℕ)
      → (Among l (u.hart k).held
          × (acquire_begin k (u.lock l) (u.hart k).cpu ≡ panic "acquire")
          × ((c : Cpu) × (release k (u.lock l) (u.hart k).cpu ≡ ok (initlock, c))))
        ⊎ ((Among l (u.hart k).held → ⊥)
            × (acquire_begin k (u.lock l) (u.hart k).cpu ≡ ok (push_off (u.hart k).cpu))
            × (release k (u.lock l) (u.hart k).cpu ≡ panic "release"))
  acquire-release_lem k l = elim (Bool-cases (holding k (u.lock l))) [
    | inl h ↦
        let m = (sound k).owned l (holding-taken_by k (u.lock l) h) in
        let some_depth : 0 < (u.hart k).cpu.noff =
          omega (arith, (sound k).depth, without-length l (u.hart k).held m) in
        let (d, pop, _, _) = pop_off_lem (u.hart k).cpu ((sound k).off some_depth) some_depth in
        inl (m, rw h, (d, rw (h, pop)))
    | inr h ↦ inr (λ m. cc (sym h ∙ ap (holding k) (has k l m) ∙ taken_by-holding k), rw h, rw h)
  ]
