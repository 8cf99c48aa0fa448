-- ===== src/Locks/Sound.antt =====
-- What the calls of kernel/spinlock.c do to a CPU that keeps count of its locks.
use so_final_proyect.Prelude.{
  ℕ, ◌+◌, ◌-◌, ◌<◌, ◌≡◌, ◌≢◌, inl, inr, refl, ◌∷◌, arith, Bool-cases, true, false, none, some,
  All-imp, All-zip, length, update, update_self, update_ne, ok, ok_inj, ap, sym, ◌∙◌, subst,
  ℕ_discrete, Result, panic, ◌>>=◌,
}
use so_final_proyect.Locks.{
  Cpu, Spinlock, initlock, push_off, pop_off, unmask, holding, acquire_begin, acquire_swap, release,
}
use so_final_proyect.Locks.Owners.{
  Hart, System, without, put_hart, put_lock, pending, taken_by, Sound, Inv, without-length,
  without-All, without-Distinct, without-other, without-gone,
}

-- A CPU that neither had the lock nor has it now is as sound as before.
Sound-others :
    {lock : ℕ → Spinlock} {k : ℕ} {h : Hart} (l : ℕ) (lk : Spinlock)
    → Sound lock k h
    → lock l ≢ taken_by k
    → lk ≢ taken_by k
    → Sound (update lock l lk) k h
Sound-others {lock} {k} {h} l lk v before after = record {
  depth = v.depth;
  off = v.off;
  mine = All-imp _ _ stays h.held v.mine;
  owned = λ m e. elim (ℕ_discrete l m) [
    | yes d ↦ absurd (
        after
          (sym (update_self lock l lk) ∙ subst (λ i. update lock l lk i ≡ taken_by k) (sym d) e))
    | no d ↦ v.owned m (sym (update_ne lock lk d) ∙ e)
  ];
  distinct = v.distinct;
}
  where
    stays : (m : ℕ) → lock m ≡ taken_by k → update lock l lk m ≡ taken_by k
    stays m e = elim (ℕ_discrete l m) [
      | yes d ↦ absurd (before (subst (λ i. lock i ≡ taken_by k) (sym d) e))
      | no d ↦ update_ne lock lk d ∙ e
    ]

-- A step of CPU `k` that writes no lock.
pub put_hart-Inv : (k : ℕ) (h : Hart) (s : System) → Inv s → Sound s.lock k h → Inv (put_hart k h s)
put_hart-Inv k h s v x j = elim (ℕ_discrete k j) [
  | yes e ↦
      subst (λ i. Sound s.lock i (update s.hart k h i)) e
        (subst (Sound s.lock k) (sym (update_self s.hart k h)) x)
  | no e ↦ subst (Sound s.lock j) (sym (update_ne s.hart h e)) (v j)
]

-- A step of CPU `k` that writes a lock which no other CPU has, before or after.
pub put_lock-Inv :
    (k l : ℕ) (h : Hart) (lk : Spinlock) (s : System)
    → Inv s
    → ((j : ℕ) → k ≢ j → s.lock l ≢ taken_by j)
    → ((j : ℕ) → k ≢ j → lk ≢ taken_by j)
    → Sound (update s.lock l lk) k h
    → Inv (put_lock l lk (put_hart k h s))
put_lock-Inv k l h lk s v before after x j = elim (ℕ_discrete k j) [
  | yes e ↦
      subst (λ i. Sound (update s.lock l lk) i (update s.hart k h i)) e
        (subst (Sound (update s.lock l lk) k) (sym (update_self s.hart k h)) x)
  | no e ↦
      subst (Sound (update s.lock l lk) j) (sym (update_ne s.hart h e))
        (Sound-others l lk (v j) (before j e) (after j e))
]

pub taken_by_inj : {j k : ℕ} → taken_by j ≡ taken_by k → j ≡ k
taken_by_inj e = cc

pub holding-taken_by : (k : ℕ) (lk : Spinlock) → holding k lk ≡ true → lk ≡ taken_by k
holding-taken_by k lk h = ground arith

pub taken_by-holding : (k : ℕ) → holding k (taken_by k) ≡ true
taken_by-holding k = ground arith

-- With interrupts off and a positive depth, `pop_off` does not panic.
pub pop_off_lem :
    (c : Cpu)
    → c.intr ≡ false
    → 0 < c.noff
    → (d : Cpu) × (pop_off c ≡ ok d) × (d.noff + 1 ≡ c.noff) × (0 < d.noff → d.intr ≡ false)
pop_off_lem c off pos_depth =
    (unmask (record c { noff = c.noff - 1 }), ground arith, ground arith, ground arith)

pub popped :
    (c d : Cpu)
    → c.intr ≡ false
    → 0 < c.noff
    → pop_off c ≡ ok d
    → (d.noff + 1 ≡ c.noff) × (0 < d.noff → d.intr ≡ false)
popped c d off pos_depth e =
    let (x, runs, depth, masked) = pop_off_lem c off pos_depth in
    subst (λ y. (y.noff + 1 ≡ c.noff) × (0 < y.noff → y.intr ≡ false)) (ok_inj (sym runs ∙ e))
      (depth, masked)

bind_ok :
    (r : Result Cpu) (lk free : Spinlock) (d : Cpu)
    → ◌>>=◌ {B = Spinlock × Cpu} r (λ x. ok (lk, x)) ≡ ok (free, d)
    → (free ≡ lk) × (r ≡ ok d)
bind_ok (ok x) lk free d e = (cc e, cc e)
bind_ok (panic m) lk free d e = absurd (cc e)

pub release_ok :
    (k : ℕ) (lk free : Spinlock) (c d : Cpu)
    → release k lk c ≡ ok (free, d)
    → (holding k lk ≡ true) × (free ≡ initlock) × (pop_off c ≡ ok d)
release_ok k lk free c d e = elim (Bool-cases (holding k lk)) [
  | inl h ↦ let (f, p) = bind_ok (pop_off c) initlock free d (rw h at e) in (h, f, p)
  | inr h ↦ absurd (cc (sym (rw h at e)))
]

pub acquire_ok :
    (k : ℕ) (lk : Spinlock) (c d : Cpu)
    → acquire_begin k lk c ≡ ok d
    → (holding k lk ≡ false) × (push_off c ≡ d)
acquire_ok k lk c d e = elim (Bool-cases (holding k lk)) [
  | inl h ↦ absurd (cc (rw h at e))
  | inr h ↦ (h, ok_inj (rw h at e))
]

pub swap_some :
    (k : ℕ) (lk new : Spinlock)
    → acquire_swap k lk ≡ some new
    → (lk.locked ≡ false) × (taken_by k ≡ new)
swap_some k lk new e = ground arith

pub unlocked : {lk : Spinlock} {j : ℕ} → lk.locked ≡ false → lk ≡ taken_by j → ⊥
unlocked free h = cc (sym free ∙ ap (λ (x : Spinlock). x.locked) h)

-- The CPU that takes a free lock.
pub take-Sound :
    {lock : ℕ → Spinlock} {k : ℕ} {h : Hart} (l : ℕ)
    → Sound lock k h
    → (lock l).locked ≡ false
    → h.spins ≡ some l
    → Sound (update lock l (taken_by k)) k (record h { spins = none; held = l ∷ h.held })
take-Sound {lock} {k} {h} l x free spin = record {
  depth = omega (arith, x.depth, ap pending spin);
  off = x.off;
  mine = (update_self lock l (taken_by k), All-imp _ _ (λ m e. update_same m e) h.held x.mine);
  owned = λ m e. elim (ℕ_discrete l m) [
    | yes d ↦ inl (sym d)
    | no d ↦ inr (x.owned m (sym (update_ne lock (taken_by k) d) ∙ e))
  ];
  distinct = (
    All-imp _ _ (λ m e d. unlocked free (subst (λ i. lock i ≡ taken_by k) d e)) h.held x.mine,
    x.distinct,
  );
}
  where
    update_same : (m : ℕ) → lock m ≡ taken_by k → update lock l (taken_by k) m ≡ taken_by k
    update_same m e = ground (arith, e)

-- The CPU that releases a lock of its own.
pub release-Sound :
    {lock : ℕ → Spinlock} {k : ℕ} {h : Hart} (l : ℕ) (c : Cpu)
    → Sound lock k h
    → lock l ≡ taken_by k
    → pop_off h.cpu ≡ ok c
    → Sound (update lock l initlock) k (record h { cpu = c; held = without l h.held })
release-Sound {lock} {k} {h} l c x taken pop = record {
  depth = omega (arith, x.depth, shorter, (after pop).0);
  off = (after pop).1;
  mine =
      All-imp _ _ (λ m e. update_ne lock initlock (λ d. e.1 (sym d)) ∙ e.0) (without l h.held)
        (All-zip _ _ (without l h.held) (without-All _ l h.held x.mine)
          (without-gone l h.held x.distinct));
  owned = λ m e. elim (ℕ_discrete l m) [
    | yes d ↦ absurd (
        unlocked refl (
          sym (update_self lock l initlock)
          ∙ subst (λ i. update lock l initlock i ≡ taken_by k) (sym d) e))
    | no d ↦
        without-other l m h.held (λ z. d (sym z)) (x.owned m (sym (update_ne lock initlock d) ∙ e))
  ];
  distinct = without-Distinct l h.held x.distinct;
}
  where
    shorter : length h.held ≡ length (without l h.held) + 1
    shorter = without-length l h.held (x.owned l taken)

    after : pop_off h.cpu ≡ ok c → (c.noff + 1 ≡ h.cpu.noff) × (0 < c.noff → c.intr ≡ false)
    after pop =
        popped h.cpu c (x.off (omega (arith, x.depth, shorter))) (omega (arith, x.depth, shorter))
          pop
