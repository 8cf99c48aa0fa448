-- ===== src/Proc/Reparent.antt =====
-- `reparent` and `kexit` of kernel/proc.c: who a process's children belong to when it exits.
use so_final_proyect.Prelude.{
  ℕ, zero, suc, ◌+◌, ◌<◌, ◌≡◌, ◌≢◌, inl, inr, refl, subst, ap, sym, ◌∙◌, arith, true, false, Bool,
  Bool-cases, ◌==◌, if◌then◌else◌, ◌&&◌, Option, some, update, ℕ_discrete, ltb, leb, not,
}
use so_final_proyect.Proc.{
  Proc, Table, nproc, is, sleeping, runnable, wake, is_me, wakeup, is_child, reparent_from,
  reparent,
}
use so_final_proyect.Proc.States.{is-eq}
use so_final_proyect.Proc.Table.{wakeup_lem}

-- The process is as it was, or has been made RUNNABLE from SLEEPING.
pub data Woken (p : Proc) : Proc → Type 0 where
  same : Woken p p
  awake : {q : Proc} → p.state ≡ sleeping → q ≡ record p { state = runnable } → Woken p q

pub Woken-trans : {p q r : Proc} → Woken p q → Woken q r → Woken p r
Woken-trans same w = w
Woken-trans (awake s e) same = awake s e
Woken-trans (awake s e) (awake s' e') = absurd (ground arith)

wake-Woken : (chan : ℕ) (p : Proc) → Woken p (wake chan p)
wake-Woken chan p = elim (Bool-cases (is p.state sleeping && p.chan == chan)) [
  | inl asleep ↦ rw asleep (awake (is-eq p.state sleeping (ground arith)) refl)
  | inr no_match ↦ rw no_match same
]

pub wakeup-Woken : (chan : ℕ) (me : Option ℕ) (t : Table) (j : ℕ) → Woken (t j) (wakeup chan me t j)
wakeup-Woken chan me t j = elim (Bool-cases (ltb j nproc && not (is_me me j))) [
  | inl woken ↦
      subst (Woken (t j))
        (sym (wakeup_lem chan me t j ∙ ap (λ b. if b then wake chan (t j) else t j) woken))
        (wake-Woken chan (t j))
  | inr other ↦
      subst (Woken (t j))
        (sym (wakeup_lem chan me t j ∙ ap (λ b. if b then wake chan (t j) else t j) other)) same
]

-- A child of `p` becomes one of `init`.
abbrev pub adopt : ℕ → ℕ → Proc → Proc
adopt init p q = record q { parent = if is_child q.parent p then some init else q.parent }

module _ (proc_addr : ℕ → ℕ) (init : ℕ) where
  adopt-Woken : (p : ℕ) {a b : Proc} → Woken a b → Woken (adopt init p a) (adopt init p b)
  adopt-Woken p same = same
  adopt-Woken p (awake s e) = awake s (ap (adopt init p) e)

  abbrev round : ℕ → ℕ → Table → Table
  round i p t =
      if is_child (t i).parent p
      then wakeup (proc_addr init) (some p) (update t i (record (t i) { parent = some init }))
      else t

  adopt_eq :
      (p : ℕ) (q : Proc) {b : Bool}
      → is_child q.parent p ≡ b
      → adopt init p q ≡ record q { parent = if b then some init else q.parent }
  adopt_eq p q e = ap (λ c. record q { parent = if c then some init else q.parent }) e

  at_eq :
      (t : Table) (i j : ℕ) (f : Proc → Proc) (x : Proc)
      → f (t i) ≡ x
      → (if i == j then f (t j) else t j) ≡ update t i x j
  at_eq t i j f x e = elim (ℕ_discrete i j) [
    | yes d ↦ subst (λ k. (if i == k then f (t k) else t k) ≡ update t i x k) d (ground (arith, e))
    | no ne ↦ ground arith
  ]

  at_self :
      (t : Table) (i j : ℕ) (f : Proc → Proc)
      → f (t i) ≡ t i
      → (if i == j then f (t j) else t j) ≡ t j
  at_self t i j f e = elim (ℕ_discrete i j) [
    | yes d ↦ subst (λ k. (if i == k then f (t k) else t k) ≡ t k) d (ground (arith, e))
    | no ne ↦ ground arith
  ]

  round-Woken :
      (i p : ℕ) (t : Table) (j : ℕ)
      → Woken (if i == j then adopt init p (t j) else t j) (round i p t j)
  round-Woken i p t j = elim (Bool-cases (is_child (t i).parent p)) [
    | inl child ↦ rw child (
        subst
          (λ q.
            Woken q (
              wakeup (proc_addr init) (some p) (update t i (record (t i) { parent = some init }))
                j))
          (sym (at_eq t i j (adopt init p) _ (adopt_eq p (t i) child)))
          (wakeup-Woken (proc_addr init) (some p) (update t i (record (t i) { parent = some init }))
            j))
    | inr other ↦ rw other (
        subst (λ q. Woken q (t j)) (sym (at_self t i j (adopt init p) (adopt_eq p (t i) other)))
          same)
  ]

  abbrev among : ℕ → ℕ → ℕ → Bool
  among i left j = leb i j && ltb j (i + left)

  abbrev adopted : Bool → ℕ → Proc → Proc
  adopted b p q = if b then adopt init p q else q

  adopted-Woken :
      (b : Bool) (p : ℕ) {q r : Proc} → Woken q r → Woken (adopted b p q) (adopted b p r)
  adopted-Woken true p w = adopt-Woken p w
  adopted-Woken false p w = w

  rounds-Woken :
      (left i p : ℕ) (t u : Table) (j : ℕ) (r : Proc)
      → Woken (if i == j then adopt init p (t j) else t j) (u j)
      → Woken (adopted (among (i + 1) left j) p (u j)) r
      → Woken (adopted (among i (suc left) j) p (t j)) r
  rounds-Woken left i p t u j r first rest = elim (ℕ_discrete i j) [
    | yes e ↦
        subst (λ b. Woken (adopted b p (t j)) r) (sym (inside e))
          (Woken-trans (subst (λ b. Woken (adopted b p (t j)) (u j)) (tested e) first)
            (subst (λ b. Woken (adopted b p (u j)) r) (behind e) rest))
    | no ne ↦
        subst (λ b. Woken (adopted b p (t j)) r) (sym (apart ne))
          (Woken-trans
            (adopted-Woken (among (i + 1) left j) p
              (subst (λ b. Woken (adopted b p (t j)) (u j)) (missed ne) first))
            rest)
  ]
    where
      inside : i ≡ j → among i (suc left) j ≡ true
      inside e = ground arith

      tested : i ≡ j → (i == j) ≡ true
      tested e = ground arith

      behind : i ≡ j → among (i + 1) left j ≡ false
      behind e = ground arith

      apart : i ≢ j → among i (suc left) j ≡ among (i + 1) left j
      apart ne = ground arith

      missed : i ≢ j → (i == j) ≡ false
      missed ne = ground arith

  reparent_from-Woken :
      (left i p : ℕ) (t : Table) (j : ℕ)
      → Woken (adopted (among i left j) p (t j)) (reparent_from proc_addr init left i p t j)
  unfolding reparent_from
  reparent_from-Woken zero i p t j = subst (λ b. Woken (adopted b p (t j)) (t j)) none_left same
    where
      none_left : false ≡ among i 0 j
      none_left = ground arith
  reparent_from-Woken (suc left) i p t j =
      rounds-Woken left i p t (round i p t) j _ (round-Woken i p t j)
        (reparent_from-Woken left (i + 1) p (round i p t) j)

  -- Each process of the table that was a child of `p` is a child of `init` after `reparent`; apart from
  -- that, a process is as it was or has been woken up.
  pub reparent_lem :
      (p : ℕ) (t : Table) (j : ℕ)
      → j < nproc
      → Woken (adopt init p (t j)) (reparent proc_addr init p t j)
  unfolding reparent
  reparent_lem p t j lt =
      subst (λ b. Woken (adopted b p (t j)) (reparent_from proc_addr init nproc 0 p t j)) inside
        (reparent_from-Woken nproc 0 p t j)
    where
      inside : among 0 nproc j ≡ true
      inside = ground arith
