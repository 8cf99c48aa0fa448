-- ===== src/Locks/Masks.antt =====
-- `push_off` and `pop_off` of kernel/spinlock.c are matched.
use so_final_proyect.Prelude.{
  ℕ, zero, suc, ◌+◌, ◌-◌, ◌≤◌, ◌≡◌, refl, ap, ◌∙◌, arith, true, false, Bool, Result, ok, ◌>>=◌,
}
use native.Mathlib.Nat.{le_refl}
use so_final_proyect.Locks.{Cpu, push_off, pop_off, unmask}

-- That many calls.
abbrev pub pushes : ℕ → Cpu → Cpu
pushes zero c = c
pushes (suc n) c = pushes n (push_off c)

abbrev pub pops : ℕ → Cpu → Result Cpu
pops zero c = ok c
pops (suc n) c = pops n c >>= pop_off

-- A CPU with interrupts masked, at depth `n`.
abbrev masked : ℕ → Bool → Cpu
masked n on = record { noff = n; intena = on; intr = false }

push_off-masked : (d : ℕ) (on : Bool) → push_off (masked (suc d) on) ≡ masked (suc (suc d)) on
push_off-masked d on = ground arith

pushes-masked : (n d : ℕ) (on : Bool) → pushes n (masked (suc d) on) ≡ masked (suc (n + d)) on
pushes-masked zero d on = ap (λ k. masked k on) (omega arith)
pushes-masked (suc n) d on =
    ap (pushes n) (push_off-masked d on)
    ∙ pushes-masked n (suc d) on
    ∙ ap (λ k. masked k on) (omega arith)

pop_off-masked : (d : ℕ) (on : Bool) → pop_off (masked (suc (suc d)) on) ≡ ok (masked (suc d) on)
pop_off-masked d on = ground arith

pops-masked : (m d : ℕ) (on : Bool) → pops m (masked (suc (m + d)) on) ≡ ok (masked (suc d) on)
pops-masked zero d on = ap (λ k. ok (masked k on)) (omega arith)
pops-masked (suc m) d on =
    ap (λ k. pops m (masked k on) >>= pop_off) (omega arith)
    ∙ ap (λ r. r >>= pop_off) (pops-masked m (suc d) on)
    ∙ pop_off-masked d on

-- However deep the calls are nested, as many `pop_off` as there were `push_off` panic nowhere; all but
-- the last leave interrupts off, and the last leaves them as they were before the first `push_off`.
pub pushes-pops :
    (n : ℕ) (c : Cpu)
    → c.noff ≡ 0
    → ((m : ℕ) → m ≤ n → (d : Cpu) × (pops m (pushes (suc n) c) ≡ ok d) × (d.intr ≡ false))
      × ((d : Cpu) × (pops (suc n) (pushes (suc n) c) ≡ ok d) × (d.noff ≡ 0) × (d.intr ≡ c.intr))
pushes-pops n c z = (
  λ m le.
      (masked (suc (n - m)) c.intr, ap (pops m) (deep m le) ∙ pops-masked m (n - m) c.intr, refl),
  (
    unmask (masked 0 c.intr),
    ap (λ d. pops n d >>= pop_off) (deep n (le_refl n))
        ∙ ap (λ k. pops n (masked (suc (n + k)) c.intr) >>= pop_off) (omega arith)
        ∙ ap (λ r. r >>= pop_off) (pops-masked n 0 c.intr),
    (last c.intr).0,
    (last c.intr).1,
  ),
)
  where
    first : push_off c ≡ masked 1 c.intr
    first = rw z

    deep : (m : ℕ) → m ≤ n → pushes (suc n) c ≡ masked (suc (m + (n - m))) c.intr
    deep m le =
        ap (pushes n) first ∙ pushes-masked n 0 c.intr ∙ ap (λ k. masked k c.intr) (omega arith)

    last : (on : Bool) → ((unmask (masked 0 on)).noff ≡ 0) × ((unmask (masked 0 on)).intr ≡ on)
    last true = (refl, refl)
    last false = (refl, refl)
