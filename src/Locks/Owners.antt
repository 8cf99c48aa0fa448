-- ===== src/Locks/Owners.antt =====
-- The CPUs of a machine that take and release the locks of kernel/spinlock.c, in any order.
use so_final_proyect.Prelude.{
  ℕ, ◌+◌, ◌<◌, ◌≡◌, ◌≢◌, inl, inr, List, [], ◌∷◌, arith, Bool, Bool-cases, true, false, Option,
  none, some, if◌then◌else◌, ◌==◌, All, Among, Distinct, length, update, ok, subst,
}
use so_final_proyect.Locks.{Cpu, Spinlock, push_off, pop_off, acquire_begin, acquire_swap, release}

-- A CPU with the locks that it has taken, the calls of `push_off` of its own that are not matched
-- yet, and the lock in whose `acquire` it spins.
pub record Hart : Type 0 where
  pub cpu : Cpu
  pub held : List ℕ
  pub bare : ℕ
  pub spins : Option ℕ

pub record System : Type 0 where
  pub lock : ℕ → Spinlock
  pub hart : ℕ → Hart

-- The list without the first place of the value.
abbrev pub without : ℕ → List ℕ → List ℕ
without l [] = []
without l (x ∷ xs) = if x == l then xs else x ∷ without l xs

abbrev pub put_hart : ℕ → Hart → System → System
put_hart k h s = record s { hart = update s.hart k h }

abbrev pub put_lock : ℕ → Spinlock → System → System
put_lock l lk s = record s { lock = update s.lock l lk }

-- What CPU `k` may do when it spins on no lock, and the rounds of the loop when it does.
pub data Step (s : System) : System → Type 0 where
  masks :
      (k : ℕ)
      → (s.hart k).spins ≡ none
      → Step s (
          put_hart k
            (record (s.hart k) { cpu = push_off (s.hart k).cpu; bare = (s.hart k).bare + 1 })
            s)
  unmasks :
      (k n : ℕ) (c : Cpu)
      → (s.hart k).spins ≡ none
      → (s.hart k).bare ≡ n + 1
      → pop_off (s.hart k).cpu ≡ ok c
      → Step s (put_hart k (record (s.hart k) { cpu = c; bare = n }) s)
  -- `intr_on` and `intr_off`, outside of any mask.
  switches :
      (k : ℕ) (on : Bool)
      → (s.hart k).cpu.noff ≡ 0
      → Step s (put_hart k (record (s.hart k) { cpu = record (s.hart k).cpu { intr = on } }) s)
  begins :
      (k l : ℕ) (c : Cpu)
      → (s.hart k).spins ≡ none
      → acquire_begin k (s.lock l) (s.hart k).cpu ≡ ok c
      → Step s (put_hart k (record (s.hart k) { cpu = c; spins = some l }) s)
  takes :
      (k l : ℕ) (lk : Spinlock)
      → (s.hart k).spins ≡ some l
      → acquire_swap k (s.lock l) ≡ some lk
      → Step s (
          put_lock l lk
            (put_hart k (record (s.hart k) { spins = none; held = l ∷ (s.hart k).held }) s))
  releases :
      (k l : ℕ) (lk : Spinlock) (c : Cpu)
      → (s.hart k).spins ≡ none
      → release k (s.lock l) (s.hart k).cpu ≡ ok (lk, c)
      → Step s (
          put_lock l lk
            (put_hart k (record (s.hart k) { cpu = c; held = without l (s.hart k).held }) s))

pub data Reach (s : System) : System → Type 0 where
  here : Reach s s
  next : {t u : System} → Reach s t → Step t u → Reach s u

abbrev pub pending : Option ℕ → ℕ
pending none = 0
pending (some l) = 1

-- The lock as CPU `k` leaves it when it takes it.
abbrev pub taken_by : ℕ → Spinlock
taken_by k = record { locked = true; cpu = some k }

-- `noff` counts the locks, the calls of `push_off` and the `acquire` under way; interrupts are off
-- while it is positive; and the locks that the CPU has taken are those that name it.
pub record Sound (lock : ℕ → Spinlock) (k : ℕ) (h : Hart) : Type 0 where
  pub depth : h.cpu.noff ≡ length h.held + h.bare + pending h.spins
  pub off : 0 < h.cpu.noff → h.cpu.intr ≡ false
  pub mine : All (λ l. lock l ≡ taken_by k) h.held
  pub owned : (l : ℕ) → lock l ≡ taken_by k → Among l h.held
  pub distinct : Distinct h.held

abbrev pub Inv : System → Type 0
Inv s = (k : ℕ) → Sound s.lock k (s.hart k)

pub without-length : (l : ℕ) (xs : List ℕ) → Among l xs → length xs ≡ length (without l xs) + 1
without-length l [] m = absurd m
without-length l (x ∷ xs) m = ground (arith, without-length l xs)

pub without-All : (P : ℕ → Type 0) (l : ℕ) (xs : List ℕ) → All P xs → All P (without l xs)
without-All P l [] h = tt
without-All P l (x ∷ xs) h = ground (arith, without-All P l xs h.1)

pub without-Distinct : (l : ℕ) (xs : List ℕ) → Distinct xs → Distinct (without l xs)
without-Distinct l [] h = tt
without-Distinct l (x ∷ xs) h =
    ground (arith, without-All (λ y. y ≢ x) l xs h.0, without-Distinct l xs h.1)

pub without-other : (l m : ℕ) (xs : List ℕ) → m ≢ l → Among m xs → Among m (without l xs)
without-other l m [] ne a = absurd a
without-other l m (x ∷ xs) ne a = ground (arith, without-other l m xs ne)

pub without-gone : (l : ℕ) (xs : List ℕ) → Distinct xs → All (λ m. m ≢ l) (without l xs)
without-gone l [] h = tt
without-gone l (x ∷ xs) h = elim (Bool-cases (x == l)) [
  | inl e ↦ rw e (subst (λ k. All (λ m. m ≢ k) xs) (same e) h.0)
  | inr e ↦ rw e (other e, without-gone l xs h.1)
]
  where
    same : (x == l) ≡ true → x ≡ l
    same e = ground arith

    other : (x == l) ≡ false → x ≢ l
    other e = ground arith
