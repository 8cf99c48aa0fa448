-- ===== src/Strings/Copy.antt =====
-- `strncpy` and `safestrcpy` of kernel/string.c, between places that do not overlap.
use so_final_proyect.Prelude.{
  ℕ, zero, suc, ◌+◌, ◌-◌, ◌≤◌, ◌<◌, ◌≡◌, ◌≢◌, ◌⊎◌, inl, inr, refl, ap, arith, ◌==◌, if◌then◌else◌,
  update, Bool-cases, false,
}
use so_final_proyect.Prelude.Int.{pos, negsuc}
use so_final_proyect.Strings.{Memory, pad, strncpy_from, strncpy, safestrcpy_from, safestrcpy}
use so_final_proyect.Strings.Blocks.{within}

-- Byte `i` of the text at `t`, which goes on with 0 bytes behind its end.
pub padded : ℕ → ℕ → Memory → ℕ
padded t zero m = m t
padded t (suc i) m = if m t == 0 then 0 else padded (t + 1) i m

padded-nul : (t i : ℕ) (m : Memory) → m t ≡ 0 → padded t i m ≡ 0
unfolding padded
padded-nul t zero m e = e
padded-nul t (suc i) m e = ground arith

padded-update :
    (t i s v : ℕ) (m : Memory) → (s < t) ⊎ (t + i < s) → padded t i (update m s v) ≡ padded t i m
unfolding padded
padded-update t zero s v m h = ground arith
padded-update t (suc i) s v m h = ground (arith, padded-update (t + 1) i s v m)

pad_lem : (s n : ℕ) (m : Memory) (q : ℕ) → pad s n m q ≡ (if within s n q then 0 else m q)
unfolding pad
pad_lem s zero m q = ground arith
pad_lem s (suc n) m q = ground (arith, pad_lem (s + 1) n (update m s 0) q)

padded-step :
    (t i : ℕ) (m : Memory) → (m t == 0) ≡ false → 0 < i → padded t i m ≡ padded (t + 1) (i - 1) m
unfolding padded
padded-step t zero m e h = absurd (omega arith)
padded-step t (suc i) m e h = rw e (ap (λ k. padded (t + 1) k m) (omega arith))

padded-first : (t i : ℕ) (m : Memory) → i ≡ 0 → padded t i m ≡ m t
unfolding padded
padded-first t zero m e = refl
padded-first t (suc i) m e = absurd (omega arith)

strncpy_from_lem :
    (n s t : ℕ) (m : Memory) (q : ℕ)
    → (s + n ≤ t) ⊎ (t + n ≤ s)
    → strncpy_from s t n m q ≡ (if within s n q then padded t (q - s) m else m q)
unfolding strncpy_from
strncpy_from_lem zero s t m q h = ground arith
strncpy_from_lem (suc n) s t m q h = elim (Bool-cases (m t == 0)) [
  | inl ends ↦ ground (arith, pad_lem (s + 1) n (update m s (m t)) q, padded-nul t (q - s) m)
  | inr goes ↦ elim (Bool-cases (q == s)) [
    | inl here ↦
        ground
          (arith, strncpy_from_lem n (s + 1) (t + 1) (update m s (m t)) q, padded-first t (q - s) m)
    | inr other ↦ ground (
      arith,
      strncpy_from_lem n (s + 1) (t + 1) (update m s (m t)) q,
      padded-update (t + 1) (q - (s + 1)) s (m t) m,
      padded-step t (q - s) m goes,
    )
  ]
]

-- `strncpy` writes exactly `n` bytes at `s`: the text at `t` up to its end or `n` bytes of it, then
-- 0 bytes; no other byte changes. With a negative `n` nothing is written.
pub strncpy_lem :
    (s t n : ℕ) (m : Memory)
    → (s + n ≤ t) ⊎ (t + n ≤ s)
    → ((q : ℕ) → strncpy s t (pos n) m q ≡ (if within s n q then padded t (q - s) m else m q))
      × ((k : ℕ) → strncpy s t (negsuc k) m ≡ m)
unfolding strncpy strncpy_from
strncpy_lem s t n m h = (λ q. strncpy_from_lem n s t m q h, λ k. refl)

-- What `safestrcpy` leaves behind in the `left + 1` bytes at `s`: `k` bytes of the text at `t`, none of
-- them 0, and a 0 byte; it stops at the text's end or for lack of room.
pub record Terminated (m m' : Memory) (s t left k : ℕ) : Type 0 where
  pub room : k ≤ left
  pub text : (j : ℕ) → j < k → (m' (s + j) ≡ m (t + j)) × (m (t + j) ≢ 0)
  pub ends : m' (s + k) ≡ 0
  pub why : (k ≡ left) ⊎ (m (t + k) ≡ 0)
  pub frame : (q : ℕ) → (q < s) ⊎ (s + left < q) → m' q ≡ m q

Terminated-suc :
    (m m' : Memory) (s t left k : ℕ)
    → (s + suc left < t) ⊎ (t + suc left < s)
    → m t ≢ 0
    → Terminated (update m s (m t)) m' (s + 1) (t + 1) left k
    → Terminated m m' s t (suc left) (suc k)
Terminated-suc m m' s t left k apart nz r = record {
  room = omega (arith, r.room);
  text = texts;
  ends = ground (arith, r.ends);
  why = ground (arith, r.why, r.room);
  frame = λ q out. ground (arith, r.frame q (omega arith));
}
  where
    texts : (j : ℕ) → j < suc k → (m' (s + j) ≡ m (t + j)) × (m (t + j) ≢ 0)
    texts zero lt = (ground (arith, r.frame s (omega arith)), ground arith)
    texts (suc j) lt = (ground (arith, r.text j, r.room), ground (arith, r.text j, r.room))

safestrcpy_from-Terminated :
    (left s t : ℕ) (m : Memory)
    → (s + left < t) ⊎ (t + left < s)
    → (k : ℕ) × Terminated m (safestrcpy_from s t left m) s t left k
unfolding safestrcpy_from
safestrcpy_from-Terminated zero s t m h = (
  0,
  record {
    room = omega arith;
    text = λ j lt. absurd (omega arith);
    ends = ground arith;
    why = inl refl;
    frame = λ q out. ground arith;
  },
)
safestrcpy_from-Terminated (suc left) s t m h = elim (Bool-cases (m t == 0)) [
  | inl at_end ↦ (
    0,
    record {
      room = omega arith;
      text = λ j lt. absurd (omega arith);
      ends = ground arith;
      why = inr (ground arith);
      frame = λ q out. ground arith;
    },
  )
  | inr goes ↦
      let (k, r) =
        safestrcpy_from-Terminated left (s + 1) (t + 1) (update m s (m t)) (omega arith) in
      (suc k, rw goes (Terminated-suc m _ s t left k h (ground arith) r))
]

-- With `n` at least 1 `safestrcpy` leaves a text that ends within its `n` bytes, and changes no byte
-- outside of them; with `n` 0 or negative it changes nothing.
pub safestrcpy_lem :
    (s t left : ℕ) (m : Memory)
    → (s + left < t) ⊎ (t + left < s)
    → ((k : ℕ) × Terminated m (safestrcpy s t (pos (suc left)) m) s t left k)
      × (safestrcpy s t (pos 0) m ≡ m)
      × ((i : ℕ) → safestrcpy s t (negsuc i) m ≡ m)
unfolding safestrcpy
safestrcpy_lem s t left m h = (safestrcpy_from-Terminated left s t m h, refl, λ i. refl)
