-- ===== src/Bcache/Lists.antt =====
-- A node taken from its place in a list and put in front.
use so_final_proyect.Prelude.{
  ℕ, ◌≡◌, ◌≢◌, inl, inr, refl, ap, sym, subst, arith, List, [], ◌∷◌, ◌++◌, All, All-append,
  All-left, All-right, Among, Distinct, length, length-append,
}

pub All-at : (P : ℕ → Type 0) {a : ℕ} (xs : List ℕ) → All P xs → Among a xs → P a
All-at P [] h m = absurd m
All-at P (x ∷ xs) h (inl e) = subst P (sym e) h.0
All-at P (x ∷ xs) h (inr m) = All-at P xs h.1 m

-- The place of a member.
pub Among-split :
    (a : ℕ) (xs : List ℕ) → Among a xs → (l : List ℕ) × (r : List ℕ) × (xs ≡ l ++ (a ∷ r))
Among-split a [] m = absurd m
Among-split a (x ∷ xs) (inl e) = ([], xs, ap (λ y. y ∷ xs) (sym e))
Among-split a (x ∷ xs) (inr m) =
    let (l, r, e) = Among-split a xs m in (x ∷ l, r, ap (λ ys. x ∷ ys) e)

pub Among-here : (a : ℕ) (l r : List ℕ) → Among a (l ++ (a ∷ r))
Among-here a [] r = inl refl
Among-here a (x ∷ l) r = inr (Among-here a l r)

pub Among-front : (a b : ℕ) (l r : List ℕ) → Among b (l ++ (a ∷ r)) → Among b (a ∷ (l ++ r))
Among-front a b [] r m = m
Among-front a b (x ∷ l) r (inl e) = inr (inl e)
Among-front a b (x ∷ l) r (inr m) = elim (Among-front a b l r m) [
  | inl e ↦ inl e
  | inr n ↦ inr (inr n)
]

pub All-front :
    (P : ℕ → Type 0) (a : ℕ) (l r : List ℕ) → All P (l ++ (a ∷ r)) → All P (a ∷ (l ++ r))
All-front P a l r h =
    ((All-right P l (a ∷ r) h).0, All-append P l r (All-left P l _ h) (All-right P l (a ∷ r) h).1)

pub Distinct-front : (a : ℕ) (l r : List ℕ) → Distinct (l ++ (a ∷ r)) → Distinct (a ∷ (l ++ r))
Distinct-front a [] r d = d
Distinct-front a (x ∷ l) r d =
    let e = Distinct-front a l r d.1 in
    let off = All-front (λ y. y ≢ x) a l r d.0 in (((λ z. off.0 (sym z)), e.0), (off.1, e.1))

pub length-front : (a : ℕ) (l r : List ℕ) → length (l ++ (a ∷ r)) ≡ length (a ∷ (l ++ r))
length-front a l r = omega (arith, length-append l (a ∷ r), length-append l r)
