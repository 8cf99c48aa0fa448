-- ===== src/Grep/Language.antt =====
-- The language of an expression of user/grep.c, and the two steps of its matcher.
use so_final_proyect.Prelude.{
  ℕ, ◌≡◌, inl, inr, refl, ap, sym, subst, arith, Bool, Bool-cases, true, false, ◌||◌, List, [], ◌∷◌,
  ◌++◌, ◌==◌, if◌then◌else◌,
}
use so_final_proyect.Grep.{star, dollar, dot, matchstar, matchone}

-- An expression is a sequence of items, one character or any number of it, and may end in a '$'.
pub data Item : Type 0 where
  one many : ℕ → Item

abbrev pub accepts : ℕ → ℕ → Bool
accepts c t = t == c || c == dot

abbrev pub parse : List ℕ → List Item × Bool
parse [] = ([], false)
parse (c ∷ []) = if c == dollar then ([], true) else (one c ∷ [], false)
parse (c ∷ d ∷ re) =
    let after = parse re in
    let next = parse (d ∷ re) in
    if d == star then (many c ∷ after.0, after.1) else (one c ∷ next.0, next.1)

-- The strings that a sequence of items stands for.
pub data In : List Item → List ℕ → Type 0 where
  nil : In [] []
  char :
      {c t : ℕ} {is : List Item} {p : List ℕ}
      → accepts c t ≡ true
      → In is p
      → In (one c ∷ is) (t ∷ p)
  more :
      {c t : ℕ} {is : List Item} {p : List ℕ}
      → accepts c t ≡ true
      → In (many c ∷ is) p
      → In (many c ∷ is) (t ∷ p)
  skip : {c : ℕ} {is : List Item} {p : List ℕ} → In is p → In (many c ∷ is) p

-- The text starts with a string of the items, and is that string if the expression ends in a '$'.
abbrev pub Starts : List Item → Bool → List ℕ → Type 0
Starts is end text =
    (p : List ℕ) × (rest : List ℕ) × (text ≡ p ++ rest) × In is p × (end ≡ true → rest ≡ [])

Starts-skip :
    (c : ℕ) (is : List Item) (end : Bool) (t : List ℕ)
    → Starts is end t
    → Starts (many c ∷ is) end t
Starts-skip c is end t (p, r, e, i, a) = (p, r, e, skip i, a)

-- A '*' over a matcher of the rest.
module _ (c : ℕ) (here : List ℕ → Bool) (is : List Item) (end : Bool)
    (sound : (t : List ℕ) → here t ≡ true → Starts is end t)
    (complete : (t : List ℕ) → Starts is end t → here t ≡ true) where
  pub matchstar_sound : (t : List ℕ) → matchstar c here t ≡ true → Starts (many c ∷ is) end t
  unfolding matchstar
  matchstar_sound [] h = Starts-skip c is end [] (sound [] h)
  matchstar_sound (t ∷ ts) h = elim (Bool-cases (here (t ∷ ts))) [
    | inl e ↦ Starts-skip c is end (t ∷ ts) (sound (t ∷ ts) e)
    | inr e ↦ elim (Bool-cases (accepts c t)) [
      | inl a ↦
          let (p, r, s, i, z) = matchstar_sound ts (rw (e, a) at h) in
          (t ∷ p, r, ap (λ xs. t ∷ xs) s, more a i, z)
      | inr a ↦ absurd (cc (rw (e, a) at h))
    ]
  ]

  matchstar_here : (t : List ℕ) → here t ≡ true → matchstar c here t ≡ true
  unfolding matchstar
  matchstar_here [] h = h
  matchstar_here (t ∷ ts) h = rw h

  pub matchstar_complete :
      (t p rest : List ℕ)
      → t ≡ p ++ rest
      → In (many c ∷ is) p
      → (end ≡ true → rest ≡ [])
      → matchstar c here t ≡ true
  unfolding matchstar
  matchstar_complete t p rest e i z = go p rest z i t e
    where
      go :
          (p rest : List ℕ)
          → (end ≡ true → rest ≡ [])
          → In (many c ∷ is) p
          → (t : List ℕ) → t ≡ p ++ rest
          → matchstar c here t ≡ true
      go p rest z (skip i) t e = matchstar_here t (complete t (p, rest, e, i, z))
      go (t ∷ p) rest z (more a i) text e =
          subst (λ x. matchstar c here x ≡ true) (sym e) (step (go p rest z i (p ++ rest) refl))
        where
          step : matchstar c here (p ++ rest) ≡ true → matchstar c here (t ∷ p ++ rest) ≡ true
          step h = elim (Bool-cases (here (t ∷ p ++ rest))) [ inl y ↦ rw y | inr n ↦ rw (n, a, h) ]

  pub matchone_sound : (t : List ℕ) → matchone c here t ≡ true → Starts (one c ∷ is) end t
  matchone_sound [] h = absurd (cc h)
  matchone_sound (t ∷ ts) h = elim (Bool-cases (c == dot || c == t)) [
    | inl a ↦
        let (p, r, s, i, z) = sound ts (rw a at h) in
        (t ∷ p, r, ap (λ xs. t ∷ xs) s, char (ground (arith, a)) i, z)
    | inr a ↦ absurd (cc (rw a at h))
  ]

  pub matchone_complete : (t : List ℕ) → Starts (one c ∷ is) end t → matchone c here t ≡ true
  matchone_complete t (p, rest, e, i, z) = go p i e
    where
      go : (p : List ℕ) → In (one c ∷ is) p → t ≡ p ++ rest → matchone c here t ≡ true
      go [] i e = elim i [ ]
      go (x ∷ p) (char a i) e =
          subst (λ y. matchone c here y ≡ true) (sym e)
            (rw (swap a) (complete (p ++ rest) (p, rest, refl, i, z)))
        where
          swap : accepts c x ≡ true → (c == dot || c == x) ≡ true
          swap h = ground arith
