-- ===== src/Grep/Match.antt =====
-- What the matcher of user/grep.c decides.
use so_final_proyect.Prelude.{
  ℕ, ◌≡◌, ◌↔◌, inl, inr, refl, ap, sym, ◌∙◌, subst, Bool-cases, true, false, List, [], ◌∷◌, ◌++◌,
  ◌==◌, if◌then◌else◌,
}
use so_final_proyect.Grep.{star, dollar, caret, is_empty, matchhere, match_from, match_re}
use so_final_proyect.Grep.Language.{
  parse, In, nil, Starts, matchstar_sound, matchstar_complete, matchone_sound, matchone_complete,
}

empty_sound : (t : List ℕ) → matchhere [] t ≡ true → Starts [] false t
empty_sound t h = ([], t, refl, nil, λ e. absurd (cc e))

empty_complete : (t : List ℕ) → Starts [] false t → matchhere [] t ≡ true
unfolding matchhere
empty_complete t s = refl

end_sound : (t : List ℕ) → is_empty t ≡ true → Starts [] true t
end_sound [] h = ([], [], refl, nil, λ e. refl)
end_sound (x ∷ xs) h = absurd (cc h)

end_complete : (t : List ℕ) → Starts [] true t → is_empty t ≡ true
end_complete t (p, rest, e, i, z) = go p i (e ∙ ap (λ r. p ++ r) (z refl))
  where
    go : (p : List ℕ) → In [] p → t ≡ p ++ [] → is_empty t ≡ true
    go [] i e = ap is_empty e
    go (x ∷ p) i e = elim i [ ]

-- `matchhere` decides whether the text starts with a string of the expression, and is that string if the
-- expression ends in a '$'.
pub matchhere_lem :
    (re text : List ℕ) → (matchhere re text ≡ true) ↔ Starts (parse re).0 (parse re).1 text
unfolding matchhere
matchhere_lem [] text = (empty_sound text, λ s. refl)
matchhere_lem (c ∷ []) text = elim (Bool-cases (c == dollar)) [
  | inl e ↦ rw e (end_sound text, end_complete text)
  | inr e ↦ rw e (
    matchone_sound c (matchhere []) [] false empty_sound empty_complete text,
    matchone_complete c (matchhere []) [] false empty_sound empty_complete text,
  )
]
matchhere_lem (c ∷ d ∷ re) text = elim (Bool-cases (d == star)) [
  | inl e ↦ rw e (
    matchstar_sound c (matchhere re) _ _ (λ t. (matchhere_lem re t).0) (λ t. (matchhere_lem re t).1)
        text,
    λ s.
        matchstar_complete c (matchhere re) _ _ (λ t. (matchhere_lem re t).0)
          (λ t. (matchhere_lem re t).1) text s.0 s.1 s.2 s.3 s.4,
  )
  | inr e ↦ rw e (
    matchone_sound c (matchhere (d ∷ re)) _ _ (λ t. (matchhere_lem (d ∷ re) t).0)
        (λ t. (matchhere_lem (d ∷ re) t).1) text,
    matchone_complete c (matchhere (d ∷ re)) _ _ (λ t. (matchhere_lem (d ∷ re) t).0)
        (λ t. (matchhere_lem (d ∷ re) t).1) text,
  )
]

match_from_sound :
    (re text : List ℕ)
    → match_from re text ≡ true
    → (pre : List ℕ) × (t : List ℕ) × (text ≡ pre ++ t) × Starts (parse re).0 (parse re).1 t
unfolding match_from
match_from_sound re [] h = ([], [], refl, (matchhere_lem re []).0 h)
match_from_sound re (t ∷ ts) h = elim (Bool-cases (matchhere re (t ∷ ts))) [
  | inl e ↦ ([], t ∷ ts, refl, (matchhere_lem re (t ∷ ts)).0 e)
  | inr e ↦
      let (pre, u, s, m) = match_from_sound re ts (rw e at h) in
      (t ∷ pre, u, ap (λ xs. t ∷ xs) s, m)
]

match_from_complete :
    (re pre t : List ℕ) → Starts (parse re).0 (parse re).1 t → match_from re (pre ++ t) ≡ true
unfolding match_from
match_from_complete re [] [] s = (matchhere_lem re []).1 s
match_from_complete re [] (t ∷ ts) s = rw ((matchhere_lem re (t ∷ ts)).1 s)
match_from_complete re (x ∷ pre) t s = elim (Bool-cases (matchhere re (x ∷ pre ++ t))) [
  | inl e ↦ rw e
  | inr e ↦ rw e (match_from_complete re pre t s)
]

-- What `match` is to find: a string of the expression anywhere in the text, at its start if the expression
-- begins with a '^', and at its end if it ends in a '$'.
abbrev pub Occurs : List ℕ → List ℕ → Type 0
Occurs re text =
    (pre : List ℕ) × (t : List ℕ) × (text ≡ pre ++ t) × Starts (parse re).0 (parse re).1 t

abbrev pub Matches : List ℕ → List ℕ → Type 0
Matches [] text = Occurs [] text
Matches (c ∷ re) text =
    if c == caret then Starts (parse re).0 (parse re).1 text else Occurs (c ∷ re) text

Occurs-match_from : (re text : List ℕ) → Occurs re text → match_from re text ≡ true
Occurs-match_from re text (pre, t, e, s) =
    subst (λ x. match_from re x ≡ true) (sym e) (match_from_complete re pre t s)

-- `match` returns 1 exactly if a string of the expression occurs in the text: anywhere, or at its start
-- if the expression begins with a '^', and at its end if the expression ends in a '$'.
pub match_lem : (re text : List ℕ) → (match_re re text ≡ true) ↔ Matches re text
unfolding match_re
match_lem [] text = (match_from_sound [] text, Occurs-match_from [] text)
match_lem (c ∷ re) text = elim (Bool-cases (c == caret)) [
  | inl e ↦ rw e (matchhere_lem re text)
  | inr e ↦ rw e (match_from_sound (c ∷ re) text, Occurs-match_from (c ∷ re) text)
]
