-- ===== src/Grep.antt =====
-- The matcher of regular expressions of user/grep.c.
-- A string is the list of its characters before the NUL.
pub mod Language
pub mod Match
mod Tests
use so_final_proyect.Prelude.{ℕ, Bool, true, false, ◌&&◌, ◌||◌, List, [], ◌∷◌, ◌==◌, if◌then◌else◌}

-- The characters '*', '$', '.' and '^'.
abbrev pub star : ℕ
star = 42

abbrev pub dollar : ℕ
dollar = 36

abbrev pub dot : ℕ
dot = 46

abbrev pub caret : ℕ
caret = 94

abbrev pub is_empty : List ℕ → Bool
is_empty [] = true
is_empty (x ∷ xs) = false

-- `here` is `matchhere` of the rest of the expression.
pub matchstar : ℕ → (List ℕ → Bool) → List ℕ → Bool
matchstar c here [] = here []
matchstar c here (t ∷ ts) =
    let rest = matchstar c here ts in
    if here (t ∷ ts) then true else if t == c || c == dot then rest else false

-- One character of the expression that is no operator.
abbrev pub matchone : ℕ → (List ℕ → Bool) → List ℕ → Bool
matchone c here [] = false
matchone c here (t ∷ ts) = if c == dot || c == t then here ts else false

pub matchhere : List ℕ → List ℕ → Bool
unfolding matchstar
matchhere [] = λ text. true
matchhere (c ∷ []) = λ text. if c == dollar then is_empty text else matchone c (matchhere []) text
matchhere (c ∷ d ∷ re) =
    let after = matchhere re in
    let next = matchhere (d ∷ re) in
    λ text. if d == star then matchstar c after text else matchone c next text

-- The loop of `match`.
pub match_from : List ℕ → List ℕ → Bool
match_from re [] = matchhere re []
match_from re (t ∷ ts) = let rest = match_from re ts in if matchhere re (t ∷ ts) then true else rest

pub match_re : List ℕ → List ℕ → Bool
match_re [] text = match_from [] text
match_re (c ∷ re) text = if c == caret then matchhere re text else match_from (c ∷ re) text
