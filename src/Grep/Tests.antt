-- ===== src/Grep/Tests.antt =====
-- Expressions of user/grep.c on small texts: 97 is 'a', 98 is 'b'.
use so_final_proyect.Prelude.{ℕ, ◌≡◌, ◌↔◌, refl, true, false, List, [], ◌∷◌}
use so_final_proyect.Grep.{matchhere, match_re}
use so_final_proyect.Grep.Language.{Starts, parse}
use so_final_proyect.Grep.Match.{Matches, matchhere_lem, match_lem}

-- "a*b$" and the text "baab".
abbrev stars : List ℕ
stars = 97 ∷ 42 ∷ 98 ∷ 36 ∷ []

abbrev text : List ℕ
text = 98 ∷ 97 ∷ 97 ∷ 98 ∷ []

runs :
    (match_re stars text ≡ true)
    × (matchhere stars text ≡ false)
    × (match_re (94 ∷ stars) text ≡ false)
unfolding match_re so_final_proyect.Grep.match_from so_final_proyect.Grep.matchhere
    so_final_proyect.Grep.matchstar
runs = (refl, refl, refl)

matchhere_finds : (matchhere stars text ≡ true) ↔ Starts (parse stars).0 (parse stars).1 text
matchhere_finds = matchhere_lem stars text

match_lem_example : (match_re stars text ≡ true) ↔ Matches stars text
match_lem_example = match_lem stars text
