-- ===== src/Paths/Tests.antt =====
-- The path "//a/bb".
use so_final_proyect.Prelude.{ℕ, ◌≡◌, refl, some, List, [], ◌∷◌}
use so_final_proyect.Paths.{skipelem}
use so_final_proyect.Paths.Fields.{Cut, skipelem_lem}

abbrev path : List ℕ
path = 47 ∷ 47 ∷ 97 ∷ 47 ∷ 98 ∷ 98 ∷ []

first_element : skipelem path ≡ some (97 ∷ [], 98 ∷ 98 ∷ [])
unfolding skipelem
first_element = refl

skipelem_lem_example : Cut path (skipelem path)
skipelem_lem_example = skipelem_lem path
