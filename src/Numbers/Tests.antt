-- ===== src/Numbers/Tests.antt =====
-- Numbers printed and read.
use so_final_proyect.Prelude.{◌≡◌, ◌≤◌, refl, arith, true, [], ◌∷◌, length}
use so_final_proyect.Prelude.Int.{pos, negsuc}
use so_final_proyect.Numbers.{printint, buffer, atoi}
use so_final_proyect.Numbers.Digits.{atoi-printint, buffer_fits}

-- "-42".
minus_42 : printint (negsuc 41) 10 true ≡ 45 ∷ 52 ∷ 50 ∷ []
unfolding buffer so_final_proyect.Numbers.fill
minus_42 = refl

atoi-printint_example : atoi (printint (pos 2026) 10 true) ≡ 2026
atoi-printint_example = atoi-printint 2026 true (omega arith)

buffer_fits_example : length (buffer (negsuc 9223372036854775807) 10 true) ≤ 20
buffer_fits_example = buffer_fits (negsuc 9223372036854775807) true (omega arith)
