-- ===== src/Polynomial/Examples.antt =====
-- Products of polynomials in two variables.
use csympy.Prelude.{◌^◌, ◌-◌, ◌≡◌, refl, List, [], ◌∷◌}
use csympy.Prelude.Int.{ℤ, pos, negsuc, ◌+ℤ◌, ◌-ℤ◌, ◌*ℤ◌}
use csympy.Dict.{find, insert, update}
use csympy.Polynomial.{poly_mul, poly_rows, poly_row, monomial_mul, int_sum, add_at, eqb_vec}
use csympy.Vector.{at, assign, for_each, repeat}

-- x + y and x - y
abbrev sum_xy : List (List ℤ × ℤ)
sum_xy = (pos 1 ∷ pos 0 ∷ [], pos 1) ∷ (pos 0 ∷ pos 1 ∷ [], pos 1) ∷ []

abbrev difference_xy : List (List ℤ × ℤ)
difference_xy = (pos 1 ∷ pos 0 ∷ [], pos 1) ∷ (pos 0 ∷ pos 1 ∷ [], negsuc 0) ∷ []

-- A coefficient that comes to zero stays in the map.
product_xy :
    poly_mul sum_xy difference_xy []
    ≡ (pos 2 ∷ pos 0 ∷ [], pos 1)
      ∷ (pos 1 ∷ pos 1 ∷ [], pos 0)
      ∷ (pos 0 ∷ pos 2 ∷ [], negsuc 0)
      ∷ []
unfolding poly_mul poly_rows poly_row monomial_mul int_sum add_at eqb_vec find insert update at
    assign for_each repeat ◌+ℤ◌ ◌*ℤ◌
product_xy = refl

-- The largest `int` and 1.
int_sum_wraps : int_sum (pos (2 ^ 31 - 1)) (pos 1) ≡ negsuc (2 ^ 31 - 1)
unfolding int_sum ◌+ℤ◌ ◌-ℤ◌
int_sum_wraps = refl
