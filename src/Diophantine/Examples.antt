-- ===== src/Diophantine/Examples.antt =====
-- The system x - y = 0, and the vectors (2, 1) and (1, 1).
use csympy.Prelude.{ℕ, ◌≡◌, ◌<◌, ◌↔◌, refl, arith, true, [], ◌∷◌}
use csympy.Prelude.Int.{ℤ, pos, negsuc, ◌+ℤ◌, ◌-ℤ◌, ◌*ℤ◌}
use csympy.DenseMatrix.{
  DenseMatrix, entry, index, transpose_dense, mul_dense_dense, mul_entry, for_entries,
}
use csympy.DenseMatrix.Create.{zeros}
use csympy.DenseMatrix.Solve.{new_matrix}
use csympy.Diophantine.{
  all_from, matrix_eq, order_loop, order, is_minimum, no_matrix, next_vector, dot_product,
  push_vector, with_vector, try_column, lde_round, lde_rounds, start_lde, homogeneous_lde,
  integer_entries,
}
use csympy.Diophantine.Order.{IsBelow, is_minimum_iff}
use csympy.Diophantine.Matrices.{Each}
use csympy.Diophantine.Solutions.{IsSolution, homogeneous_lde-IsSolution}
use csympy.Vector.{at, assign, erase_at, for_each, repeat}

abbrev one_equation : DenseMatrix ℤ
one_equation = record { row = 1; col = 2; m = pos 1 ∷ negsuc 0 ∷ [] }

abbrev one_one : DenseMatrix ℤ
one_one = record { row = 1; col = 2; m = pos 1 ∷ pos 1 ∷ [] }

abbrev two_one : DenseMatrix ℤ
two_one = record { row = 1; col = 2; m = pos 2 ∷ pos 1 ∷ [] }

-- The basis has the vector (1, 1) alone, and the loop ends.
basis_one_one : homogeneous_lde 10 one_equation [] ≡ (one_one ∷ [], true)
unfolding homogeneous_lde lde_rounds lde_round start_lde try_column push_vector with_vector
    next_vector dot_product is_minimum order order_loop matrix_eq all_from entry index
    transpose_dense mul_dense_dense mul_entry for_entries zeros new_matrix at assign erase_at
    for_each repeat ◌+ℤ◌ ◌-ℤ◌ ◌*ℤ◌
basis_one_one = refl

homogeneous_lde-IsSolution_example :
    Each (IsSolution one_equation) (homogeneous_lde 10 one_equation []).0
homogeneous_lde-IsSolution_example =
    homogeneous_lde-IsSolution one_equation (omega arith) (omega arith) 10 [] tt

is_minimum_iff_example :
    (is_minimum two_one (one_one ∷ []) 1 ≡ true)
    ↔ ((k : ℕ) → k < 1 → ¬ IsBelow (at no_matrix (one_one ∷ []) k) two_one)
is_minimum_iff_example = is_minimum_iff two_one (one_one ∷ []) 1
