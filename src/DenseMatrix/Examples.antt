-- ===== src/DenseMatrix/Examples.antt =====
-- Matrices of natural numbers.
use csympy.Prelude.{ℕ, ◌+◌, ◌*◌, ◌≡◌, refl, List, [], ◌∷◌, arith}
use csympy.DenseMatrix.{DenseMatrix, Entries, entry, transpose_dense, mul_dense_dense}
use csympy.DenseMatrix.Laws.{
  IsDense, sum_of, entry-mul_dense_dense, transpose_dense-mul_dense_dense,
}

instance abbrev naturals : Entries ℕ
naturals = record { zero_entry = 0; add = ◌+◌; mul = ◌*◌ }

abbrev six : List ℕ
six = 1 ∷ 2 ∷ 3 ∷ 4 ∷ 5 ∷ 6 ∷ []

abbrev four : List ℕ
four = 0 ∷ 0 ∷ 0 ∷ 0 ∷ []

abbrev wide : DenseMatrix ℕ
wide = record { row = 2; col = 3; m = six }

abbrev tall : DenseMatrix ℕ
tall = record { row = 3; col = 2; m = six }

abbrev square : DenseMatrix ℕ
square = record { row = 2; col = 2; m = four }

wide-IsDense : IsDense wide
wide-IsDense = record { size = refl; bounded = omega arith }

tall-IsDense : IsDense tall
tall-IsDense = record { size = refl; bounded = omega arith }

square-IsDense : IsDense square
square-IsDense = record { size = refl; bounded = omega arith }

mul_commutes : (x y : ℕ) → x * y ≡ y * x
mul_commutes x y = omega arith

entry-mul_dense_dense_example :
    entry (mul_dense_dense wide tall square) 1 0 ≡ sum_of 3 (λ k. entry wide 1 k * entry tall k 0)
entry-mul_dense_dense_example =
    entry-mul_dense_dense wide tall square 1 0 refl refl square-IsDense (omega arith) (omega arith)

transpose_dense-mul_dense_dense_example :
    entry (transpose_dense (mul_dense_dense wide tall square) square) 1 0
    ≡ entry (mul_dense_dense (transpose_dense tall wide) (transpose_dense wide tall) square) 1 0
transpose_dense-mul_dense_dense_example =
    transpose_dense-mul_dense_dense wide tall square square tall wide square 0 1 mul_commutes refl
      (refl, refl, square-IsDense) (refl, refl, square-IsDense) (refl, refl, tall-IsDense)
      (refl, refl, wide-IsDense) (refl, refl, square-IsDense) (omega arith) (omega arith)
