-- ===== src/DenseMatrix/Decomposition/Examples.antt =====
-- The factors of a matrix over the field with two elements, where they compute.
use csympy.Prelude.{
  ℕ, zero, suc, ◌≡◌, ◌≢◌, ◌<◌, ◌↔◌, refl, [], ◌∷◌, arith, true, false, Bool, not, ◌&&◌,
}
use csympy.Vector.{at, for_each, for_range, repeat, assign}
use csympy.DenseMatrix.{DenseMatrix, Entries, entry, index}
use csympy.DenseMatrix.Solve.{Division, IsField, new_matrix}
use csympy.DenseMatrix.Solve.Sums.{row_product}
use csympy.DenseMatrix.{for_entries}
use csympy.DenseMatrix.Laws.{sum_of}
use csympy.DenseMatrix.Create.{inverse_lu}
use csympy.DenseMatrix.Create.Inverse.{unit_entry, inverse_lu-product}
use csympy.DenseMatrix.Decomposition.LdlSolve.{ldl_solve-solves}
use csympy.DenseMatrix.Decomposition.{solution, ldl_solve, is_symmetric_dense, symmetric_row}
use csympy.DenseMatrix.Decomposition.LdlProduct.{IsLdl, ldl-IsLdl}
use csympy.DenseMatrix.Decomposition.{
  Powers, ldl, ldl_row, ldl_sum, lu, lu_column, lu_split, lu_solve, subtract_products,
}
use csympy.DenseMatrix.Decomposition.Cells.{IsSquare}
use csympy.DenseMatrix.Decomposition.LuProduct.{IsFactored, lu-IsFactored}
use csympy.DenseMatrix.Decomposition.LuSolve.{lu_solve-solves}

abbrev pub xor : Bool → Bool → Bool
xor true b = not b
xor false b = b

abbrev pub same : Bool → Bool → Bool
same a b = not (xor a b)

abbrev pub quotient : Bool → Bool → Bool
quotient a b = a

instance abbrev pub bits : Entries Bool
bits = record { zero_entry = false; add = xor; mul = ◌&&◌ }

instance abbrev pub bit_division : Division Bool
bit_division = record { sub = xor; div = quotient; one = true; minus_one = true; eq = same }

pub xor_comm : (x y : Bool) → xor x y ≡ xor y x
xor_comm true true = refl
xor_comm true false = refl
xor_comm false true = refl
xor_comm false false = refl

pub xor_assoc : (x y z : Bool) → xor (xor x y) z ≡ xor x (xor y z)
xor_assoc true true true = refl
xor_assoc true true false = refl
xor_assoc true false z = refl
xor_assoc false y z = refl

pub xor-xor : (x y : Bool) → xor (xor x y) y ≡ x
xor-xor true true = refl
xor-xor true false = refl
xor-xor false true = refl
xor-xor false false = refl

pub and_comm : (x y : Bool) → (x && y) ≡ (y && x)
and_comm true true = refl
and_comm true false = refl
and_comm false true = refl
and_comm false false = refl

pub and_assoc : (x y z : Bool) → ((x && y) && z) ≡ (x && (y && z))
and_assoc true y z = refl
and_assoc false y z = refl

pub xor-and : (x y z : Bool) → (xor x y && z) ≡ xor (x && z) (y && z)
xor-and true true true = refl
xor-and true true false = refl
xor-and true false true = refl
xor-and true false false = refl
xor-and false y z = refl

pub and-quotient : (x y : Bool) → y ≢ false → (y && quotient x y) ≡ x
and-quotient x true h = refl
and-quotient x false h = absurd (h refl)

pub same_iff : (x y : Bool) → (same x y ≡ true) ↔ (x ≡ y)
same_iff true true = (λ h. refl, λ h. refl)
same_iff true false = (λ h. absurd (cc h), λ h. absurd (cc h))
same_iff false true = (λ h. absurd (cc h), λ h. absurd (cc h))
same_iff false false = (λ h. refl, λ h. refl)

pub true_differs : true ≢ false
true_differs h = cc h

instance abbrev pub bit_field : IsField Bool
bit_field = record {
  add_comm = xor_comm;
  add_assoc = xor_assoc;
  zero-add = λ x. refl;
  add-sub = xor-xor;
  sub-add = xor-xor;
  mul_comm = and_comm;
  mul_assoc = and_assoc;
  one-mul = λ x. refl;
  add-mul = xor-and;
  mul-div = and-quotient;
  one-nonzero = true_differs;
  eq_iff = same_iff;
}

abbrev sample : DenseMatrix Bool
sample = record { row = 2; col = 2; m = true ∷ true ∷ true ∷ false ∷ [] }

abbrev right_side : DenseMatrix Bool
right_side = record { row = 2; col = 1; m = true ∷ false ∷ [] }

sample-IsSquare : IsSquare 2 (true ∷ true ∷ true ∷ false ∷ [])
sample-IsSquare = record { size = refl; bounded = omega arith }

pivots : (k : ℕ) → k < 2 → entry (lu sample (new_matrix 2 2) (new_matrix 2 2)).1 k k ≢ false
unfolding lu lu_column lu_split subtract_products entry index at assign for_each for_range
    new_matrix repeat
pivots zero h z = cc z
pivots (suc zero) h z = cc z
pivots (suc (suc k)) h z = omega (arith, h)

pivots_in_place : (k : ℕ) → k < 2 → entry (lu sample sample sample).1 k k ≢ false
unfolding lu lu_column lu_split subtract_products entry index at assign for_each for_range
pivots_in_place zero h z = cc z
pivots_in_place (suc zero) h z = cc z
pivots_in_place (suc (suc k)) h z = omega (arith, h)

lu-IsFactored_example : IsFactored sample (lu sample sample sample).0 (lu sample sample sample).1
lu-IsFactored_example =
    lu-IsFactored sample sample sample refl (refl, refl) sample-IsSquare sample-IsSquare
      pivots_in_place

lu_solve-solves_example :
    row_product sample (lu_solve sample right_side right_side).m 1 ≡ at false right_side.m 1
lu_solve-solves_example =
    lu_solve-solves sample right_side right_side 1 refl sample-IsSquare (omega arith) refl pivots
      (omega arith)

abbrev pub square_bit : Bool → Bool
square_bit x = x && x

abbrev pub same_bit : Bool → Bool
same_bit x = x

instance abbrev pub bit_powers : Powers Bool
bit_powers = record { square = square_bit; square_root = same_bit; expand = same_bit }

sample_symmetric : (i j : ℕ) → i < 2 → j < 2 → entry sample i j ≡ entry sample j i
unfolding entry index at
sample_symmetric zero zero h l = refl
sample_symmetric zero (suc zero) h l = refl
sample_symmetric (suc zero) zero h l = refl
sample_symmetric (suc zero) (suc zero) h l = refl
sample_symmetric i (suc (suc j)) h l = absurd (omega (arith, l))
sample_symmetric (suc (suc i)) j h l = absurd (omega (arith, h))

diagonal_differs : (k : ℕ) → k < 2 → entry (ldl sample sample sample).1 k k ≢ false
unfolding ldl ldl_row ldl_sum entry index at assign for_each for_entries
diagonal_differs zero h z = cc z
diagonal_differs (suc zero) h z = cc z
diagonal_differs (suc (suc k)) h z = omega (arith, h)

ldl-IsLdl_example : IsLdl sample (ldl sample sample sample).0 (ldl sample sample sample).1
ldl-IsLdl_example =
    ldl-IsLdl sample sample sample (λ x. refl) (refl, refl) sample-IsSquare sample-IsSquare
      sample_symmetric diagonal_differs

computed_diagonal :
    (k : ℕ) → k < 2 → entry (ldl sample (new_matrix 2 2) (new_matrix 2 2)).1 k k ≢ false
unfolding ldl ldl_row ldl_sum entry index at assign for_each for_entries new_matrix repeat
computed_diagonal zero h z = cc z
computed_diagonal (suc zero) h z = cc z
computed_diagonal (suc (suc k)) h z = omega (arith, h)

sample_passes : is_symmetric_dense sample ≡ true
unfolding is_symmetric_dense symmetric_row for_each for_range entry index at
sample_passes = refl

ldl_solve-solves_example :
    (s : DenseMatrix Bool) × (ldl_solve sample right_side right_side ≡ solution s)
    × ((i : ℕ) → i < 2 → row_product sample s.m i ≡ at false right_side.m i)
ldl_solve-solves_example =
    ldl_solve-solves sample right_side right_side (λ x. refl) (omega arith) sample_passes
      (refl, refl) computed_diagonal

inverse_lu-product_example :
    sum_of 2 (λ k. entry sample 1 k && entry (inverse_lu sample sample) k 0) ≡ unit_entry 1 0
inverse_lu-product_example =
    inverse_lu-product sample sample 1 0 refl refl sample-IsSquare sample-IsSquare (omega arith)
      pivots (omega arith) (omega arith)
