-- ===== src/SparseMatrix/Operations/Examples.antt =====
-- The functions on whole matrices, on matrices of natural numbers.
use csympy.Prelude.{
  ℕ, zero, suc, ◌+◌, ◌*◌, ◌^◌, ◌≡◌, ◌<◌, refl, arith, true, false, [], ◌∷◌, ==_iff,
}
use csympy.DenseMatrix.{DenseMatrix, Entries, entry, index}
use csympy.Dict.Examples.{nat_key}
use csympy.SparseMatrix.{CsrMatrix, get}
use csympy.SparseMatrix.Examples.{two_rows, two_rows-IsCsr}
use csympy.SparseMatrix.Operations.{
  returned, thrown, csr_has_duplicates, csr_sum_duplicates, csr_scale_rows, csr_scale_columns,
  csr_binop_csr_canonical, some_rows, some_neighbours, sum_rows, sum_row, sum_column, resize,
  scale_rows_from, scale_row, merged_row, merge_row, tail_a, tail_b, add_rows, columns_of,
  entries_of, binop_rows,
}
use csympy.SparseMatrix.Operations.Binop.{get-csr_binop_csr_canonical}
use csympy.SparseMatrix.Operations.Scale.{get-csr_scale_rows, get-csr_scale_columns}
use csympy.SparseMatrix.Rows.{IsCsr}
use csympy.Vector.{at, assign, for_each, for_range}

instance abbrev nat_entries : Entries ℕ
nat_entries = record { zero_entry = 0; add = λ a b. a + b; mul = λ a b. a * b }

-- Two entries of one column are added.
abbrev twice : CsrMatrix ℕ
twice = record {
  row = 2;
  col = 3;
  p = 0 ∷ 3 ∷ 4 ∷ [];
  j = 0 ∷ 2 ∷ 2 ∷ 1 ∷ [];
  x = 4 ∷ 5 ∷ 6 ∷ 7 ∷ [];
}

sum_of_twice :
    csr_sum_duplicates twice
    ≡ record { row = 2; col = 3; p = 0 ∷ 2 ∷ 3 ∷ []; j = 0 ∷ 2 ∷ 1 ∷ []; x = 4 ∷ 11 ∷ 7 ∷ [] }
unfolding csr_sum_duplicates sum_rows sum_row sum_column resize at assign
sum_of_twice = refl

has_duplicates_twice : csr_has_duplicates twice.p twice.j 2 ≡ true
unfolding csr_has_duplicates some_rows some_neighbours at
has_duplicates_twice = refl

abbrev factors : DenseMatrix ℕ
factors = record { row = 2; col = 1; m = 3 ∷ 4 ∷ [] }

-- The number zero in a row of factors ends the loop behind the rows before.
thrown_late :
    csr_scale_rows two_rows (record { row = 2; col = 1; m = 3 ∷ 0 ∷ [] })
    ≡ thrown (record { row = 2; col = 2; p = 0 ∷ 1 ∷ 2 ∷ []; j = 1 ∷ 0 ∷ []; x = 15 ∷ 7 ∷ [] })
unfolding csr_scale_rows scale_rows_from scale_row for_range for_each at assign entry index
thrown_late = refl

factors_nonzero : (k : ℕ) → k < 2 → nat_key.eq (entry factors k 0) 0 ≡ false
unfolding entry index at
factors_nonzero zero h = refl
factors_nonzero (suc zero) h = refl
factors_nonzero (suc (suc k)) h = absurd (omega (arith, h))

zero_product : (x : ℕ) → 0 * x ≡ 0
zero_product x = omega arith

get-csr_scale_rows_example :
    (w : CsrMatrix ℕ) × (csr_scale_rows two_rows factors ≡ returned w)
    × IsCsr w
    × ((i c : ℕ) → i < 2 → get 0 w i c ≡ get 0 two_rows i c * entry factors i 0)
get-csr_scale_rows_example =
    get-csr_scale_rows zero_product two_rows factors two_rows-IsCsr factors_nonzero

get-csr_scale_columns_example :
    (w : CsrMatrix ℕ) × (csr_scale_columns two_rows factors ≡ returned w)
    × IsCsr w
    × ((i c : ℕ) → i < 2 → get 0 w i c ≡ get 0 two_rows i c * entry factors c 0)
get-csr_scale_columns_example =
    get-csr_scale_columns zero_product two_rows factors two_rows-IsCsr factors_nonzero

abbrev empty : CsrMatrix ℕ
empty = record { row = 2; col = 2; p = 0 ∷ 0 ∷ 0 ∷ []; j = []; x = [] }

abbrev add_ℕ : ℕ → ℕ → ℕ
add_ℕ a b = a + b

no_zero : (x : ℕ) → nat_key.eq x 0 ≡ true → x ≡ 0
no_zero x h = (==_iff _ _).0 h

room : at 0 two_rows.p two_rows.row + at 0 two_rows.p two_rows.row < 2 ^ 32
unfolding at
room = omega arith

first_row : at 0 (binop_rows add_ℕ two_rows two_rows empty).p 1 ≡ 1
unfolding binop_rows add_rows merged_row merge_row tail_a tail_b columns_of entries_of for_each at
    assign
first_row = refl

first_row_entry : 0 < at 0 (binop_rows add_ℕ two_rows two_rows empty).p 1
first_row_entry = omega (arith, first_row)

get-csr_binop_csr_canonical_example :
    IsCsr (csr_binop_csr_canonical two_rows two_rows empty add_ℕ)
    × ((i k : ℕ)
        → i < 2
        → get 0 (csr_binop_csr_canonical two_rows two_rows empty add_ℕ) i k
          ≡ get 0 two_rows i k + get 0 two_rows i k)
get-csr_binop_csr_canonical_example =
    get-csr_binop_csr_canonical no_zero add_ℕ refl two_rows two_rows empty two_rows-IsCsr
      two_rows-IsCsr refl refl refl refl refl room first_row_entry
