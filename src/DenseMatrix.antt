-- ===== src/DenseMatrix.antt =====
-- src/dense_matrix.cpp: a matrix is a vector of its entries, row by row. A result is an object that
-- the caller passes with its dimensions; it is not one of the operands. Entries are a type with
-- the operations `add` and `mul` of expressions. `unsigned` has 32 bits.
pub mod Loops
pub mod Laws
pub mod Rows
pub mod RowAdd
pub mod Solve
pub mod Elimination
pub mod Decomposition
pub mod Determinant
pub mod Create
pub mod Examples
use csympy.Prelude.{ℕ, ◌+◌, ◌-◌, ◌*◌, ◌^◌, ◌%◌, List, if◌then◌else◌}
use csympy.Vector.{at, assign, for_each}

pub record DenseMatrix {ℓ} (A : Type ℓ) : Type ℓ where
  pub row : ℕ
  pub col : ℕ
  pub m : List A

-- `i*col + j` in `unsigned`
unfoldable pub index : ℕ → ℕ → ℕ → ℕ
index col i j = (i * col + j) % 2 ^ 32

-- `add`, `mul` and `zero` of expressions
pub record Entries {ℓ} (A : Type ℓ) : Type ℓ where
  pub zero_entry : A
  pub add : A → A → A
  pub mul : A → A → A

module _ {ℓ} {A : Type ℓ} where
  -- A loop over the rows and the columns.
  unfoldable pub for_entries : ℕ → ℕ → (ℕ → ℕ → List A → List A) → List A → List A
  for_entries row col f v = for_each row (λ i w. for_each col (λ j u. f i j u) w) v

  -- `std::swap(v[g], v[h])`
  unfoldable pub swap_places : A → List A → ℕ → ℕ → List A
  swap_places z v g h = assign (assign v g (at z v h)) h (at z v g)

  abbrev pub with_entries : DenseMatrix A → List A → DenseMatrix A
  with_entries b v = record { row = b.row; col = b.col; m = v }

module _ {ℓ} {A : Type ℓ} ⦃e : Entries A⦄ where
  -- `A.m_[i*A.col_ + j]`
  unfoldable pub entry : DenseMatrix A → ℕ → ℕ → A
  entry a i j = at e.zero_entry a.m (index a.col i j)

  unfoldable pub transpose_dense : DenseMatrix A → DenseMatrix A → DenseMatrix A
  transpose_dense a b =
      with_entries b
        (for_entries a.row a.col (λ i j v. assign v (index b.col j i) (entry a i j)) b.m)

  unfoldable pub submatrix_dense : DenseMatrix A → ℕ → ℕ → DenseMatrix A → DenseMatrix A
  submatrix_dense a row_start col_start b = with_entries b (
      for_entries b.row b.col
        (λ i j v.
          assign v (index b.col i j)
            (at e.zero_entry a.m (((row_start + i) * a.col + col_start + j) % 2 ^ 32)))
        b.m)

  unfoldable pub add_dense_dense : DenseMatrix A → DenseMatrix A → DenseMatrix A → DenseMatrix A
  add_dense_dense a b c = with_entries c (
      for_entries a.row a.col
        (λ i j v.
          assign v (index a.col i j)
            (e.add (at e.zero_entry a.m (index a.col i j)) (at e.zero_entry b.m (index a.col i j))))
        c.m)

  unfoldable pub add_dense_scalar : DenseMatrix A → A → DenseMatrix A → DenseMatrix A
  add_dense_scalar a k b =
      with_entries b
        (for_entries a.row a.col (λ i j v. assign v (index a.col i j) (e.add (entry a i j) k)) b.m)

  unfoldable pub mul_dense_scalar : DenseMatrix A → A → DenseMatrix A → DenseMatrix A
  mul_dense_scalar a k b =
      with_entries b
        (for_entries a.row a.col (λ i j v. assign v (index a.col i j) (e.mul (entry a i j) k)) b.m)

  -- The body of `mul_dense_dense` at one entry of the result.
  unfoldable pub mul_entry : DenseMatrix A → DenseMatrix A → ℕ → ℕ → List A → List A
  mul_entry a b i j v =
      let n = index b.col i j in
      for_each a.col
        (λ k w. assign w n (e.add (at e.zero_entry w n) (e.mul (entry a i k) (entry b k j))))
        (assign v n e.zero_entry)

  unfoldable pub mul_dense_dense : DenseMatrix A → DenseMatrix A → DenseMatrix A → DenseMatrix A
  mul_dense_dense a b c = with_entries c (for_entries a.row b.col (mul_entry a b) c.m)

  -- `row_mul_scalar_dense`, in place
  unfoldable pub row_mul_scalar_dense : DenseMatrix A → ℕ → A → DenseMatrix A
  row_mul_scalar_dense a i c = with_entries a (
      for_each a.col
        (λ j v. assign v (index a.col i j) (e.mul c (at e.zero_entry v (index a.col i j)))) a.m)

  -- `row_exchange_dense`, in place
  unfoldable pub row_exchange_dense : DenseMatrix A → ℕ → ℕ → DenseMatrix A
  row_exchange_dense a i j =
      with_entries a
        (for_each a.col (λ k v. swap_places e.zero_entry v (index a.col i k) (index a.col j k)) a.m)

  -- `row_add_row_dense`, in place
  unfoldable pub row_add_row_dense : DenseMatrix A → ℕ → ℕ → A → DenseMatrix A
  row_add_row_dense a i j c = with_entries a (
      for_each a.col
        (λ k v. assign v (index a.col i k) (
          e.add (at e.zero_entry v (index a.col i k))
            (e.mul c (at e.zero_entry v (index a.col j k)))))
        a.m)
