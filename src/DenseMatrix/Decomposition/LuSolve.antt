-- ===== src/DenseMatrix/Decomposition/LuSolve.antt =====
-- `LU_solve` solves its system.
use csympy.Prelude.{ℕ, ◌*◌, ◌^◌, ◌%◌, ◌≡◌, ◌≢◌, ◌<◌, ◌≤◌, refl, sym, ap, ◌∙◌, List, length, arith}
use native.Mathlib.Nat.{mul-le-mul_left}
use csympy.Vector.{at}
use csympy.Vector.Laws.{length-repeat}
use csympy.DenseMatrix.{DenseMatrix, Entries, entry}
use csympy.DenseMatrix.Laws.{sum_of, sum_of_congr}
use csympy.DenseMatrix.Solve.{
  Division, IsField, new_matrix, forward_substitution, back_substitution,
}
use csympy.DenseMatrix.Solve.Sums.{row_product, sum_of-mul, sum_of_exchange}
use csympy.DenseMatrix.Solve.Triangular.{back_substitution-solves}
use csympy.DenseMatrix.Solve.Forward.{forward_substitution-solves, forward_substitution-size}
use csympy.DenseMatrix.Decomposition.{lu, lu_solve}
use csympy.DenseMatrix.Decomposition.Cells.{IsSquare}
use csympy.DenseMatrix.Decomposition.LuProduct.{IsFactored, lu-IsFactored}

pub new_matrix-col {ℓ} :
    (A : Type ℓ) → ⦃e : Entries A⦄ → (m n : ℕ) → (new_matrix {A = A} ⦃e = e⦄ m n).col ≡ n
unfolding new_matrix
new_matrix-col A m n = refl

pub new_matrix-row {ℓ} :
    (A : Type ℓ) → ⦃e : Entries A⦄ → (m n : ℕ) → (new_matrix {A = A} ⦃e = e⦄ m n).row ≡ m
unfolding new_matrix
new_matrix-row A m n = refl

module _ {ℓ} {A : Type ℓ} ⦃e : Entries A⦄ ⦃d : Division A⦄ ⦃f : IsField A⦄ where
  -- A solution through the two factors.
  row_product-IsFactored :
      (a l u : DenseMatrix A) (x y : List A) (i : ℕ)
      → IsFactored a l u
      → ((k : ℕ) → k < a.col → row_product u x k ≡ at e.zero_entry y k)
      → i < a.col
      → row_product a x i ≡ row_product l y i
  unfolding row_product
  row_product-IsFactored a l u x y i r s h =
      let n = a.col in
      let cell_of = λ (j : ℕ). at e.zero_entry x j in
      sum_of_congr n _ _ (λ j q.
        ap (λ t. e.mul t (cell_of j)) (sym (r.product i j h q))
        ∙ sum_of-mul n (λ k. e.mul (entry l i k) (entry u k j)) (cell_of j)
        ∙ sum_of_congr n _ _ (λ k o. f.mul_assoc (entry l i k) (entry u k j) (cell_of j)))
      ∙ sum_of_exchange n n (λ j k. e.mul (entry l i k) (e.mul (entry u k j) (cell_of j)))
      ∙ sum_of_congr n _ (λ k. e.mul (entry l i k) (at e.zero_entry y k))
          (λ k q.
            sum_of_congr n _ _ (λ j o. f.mul_comm (entry l i k) (e.mul (entry u k j) (cell_of j)))
            ∙ sym (sum_of-mul n (λ j. e.mul (entry u k j) (cell_of j)) (entry l i k))
            ∙ f.mul_comm _ (entry l i k)
            ∙ ap (e.mul (entry l i k)) (
                ap (λ t. sum_of t (λ j. e.mul (entry u k j) (cell_of j))) (sym r.dimensions.1)
                ∙ s k q))
      ∙ ap (λ t. sum_of t (λ k. e.mul (entry l i k) (at e.zero_entry y k))) (sym r.dimensions.0)

  pub new_matrix-IsSquare :
      (m n : ℕ) → m ≡ n → n * n < 2 ^ 32 → IsSquare {A = A} n (new_matrix m n).m
  unfolding new_matrix
  new_matrix-IsSquare m n e h = record {
    size =
        length-repeat _ _
        ∙ (let p : m * n % 2 ^ 32 ≡ n * n = omega (arith, h, ap (λ t. t * n) e) in p);
    bounded = omega (arith, h);
  }

  -- Forward and back substitution with the factors of a matrix solve its system.
  pub substitutions :
      (a l u b x y : DenseMatrix A) (i : ℕ)
      → IsFactored a l u
      → length b.m ≡ a.col
      → a.col ≤ 2 ^ 32
      → i < a.col
      → row_product a (back_substitution u (forward_substitution l b y) x).m i
        ≡ at e.zero_entry b.m i
  substitutions a l u b x y i p h c q =
      let between = forward_substitution l b y in
      let size =
        forward_substitution-size l b y p.lower (h ∙ sym p.dimensions.0)
          (omega (arith, q, p.dimensions.0)) (omega (arith, c, p.dimensions.0)) in
      row_product-IsFactored a l u (back_substitution u between x).m between.m i p
        (λ k t.
          back_substitution-solves u between x k p.upper
            (size ∙ p.dimensions.0 ∙ sym p.dimensions.1) (omega (arith, t, p.dimensions.1)))
        q
      ∙ forward_substitution-solves l b y i p.lower (h ∙ sym p.dimensions.0)
          (omega (arith, c, p.dimensions.0)) (omega (arith, q, p.dimensions.0))

  -- Over a field, for a square matrix with fewer than 2^32 entries and a column of the right length,
  -- if no entry on the diagonal of the computed `U` is zero, then `LU_solve` gives the solution: each
  -- row of the product with the matrix is the entry of the right side.
  pub lu_solve-solves :
      (a b x : DenseMatrix A) (i : ℕ)
      → a.row ≡ a.col
      → IsSquare a.col a.m
      → a.col * a.col < 2 ^ 32
      → length b.m ≡ a.col
      → ((k : ℕ)
          → k < a.col
          → entry (lu a (new_matrix a.row a.col) (new_matrix a.row a.col)).1 k k ≢ e.zero_entry)
      → i < a.col
      → row_product a (lu_solve a b x).m i ≡ at e.zero_entry b.m i
  unfolding lu_solve
  lu_solve-solves a b x i r s c h z q =
      let start = new_matrix a.row a.col in
      let start_col = new_matrix-col A a.row a.col in
      let p =
        lu-IsFactored a start start r (start_col, start_col) s (new_matrix-IsSquare a.row a.col r c)
          z in
      let k = mul-le-mul_left a.col (let one : 1 ≤ a.col = omega (arith, q) in one) in
      substitutions a (lu a start start).0 (lu a start start).1 b x (new_matrix b.row 1) i p h
        (omega (arith, k, c)) q
