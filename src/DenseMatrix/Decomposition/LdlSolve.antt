-- ===== src/DenseMatrix/Decomposition/LdlSolve.antt =====
-- `LDL_solve` solves its system.
use csympy.Prelude.{
  ℕ, ◌*◌, ◌^◌, ◌%◌, ◌≡◌, ◌≢◌, ◌<◌, ◌≤◌, refl, sym, ap, ap₂, ◌∙◌, List, length, arith, true, inl,
  inr,
}
use native.Mathlib.Nat.{mul-le-mul_left}
use csympy.Vector.{at}
use csympy.Vector.Laws.{length-repeat}
use csympy.DenseMatrix.{DenseMatrix, Entries, entry, transpose_dense}
use csympy.DenseMatrix.Laws.{IsDense, sum_of, sum_of_congr, entry-transpose_dense, three_way}
use csympy.DenseMatrix.Solve.{
  Division, IsField, new_matrix, forward_substitution, back_substitution, diagonal_solve,
}
use csympy.DenseMatrix.Solve.Sums.{row_product, IsUpper, IsUnitLower, sum_of-mul, sum_of_exchange}
use csympy.DenseMatrix.Solve.Triangular.{
  back_substitution-solves, diagonal_solve-solves, diagonal_solve-size,
}
use csympy.DenseMatrix.Solve.Forward.{forward_substitution-solves}
use csympy.DenseMatrix.Decomposition.{Powers, solution, ldl, ldl_solve, is_symmetric_dense}
use csympy.DenseMatrix.Decomposition.LuSolve.{new_matrix-IsSquare, new_matrix-col, new_matrix-row}
use csympy.DenseMatrix.Decomposition.Symmetric.{is_symmetric_dense_iff}
use csympy.DenseMatrix.Decomposition.LdlProduct.{IsLdl, ldl-IsLdl, ldl-row}

length-new_matrix {ℓ} :
    (A : Type ℓ)
    → ⦃e : Entries A⦄ → (m n : ℕ) → m ≡ n
    → n < 2 ^ 32
    → length (new_matrix {A = A} ⦃e = e⦄ m 1).m ≡ n
unfolding new_matrix
length-new_matrix A m n h l =
    length-repeat _ _ ∙ (let c : m * 1 % 2 ^ 32 ≡ n = omega (arith, h, l) in c)

module _ {ℓ} {A : Type ℓ} ⦃e : Entries A⦄ ⦃d : Division A⦄ ⦃f : IsField A⦄ ⦃p : Powers A⦄ where
  regroup : (a b c x : A) → e.mul (e.mul (e.mul a b) c) x ≡ e.mul (e.mul b x) (e.mul c a)
  regroup a b c x =
      ap (λ t. e.mul (e.mul t c) x) (f.mul_comm a b)
      ∙ ap (λ t. e.mul t x) (f.mul_assoc b a c)
      ∙ f.mul_assoc b (e.mul a c) x
      ∙ ap (e.mul b) (f.mul_comm (e.mul a c) x)
      ∙ sym (f.mul_assoc b x (e.mul a c))
      ∙ ap (e.mul (e.mul b x)) (f.mul_comm a c)

  -- A solution through the three factors: of the transpose of `l`, of `diagonal` and of `l`.
  row_product-IsLdl :
      (a l diagonal : DenseMatrix A) (x y z : List A) (i : ℕ)
      → IsLdl a l diagonal
      → l.col ≡ a.col
      → ((k : ℕ)
          → k < a.col
          → sum_of a.col (λ j. e.mul (entry l j k) (at e.zero_entry x j)) ≡ at e.zero_entry z k)
      → ((k : ℕ)
          → k < a.col
          → e.mul (entry diagonal k k) (at e.zero_entry z k) ≡ at e.zero_entry y k)
      → i < a.col
      → row_product a x i ≡ row_product l y i
  unfolding row_product
  row_product-IsLdl a l diagonal x y z i r c s t h =
      let n = a.col in
      let value = λ (j : ℕ). at e.zero_entry x j in
      let weight = λ (k : ℕ). e.mul (entry diagonal k k) (entry l i k) in
      sum_of_congr n _ _ (λ j q.
        ap (λ u. e.mul u (value j)) (sym (r.product i j h q))
        ∙ sum_of-mul n (λ k. e.mul (e.mul (entry l i k) (entry l j k)) (entry diagonal k k))
            (value j)
        ∙ sum_of_congr n _ (λ k. e.mul (e.mul (entry l j k) (value j)) (weight k))
            (λ k o. regroup (entry l i k) (entry l j k) (entry diagonal k k) (value j)))
      ∙ sum_of_exchange n n (λ j k. e.mul (e.mul (entry l j k) (value j)) (weight k))
      ∙ sum_of_congr n _ (λ k. e.mul (entry l i k) (at e.zero_entry y k))
          (λ k q.
            sym (sum_of-mul n (λ j. e.mul (entry l j k) (value j)) (weight k))
            ∙ ap (λ u. e.mul u (weight k)) (s k q)
            ∙ sym (f.mul_assoc (at e.zero_entry z k) (entry diagonal k k) (entry l i k))
            ∙ ap (λ u. e.mul u (entry l i k)) (f.mul_comm _ _ ∙ t k q)
            ∙ f.mul_comm _ _)
      ∙ ap (λ u. sum_of u (λ k. e.mul (entry l i k) (at e.zero_entry y k))) (sym c)

  transpose_dense-col : (a b : DenseMatrix A) → (transpose_dense a b).col ≡ b.col
  unfolding transpose_dense
  transpose_dense-col a b = refl

  -- The transpose of the lower factor is upper triangular.
  transpose_dense-IsUpper :
      (l b : DenseMatrix A)
      → IsUnitLower l
      → l.row ≡ l.col
      → b.row ≡ l.col
      → b.col ≡ l.col
      → IsDense b
      → IsUpper (transpose_dense l b)
  transpose_dense-IsUpper l b u r s t q =
      let c = transpose_dense-col l b in
      let turned = λ (i j : ℕ) (i_n : i < l.col) (j_n : j < l.col).
        entry-transpose_dense l b j i s (t ∙ sym r) q (omega (arith, j_n, r)) i_n in
      record {
        below = λ i j h m.
            let i_n : i < l.col = omega (arith, m, c, t) in
            turned i j i_n (omega (arith, h, i_n)) ∙ u.above j i h i_n;
        diagonal = λ i m z.
            let i_n : i < l.col = omega (arith, m, c, t) in
            f.one-nonzero (sym (turned i i i_n i_n ∙ u.unit i i_n) ∙ z);
      }

  -- The three substitutions of `LDL_solve`.
  substitutions :
      (a l diagonal b x start : DenseMatrix A) (i : ℕ)
      → IsLdl a l diagonal
      → l.row ≡ a.col
      → diagonal.row ≡ a.col
      → ((k : ℕ) → k < a.col → entry diagonal k k ≢ e.zero_entry)
      → length b.m ≡ a.col
      → length start.m ≡ a.col
      → a.col ≤ 2 ^ 32
      → i < a.col
      → row_product a
          (back_substitution
            (transpose_dense l diagonal)
            (diagonal_solve diagonal (forward_substitution l b x) start)
            x).m
          i
        ≡ at e.zero_entry b.m i
  unfolding row_product
  substitutions a l diagonal b x start i r p q z s t g h =
      let n = a.col in
      let (l_n, d_n) = r.dimensions in
      let y = forward_substitution l b x in
      let w = diagonal_solve diagonal y start in
      let dense : IsDense diagonal = record {
        size = r.square.size ∙ ap₂ (λ m k. m * k) (sym q) (sym d_n);
        bounded = omega (arith, r.square.bounded, ap₂ (λ m k. m * k) q d_n);
      } in
      let t_n = transpose_dense-col l diagonal ∙ d_n in
      let upper =
        transpose_dense-IsUpper l diagonal r.lower (p ∙ sym l_n) (q ∙ sym l_n) (d_n ∙ sym l_n)
          dense in
      let final = back_substitution (transpose_dense l diagonal) w x in
      let w_size = diagonal_solve-size diagonal y start ∙ t ∙ sym t_n in
      row_product-IsLdl a l diagonal final.m y.m w.m i r l_n
        (λ k k_n.
          sum_of_congr n _ _ (λ j j_n.
            ap (λ u. e.mul u (at e.zero_entry final.m j))
              (sym (
                entry-transpose_dense l diagonal j k (q ∙ sym l_n) (d_n ∙ sym p) dense
                  (omega (arith, j_n, p)) (omega (arith, k_n, l_n)))))
          ∙ ap
              (λ u.
                sum_of u
                  (λ j. e.mul (entry (transpose_dense l diagonal) k j) (at e.zero_entry final.m j)))
              (sym t_n)
          ∙ back_substitution-solves (transpose_dense l diagonal) w x k upper w_size
              (omega (arith, k_n, t_n)))
        (λ k k_n.
          diagonal_solve-solves diagonal y start k (z k k_n) (omega (arith, k_n, d_n))
            (omega (arith, d_n, t)))
        h
      ∙ forward_substitution-solves l b x i r.lower (s ∙ sym l_n) (omega (arith, g, l_n))
          (omega (arith, h, l_n))

  symmetric_entries :
      (a : DenseMatrix A) (i j : ℕ)
      → is_symmetric_dense a ≡ true
      → i < a.col
      → j < a.col
      → entry a i j ≡ entry a j i
  symmetric_entries a i j h m n =
      let s = ((is_symmetric_dense_iff a).0 h).1 in
      elim (three_way i j) [
        | inl o ↦ sym ((f.eq_iff _ _).0 (s i j o n))
        | inr (inl o) ↦ ap₂ (entry a) o (sym o)
        | inr (inr o) ↦ (f.eq_iff _ _).0 (s j i o m)
      ]

  -- Over a field where `pow(x, 2)` is `x*x`, for a matrix with fewer than 2^32 entries that is
  -- symmetric and a column of the right length, if no entry on the diagonal of the computed `D` is
  -- zero, then `LDL_solve` returns a solution: each row of the product with the matrix is the entry
  -- of the right side.
  pub ldl_solve-solves :
      (a b x : DenseMatrix A)
      → ((y : A) → p.square y ≡ e.mul y y)
      → a.col * a.col < 2 ^ 32
      → is_symmetric_dense a ≡ true
      → (b.row ≡ a.col) × (length b.m ≡ a.col)
      → ((k : ℕ)
          → k < a.col
          → entry (ldl a (new_matrix a.row a.col) (new_matrix a.row a.col)).1 k k ≢ e.zero_entry)
      → (s : DenseMatrix A) × (ldl_solve a b x ≡ solution s)
        × ((i : ℕ) → i < a.col → row_product a s.m i ≡ at e.zero_entry b.m i)
  unfolding ldl_solve
  ldl_solve-solves a b x sq c h s z =
      let start = new_matrix a.row a.col in
      let square : a.row ≡ a.col = sym ((is_symmetric_dense_iff a).0 h).0 in
      let start_col = new_matrix-col A a.row a.col in
      let start_row = new_matrix-row A a.row a.col ∙ square in
      let start_square = new_matrix-IsSquare a.row a.col square c in
      let r =
        ldl-IsLdl a start start sq (start_col, start_col) start_square start_square
          (λ i j m n. symmetric_entries a i j h m n) z in
      let (l_row, d_row) = ldl-row a start start in
      (
        back_substitution (transpose_dense (ldl a start start).0 (ldl a start start).1)
            (diagonal_solve (ldl a start start).1 (forward_substitution (ldl a start start).0 b x)
              (new_matrix b.row 1))
            x,
        rw h refl,
        λ i i_n.
            let k = mul-le-mul_left a.col (let one : 1 ≤ a.col = omega (arith, i_n) in one) in
            substitutions a (ldl a start start).0 (ldl a start start).1 b x (new_matrix b.row 1) i r
              (l_row ∙ start_row) (d_row ∙ start_row) z s.1
              (length-new_matrix A b.row a.col s.0 (omega (arith, k, c))) (omega (arith, k, c)) i_n,
      )
