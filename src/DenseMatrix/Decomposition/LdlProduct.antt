-- ===== src/DenseMatrix/Decomposition/LdlProduct.antt =====
-- The factors of `LDL`, and `LDL_solve`.
use csympy.Prelude.{
  refl, ℕ, ◌≡◌, ◌≢◌, ◌<◌, ◌≤◌, ap, ap₂, ◌∙◌, List, arith, inl, inr, ◌⊎◌, ◌==◌, if◌then◌else◌,
}
use csympy.Vector.{at, assign, for_each}
use csympy.DenseMatrix.{DenseMatrix, Entries, index, entry, for_entries}
use csympy.DenseMatrix.Laws.{sum_of, sum_of_congr}
use csympy.DenseMatrix.Solve.{Division, IsField, cell}
use csympy.DenseMatrix.Solve.Sums.{IsUnitLower, sum_of_to, zero-mul}
use csympy.DenseMatrix.Decomposition.{Powers, ldl, ldl_row}
use csympy.DenseMatrix.Decomposition.Cells.{IsSquare}
use csympy.DenseMatrix.Decomposition.LdlRows.{LdlRows, loop-LdlRows, start-LdlRows}
use csympy.DenseMatrix.Decomposition.LdlRow.{weighted}

module _ {ℓ} {A : Type ℓ} ⦃e : Entries A⦄ ⦃d : Division A⦄ ⦃f : IsField A⦄ ⦃p : Powers A⦄ where
  -- `l` is lower triangular with ones on its diagonal, `diagonal` is zero off its diagonal, and the
  -- entries of the product of `l`, `diagonal` and the transpose of `l` are those of `a`.
  pub record IsLdl (a l diagonal : DenseMatrix A) : Type ℓ where
    pub lower : IsUnitLower l
    pub dimensions : (l.col ≡ a.col) × (diagonal.col ≡ a.col)
    pub square : IsSquare a.col diagonal.m
    pub off_diagonal : (i j : ℕ) → i < a.col → j < a.col → i ≢ j → entry diagonal i j ≡ e.zero_entry
    pub product :
        (i j : ℕ)
        → i < a.col
        → j < a.col
        → sum_of a.col (λ k. e.mul (e.mul (entry l i k) (entry l j k)) (entry diagonal k k))
          ≡ entry a i j

  -- The product of the rows `i` and `j`, for `j` up to `i`.
  product_entry :
      (a : DenseMatrix A) (s : List A × List A) (i j : ℕ)
      → LdlRows a a.col s
      → ((k : ℕ) → k < a.col → cell s.1 a.col k k ≢ e.zero_entry)
      → j ≤ i
      → i < a.col
      → sum_of a.col (weighted a.col s.0 s.1 i j) ≡ entry a i j
  product_entry a s i j r z h i_n =
      let n = a.col in
      let j_n : j < n = omega (arith, h, i_n) in
      sum_of_to n j (weighted n s.0 s.1 i j) j_n (λ k j_k k_n.
        ap (λ t. e.mul t (cell s.1 n k k))
          (ap (e.mul (cell s.0 n i k)) (r.above j k j_k k_n)
            ∙ f.mul_comm _ e.zero_entry
            ∙ zero-mul _)
        ∙ zero-mul _)
      ∙ f.add_comm _ _
      ∙ ap (λ t. e.add (e.mul t (cell s.1 n j j)) (sum_of j (weighted n s.0 s.1 i j)))
          (ap (e.mul (cell s.0 n i j)) (r.unit j j_n) ∙ f.mul_comm _ d.one ∙ f.one-mul _)
      ∙ r.product i j h i_n (λ k k_i. z k (omega (arith, k_i, i_n)))

  -- Over a field where `pow(x, 2)` is `x*x`, for a symmetric matrix, if no entry on the diagonal of
  -- the computed `D` is zero, then the results of `LDL` factor the matrix: `L` is lower triangular
  -- with ones on its diagonal, `D` is a diagonal matrix, and each entry of the product of `L`, `D`
  -- and the transpose of `L` is that of the matrix.
  pub ldl-IsLdl :
      (a l diagonal : DenseMatrix A)
      → ((x : A) → p.square x ≡ e.mul x x)
      → (l.col ≡ a.col) × (diagonal.col ≡ a.col)
      → IsSquare a.col l.m
      → IsSquare a.col diagonal.m
      → ((i j : ℕ) → i < a.col → j < a.col → entry a i j ≡ entry a j i)
      → ((k : ℕ) → k < a.col → entry (ldl a l diagonal).1 k k ≢ e.zero_entry)
      → IsLdl a (ldl a l diagonal).0 (ldl a l diagonal).1
  unfolding ldl entry
  ldl-IsLdl a l diagonal sq c s t y z =
      let n = a.col in
      let r = loop-LdlRows a n _ sq (omega arith) (start-LdlRows a l.m diagonal.m s t) in
      let parts = for_each n (ldl_row a) (
        for_entries n n (λ i j v. assign v (index n i j) (if i == j then d.one else e.zero_entry))
            l.m,
        for_entries n n (λ i j v. assign v (index n i j) e.zero_entry) diagonal.m,
      ) in
      let left = λ (i j : ℕ). ap (λ m. at e.zero_entry parts.0 (index m i j)) c.0 in
      let right = λ (i j : ℕ). ap (λ m. at e.zero_entry parts.1 (index m i j)) c.1 in
      let nonzero =
        λ (k : ℕ) (k_n : k < n) (w : cell parts.1 n k k ≡ e.zero_entry). z k k_n (right k k ∙ w) in
      let ordered =
        λ (i j : ℕ) (h : j ≤ i) (i_n : i < n). product_entry a parts i j r nonzero h i_n in
      record {
        lower = record {
          above = λ i j h m. left i j ∙ r.above i j h (omega (arith, m, c.0));
          unit = λ i h. left i i ∙ r.unit i (omega (arith, h, c.0));
        };
        dimensions = c;
        square = r.right;
        off_diagonal = λ i j h m o. right i j ∙ r.off i j h m o;
        product = λ i j h m.
            sum_of_congr n _ (weighted n parts.0 parts.1 i j)
              (λ k q. ap₂ e.mul (ap₂ e.mul (left i k) (left j k)) (right k k))
            ∙ elim (let o : (j ≤ i) ⊎ (i < j) = ground arith in o) [
              | inl o ↦ ordered i j o h
              | inr o ↦
                  sum_of_congr n (weighted n parts.0 parts.1 i j) (weighted n parts.0 parts.1 j i)
                    (λ k q.
                      ap (λ u. e.mul u (cell parts.1 n k k))
                        (f.mul_comm (cell parts.0 n i k) (cell parts.0 n j k)))
                  ∙ ordered j i (omega (arith, o)) m
                  ∙ y j i m h
            ];
      }

  pub ldl-row :
      (a l diagonal : DenseMatrix A)
      → ((ldl a l diagonal).0.row ≡ l.row) × ((ldl a l diagonal).1.row ≡ diagonal.row)
  unfolding ldl
  ldl-row a l diagonal = (refl, refl)
