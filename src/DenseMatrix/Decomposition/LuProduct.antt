-- ===== src/DenseMatrix/Decomposition/LuProduct.antt =====
-- `LU` factors the matrix.
use csympy.Prelude.{ℕ, ◌≡◌, ◌≢◌, ◌<◌, ◌≤◌, refl, sym, ap, ap₂, ◌∙◌, List, arith, inl, inr, ◌⊎◌}
use csympy.Vector.{at, for_each}
use csympy.DenseMatrix.{DenseMatrix, Entries, index, entry}
use csympy.DenseMatrix.Laws.{sum_of, sum_of_congr}
use csympy.DenseMatrix.Solve.{Division, IsField, cell}
use csympy.DenseMatrix.Solve.Sums.{IsUpper, IsUnitLower, sum_of_to, zero-mul}
use csympy.DenseMatrix.Decomposition.{lu, lu_column, lu_split}
use csympy.DenseMatrix.Decomposition.Cells.{IsSquare, products}
use csympy.DenseMatrix.Decomposition.LuColumns.{Combined, lu_columns-Combined}
use csympy.DenseMatrix.Decomposition.LuSplit.{Split, rows-Split}

module _ {ℓ} {A : Type ℓ} ⦃e : Entries A⦄ ⦃d : Division A⦄ ⦃f : IsField A⦄ where
  -- `l` is lower triangular with ones on its diagonal, `u` is upper triangular without zeros on its
  -- diagonal, and the entries of their product are those of `a`.
  pub record IsFactored (a l u : DenseMatrix A) : Type ℓ where
    pub lower : IsUnitLower l
    pub upper : IsUpper u
    pub dimensions : (l.col ≡ a.col) × (u.col ≡ a.col)
    pub product :
        (i j : ℕ)
        → i < a.col
        → j < a.col
        → sum_of a.col (λ k. e.mul (entry l i k) (entry u k j)) ≡ entry a i j

  mul-zero : (x : A) → e.mul x e.zero_entry ≡ e.zero_entry
  mul-zero x = f.mul_comm x e.zero_entry ∙ zero-mul x

  -- The product at one entry, from the combined factors `w` of `v` and their parts.
  product_entry :
      (n : ℕ) (v w : List A) (s t : List A × List A) (i j : ℕ)
      → s.1 ≡ w
      → Combined n n v w
      → Split n n s t
      → ((k : ℕ) → k < n → cell t.1 n k k ≢ e.zero_entry)
      → i < n
      → j < n
      → sum_of n (λ k. e.mul (cell t.0 n i k) (cell t.1 n k j)) ≡ cell v n i j
  product_entry n v w s t i j x c p z h m =
      let kept = λ (a b : ℕ) (a_n : a < n) (b_n : b < n) (o : a ≤ b).
        p.kept a b a_n b_n (inl o) ∙ ap (λ y. cell y n a b) x in
      let moved =
        λ (a b : ℕ) (a_n : a < n) (o : b < a). p.multiplier a b a_n o ∙ ap (λ y. cell y n a b) x in
      elim (let o : (i ≤ j) ⊎ (j < i) = ground arith in o) [
        | inl o ↦
            sum_of_to n i _ h
              (λ k q r. ap (λ y. e.mul y (cell t.1 n k j)) (p.above i k h q r) ∙ zero-mul _)
            ∙ f.add_comm _ _
            ∙ ap₂ e.add (ap₂ e.mul (p.unit i h) (kept i j h m o) ∙ f.one-mul _) (
                sum_of_congr i _ (products n w i j) (λ k q.
                  ap₂ e.mul (moved i k h q)
                    (kept k j (omega (arith, q, h)) m (omega (arith, q, o)))))
            ∙ c.upper i j o m
        | inr o ↦
            sum_of_to n j _ m (λ k q r. ap (e.mul (cell t.0 n i k)) (p.below k j r q) ∙ mul-zero _)
            ∙ f.add_comm _ _
            ∙ ap₂ e.add (ap₂ e.mul (moved i j h o) (kept j j m m (omega arith))) (
                sum_of_congr j _ (products n w i j) (λ k q.
                  ap₂ e.mul (moved i k h (omega (arith, q, o)))
                    (kept k j (omega (arith, q, m)) m (omega (arith, q)))))
            ∙ c.lower i j o h m (λ y. z j m (kept j j m m (omega arith) ∙ y))
      ]

  -- Over a field, for square matrices of the same order, if no entry on the diagonal of the computed
  -- `U` is zero, then the results of `LU` factor the matrix: `L` is lower triangular with ones on its
  -- diagonal, `U` is upper triangular, and each entry of their product is that of the matrix.
  pub lu-IsFactored :
      (a l u : DenseMatrix A)
      → a.row ≡ a.col
      → (l.col ≡ a.col) × (u.col ≡ a.col)
      → IsSquare a.col a.m
      → IsSquare a.col l.m
      → ((k : ℕ) → k < a.col → entry (lu a l u).1 k k ≢ e.zero_entry)
      → IsFactored a (lu a l u).0 (lu a l u).1
  unfolding lu entry
  lu-IsFactored a l u r c s t z =
      let n = a.row in
      let l_n : l.col ≡ n = c.0 ∙ sym r in
      let u_n : u.col ≡ n = c.1 ∙ sym r in
      let w = for_each n (lu_column n) a.m in
      let parts = for_each n (lu_split n) (l.m, w) in
      let combined = lu_columns-Combined n n a.m (rw r s) (omega arith) in
      let split = rows-Split n n (l.m, w) (rw r t) combined.square (omega arith) in
      let left = λ (i j : ℕ). ap (λ m. at e.zero_entry parts.0 (index m i j)) l_n in
      let right = λ (i j : ℕ). ap (λ m. at e.zero_entry parts.1 (index m i j)) u_n in
      record {
        lower = record {
          above = λ i j h m.
              left i j ∙ split.above i j (omega (arith, h, m, l_n)) h (omega (arith, m, l_n));
          unit = λ i h. left i i ∙ split.unit i (omega (arith, h, l_n));
        };
        upper = record {
          below = λ i j h m. right i j ∙ split.below i j (omega (arith, m, u_n)) h;
          diagonal = λ i h. z i (omega (arith, h, c.1));
        };
        dimensions = c;
        product = λ i j h m.
            ap
              (λ k. sum_of k (λ k.
                e.mul (at e.zero_entry parts.0 (index l.col i k))
                  (at e.zero_entry parts.1 (index u.col k j))))
              (sym r)
            ∙ sum_of_congr n _ (λ k. e.mul (cell parts.0 n i k) (cell parts.1 n k j))
                (λ k q. ap₂ e.mul (left i k) (right k j))
            ∙ product_entry n a.m w (l.m, w) parts i j refl combined split
                (λ k q y. z k (omega (arith, q, r)) (right k k ∙ y)) (omega (arith, h, r))
                (omega (arith, m, r))
            ∙ ap (λ m. at e.zero_entry a.m (index m i j)) r;
      }
