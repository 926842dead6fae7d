-- ===== src/DenseMatrix/Decomposition/LuColumns.antt =====
-- The loop of `LU` over the columns.
use csympy.Prelude.{ℕ, zero, suc, ◌≡◌, ◌≢◌, ◌<◌, ◌≤◌, refl, ap₂, ◌∙◌, List, arith, inl, inr, ◌⊎◌}
use csympy.Vector.{for_each}
use csympy.DenseMatrix.{Entries}
use csympy.DenseMatrix.Laws.{sum_of, sum_of_congr}
use csympy.DenseMatrix.Solve.{Division, IsField, cell}
use csympy.DenseMatrix.Decomposition.{lu_column}
use csympy.DenseMatrix.Decomposition.Cells.{IsSquare, products}
use csympy.DenseMatrix.Decomposition.LuColumn.{lu_column-ColumnDone}

module _ {ℓ} {A : Type ℓ} ⦃e : Entries A⦄ ⦃d : Division A⦄ ⦃l : IsField A⦄ where
  -- The columns before `c` hold the combined factors of `v`.
  pub record Combined (n c : ℕ) (v w : List A) : Type ℓ where
    pub square : IsSquare n w
    pub todo : (p q : ℕ) → p < n → q < n → c ≤ q → cell w n p q ≡ cell v n p q
    pub upper :
        (p q : ℕ)
        → p ≤ q
        → q < c
        → e.add (cell w n p q) (sum_of p (products n w p q)) ≡ cell v n p q
    pub lower :
        (p q : ℕ)
        → q < p
        → p < n
        → q < c
        → cell w n q q ≢ e.zero_entry
        → e.add (e.mul (cell w n p q) (cell w n q q)) (sum_of q (products n w p q)) ≡ cell v n p q

  -- After the loop over the first columns, these hold the factors.
  pub lu_columns-Combined :
      (n c : ℕ) (v : List A) → IsSquare n v → c ≤ n → Combined n c v (for_each c (lu_column n) v)
  unfolding for_each
  lu_columns-Combined n zero v s h = record {
    square = s;
    todo = λ p q x y z. refl;
    upper = λ p q x y. absurd (omega (arith, y));
    lower = λ p q x y z. absurd (omega (arith, z));
  }
  lu_columns-Combined n (suc c) v s h =
      let w = for_each c (lu_column n) v in
      let u = lu_column n c w in
      let before = lu_columns-Combined n c v s (omega (arith, h)) in
      let now = lu_column-ColumnDone n c w before.square (omega (arith, h)) in
      let same = λ (p q : ℕ) (p_n : p < n) (q_c : q < c).
        now.others p q p_n (omega (arith, q_c, h)) (λ z. omega (arith, z, q_c)) in
      let sums = λ (m p q : ℕ) (p_n : p < n) (m_p : m ≤ p) (m_q : m ≤ q) (q_c : q < c).
        sum_of_congr m (products n u p q) (products n w p q) (λ k t.
          ap₂ e.mul (same p k p_n (omega (arith, t, m_q, q_c)))
            (same k q (omega (arith, t, m_p, p_n)) q_c)) in
      record {
        square = now.square;
        todo = λ p q x y z.
            now.others p q x y (λ t. omega (arith, t, z)) ∙ before.todo p q x y (omega (arith, z));
        upper = λ p q x y. elim (let o : (q ≡ c) ⊎ (q < c) = ground (arith, y) in o) [
          | inl o ↦ rw o (
              now.upper p (omega (arith, o, x))
              ∙ before.todo p c (omega (arith, o, x, h)) (omega (arith, h)) (omega arith))
          | inr o ↦
              ap₂ e.add (same p q (omega (arith, x, o, h)) o)
                (sums p p q (omega (arith, x, o, h)) (omega arith) x o)
              ∙ before.upper p q x o
        ];
        lower = λ p q x y z t. elim (let o : (q ≡ c) ⊎ (q < c) = ground (arith, z) in o) [
          | inl o ↦ rw o (
              now.lower p (omega (arith, o, x)) y (rw o at t)
              ∙ before.todo p c y (omega (arith, h)) (omega arith))
          | inr o ↦
              let q_n : q < n = omega (arith, o, h) in
              ap₂ e.add (ap₂ e.mul (same p q y o) (same q q q_n o))
                (sums q p q y (omega (arith, x)) (omega arith) o)
              ∙ before.lower p q x y o (λ f. t (same q q q_n o ∙ f))
        ];
      }
