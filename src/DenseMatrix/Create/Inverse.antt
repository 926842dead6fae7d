-- ===== src/DenseMatrix/Create/Inverse.antt =====
-- `inverse_LU` computes the inverse, column by column.
use csympy.Prelude.{
  ℕ, zero, suc, ◌*◌, ◌^◌, ◌%◌, ◌==◌, ◌≡◌, ◌≢◌, ◌<◌, ◌≤◌, refl, ap, ◌∙◌, arith, List, length,
  if◌then◌else◌, true, false, inl, inr, ◌⊎◌,
}
use native.Mathlib.Nat.{mul-le-mul_left}
use csympy.Vector.{at, assign, for_each}
use csympy.Vector.Laws.{at-assign_same, at-assign_other, length-assign, length-repeat, at-repeat}
use csympy.DenseMatrix.{DenseMatrix, Entries, index, entry, with_entries}
use csympy.DenseMatrix.Loops.{assign-IsStep, for_each-here, for_each-there, for_each-size}
use csympy.DenseMatrix.Laws.{sum_of, sum_of_congr}
use csympy.DenseMatrix.Solve.{
  Division, IsField, cell, new_matrix, back_substitution, forward_substitution,
}
use csympy.DenseMatrix.Solve.Sums.{row_product}
use csympy.DenseMatrix.Solve.Triangular.{differs}
use csympy.DenseMatrix.Decomposition.{lu}
use csympy.DenseMatrix.Decomposition.Cells.{IsSquare, index-apart, index-inside}
use csympy.DenseMatrix.Decomposition.LuProduct.{IsFactored, lu-IsFactored}
use csympy.DenseMatrix.Decomposition.LuSolve.{substitutions, new_matrix-IsSquare, new_matrix-col}
use csympy.DenseMatrix.Create.{Inverting, inverse_column, start_inverting, inverse_lu}

module _ {ℓ} {A : Type ℓ} ⦃e : Entries A⦄ ⦃d : Division A⦄ ⦃f : IsField A⦄ where
  -- The entry of the unit matrix.
  abbrev pub unit_entry : ℕ → ℕ → A
  unit_entry i j = if i == j then d.one else e.zero_entry

  -- A loop that writes the values `x` to the column `j`.
  record ColumnSet (n j : ℕ) (x : ℕ → A) (v w : List A) : Type ℓ where
    square : IsSquare n w
    here : (i : ℕ) → i < n → cell w n i j ≡ x i
    there : (i q : ℕ) → i < n → q < n → q ≢ j → cell w n i q ≡ cell v n i q

  loop-ColumnSet :
      (n j : ℕ) (x : ℕ → A) (v : List A)
      → IsSquare n v
      → j < n
      → ColumnSet n j x v (for_each n (λ i u. assign u (index n i j) (x i)) v)
  loop-ColumnSet n j x v s h =
      let g = λ (k : ℕ). index n k j in
      let φ = λ (k : ℕ) (y : A). x k in
      let write = λ (k : ℕ) (u : List A). assign u (g k) (x k) in
      let step = λ (k : ℕ). assign-IsStep e.zero_entry (g k) (φ k) in
      record {
        square = record {
          size = for_each-size e.zero_entry n write g φ v step ∙ s.size;
          bounded = s.bounded;
        };
        here = λ i i_n.
            for_each-here e.zero_entry n write g φ v i step
              (λ a b o b_n.
                index-apart n a j b j s.bounded (omega (arith, o, b_n)) h b_n h
                  (inl (λ z. omega (arith, z, o))))
              i_n (index-inside n v i j s i_n h);
        there = λ i q i_n q_n o.
            for_each-there e.zero_entry n write g φ v (index n i q) step
              (λ k k_n. index-apart n i q k j s.bounded i_n q_n k_n h (inr o));
      }

  -- The columns before `j` are those of the inverse of `a`, and `e` is zero again.
  record Inverted (a : DenseMatrix A) (j : ℕ) (s : Inverting A) : Type ℓ where
    unit_size : length s.unit.m ≡ a.col
    unit_zero : (i : ℕ) → i < a.col → at e.zero_entry s.unit.m i ≡ e.zero_entry
    square : IsSquare a.col s.inverse
    columns :
        (i q : ℕ)
        → i < a.col
        → q < j
        → sum_of a.col (λ k. e.mul (entry a i k) (cell s.inverse a.col k q)) ≡ unit_entry i q

  inverse_column-Inverted :
      (a l u : DenseMatrix A) (j : ℕ) (s : Inverting A)
      → IsFactored a l u
      → a.col ≤ 2 ^ 32
      → j < a.col
      → Inverted a j s
      → Inverted a (suc j) (inverse_column a.col l u j s)
  unfolding inverse_column row_product
  inverse_column-Inverted a l u j s p c h r =
      let n = a.col in
      let unit = with_entries s.unit (assign s.unit.m j d.one) in
      let between = forward_substitution l unit s.between in
      let solved = back_substitution u between s.solved in
      let written = loop-ColumnSet n j (at e.zero_entry solved.m) s.inverse r.square h in
      let size = length-assign s.unit.m j d.one ∙ r.unit_size in
      let unit_at = λ (i : ℕ) (i_n : i < n).
        let goal : at e.zero_entry unit.m i ≡ unit_entry i j =
          elim (let o : (i ≡ j) ⊎ (i ≢ j) = ground arith in o) [
            | inl o ↦
                ap (at e.zero_entry unit.m) o
                ∙ at-assign_same e.zero_entry d.one s.unit.m j (omega (arith, h, r.unit_size))
                ∙ ap (λ t. if t then d.one else e.zero_entry)
                    (let t : true ≡ (i == j) = ground (arith, o) in t)
            | inr o ↦
                at-assign_other e.zero_entry d.one s.unit.m j i (differs i j o)
                ∙ r.unit_zero i i_n
                ∙ ap (λ t. if t then d.one else e.zero_entry)
                    (let t : false ≡ (i == j) = ground (arith, o) in t)
          ] in
        goal in
      record {
        unit_size = length-assign unit.m j e.zero_entry ∙ size;
        unit_zero = λ i i_n. elim (let o : (i ≡ j) ⊎ (i ≢ j) = ground arith in o) [
          | inl o ↦
              ap (at e.zero_entry (assign unit.m j e.zero_entry)) o
              ∙ at-assign_same e.zero_entry e.zero_entry unit.m j (omega (arith, h, size))
          | inr o ↦
              at-assign_other e.zero_entry e.zero_entry unit.m j i (differs i j o)
              ∙ at-assign_other e.zero_entry d.one s.unit.m j i (differs i j o)
              ∙ r.unit_zero i i_n
        ];
        square = written.square;
        columns = λ i q i_n o. elim (let c : (q ≡ j) ⊎ (q < j) = ground (arith, o) in c) [
          | inl t ↦ rw t (
              sum_of_congr n _ _ (λ k k_n. ap (e.mul (entry a i k)) (written.here k k_n))
              ∙ substitutions a l u unit s.solved s.between i p size c i_n
              ∙ unit_at i i_n)
          | inr t ↦
              sum_of_congr n _ _ (λ k k_n.
                ap (e.mul (entry a i k))
                  (written.there k q k_n (omega (arith, t, h)) (λ z. omega (arith, z, t))))
              ∙ r.columns i q i_n t
        ];
      }

  columns-Inverted :
      (a l u : DenseMatrix A) (j : ℕ) (s : Inverting A)
      → IsFactored a l u
      → a.col ≤ 2 ^ 32
      → j ≤ a.col
      → Inverted a 0 s
      → Inverted a j (for_each j (inverse_column a.col l u) s)
  unfolding for_each
  columns-Inverted a l u zero s p c h r = r
  columns-Inverted a l u (suc j) s p c h r =
      inverse_column-Inverted a l u j (for_each j (inverse_column a.col l u) s) p c
        (omega (arith, h)) (columns-Inverted a l u j s p c (omega (arith, h)) r)

  abbrev inverse_of : DenseMatrix A → DenseMatrix A → ℕ → List A
  inverse_of a b n =
      let factors = lu a (new_matrix n n) (new_matrix n n) in
      (for_each n (inverse_column n factors.0 factors.1) (start_inverting n b)).inverse

  entry-col :
      (b : DenseMatrix A) (v : List A) (i j n : ℕ)
      → b.col ≡ n
      → entry (with_entries b v) i j ≡ cell v n i j
  unfolding entry
  entry-col b v i j n h = ap (λ m. at e.zero_entry v (index m i j)) h

  start-Inverted :
      (a b : DenseMatrix A)
      → a.col < 2 ^ 32
      → IsSquare a.col b.m
      → Inverted a 0 (start_inverting a.col b)
  unfolding start_inverting new_matrix
  start-Inverted a b c s =
      let n = a.col in
      let count : n * 1 % 2 ^ 32 ≡ n = omega (arith, c) in
      let step = λ (k : ℕ). assign-IsStep e.zero_entry k (λ y. e.zero_entry) in
      record {
        unit_size = length-repeat _ _ ∙ count;
        unit_zero = λ i i_n.
            at-repeat e.zero_entry e.zero_entry (n * 1 % 2 ^ 32) i (omega (arith, i_n, count));
        square = record {
          size =
              for_each-size e.zero_entry (n * n % 2 ^ 32) (λ i v. assign v i e.zero_entry) (λ k. k)
                (λ k y. e.zero_entry) b.m step
              ∙ s.size;
          bounded = s.bounded;
        };
        columns = λ i q i_n o. absurd (omega (arith, o));
      }

  -- Over a field, for square matrices of one order with fewer than 2^32 entries, if no entry on the
  -- diagonal of the computed `U` is zero, then `inverse_LU` gives the inverse: each entry of the
  -- product of the matrix with the result is that of the unit matrix.
  pub inverse_lu-product :
      (a b : DenseMatrix A) (i j : ℕ)
      → a.row ≡ a.col
      → b.col ≡ a.col
      → IsSquare a.col a.m
      → IsSquare a.col b.m
      → a.col * a.col < 2 ^ 32
      → ((k : ℕ)
          → k < a.col
          → entry (lu a (new_matrix a.col a.col) (new_matrix a.col a.col)).1 k k ≢ e.zero_entry)
      → i < a.col
      → j < a.col
      → sum_of a.col (λ k. e.mul (entry a i k) (entry (inverse_lu a b) k j)) ≡ unit_entry i j
  unfolding inverse_lu
  inverse_lu-product a b i j r q s t c z i_n j_n =
      let n = a.col in
      let start = new_matrix n n in
      let start_col = new_matrix-col A n n in
      let p =
        lu-IsFactored a start start r (start_col, start_col) s (new_matrix-IsSquare n n refl c) z in
      let k = mul-le-mul_left n (let one : 1 ≤ n = omega (arith, i_n) in one) in
      let v =
        columns-Inverted a (lu a start start).0 (lu a start start).1 n (start_inverting n b) p
          (omega (arith, k, c)) (omega arith) (start-Inverted a b (omega (arith, k, c)) t) in
      ap (λ m. sum_of n (λ k. e.mul (entry a i k) (entry (with_entries b (inverse_of a b m)) k j)))
        r
      ∙ sum_of_congr n _ (λ k. e.mul (entry a i k) (cell (inverse_of a b n) n k j))
          (λ k k_n. ap (e.mul (entry a i k)) (entry-col b (inverse_of a b n) k j n q))
      ∙ v.columns i j i_n j_n
