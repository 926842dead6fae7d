-- ===== src/Diophantine/Solutions.antt =====
-- What `homogeneous_lde` puts into the basis are solutions other than zero.
use csympy.Prelude.{
  ℕ, zero, suc, ◌-◌, ◌^◌, ◌≡◌, ◌<◌, refl, sym, ap, ◌∙◌, inl, inr, arith, Bool, Bool-cases, true,
  false, not, ◌&&◌, ◌||◌, and-true_iff, ==_iff, List, [], ◌∷◌, length, ltb, ◌==◌,
}
use csympy.Prelude.Int.{ℤ, pos, ◌*ℤ◌, eqb_ℤ, eqb_ℤ_iff, ltb_ℤ}
use csympy.DenseMatrix.{entry, transpose_dense, mul_dense_dense}
use csympy.DenseMatrix.Create.{zeros}
use csympy.DenseMatrix.Laws.{
  IsDense, sum_of, sum_of_congr, entry-transpose_dense, entry-mul_dense_dense,
}
use csympy.DenseMatrix.Solve.{new_matrix}
use csympy.Diophantine.{
  integer_entries, all_from, matrix_eq, is_minimum, no_matrix, Search, next_vector, dot_product,
  push_vector, with_vector, try_column, Lde, lde_round, lde_rounds, start_lde, homogeneous_lde,
  set_entry,
}
use csympy.Vector.{at}
use csympy.Diophantine.Matrices.{
  Matrix, Each, Each-at, Each-erase_at, Each-append, for_each-keeps, transpose_dense-IsDense,
  mul_dense_dense-IsDense, all_from-all, new_matrix-IsDense, entry-zeros,
}

module _ (a : Matrix) where
  -- A row vector with an entry for each column of the matrix.
  abbrev pub IsRow : Matrix → Type 0
  IsRow t = (t.row ≡ 1) × (t.col ≡ a.col)

  -- The product of the matrix and the vector is zero, and the vector is not.
  pub record IsSolution (t : Matrix) : Type 0 where
    pub solves : (i : ℕ) → i < a.row → sum_of a.col (λ k. entry a i k *ℤ entry t 0 k) ≡ pos 0
    pub nonzero : matrix_eq t (zeros 1 a.col) ≡ false

  set_entry-IsRow : (t : Matrix) (i : ℕ) (x : ℤ) → IsRow t → IsRow (set_entry t i x)
  set_entry-IsRow t i x h = h

  next_vector-IsRow : (i : ℕ) (t : Matrix) → IsRow t → IsRow (next_vector i t)
  unfolding next_vector
  next_vector-IsRow i t h = elim (Bool-cases (ltb 0 i)) [ inl p ↦ rw p h | inr p ↦ rw p h ]

  abbrev Rows : Search → Type 0
  Rows s = IsRow s.vector × Each IsRow s.stack

  try_column-Rows :
      (product : Matrix) (basis : List Matrix) (first : Bool) (i : ℕ) (s : Search)
      → Rows s
      → Rows (try_column a product basis first i s)
  unfolding try_column push_vector with_vector
  try_column-Rows product basis first i s h =
      let moved = with_vector s (next_vector i s.vector) in
      let next = next_vector-IsRow i s.vector h.0 in
      elim (Bool-cases (
        not (at true s.fixed i)
        && ((ltb_ℤ (dot_product a product i) (pos 0)
              && is_minimum moved.vector basis (length basis))
            || first))) [
              | inl p ↦
                  rw p
                    (next, Each-append IsRow s.stack (next_vector i s.vector ∷ []) h.1 (next, tt))
              | inr p ↦ rw p (next, h.1)
            ]

  pub record IsLde (s : Lde) : Type 0 where
    pub rows : Each IsRow s.stack
    pub transposed_size : (s.transposed.row ≡ a.col) × (s.transposed.col ≡ 1)
    pub transposed_dense : IsDense s.transposed
    pub product_size : (s.product.row ≡ a.row) × (s.product.col ≡ 1)
    pub product_dense : IsDense s.product
    pub solutions : Each IsSolution s.basis

  transposed_rows : (t b : Matrix) → (transpose_dense t b).row ≡ b.row
  unfolding transpose_dense
  transposed_rows t b = refl

  transposed_cols : (t b : Matrix) → (transpose_dense t b).col ≡ b.col
  unfolding transpose_dense
  transposed_cols t b = refl

  product_rows : (t b : Matrix) → (mul_dense_dense a t b).row ≡ b.row
  unfolding mul_dense_dense
  product_rows t b = refl

  product_cols : (t b : Matrix) → (mul_dense_dense a t b).col ≡ b.col
  unfolding mul_dense_dense
  product_cols t b = refl

  module _ (few_rows : a.row < 2 ^ 32) where
    zero_product :
        (c : Matrix)
        → c.row ≡ a.row
        → c.col ≡ 1
        → matrix_eq c (zeros a.row 1) ≡ true
        → (i : ℕ) → i < a.row
        → entry c i 0 ≡ pos 0
    unfolding matrix_eq zeros new_matrix
    zero_product c r s h i l =
        let sizes : (c.row == a.row && c.col == 1) ≡ true =
          (and-true_iff _ _).1 ((==_iff _ _).1 r, (==_iff _ _).1 s) in
        let all : all_from c.row 0
              (λ i. all_from c.col 0 (λ j. eqb_ℤ (entry c i j) (entry (zeros a.row 1) i j)))
            ≡ true =
          (let e : matrix_eq c (zeros a.row 1)
                ≡ all_from c.row 0
                    (λ i. all_from c.col 0 (λ j. eqb_ℤ (entry c i j) (entry (zeros a.row 1) i j))) =
              rw sizes refl in
            sym e)
          ∙ h in
        let row =
          all_from-all c.row 0
            (λ i. all_from c.col 0 (λ j. eqb_ℤ (entry c i j) (entry (zeros a.row 1) i j))) all i
            (omega arith) (omega (arith, l, r)) in
        let here =
          all_from-all c.col 0 (λ j. eqb_ℤ (entry c i j) (entry (zeros a.row 1) i j)) row 0
            (omega arith) (omega (arith, s)) in
        (eqb_ℤ_iff _ _).0 here ∙ entry-zeros a.row 1 i 0 (omega (arith, few_rows)) l (omega arith)

    -- The product that a round computes.
    product_sum :
        (s : Lde) (t : Matrix) (i : ℕ)
        → IsLde s
        → IsRow t
        → i < a.row
        → entry (mul_dense_dense a (transpose_dense t s.transposed) s.product) i 0
          ≡ sum_of a.col (λ k. entry a i k *ℤ entry t 0 k)
    product_sum s t i ok shape l =
        let u = transpose_dense t s.transposed in
        entry-mul_dense_dense a u s.product i 0 ok.product_size.0
          (ok.product_size.1 ∙ sym ok.transposed_size.1 ∙ sym (transposed_cols t s.transposed))
          ok.product_dense l (omega (arith, ok.transposed_size.1, transposed_cols t s.transposed))
        ∙ sum_of_congr a.col _ _ (λ k h.
          ap (λ x. entry a i k *ℤ x)
            (entry-transpose_dense t s.transposed 0 k (ok.transposed_size.0 ∙ sym shape.1)
              (ok.transposed_size.1 ∙ sym shape.0) ok.transposed_dense (omega (arith, shape.0))
              (omega (arith, h, shape.1))))

    lde_round-IsLde : (s : Lde) → 0 < length s.stack → IsLde s → IsLde (lde_round a s)
    unfolding lde_round
    lde_round-IsLde s some_left ok =
        let n = length s.stack - 1 in
        let t = at no_matrix s.stack n in
        let shape = Each-at IsRow s.stack n ok.rows (omega (arith, some_left)) in
        let stack = Each-erase_at IsRow s.stack n ok.rows in
        let u = transpose_dense t s.transposed in
        let c = mul_dense_dense a u s.product in
        let u_size : (u.row ≡ a.col) × (u.col ≡ 1) = (
          transposed_rows t s.transposed ∙ ok.transposed_size.0,
          transposed_cols t s.transposed ∙ ok.transposed_size.1,
        ) in
        let c_size : (c.row ≡ a.row) × (c.col ≡ 1) = (
          product_rows u s.product ∙ ok.product_size.0,
          product_cols u s.product ∙ ok.product_size.1,
        ) in
        elim (Bool-cases (matrix_eq c (zeros a.row 1) && not (matrix_eq t (zeros 1 a.col)))) [
          | inl h ↦
              let both = (and-true_iff _ _).0 h in
              rw h (record {
                rows = stack;
                transposed_size = u_size;
                transposed_dense = transpose_dense-IsDense t s.transposed ok.transposed_dense;
                product_size = c_size;
                product_dense = mul_dense_dense-IsDense a u s.product ok.product_dense;
                solutions = Each-append IsSolution s.basis (t ∷ []) ok.solutions (
                  record {
                    solves = λ i l.
                        sym (product_sum s t i ok shape l)
                        ∙ zero_product c c_size.0 c_size.1 both.0 i l;
                    nonzero = ground (arith, both.1);
                  },
                  tt,
                );
              })
          | inr h ↦ rw h (record {
            rows =
                (for_each-keeps Rows a.col _ _
                  (λ i w r. try_column-Rows c s.basis (matrix_eq t (zeros 1 a.col)) i w r)
                  (shape, stack)).1;
            transposed_size = u_size;
            transposed_dense = transpose_dense-IsDense t s.transposed ok.transposed_dense;
            product_size = c_size;
            product_dense = mul_dense_dense-IsDense a u s.product ok.product_dense;
            solutions = ok.solutions;
          })
        ]

    start_lde-IsLde :
        a.col < 2 ^ 32 → (basis : List Matrix) → Each IsSolution basis → IsLde (start_lde a basis)
    unfolding start_lde zeros new_matrix
    start_lde-IsLde few_cols basis h = record {
      rows = ((refl, refl), tt);
      transposed_size = (refl, refl);
      transposed_dense = new_matrix-IsDense a.col 1 (omega (arith, few_cols));
      product_size = (refl, refl);
      product_dense = new_matrix-IsDense a.row 1 (omega (arith, few_rows));
      solutions = h;
    }

    lde_rounds-IsLde : (fuel : ℕ) (s : Lde) → IsLde s → IsLde (lde_rounds fuel a s)
    unfolding lde_rounds
    lde_rounds-IsLde zero s ok = ok
    lde_rounds-IsLde (suc fuel) s ok = elim (Bool-cases (length s.stack == 0)) [
      | inl h ↦ rw (h, lde_rounds) ok
      | inr h ↦
          rw (h, lde_rounds)
            (lde_rounds-IsLde fuel (lde_round a s)
              (lde_round-IsLde s (let l : 0 < length s.stack = ground (arith, h) in l) ok))
    ]

    -- After any number of rounds of `homogeneous_lde`, all vectors in the basis are solutions of the
    -- system other than zero, if those are that were there before.
    pub homogeneous_lde-IsSolution :
        a.col < 2 ^ 32
        → (rounds : ℕ) → (basis : List Matrix) → Each IsSolution basis
        → Each IsSolution (homogeneous_lde rounds a basis).0
    unfolding homogeneous_lde
    homogeneous_lde-IsSolution few_cols rounds basis h =
        let ok = lde_rounds-IsLde rounds (start_lde a basis) (start_lde-IsLde few_cols basis h) in
        ok.solutions
