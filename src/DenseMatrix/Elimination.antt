-- ===== src/DenseMatrix/Elimination.antt =====
-- src/dense_matrix.cpp: Gaussian and Gauss-Jordan elimination. The plain ones return the entries of
-- `B`; the pivoted ones a state of the entries, the list of the pivots and the row `index`. Where
-- `index == row` the code leaves the loop; here the rounds that are left change nothing.
use csympy.Prelude.{ℕ, ◌+◌, ◌-◌, ◌*◌, ◌==◌, List, ltb, if◌then◌else◌}
use csympy.Vector.{at, assign, for_each, for_range, for_down}
use csympy.DenseMatrix.{
  DenseMatrix, Entries, index, entry, with_entries, swap_places, row_exchange_dense,
  row_mul_scalar_dense, row_add_row_dense,
}
use csympy.DenseMatrix.Solve.{Division, before, diagonal_before, cell, pivot}

-- `std::vector<unsigned>` with the numbers of the rows, as the loop leaves it
unfoldable pub row_numbers : ℕ → List ℕ → List ℕ
row_numbers row pivotlist = for_each row (λ i p. assign p i i) pivotlist

pub record Pivoted {ℓ} (A : Type ℓ) : Type ℓ where
  pub matrix : DenseMatrix A
  pub pivotlist : List ℕ
  pub index_row : ℕ

module _ {ℓ} {A : Type ℓ} ⦃e : Entries A⦄ ⦃d : Division A⦄ where
  -- `m[j, k] = (m[i, i]*m[j, k] - m[j, i]*m[i, k]) / m[i - 1, i - 1]`, without the division in the
  -- row 0.
  unfoldable pub fraction_free_entry : ℕ → ℕ → ℕ → ℕ → List A → List A
  fraction_free_entry col i j k v =
      let w = assign v (index col j k) (
        d.sub (e.mul (cell v col i i) (cell v col j k))
          (e.mul (cell v col j i) (cell v col i k))) in
      if ltb 0 i
      then assign w (index col j k)
          (d.div (cell w col j k) (at e.zero_entry w (diagonal_before col i)))
      else w

  -- The same, with a divisor that was read before.
  unfoldable pub fraction_free_entry_by : A → ℕ → ℕ → ℕ → ℕ → List A → List A
  fraction_free_entry_by q col i j k v =
      let w = assign v (index col j k) (
        d.sub (e.mul (cell v col i i) (cell v col j k))
          (e.mul (cell v col j i) (cell v col i k))) in
      if ltb 0 i then assign w (index col j k) (d.div (cell w col j k) q) else w

  -- The row `j` in the round `i` of `fraction_free_gaussian_elimination`.
  unfoldable pub fraction_free_row : ℕ → ℕ → ℕ → List A → List A
  fraction_free_row col i j v =
      assign (for_range (i + 1) col (fraction_free_entry col i j) v) (index col j i) e.zero_entry

  unfoldable pub fraction_free_gaussian_elimination : DenseMatrix A → DenseMatrix A → DenseMatrix A
  fraction_free_gaussian_elimination a b =
      with_entries b
        (for_each (before a.col) (λ i v. for_range (i + 1) a.row (fraction_free_row a.col i) v) a.m)

  -- The round `i` of `fraction_free_gauss_jordan_elimination`, on `row` rows.
  unfoldable pub fraction_free_jordan_round : ℕ → ℕ → ℕ → List A → List A
  fraction_free_jordan_round row col i v =
      let q = at e.zero_entry v (diagonal_before col i) in
      for_each row (λ j u. if j == i then u else assign u (index col j i) e.zero_entry)
        (for_each row
          (λ j u.
            if j == i
            then u
            else for_each col (λ k t. if k == i then t else fraction_free_entry_by q col i j k t) u)
          v)

  unfoldable pub fraction_free_gauss_jordan_elimination :
      DenseMatrix A → DenseMatrix A → DenseMatrix A
  fraction_free_gauss_jordan_elimination a b =
      with_entries b (for_each a.col (fraction_free_jordan_round a.row a.col) a.m)

  -- `row_exchange_dense(B, k, index); std::swap(pivotlist[k], pivotlist[index]);`
  unfoldable pub exchange_pivot : ℕ → Pivoted A → Pivoted A
  exchange_pivot k s = if k == s.index_row then s else record {
    matrix = row_exchange_dense s.matrix k s.index_row;
    pivotlist = swap_places 0 s.pivotlist k s.index_row;
    index_row = s.index_row;
  }

  -- The round `i` of a pivoted elimination, which changes the matrix by `eliminate`.
  unfoldable pub pivoted_round : (ℕ → ℕ → DenseMatrix A → DenseMatrix A) → ℕ → Pivoted A → Pivoted A
  pivoted_round eliminate i s =
      let k = pivot s.matrix s.index_row i in
      let t = exchange_pivot k s in
      if s.index_row == s.matrix.row then s else if k == s.matrix.row then s else record {
        matrix = eliminate t.index_row i t.matrix;
        pivotlist = t.pivotlist;
        index_row = t.index_row + 1;
      }

  unfoldable pub start_pivoted : DenseMatrix A → DenseMatrix A → List ℕ → Pivoted A
  start_pivoted a b pivotlist = record {
    matrix = with_entries b a.m;
    pivotlist = row_numbers a.row pivotlist;
    index_row = 0;
  }

  -- `scale = div(one, B.m_[index*col + i]); row_mul_scalar_dense(B, index, scale);`
  unfoldable pub scale_pivot_row : ℕ → ℕ → DenseMatrix A → DenseMatrix A
  scale_pivot_row index_row i b =
      row_mul_scalar_dense b index_row (d.div d.one (entry b index_row i))

  unfoldable pub gaussian_round : ℕ → ℕ → DenseMatrix A → DenseMatrix A
  gaussian_round index_row i b =
      let c = scale_pivot_row index_row i b in
      with_entries c (
        for_range (i + 1) c.row
          (λ j v.
            assign
              (for_range (i + 1) c.col
                (λ k u.
                  assign u (index c.col j k)
                    (d.sub (cell u c.col j k) (e.mul (cell u c.col j i) (cell u c.col i k))))
                v)
              (index c.col j i) e.zero_entry)
          c.m)

  unfoldable pub pivoted_gaussian_elimination : DenseMatrix A → DenseMatrix A → List ℕ → Pivoted A
  pivoted_gaussian_elimination a b pivotlist =
      for_each (before a.col) (pivoted_round gaussian_round) (start_pivoted a b pivotlist)

  unfoldable pub pivoted_fraction_free_gaussian_elimination :
      DenseMatrix A → DenseMatrix A → List ℕ → Pivoted A
  pivoted_fraction_free_gaussian_elimination a b pivotlist =
      for_each (before a.col)
        (pivoted_round (λ index_row i c.
          with_entries c (for_range (i + 1) c.row (fraction_free_row c.col i) c.m)))
        (start_pivoted a b pivotlist)

  unfoldable pub gauss_jordan_round : ℕ → ℕ → DenseMatrix A → DenseMatrix A
  gauss_jordan_round index_row i b =
      for_each b.row
        (λ j c.
          if j == index_row
          then c
          else row_add_row_dense c j index_row (e.mul d.minus_one (entry c j i)))
        (scale_pivot_row index_row i b)

  unfoldable pub pivoted_gauss_jordan_elimination :
      DenseMatrix A → DenseMatrix A → List ℕ → Pivoted A
  pivoted_gauss_jordan_elimination a b pivotlist =
      for_each a.col (pivoted_round gauss_jordan_round) (start_pivoted a b pivotlist)

  unfoldable pub pivoted_fraction_free_gauss_jordan_elimination :
      DenseMatrix A → DenseMatrix A → List ℕ → Pivoted A
  pivoted_fraction_free_gauss_jordan_elimination a b pivotlist =
      for_each a.col
        (pivoted_round
          (λ index_row i c. with_entries c (fraction_free_jordan_round c.row c.col i c.m)))
        (start_pivoted a b pivotlist)

  -- The elimination in `fraction_free_gaussian_elimination_solve`, on the matrix and the right side.
  unfoldable pub solve_row : ℕ → ℕ → ℕ → ℕ → List A × List A → List A × List A
  solve_row col bcol i j s = (
    fraction_free_row col i j s.0,
    for_each bcol
        (λ k w.
          let u = assign w (index bcol j k) (
            d.sub (e.mul (cell s.0 col i i) (cell w bcol j k))
              (e.mul (cell s.0 col j i) (cell w bcol i k))) in
          if ltb 0 i
          then assign u (index bcol j k)
              (d.div (cell u bcol j k) (at e.zero_entry s.0 (diagonal_before col i)))
          else u)
        s.1,
  )

  -- The back substitution in it, for the column `k`: `b_` and `x`.
  unfoldable pub solve_back : ℕ → ℕ → List A → ℕ → ℕ → List A × List A → List A × List A
  solve_back col bcol a k i s =
      let w =
        for_range (i + 1) col
          (λ j u.
            assign u (index bcol i k)
              (d.sub (cell u bcol i k) (e.mul (cell a col i j) (cell s.1 bcol j k))))
          s.0 in
      (w, assign s.1 (index bcol i k) (d.div (cell w bcol i k) (cell a col i i)))

  -- The counters are `int`: there is no round for a matrix without columns.
  unfoldable pub fraction_free_gaussian_elimination_solve :
      DenseMatrix A → DenseMatrix A → DenseMatrix A → DenseMatrix A
  fraction_free_gaussian_elimination_solve a b x =
      let s =
        for_each (a.col - 1) (λ i t. for_range (i + 1) a.col (solve_row a.col b.col i) t)
          (a.m, b.m) in
      let cleared = for_each (a.col * b.col) (λ i v. assign v i e.zero_entry) x.m in
      with_entries x
        (for_each b.col (λ k t. for_down a.col (solve_back a.col b.col s.0 k) t) (s.1, cleared)).1

  -- The row `j` in the round `i` of `fraction_free_gauss_jordan_solve`.
  unfoldable pub jordan_solve_row : A → ℕ → ℕ → ℕ → ℕ → List A × List A → List A × List A
  jordan_solve_row q col bcol i j s = if j == i then s else (
    for_each col (λ k t. if k == i then t else fraction_free_entry_by q col i j k t) s.0,
    for_each bcol
        (λ k w.
          let u = assign w (index bcol j k) (
            d.sub (e.mul (cell s.0 col i i) (cell w bcol j k))
              (e.mul (cell s.0 col j i) (cell w bcol i k))) in
          if ltb 0 i then assign u (index bcol j k) (d.div (cell u bcol j k) q) else u)
        s.1,
  )

  unfoldable pub jordan_solve_round : ℕ → ℕ → ℕ → List A × List A → List A × List A
  jordan_solve_round col bcol i s =
      let q = at e.zero_entry s.0 (diagonal_before col i) in
      let t = for_each col (jordan_solve_row q col bcol i) s in
      (for_each col (λ j u. if j == i then u else assign u (index col j i) e.zero_entry) t.0, t.1)

  unfoldable pub fraction_free_gauss_jordan_solve :
      DenseMatrix A → DenseMatrix A → DenseMatrix A → DenseMatrix A
  fraction_free_gauss_jordan_solve a b x =
      let s = for_each a.col (jordan_solve_round a.col b.col) (a.m, b.m) in
      with_entries x (
        for_each b.col
          (λ k v.
            for_each a.col
              (λ i u. assign u (index b.col i k) (d.div (cell s.1 b.col i k) (cell s.0 a.col i i)))
              v)
          x.m)
