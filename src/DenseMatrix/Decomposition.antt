-- ===== src/DenseMatrix/Decomposition.antt =====
-- src/dense_matrix.cpp: the decompositions, the solvers on top of them, and `is_symmetric_dense`.
pub mod Symmetric
pub mod Cells
pub mod LuColumn
pub mod LuColumns
pub mod LuSplit
pub mod LuProduct
pub mod LuSolve
pub mod LdlRow
pub mod LdlRows
pub mod LdlProduct
pub mod LdlSolve
pub mod Examples
use csympy.Prelude.{ℕ, ◌+◌, ◌-◌, ◌*◌, ◌^◌, ◌%◌, ◌==◌, Bool, true, false, List, if◌then◌else◌}
use csympy.Vector.{at, assign, for_each, for_range}
use csympy.DenseMatrix.{
  DenseMatrix, Entries, index, entry, for_entries, with_entries, transpose_dense,
}
use csympy.DenseMatrix.Solve.{
  Division, before, cell, new_matrix, diagonal_solve, back_substitution, forward_substitution,
}
use csympy.DenseMatrix.Elimination.{fraction_free_entry}

-- `pow` with the exponents 2 and 1/2, and `expand`, of expressions
pub record Powers {ℓ} (A : Type ℓ) : Type ℓ where
  pub square : A → A
  pub square_root : A → A
  pub expand : A → A

-- `L`, `D`, `U` and `old` of `fraction_free_LDU`
pub record Factors {ℓ} (A : Type ℓ) : Type ℓ where
  pub lower : List A
  pub diagonal : List A
  pub upper : List A
  pub old : A

-- What `LDL_solve` does: `not_symmetric` is the exception "Matrix must be symmetric".
pub data Solved {ℓ} (A : Type ℓ) : Type ℓ where
  solution : DenseMatrix A → Solved A
  not_symmetric : Solved A

module _ {ℓ} {A : Type ℓ} ⦃e : Entries A⦄ ⦃d : Division A⦄ where
  unfoldable pub fraction_free_lu : DenseMatrix A → DenseMatrix A → DenseMatrix A
  fraction_free_lu a factors = with_entries factors (
      for_each (before a.row)
        (λ i v.
          for_range (i + 1) a.row (λ j u. for_range (i + 1) a.row (fraction_free_entry a.row i j) u)
            v)
        a.m)

  -- `U[i, j] -= U[i, k]*U[k, j]`, for `k` below `m`
  unfoldable pub subtract_products : ℕ → ℕ → ℕ → ℕ → List A → List A
  subtract_products n j m i v =
      for_each m
        (λ k u. assign u (index n i j) (d.sub (cell u n i j) (e.mul (cell u n i k) (cell u n k j))))
        v

  -- The column `j` of `LU`.
  unfoldable pub lu_column : ℕ → ℕ → List A → List A
  lu_column n j v =
      let w =
        for_range j n (subtract_products n j j)
          (for_each j (λ i u. subtract_products n j i i u) v) in
      let scale = d.div d.one (cell w n j j) in
      for_range (j + 1) n (λ i u. assign u (index n i j) (e.mul (cell u n i j) scale)) w

  -- The row `i` of the last loop of `LU`, on `L` and `U`.
  unfoldable pub lu_split : ℕ → ℕ → List A × List A → List A × List A
  lu_split n i s =
      let t =
        for_each i
          (λ j r.
            (assign r.0 (index n i j) (cell r.1 n i j), assign r.1 (index n i j) e.zero_entry))
          s in
      (
        for_range (i + 1) n (λ j v. assign v (index n i j) e.zero_entry)
            (assign t.0 (index n i i) d.one),
        t.1,
      )

  unfoldable pub lu : DenseMatrix A → DenseMatrix A → DenseMatrix A → DenseMatrix A × DenseMatrix A
  lu a l u =
      let n = a.row in
      let s = for_each n (lu_split n) (l.m, for_each n (lu_column n) a.m) in
      (with_entries l s.0, with_entries u s.1)

  -- The row `i` in the round `k`, on `L` and `U`.
  unfoldable pub ldu_row : ℕ → A → ℕ → ℕ → List A × List A → List A × List A
  ldu_row col old k i s =
      let v =
        for_range (k + 1) col
          (λ j u. assign u (index col i j) (
            d.div
              (d.sub (e.mul (cell u col k k) (cell u col i j))
                (e.mul (cell u col k j) (cell u col i k)))
              old))
          s.1 in
      (assign s.0 (index col i k) (cell s.1 col i k), assign v (index col i k) e.zero_entry)

  unfoldable pub ldu_round : ℕ → ℕ → ℕ → Factors A → Factors A
  ldu_round row col k f =
      let pivot_entry = cell f.upper col k k in
      let s =
        for_range (k + 1) row (ldu_row col f.old k)
          (assign f.lower (index col k k) pivot_entry, f.upper) in
      record {
        lower = s.0;
        diagonal = assign f.diagonal (index col k k) (e.mul f.old pivot_entry);
        upper = s.1;
        old = cell s.1 col k k;
      }

  unfoldable pub fraction_free_ldu :
      DenseMatrix A
      → DenseMatrix A
      → DenseMatrix A
      → DenseMatrix A
      → DenseMatrix A × (DenseMatrix A × DenseMatrix A)
  fraction_free_ldu a l diagonal u =
      let f = for_each (before a.row) (ldu_round a.row a.col) (record {
        lower =
            for_entries a.row a.row
              (λ i j v. assign v (index a.col i j) (if i == j then d.one else e.zero_entry)) l.m;
        diagonal = for_each (a.row * a.row % 2 ^ 32) (λ i v. assign v i e.zero_entry) diagonal.m;
        upper = a.m;
        old = d.one;
      }) in
      (
        with_entries l f.lower,
        (
          with_entries diagonal (
              assign f.diagonal ((a.row * a.col + 2 ^ 32 - a.col + a.row + (2 ^ 32 - 1)) % 2 ^ 32)
                f.old),
          with_entries u f.upper,
        ),
      )

  -- `sum += L[i, k]*L[j, k]*D[k, k]` for `k` below `m`
  unfoldable pub ldl_sum : ℕ → List A → List A → ℕ → ℕ → ℕ → A
  ldl_sum col l diagonal i j m =
      for_each m
        (λ k s. e.add s (e.mul (e.mul (cell l col i k) (cell l col j k)) (cell diagonal col k k)))
        e.zero_entry

  module _ ⦃p : Powers A⦄ where
    -- The row `i` of `LDL`, on `L` and `D`.
    unfoldable pub ldl_row : DenseMatrix A → ℕ → List A × List A → List A × List A
    ldl_row a i s =
        let col = a.col in
        let l =
          for_each i
            (λ j v. assign v (index col i j) (
              e.mul (d.div d.one (cell s.1 col j j))
                (d.sub (entry a i j) (ldl_sum col v s.1 i j j))))
            s.0 in
        let sum =
          for_each i (λ k t. e.add t (e.mul (p.square (cell l col i k)) (cell s.1 col k k)))
            e.zero_entry in
        (l, assign s.1 (index col i i) (d.sub (entry a i i) sum))

    unfoldable pub ldl :
        DenseMatrix A → DenseMatrix A → DenseMatrix A → DenseMatrix A × DenseMatrix A
    ldl a l diagonal =
        let col = a.col in
        let s = for_each col (ldl_row a) (
          for_entries col col
              (λ i j v. assign v (index col i j) (if i == j then d.one else e.zero_entry)) l.m,
          for_entries col col (λ i j v. assign v (index col i j) e.zero_entry) diagonal.m,
        ) in
        (with_entries l s.0, with_entries diagonal s.1)

    -- The row `i` of `cholesky`.
    unfoldable pub cholesky_row : DenseMatrix A → ℕ → List A → List A
    cholesky_row a i v =
        let col = a.col in
        let w =
          for_each i
            (λ j u.
              let sum =
                for_each j (λ k t. e.add t (e.mul (cell u col i k) (cell u col j k)))
                  e.zero_entry in
              assign u (index col i j)
                (e.mul (d.div d.one (cell u col j j)) (d.sub (entry a i j) sum)))
            v in
        let sum = for_each i (λ k t. e.add t (p.square (cell w col i k))) e.zero_entry in
        assign w (index col i i) (p.square_root (d.sub (entry a i i) sum))

    unfoldable pub cholesky : DenseMatrix A → DenseMatrix A → DenseMatrix A
    cholesky a l = with_entries l (
        for_each a.col (cholesky_row a)
          (for_entries a.col a.col (λ i j v. assign v (index a.col i j) e.zero_entry) l.m))

    -- The part of the column `j` in the direction of the column `i` of `Q`: `tmp` loses it.
    unfoldable pub qr_project : DenseMatrix A → List A → ℕ → ℕ → List A → List A
    qr_project a q j i tmp =
        let t =
          for_each a.row (λ k s. e.add s (e.mul (entry a k j) (cell q a.col k i))) e.zero_entry in
        for_each a.row
          (λ k v. assign v k (p.expand (d.sub (at e.zero_entry v k) (e.mul (cell q a.col k i) t))))
          tmp

    -- The column `j` of `QR`, on `Q`, `R` and `tmp`.
    unfoldable pub qr_column :
        DenseMatrix A → ℕ → List A × (List A × List A) → List A × (List A × List A)
    qr_column a j s =
        let tmp =
          for_each j (qr_project a s.0 j)
            (for_each a.row (λ k v. assign v k (entry a k j)) s.1.1) in
        let norm =
          p.square_root
            (for_each a.row (λ k t. e.add t (p.square (at e.zero_entry tmp k))) e.zero_entry) in
        let q =
          for_each a.row (λ k v. assign v (index a.col k j) (d.div (at e.zero_entry tmp k) norm))
            s.0 in
        let r =
          for_each j
            (λ i v. assign v (index a.col i j) (
              for_each a.row (λ k t. e.add t (e.mul (cell q a.col k i) (entry a k j)))
                e.zero_entry))
            (assign s.1.0 (index a.col j j) norm) in
        (q, (r, tmp))

    unfoldable pub qr :
        DenseMatrix A → DenseMatrix A → DenseMatrix A → DenseMatrix A × DenseMatrix A
    qr a q r =
        let s = for_each a.col (qr_column a) (
          for_each (a.row * a.col % 2 ^ 32) (λ i v. assign v i e.zero_entry) q.m,
          (
            for_each (a.col * a.col % 2 ^ 32) (λ i v. assign v i e.zero_entry) r.m,
            (new_matrix a.row 1).m,
          ),
        ) in
        (with_entries q s.0, with_entries r s.1.0)

  -- The inner loop of `is_symmetric_dense` for the row `i`: the first difference ends it.
  unfoldable pub symmetric_row : DenseMatrix A → ℕ → Bool → Bool
  symmetric_row a i sym =
      for_range (i + 1) a.col (λ j s. if d.eq (entry a j i) (entry a i j) then s else false) sym

  unfoldable pub is_symmetric_dense : DenseMatrix A → Bool
  is_symmetric_dense a =
      let sym = for_each a.col (symmetric_row a) true in if a.col == a.row then sym else false

  unfoldable pub fraction_free_lu_solve :
      DenseMatrix A → DenseMatrix A → DenseMatrix A → DenseMatrix A
  fraction_free_lu_solve a b x =
      let factors = fraction_free_lu a (new_matrix a.row a.col) in
      back_substitution factors (forward_substitution factors b (new_matrix b.row 1)) x

  unfoldable pub lu_solve : DenseMatrix A → DenseMatrix A → DenseMatrix A → DenseMatrix A
  lu_solve a b x =
      let (l, u) = lu a (new_matrix a.row a.col) (new_matrix a.row a.col) in
      back_substitution u (forward_substitution l b (new_matrix b.row 1)) x

  -- `x` is the column on the way too.
  unfoldable pub ldl_solve :
      ⦃p : Powers A⦄ → DenseMatrix A → DenseMatrix A → DenseMatrix A → Solved A
  ldl_solve a b x =
      let (l, diagonal) = ldl a (new_matrix a.row a.col) (new_matrix a.row a.col) in
      let y = forward_substitution l b x in
      let z = diagonal_solve diagonal y (new_matrix b.row 1) in
      let result = back_substitution (transpose_dense l diagonal) z x in
      if is_symmetric_dense a then solution result else not_symmetric
