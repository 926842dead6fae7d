-- ===== src/SparseMatrix/Operations.antt =====
-- src/sparse_matrix.cpp: the functions on whole matrices. The names are those of the code.
pub mod Slices
pub mod Merge
pub mod Built
pub mod Pushed
pub mod Binop
pub mod Changed
pub mod Scale
pub mod Examples
use csympy.Prelude.{
  ℕ, zero, suc, ◌+◌, ◌-◌, ◌*◌, ◌^◌, ◌%◌, Bool, true, false, not, ◌&&◌, List, [], ◌∷◌, ◌++◌, length,
  if◌then◌else◌, ltb, leb, ◌==◌,
}
use csympy.DenseMatrix.{DenseMatrix, Entries, entry}
use csympy.Dict.{Key, neq}
use csympy.SparseMatrix.{CsrMatrix, decr}
use csympy.Vector.{at, assign, for_each, for_range}

-- `for (unsigned j = p_[i]; j < p_[i + 1] - 1; j++)`, with a bound that wraps around, and the tests
-- of two neighbours that end the loop.
unfoldable pub some_neighbours : (ℕ → ℕ → Bool) → List ℕ → ℕ → ℕ → Bool
some_neighbours test js zero k = false
some_neighbours test js (suc fuel) k =
    let rest = some_neighbours test js fuel (k + 1) in
    if test (at 0 js k) (at 0 js (k + 1)) then true else rest

unfoldable pub some_rows : (ℕ → ℕ → Bool) → List ℕ → List ℕ → ℕ → ℕ → Bool
some_rows test p js zero i = false
some_rows test p js (suc rows) i =
    let rest = some_rows test p js rows (i + 1) in
    if some_neighbours test js (decr (at 0 p (i + 1)) - at 0 p i) (at 0 p i) then true else rest

unfoldable pub csr_has_duplicates : List ℕ → List ℕ → ℕ → Bool
csr_has_duplicates p js row = some_rows (λ a b. a == b) p js row 0

unfoldable pub csr_has_sorted_indices : List ℕ → List ℕ → ℕ → Bool
csr_has_sorted_indices p js row = not (some_rows (λ a b. ltb b a) p js row 0)

unfoldable pub starts_ordered : List ℕ → ℕ → ℕ → Bool
starts_ordered p zero i = true
starts_ordered p (suc rows) i =
    let rest = starts_ordered p rows (i + 1) in
    if ltb (at 0 p (i + 1)) (at 0 p i) then false else rest

unfoldable pub csr_has_canonical_format : List ℕ → List ℕ → ℕ → Bool
csr_has_canonical_format p js row =
    if starts_ordered p row 0
    then csr_has_sorted_indices p js row && not (csr_has_duplicates p js row)
    else false

unfoldable pub is_canonical {ℓ} : {A : Type ℓ} → CsrMatrix A → Bool
is_canonical m =
    if not (length m.p == m.row + 1 && length m.j == at 0 m.p m.row && length m.x == at 0 m.p m.row)
    then false
    else if not (at 0 m.p m.row == 0)
    then csr_has_canonical_format m.p m.j m.row
    else true

-- `resize` to a smaller size.
unfoldable pub resize {ℓ} : {A : Type ℓ} → ℕ → List A → List A
resize zero v = []
resize (suc n) [] = []
resize (suc n) (a ∷ v) = a ∷ resize n v

module _ {ℓ} {A : Type ℓ} ⦃e : Entries A⦄ where
  -- The inner loop of `csr_sum_duplicates`: the sum and the position behind the entries of a column.
  unfoldable pub sum_column : ℕ → List ℕ → List A → ℕ → ℕ → A → A × ℕ
  sum_column zero js xs c jj x = (x, jj)
  sum_column (suc fuel) js xs c jj x =
      let rest = sum_column fuel js xs c (jj + 1) (e.add x (at e.zero_entry xs jj)) in
      if at 0 js jj == c then rest else (x, jj)

  -- The entries of a row, with `j_`, `x_` and `nnz`; the length of the row bounds the rounds.
  unfoldable pub sum_row : ℕ → ℕ → ℕ → List ℕ × (List A × ℕ) → List ℕ × (List A × ℕ)
  sum_row zero jj row_end state = state
  sum_row (suc fuel) jj row_end (js, (xs, nnz)) = elim (ltb jj row_end) [
    | true ↦
        let (x, next) =
          sum_column (row_end - (jj + 1)) js xs (at 0 js jj) (jj + 1) (at e.zero_entry xs jj) in
        sum_row fuel next row_end (assign js nnz (at 0 js jj), (assign xs nnz x, nnz + 1))
    | false ↦ (js, (xs, nnz))
  ]

  -- The rows from `i` on; `row_end` is the end of the row before, as it stood.
  unfoldable pub sum_rows :
      ℕ → ℕ → ℕ → List ℕ × (List ℕ × (List A × ℕ)) → List ℕ × (List ℕ × (List A × ℕ))
  sum_rows zero i row_end state = state
  sum_rows (suc rows) i row_end (p, (js, (xs, nnz))) =
      let last = at 0 p (i + 1) in
      let (ks, (ys, n)) = sum_row (last - row_end) row_end last (js, (xs, nnz)) in
      sum_rows rows (i + 1) last (assign p (i + 1) n, (ks, (ys, n)))

  unfoldable pub csr_sum_duplicates : CsrMatrix A → CsrMatrix A
  csr_sum_duplicates m =
      let (p, (js, (xs, nnz))) = sum_rows m.row 0 0 (m.p, (m.j, (m.x, 0))) in
      record { row = m.row; col = m.col; p = p; j = resize nnz js; x = resize nnz xs }

-- A function that throws leaves the matrix as it is at that point.
pub data Outcome {ℓ} (A : Type ℓ) : Type ℓ where
  returned : CsrMatrix A → Outcome A
  thrown : CsrMatrix A → Outcome A

module _ {ℓ} {A : Type ℓ} where
  abbrev pub with_x : CsrMatrix A → List A → CsrMatrix A
  with_x m x = record { row = m.row; col = m.col; p = m.p; j = m.j; x = x }

module _ {ℓ} {A : Type ℓ} ⦃key : Key A⦄ ⦃e : Entries A⦄ where
  -- The loop of `csr_scale_rows` over the entries of a row.
  unfoldable pub scale_row : CsrMatrix A → ℕ → A → CsrMatrix A
  scale_row m i factor = with_x m (
      for_range (at 0 m.p i) (at 0 m.p (i + 1))
        (λ jj v. assign v jj (e.mul (at e.zero_entry v jj) factor)) m.x)

  unfoldable pub scale_rows_from : ℕ → ℕ → CsrMatrix A → DenseMatrix A → Outcome A
  scale_rows_from zero i m factors = returned m
  scale_rows_from (suc rows) i m factors = elim (key.eq (entry factors i 0) e.zero_entry) [
    | true ↦ thrown m
    | false ↦ scale_rows_from rows (i + 1) (scale_row m i (entry factors i 0)) factors
  ]

  unfoldable pub csr_scale_rows : CsrMatrix A → DenseMatrix A → Outcome A
  csr_scale_rows m factors = scale_rows_from m.row 0 m factors

  unfoldable pub some_zero : ℕ → ℕ → DenseMatrix A → Bool
  some_zero zero i factors = false
  some_zero (suc cols) i factors =
      let rest = some_zero cols (i + 1) factors in
      if key.eq (entry factors i 0) e.zero_entry then true else rest

  unfoldable pub csr_scale_columns : CsrMatrix A → DenseMatrix A → Outcome A
  csr_scale_columns m factors =
      if some_zero m.col 0 factors
      then thrown m
      else returned (
          with_x m (
            for_each (at 0 m.p m.row)
              (λ i v. assign v i (e.mul (at e.zero_entry v i) (entry factors (at 0 m.j i) 0))) m.x))

  -- `if (neq(result, zero)) { C.j_.push_back(j); C.x_.push_back(result); nnz++; }`: what is pushed
  -- is in front of what is pushed later.
  abbrev pub push_entry : ℕ → A → List (ℕ × A) → List (ℕ × A)
  push_entry j result rest = if neq result e.zero_entry then (j, result) ∷ rest else rest

  module _ (bin_op : A → A → A) where
    -- The two loops over a tail.
    unfoldable pub tail_a : ℕ → CsrMatrix A → ℕ → List (ℕ × A)
    tail_a zero a k = []
    tail_a (suc rest) a k =
        push_entry (at 0 a.j k) (bin_op (at e.zero_entry a.x k) e.zero_entry)
          (tail_a rest a (k + 1))

    unfoldable pub tail_b : ℕ → CsrMatrix A → ℕ → List (ℕ × A)
    tail_b zero b k = []
    tail_b (suc rest) b k =
        push_entry (at 0 b.j k) (bin_op e.zero_entry (at e.zero_entry b.x k))
          (tail_b rest b (k + 1))

    -- `while (A_pos < A_end && B_pos < B_end)` and the tails: the entries that a row pushes. The
    -- numbers of the entries that are left of both rows bound the rounds.
    unfoldable pub merge_row : ℕ → CsrMatrix A → ℕ → ℕ → CsrMatrix A → ℕ → ℕ → List (ℕ × A)
    merge_row zero a m i b n k = []
    merge_row (suc fuel) a zero i b n k = tail_b n b k
    merge_row (suc fuel) a (suc m) i b zero k = tail_a (suc m) a i
    merge_row (suc fuel) a (suc m) i b (suc n) k =
        let x = at e.zero_entry a.x i in
        let y = at e.zero_entry b.x k in
        let both = merge_row fuel a m (i + 1) b n (k + 1) in
        let only_a = merge_row fuel a m (i + 1) b (suc n) k in
        let only_b = merge_row fuel a (suc m) i b n (k + 1) in
        if at 0 a.j i == at 0 b.j k
        then push_entry (at 0 a.j i) (bin_op x y) both
        else if ltb (at 0 a.j i) (at 0 b.j k)
        then push_entry (at 0 a.j i) (bin_op x e.zero_entry) only_a
        else push_entry (at 0 b.j k) (bin_op e.zero_entry y) only_b

    unfoldable pub merged_row : CsrMatrix A → CsrMatrix A → ℕ → List (ℕ × A)
    merged_row a b i =
        let m = at 0 a.p (i + 1) - at 0 a.p i in
        let n = at 0 b.p (i + 1) - at 0 b.p i in
        merge_row (m + n + 1) a m (at 0 a.p i) b n (at 0 b.p i)

-- The entries of a row are pushed, and `C.p_[i + 1] = nnz`.
module _ {ℓ} {A : Type ℓ} where
  unfoldable pub columns_of : List (ℕ × A) → List ℕ
  columns_of [] = []
  columns_of ((j, x) ∷ v) = j ∷ columns_of v

  unfoldable pub entries_of : List (ℕ × A) → List A
  entries_of [] = []
  entries_of ((j, x) ∷ v) = x ∷ entries_of v

  unfoldable pub add_rows : (ℕ → List (ℕ × A)) → ℕ → CsrMatrix A × ℕ → CsrMatrix A × ℕ
  add_rows rows n state =
      for_each n
        (λ i s.
          let (c, nnz) = s in
          let row = rows i in
          let more = (nnz + length row) % 2 ^ 32 in
          (
            record {
              row = c.row;
              col = c.col;
              p = assign c.p (i + 1) more;
              j = c.j ++ columns_of row;
              x = c.x ++ entries_of row;
            },
            more,
          ))
        state

module _ {ℓ} {A : Type ℓ} ⦃key : Key A⦄ ⦃e : Entries A⦄ where
  unfoldable pub binop_rows : (A → A → A) → CsrMatrix A → CsrMatrix A → CsrMatrix A → CsrMatrix A
  binop_rows bin_op a b c =
      (add_rows (merged_row bin_op a b) a.row
        (record { row = c.row; col = c.col; p = assign c.p 0 0; j = c.j; x = c.x }, 0)).0

  unfoldable pub csr_binop_csr_canonical :
      CsrMatrix A → CsrMatrix A → CsrMatrix A → (A → A → A) → CsrMatrix A
  csr_binop_csr_canonical a b c bin_op =
      let d = binop_rows bin_op a b c in
      if csr_has_duplicates d.p d.j a.row then csr_sum_duplicates d else d
