-- ===== src/SparseMatrix/Operations/Binop.antt =====
-- `csr_binop_csr_canonical` works entry by entry.
use csympy.Prelude.{
  ℕ, zero, suc, ◌+◌, ◌-◌, ◌^◌, ◌≡◌, ◌<◌, ◌≤◌, refl, sym, ap, ap₂, ◌∙◌, arith, Bool, true, false,
  List, [], length, ◌==◌,
}
use csympy.DenseMatrix.{Entries}
use csympy.Dict.{Key}
use csympy.SparseMatrix.{CsrMatrix, get, decr}
use csympy.SparseMatrix.Operations.{
  add_rows, merged_row, binop_rows, csr_binop_csr_canonical, csr_has_duplicates, some_rows,
  some_neighbours,
}
use csympy.SparseMatrix.Operations.Built.{total}
use csympy.SparseMatrix.Operations.Merge.{IsMerge, merged_row-IsMerge}
use csympy.SparseMatrix.Operations.Pushed.{row_of-rows, rows-IsCsr, rows-height, rows_small}
use csympy.SparseMatrix.Operations.Slices.{slice, lookup, row_of, row_of-Sorted, get-lookup}
use csympy.SparseMatrix.Rows.{IsCsr, start_le}
use csympy.Vector.{at, assign}

none_here :
    (test : ℕ → ℕ → Bool) (js : List ℕ) (fuel k : ℕ)
    → ((i : ℕ) → k ≤ i → i < k + fuel → test (at 0 js i) (at 0 js (i + 1)) ≡ false)
    → some_neighbours test js fuel k ≡ false
unfolding some_neighbours
none_here test js zero k f = refl
none_here test js (suc fuel) k f =
    rw (f k (omega arith) (omega arith))
      (none_here test js fuel (k + 1) (λ i h l. f i (omega (arith, h)) (omega (arith, l))))

none_anywhere :
    (test : ℕ → ℕ → Bool) (p js : List ℕ) (rows i : ℕ)
    → ((k : ℕ)
        → i ≤ k
        → k < i + rows
        → some_neighbours test js (decr (at 0 p (k + 1)) - at 0 p k) (at 0 p k) ≡ false)
    → some_rows test p js rows i ≡ false
unfolding some_rows
none_anywhere test p js zero i f = refl
none_anywhere test p js (suc rows) i f =
    rw (f i (omega arith) (omega arith))
      (none_anywhere test p js rows (i + 1) (λ k h l. f k (omega (arith, h)) (omega (arith, l))))

-- The rows of a matrix in canonical form have no neighbours with the same column. The bounds of the
-- loops are right if the first row has an entry.
IsCsr-csr_has_duplicates {ℓ} :
    {A : Type ℓ} (m : CsrMatrix A)
    → IsCsr m
    → 0 < at 0 m.p 1
    → at 0 m.p m.row < 2 ^ 32
    → csr_has_duplicates m.p m.j m.row ≡ false
unfolding csr_has_duplicates
IsCsr-csr_has_duplicates m ok first small =
    none_anywhere (λ a b. a == b) m.p m.j m.row 0
      (λ k h l.
        let inside : k < m.row = omega (arith, l) in
        let some_entry = start_le ok 1 (k + 1) (omega arith) (omega (arith, inside)) in
        let bounded = start_le ok (k + 1) m.row (omega (arith, inside)) (omega arith) in
        let bound : decr (at 0 m.p (k + 1)) ≡ at 0 m.p (k + 1) - 1 =
          omega (arith, some_entry, bounded, first, small) in
        rw bound (
          none_here (λ a b. a == b) m.j _ (at 0 m.p k)
            (λ i u v.
              let g = ok.growing k inside i (i + 1) u (omega arith) (omega (arith, v)) in
              ground (arith, g))))

length-slice {ℓ} :
    {A : Type ℓ} (z : A) (js : List ℕ) (xs : List A) (n k : ℕ) → length (slice z js xs n k) ≡ n
unfolding slice
length-slice z js xs zero k = refl
length-slice z js xs (suc n) k = ap suc (length-slice z js xs n (k + 1))

module _ {ℓ} {A : Type ℓ} ⦃key : Key A⦄ ⦃e : Entries A⦄
    (sound : (x : A) → key.eq x e.zero_entry ≡ true → x ≡ e.zero_entry) (op : A → A → A)
    (none_op : op e.zero_entry e.zero_entry ≡ e.zero_entry) (a b c : CsrMatrix A) (ok_a : IsCsr a)
    (ok_b : IsCsr b) (same_a : a.row ≡ c.row) (same_b : b.row ≡ c.row) (fresh_j : c.j ≡ [])
    (fresh_x : c.x ≡ []) (sized : length c.p ≡ c.row + 1)
    (fits : at 0 a.p a.row + at 0 b.p b.row < 2 ^ 32) where
  merged :
      (i : ℕ)
      → i < c.row
      → IsMerge sound op none_op
          (row_of e.zero_entry a i)
          (row_of e.zero_entry b i)
          (merged_row op a b i)
  merged i h =
      merged_row-IsMerge sound op none_op a b i
        (row_of-Sorted e.zero_entry a i ok_a (omega (arith, h, same_a)))
        (row_of-Sorted e.zero_entry b i ok_b (omega (arith, h, same_b)))

  total_few :
      (n : ℕ) → n ≤ c.row → total e.zero_entry (merged_row op a b) n ≤ at 0 a.p n + at 0 b.p n
  unfolding total
  total_few zero h = omega arith
  total_few (suc n) h =
      let before = total_few n (omega (arith, h)) in
      let m = merged n h in
      let next : n + 1 ≡ suc n = omega arith in
      omega (
        arith,
        before,
        m.few,
        length-slice e.zero_entry a.j a.x (at 0 a.p (n + 1) - at 0 a.p n) (at 0 a.p n),
        length-slice e.zero_entry b.j b.x (at 0 b.p (n + 1) - at 0 b.p n) (at 0 b.p n),
        ok_a.ordered n (omega (arith, h, same_a)),
        ok_b.ordered n (omega (arith, h, same_b)),
        ap (at 0 a.p) next,
        ap (at 0 b.p) next,
      )

  total_fits : total e.zero_entry (merged_row op a b) c.row < 2 ^ 32
  total_fits =
      omega (arith, total_few c.row (omega arith), fits, ap (at 0 a.p) same_a, ap (at 0 b.p) same_b)

  abbrev start : CsrMatrix A × ℕ
  start = (record { row = c.row; col = c.col; p = assign c.p 0 0; j = c.j; x = c.x }, 0)

  rows_built : binop_rows op a b c ≡ (add_rows (merged_row op a b) c.row start).0
  unfolding binop_rows
  rows_built = ap (λ n. (add_rows (merged_row op a b) n start).0) same_a

  built_height : (binop_rows op a b c).row ≡ c.row
  built_height =
      ap (λ m. m.row) rows_built
      ∙ rows-height e.zero_entry (merged_row op a b) c fresh_j fresh_x sized total_fits

  binop_rows-IsCsr : IsCsr (binop_rows op a b c)
  binop_rows-IsCsr = rw rows_built (
      rows-IsCsr e.zero_entry (merged_row op a b) c fresh_j fresh_x sized total_fits
        (λ i h. let m = merged i h in m.sorted))

  get-binop_rows :
      (i k : ℕ)
      → i < c.row
      → get e.zero_entry (binop_rows op a b c) i k
        ≡ op (get e.zero_entry a i k) (get e.zero_entry b i k)
  get-binop_rows i k h =
      let m = merged i h in
      get-lookup e.zero_entry (binop_rows op a b c) i k binop_rows-IsCsr
        (omega (arith, h, built_height))
      ∙ ap (λ t. lookup e.zero_entry (row_of e.zero_entry t i) k) rows_built
      ∙ ap (λ l. lookup e.zero_entry l k)
          (row_of-rows e.zero_entry (merged_row op a b) c fresh_j fresh_x sized total_fits i h)
      ∙ m.found k
      ∙ sym (
          ap₂ op (get-lookup e.zero_entry a i k ok_a (omega (arith, h, same_a)))
            (get-lookup e.zero_entry b i k ok_b (omega (arith, h, same_b))))

  -- `csr_binop_csr_canonical` gives a matrix in canonical form, and each entry of it is the operation
  -- on the entries of the two matrices: for two matrices in canonical form and an empty one, all with
  -- the same number of rows, if the operation on two zeros is zero, both matrices together have fewer
  -- than 2^32 entries, and the first row of the result has an entry.
  pub get-csr_binop_csr_canonical :
      0 < at 0 (binop_rows op a b c).p 1
      → IsCsr (csr_binop_csr_canonical a b c op)
        × ((i k : ℕ)
            → i < c.row
            → get e.zero_entry (csr_binop_csr_canonical a b c op) i k
              ≡ op (get e.zero_entry a i k) (get e.zero_entry b i k))
  unfolding csr_binop_csr_canonical
  get-csr_binop_csr_canonical first =
      let d = binop_rows op a b c in
      let small : at 0 d.p d.row < 2 ^ 32 = omega (
        arith,
        ap (λ m. at 0 m.p m.row) rows_built,
        rows_small e.zero_entry (merged_row op a b) c fresh_j fresh_x sized total_fits,
      ) in
      let none : csr_has_duplicates d.p d.j a.row ≡ false =
        ap (csr_has_duplicates d.p d.j) (same_a ∙ sym built_height)
        ∙ IsCsr-csr_has_duplicates d binop_rows-IsCsr first small in
      rw none (binop_rows-IsCsr, get-binop_rows)
