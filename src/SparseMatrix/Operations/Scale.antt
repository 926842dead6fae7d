-- ===== src/SparseMatrix/Operations/Scale.antt =====
-- `csr_scale_rows` and `csr_scale_columns` multiply each entry by the factor of its row or column.
use csympy.Prelude.{
  ℕ, zero, suc, ◌+◌, ◌-◌, ◌≡◌, ◌<◌, ◌≤◌, ◌⊎◌, refl, ap, ◌∙◌, inl, inr, arith, false, List, length,
}
use csympy.DenseMatrix.{DenseMatrix, Entries, entry}
use csympy.Dict.{Key}
use csympy.SparseMatrix.{CsrMatrix, get}
use csympy.SparseMatrix.Operations.{
  returned, with_x, scale_row, scale_rows_from, csr_scale_rows, some_zero, csr_scale_columns,
}
use csympy.SparseMatrix.Rows.{IsCsr, start_le}
use csympy.Vector.{at, for_range}
use csympy.SparseMatrix.Operations.Changed.{
  changed, length-changed, at-changed_outside, at-changed_inside, with_x-IsCsr, get-with_x,
}

module _ {ℓ} {A : Type ℓ} ⦃key : Key A⦄ ⦃e : Entries A⦄
    (zero_mul : (x : A) → e.mul e.zero_entry x ≡ e.zero_entry) where
  no_zero_column :
      (n i : ℕ) (factors : DenseMatrix A)
      → ((k : ℕ) → i ≤ k → k < i + n → key.eq (entry factors k 0) e.zero_entry ≡ false)
      → some_zero n i factors ≡ false
  unfolding some_zero
  no_zero_column zero i factors f = refl
  no_zero_column (suc n) i factors f =
      rw (f i (omega arith) (omega arith))
        (no_zero_column n (i + 1) factors (λ k h l. f k (omega (arith, h)) (omega (arith, l))))

  -- `csr_scale_columns`, for a matrix in canonical form and factors other than zero, returns a matrix
  -- in canonical form whose entries are those of the matrix times the factor of their column, if the
  -- product of zero and a factor is zero.
  pub get-csr_scale_columns :
      (m : CsrMatrix A) (factors : DenseMatrix A)
      → IsCsr m
      → ((k : ℕ) → k < m.col → key.eq (entry factors k 0) e.zero_entry ≡ false)
      → (w : CsrMatrix A) × (csr_scale_columns m factors ≡ returned w)
        × IsCsr w
        × ((i c : ℕ)
            → i < m.row
            → get e.zero_entry w i c ≡ e.mul (get e.zero_entry m i c) (entry factors c 0))
  unfolding csr_scale_columns
  get-csr_scale_columns m factors ok f =
      let g = λ (i : ℕ) (x : A). e.mul x (entry factors (at 0 m.j i) 0) in
      let plain = λ (i : ℕ). (let s : i ≡ 0 + i = omega arith in s) in
      let x = changed e.zero_entry g 0 (λ i. i) plain (at 0 m.p m.row) m.x in
      let size = length-changed e.zero_entry g 0 (λ i. i) plain (at 0 m.p m.row) m.x in
      (
        with_x m x,
        rw (no_zero_column m.col 0 factors (λ k h l. f k (omega (arith, l)))) refl,
        with_x-IsCsr e.zero_entry m x ok size,
        λ i c r.
            get-with_x e.zero_entry m x i c (λ y. e.mul y (entry factors c 0)) ok size r
              (zero_mul (entry factors c 0))
              (λ n u v s.
                let upto = start_le ok (i + 1) m.row (omega (arith, r)) (omega arith) in
                at-changed_inside e.zero_entry g 0 (λ i. i) plain (at 0 m.p m.row) n m.x
                  (omega arith) (omega (arith, v, upto)) (omega (arith, v, upto, ok.entries))
                ∙ ap (λ t. e.mul (at e.zero_entry m.x n) (entry factors t 0)) s),
      )

  abbrev scaled : CsrMatrix A → ℕ → A → List A
  scaled m i factor =
      changed e.zero_entry (λ n x. e.mul x factor) (at 0 m.p i) (λ k. at 0 m.p i + k) (λ k. refl)
        (at 0 m.p (i + 1) - at 0 m.p i) m.x

  length-scaled : (m : CsrMatrix A) (i : ℕ) (factor : A) → length (scaled m i factor) ≡ length m.x
  length-scaled m i factor =
      length-changed e.zero_entry (λ n x. e.mul x factor) (at 0 m.p i) (λ k. at 0 m.p i + k)
        (λ k. refl) (at 0 m.p (i + 1) - at 0 m.p i) m.x

  scale_row-IsCsr : (m : CsrMatrix A) (i : ℕ) (factor : A) → IsCsr m → IsCsr (scale_row m i factor)
  unfolding scale_row for_range
  scale_row-IsCsr m i factor ok = with_x-IsCsr e.zero_entry m _ ok (length-scaled m i factor)

  get-scale_row_here :
      (m : CsrMatrix A) (i c : ℕ) (factor : A)
      → IsCsr m
      → i < m.row
      → get e.zero_entry (scale_row m i factor) i c ≡ e.mul (get e.zero_entry m i c) factor
  unfolding scale_row for_range
  get-scale_row_here m i c factor ok r =
      get-with_x e.zero_entry m _ i c (λ y. e.mul y factor) ok (length-scaled m i factor) r
        (zero_mul factor)
        (λ n u v s.
          let upto = start_le ok (i + 1) m.row (omega (arith, r)) (omega arith) in
          at-changed_inside e.zero_entry (λ n x. e.mul x factor) (at 0 m.p i) (λ k. at 0 m.p i + k)
            (λ k. refl) (at 0 m.p (i + 1) - at 0 m.p i) n m.x u (omega (arith, u, v))
            (omega (arith, v, upto, ok.entries)))

  get-scale_row_other :
      (m : CsrMatrix A) (i k c : ℕ) (factor : A)
      → IsCsr m
      → i < m.row
      → k < m.row
      → (k < i) ⊎ (i < k)
      → get e.zero_entry (scale_row m i factor) k c ≡ get e.zero_entry m k c
  unfolding scale_row for_range
  get-scale_row_other m i k c factor ok r s o =
      get-with_x e.zero_entry m _ k c (λ y. y) ok (length-scaled m i factor) s refl
        (λ n u v t.
          at-changed_outside e.zero_entry (λ n x. e.mul x factor) (at 0 m.p i) (λ k. at 0 m.p i + k)
            (λ k. refl) (at 0 m.p (i + 1) - at 0 m.p i) n m.x (apart n u v))
    where
      apart :
          (n : ℕ)
          → at 0 m.p k ≤ n
          → n < at 0 m.p (k + 1)
          → (n < at 0 m.p i) ⊎ (at 0 m.p i + (at 0 m.p (i + 1) - at 0 m.p i) ≤ n)
      apart n u v = elim o [
        | inl l ↦
            let h = start_le ok (k + 1) i (omega (arith, l)) (omega (arith, r)) in
            inl (omega (arith, h, v))
        | inr l ↦
            let h = start_le ok (i + 1) k (omega (arith, l)) (omega (arith, s)) in
            let g = ok.ordered i r in inr (omega (arith, h, u, g))
      ]

  -- The rows before `i` stay, the others are scaled.
  abbrev RowsScaled : CsrMatrix A → ℕ → DenseMatrix A → CsrMatrix A → Type ℓ
  RowsScaled m i factors w =
      IsCsr w
      × ((k c : ℕ) → k < i → k < m.row → get e.zero_entry w k c ≡ get e.zero_entry m k c)
      × ((k c : ℕ)
          → i ≤ k
          → k < m.row
          → get e.zero_entry w k c ≡ e.mul (get e.zero_entry m k c) (entry factors k 0))

  height_of : (m : CsrMatrix A) (i : ℕ) (factor : A) → (scale_row m i factor).row ≡ m.row
  unfolding scale_row
  height_of m i factor = refl

  scale_rows_next :
      (n i : ℕ) (m : CsrMatrix A) (factors : DenseMatrix A)
      → key.eq (entry factors i 0) e.zero_entry ≡ false
      → scale_rows_from (suc n) i m factors
        ≡ scale_rows_from n (i + 1) (scale_row m i (entry factors i 0)) factors
  unfolding scale_rows_from
  scale_rows_next n i m factors h = rw (h, scale_rows_from) refl

  rows_scaled :
      (n i : ℕ) (m : CsrMatrix A) (factors : DenseMatrix A)
      → IsCsr m
      → i + n ≡ m.row
      → ((k : ℕ) → k < m.row → key.eq (entry factors k 0) e.zero_entry ≡ false)
      → (w : CsrMatrix A) × (scale_rows_from n i m factors ≡ returned w) × RowsScaled m i factors w
  unfolding scale_rows_from
  rows_scaled zero i m factors ok s f =
      (m, refl, (ok, λ k c h l. refl, λ k c h l. absurd (omega (arith, h, l, s))))
  rows_scaled (suc n) i m factors ok s f =
      let inside : i < m.row = omega (arith, s) in
      let x = entry factors i 0 in
      let next = scale_row m i x in
      let same = height_of m i x in
      let (w, r, (good, early, late)) =
        rows_scaled n (i + 1) next factors (scale_row-IsCsr m i x ok) (omega (arith, s, same))
          (λ k l. f k (omega (arith, l, same))) in
      (
        w,
        scale_rows_next n i m factors (f i inside) ∙ r,
        (
          good,
          λ k c h l.
              early k c (omega (arith, h)) (omega (arith, l, same))
              ∙ get-scale_row_other m i k c x ok inside l (inl h),
          λ k c h l. elim (let o : (k ≡ i) ⊎ (i + 1 ≤ k) = ground (arith, h) in o) [
            | inl o ↦
                early k c (omega (arith, o)) (omega (arith, l, same))
                ∙ rw o (get-scale_row_here m i c x ok inside)
            | inr o ↦
                late k c o (omega (arith, l, same))
                ∙ ap (λ y. e.mul y (entry factors k 0))
                    (get-scale_row_other m i k c x ok inside l (inr (omega (arith, o))))
          ],
        ),
      )

  -- `csr_scale_rows`, for a matrix in canonical form and factors other than zero, returns a matrix in
  -- canonical form whose entries are those of the matrix times the factor of their row.
  pub get-csr_scale_rows :
      (m : CsrMatrix A) (factors : DenseMatrix A)
      → IsCsr m
      → ((k : ℕ) → k < m.row → key.eq (entry factors k 0) e.zero_entry ≡ false)
      → (w : CsrMatrix A) × (csr_scale_rows m factors ≡ returned w)
        × IsCsr w
        × ((i c : ℕ)
            → i < m.row
            → get e.zero_entry w i c ≡ e.mul (get e.zero_entry m i c) (entry factors i 0))
  unfolding csr_scale_rows
  get-csr_scale_rows m factors ok f =
      let (w, r, (good, early, late)) = rows_scaled m.row 0 m factors ok (omega arith) f in
      (w, r, good, λ i c h. late i c (omega arith) h)
