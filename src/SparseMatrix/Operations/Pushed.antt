-- ===== src/SparseMatrix/Operations/Pushed.antt =====
-- The matrix after the loop over the rows: it is in canonical form if the columns of each row that
-- is pushed ascend.
use csympy.Prelude.{
  ℕ, zero, suc, ◌+◌, ◌-◌, ◌^◌, ◌%◌, ◌≡◌, ◌<◌, ◌≤◌, ◌⊎◌, refl, sym, ap, ap₂, ◌∙◌, inl, inr, arith,
  false, List, [], ◌∷◌, ◌++◌, length, ◌==◌,
}
use csympy.SparseMatrix.{CsrMatrix}
use csympy.SparseMatrix.Operations.{columns_of, entries_of, add_rows}
use csympy.SparseMatrix.Operations.Built.{
  all_columns, all_entries, total, total_le, length-all_columns, length-all_entries, at-all_columns,
  at-append_right, slice-rows,
}
use csympy.SparseMatrix.Operations.Slices.{Above, Sorted, slice, row_of}
use csympy.SparseMatrix.Rows.{IsCsr}
use csympy.Vector.{at, assign, for_each}
use csympy.Vector.Laws.{at-assign_same, at-assign_other, length-assign}

module _ {ℓ} {A : Type ℓ} where
  at-Above :
      (c : ℕ) (l : List (ℕ × A)) (i : ℕ) → Above c l → i < length l → c < at 0 (columns_of l) i
  unfolding columns_of at
  at-Above c [] i a h = absurd (omega (arith, h))
  at-Above c ((j, x) ∷ l) zero a h = a.0
  at-Above c ((j, x) ∷ l) (suc i) a h = at-Above c l i a.1 (omega (arith, h))

  at-Sorted :
      (l : List (ℕ × A)) (i k : ℕ)
      → Sorted l
      → i < k
      → k < length l
      → at 0 (columns_of l) i < at 0 (columns_of l) k
  unfolding columns_of at
  at-Sorted [] i k s h g = absurd (omega (arith, g))
  at-Sorted ((j, x) ∷ l) i zero s h g = absurd (omega (arith, h))
  at-Sorted ((j, x) ∷ l) zero (suc k) s h g = at-Above j l k s.0 (omega (arith, g))
  at-Sorted ((j, x) ∷ l) (suc i) (suc k) s h g =
      at-Sorted l i k s.1 (omega (arith, h)) (omega (arith, g))

  module _ (z : A) (rows : ℕ → List (ℕ × A)) (c : CsrMatrix A) (fresh_j : c.j ≡ [])
      (fresh_x : c.x ≡ []) (sized : length c.p ≡ c.row + 1) where
    abbrev start : CsrMatrix A × ℕ
    start = (record { row = c.row; col = c.col; p = assign c.p 0 0; j = c.j; x = c.x }, 0)

    abbrev after : ℕ → CsrMatrix A × ℕ
    after n = add_rows rows n start

    record IsBuilt (n : ℕ) (state : CsrMatrix A × ℕ) : Type ℓ where
      height : state.0.row ≡ c.row
      columns : state.0.j ≡ all_columns z rows n
      entries : state.0.x ≡ all_entries z rows n
      count : state.1 ≡ total z rows n
      size : length state.0.p ≡ c.row + 1
      starts : (k : ℕ) → k ≤ n → at 0 state.0.p k ≡ total z rows k

    after-IsBuilt : (n : ℕ) → n ≤ c.row → total z rows n < 2 ^ 32 → IsBuilt n (after n)
    unfolding add_rows for_each all_columns all_entries total
    after-IsBuilt zero h f = record {
      height = refl;
      columns = fresh_j;
      entries = fresh_x;
      count = refl;
      size = length-assign c.p 0 0 ∙ sized;
      starts = λ k l.
          ap (at 0 (assign c.p 0 0)) (let e : k ≡ 0 = omega (arith, l) in e)
          ∙ at-assign_same 0 0 c.p 0 (omega (arith, sized))
          ∙ ap (total z rows) (let e : 0 ≡ k = omega (arith, l) in e);
    }
    after-IsBuilt (suc n) h f =
        let before = after-IsBuilt n (omega (arith, h)) (omega (arith, f)) in
        let more : ((after n).1 + length (rows n)) % 2 ^ 32 ≡ total z rows n + length (rows n) =
          omega (arith, before.count, f) in
        record {
          height = before.height;
          columns = ap (λ v. v ++ columns_of (rows n)) before.columns;
          entries = ap (λ v. v ++ entries_of (rows n)) before.entries;
          count = more;
          size = length-assign (after n).0.p (n + 1) _ ∙ before.size;
          starts = λ k l. elim (let o : (k ≡ suc n) ⊎ (k ≤ n) = ground (arith, l) in o) [
            | inl o ↦
                ap (at 0 (after (suc n)).0.p) (o ∙ (let e : suc n ≡ n + 1 = omega arith in e))
                ∙ at-assign_same 0 _ (after n).0.p (n + 1) (omega (arith, before.size, h))
                ∙ more
                ∙ ap (total z rows) (sym o)
            | inr o ↦
                at-assign_other 0 _ (after n).0.p (n + 1) k
                  (let t : (k == n + 1) ≡ false = ground (arith, o) in t)
                ∙ before.starts k o
          ];
        }

    at-row :
        (n i m : ℕ)
        → i < n
        → total z rows i ≤ m
        → m < total z rows (suc i)
        → at 0 (all_columns z rows n) m ≡ at 0 (columns_of (rows i)) (m - total z rows i)
    unfolding all_columns total
    at-row n i m h a b =
        at-all_columns z rows (suc i) n m (omega (arith, h)) b
        ∙ ap (at 0 (all_columns z rows i ++ columns_of (rows i))) (
            let e : m ≡ length (all_columns z rows i) + (m - total z rows i) =
              omega (arith, a, length-all_columns z rows i) in
            e)
        ∙ at-append_right 0 (all_columns z rows i) (columns_of (rows i)) (m - total z rows i)

    length_next : (i : ℕ) → total z rows (suc i) - total z rows i ≡ length (rows i)
    unfolding total
    length_next i = omega arith

    module _ (fits : total z rows c.row < 2 ^ 32) where
      abbrev built : CsrMatrix A
      built = (after c.row).0

      facts : IsBuilt c.row (after c.row)
      facts = after-IsBuilt c.row (omega arith) fits

      pub rows-height : built.row ≡ c.row
      rows-height = let f = facts in f.height

      pub rows_small : at 0 built.p built.row < 2 ^ 32
      rows_small =
          let f = facts in
          omega (arith, ap (at 0 built.p) f.height, f.starts c.row (omega arith), fits)

      -- The rows of the matrix are the lists.
      pub row_of-rows : (i : ℕ) → i < c.row → row_of z built i ≡ rows i
      row_of-rows i h =
          let f = facts in
          let a = f.starts i (omega (arith, h)) in
          let b = f.starts (suc i) h in
          let e : suc i ≡ i + 1 = omega arith in
          let d : at 0 built.p (i + 1) - at 0 built.p i ≡ length (rows i) =
            ap₂ ◌-◌ (ap (at 0 built.p) (sym e) ∙ b) a ∙ length_next i in
          ap₂ (slice z built.j built.x) d a
          ∙ ap (λ u. slice z u built.x (length (rows i)) (total z rows i)) f.columns
          ∙ ap (λ u. slice z (all_columns z rows c.row) u (length (rows i)) (total z rows i))
              f.entries
          ∙ slice-rows z rows c.row i h

      pub rows-IsCsr : ((i : ℕ) → i < c.row → Sorted (rows i)) → IsCsr built
      rows-IsCsr sorted =
          let f = facts in
          let last = f.starts c.row (omega arith) in
          record {
            starts = f.size ∙ ap (λ n. n + 1) (sym f.height);
            columns =
                ap length f.columns
                ∙ length-all_columns z rows c.row
                ∙ sym last
                ∙ ap (at 0 built.p) (sym f.height);
            entries =
                ap length f.entries
                ∙ length-all_entries z rows c.row
                ∙ sym last
                ∙ ap (at 0 built.p) (sym f.height);
            ordered = λ i h.
                let h' : i < c.row = rw f.height at h in
                let e : suc i ≡ i + 1 = omega arith in
                omega (
                  arith,
                  f.starts i (omega (arith, h')),
                  f.starts (suc i) h',
                  ap (at 0 built.p) e,
                  total_le z rows i (suc i) (omega arith),
                );
            growing = λ i h m n a b d.
                let h' : i < c.row = rw f.height at h in
                let e : suc i ≡ i + 1 = omega arith in
                let from : total z rows i ≤ m = omega (arith, a, f.starts i (omega (arith, h'))) in
                let to : n < total z rows (suc i) =
                  omega (arith, d, f.starts (suc i) h', ap (at 0 built.p) e) in
                let long = length_next i in
                let u =
                  ap (λ v. at 0 v m) f.columns ∙ at-row c.row i m h' from (omega (arith, b, to)) in
                let v =
                  ap (λ v. at 0 v n) f.columns ∙ at-row c.row i n h' (omega (arith, b, from)) to in
                let l =
                  at-Sorted (rows i) (m - total z rows i) (n - total z rows i) (sorted i h')
                    (omega (arith, from, b)) (omega (arith, from, b, to, long)) in
                omega (arith, u, v, l);
          }
