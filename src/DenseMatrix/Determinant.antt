-- ===== src/DenseMatrix/Determinant.antt =====
-- src/dense_matrix.cpp: determinants, characteristic polynomials and inverses.
use csympy.Prelude.{
  ℕ, ◌+◌, ◌-◌, ◌*◌, ◌^◌, ◌%◌, ◌==◌, Bool, true, not, Option, none, some, List, [], ◌∷◌, ◌++◌,
  length, ltb, if◌then◌else◌,
}
use csympy.Vector.{at, assign, for_each, for_range, repeat}
use csympy.DenseMatrix.{DenseMatrix, Entries, index, entry, with_entries, row_exchange_dense}
use csympy.DenseMatrix.Solve.{Division, before, cell, first_nonzero}
use csympy.DenseMatrix.Decomposition.{Powers}

module _ {ℓ} {A : Type ℓ} ⦃e : Entries A⦄ ⦃d : Division A⦄ where
  -- `B.m_[i, j] = (B[k, k]*B[i, j] - B[i, k]*B[k, j]) / B[k - 1, k - 1]`
  unfoldable pub bareis_entry : ℕ → ℕ → ℕ → ℕ → List A → List A
  bareis_entry n k i j v =
      let x = d.sub (e.mul (cell v n k k) (cell v n i j)) (e.mul (cell v n i k) (cell v n k j)) in
      assign v (index n i j) (if ltb 0 k then d.div x (cell v n (k - 1) (k - 1)) else x)

  -- The round `k` of `det_bareis`: `none` is the return of zero, and the flag tells `sign == 1`.
  unfoldable pub bareis_round : ℕ → Option (DenseMatrix A × Bool) → Option (DenseMatrix A × Bool)
  bareis_round k none = none
  bareis_round k (some (b, positive)) =
      let n = b.row in
      let i = first_nonzero b k (n - (k + 1)) (k + 1) in
      let eliminate = λ (c : DenseMatrix A).
        with_entries c
          (for_range (k + 1) n (λ i v. for_range (k + 1) n (bareis_entry n k i) v) c.m) in
      if d.eq (entry b k k) e.zero_entry
      then if i == n then none else some (eliminate (row_exchange_dense b i k), not positive)
      else some (eliminate b, positive)

  unfoldable pub bareis_result : ℕ → Option (DenseMatrix A × Bool) → A
  bareis_result n none = e.zero_entry
  bareis_result n (some (b, positive)) =
      let last = at e.zero_entry b.m ((n * n + (2 ^ 32 - 1)) % 2 ^ 32) in
      if positive then last else e.mul d.minus_one last

  unfoldable pub det_two : List A → A
  det_two m = let x = at e.zero_entry m in d.sub (e.mul (x 0) (x 3)) (e.mul (x 1) (x 2))

  unfoldable pub det_three : List A → A
  det_three m =
      let x = at e.zero_entry m in
      d.sub
        (e.add (e.add (e.mul (e.mul (x 0) (x 4)) (x 8)) (e.mul (e.mul (x 1) (x 5)) (x 6)))
          (e.mul (e.mul (x 2) (x 3)) (x 7)))
        (e.add (e.add (e.mul (e.mul (x 2) (x 4)) (x 6)) (e.mul (e.mul (x 1) (x 3)) (x 8)))
          (e.mul (e.mul (x 0) (x 5)) (x 7)))

  unfoldable pub det_bareis : DenseMatrix A → A
  det_bareis a =
      let n = a.row in
      let b : DenseMatrix A = record { row = n; col = n; m = a.m } in
      if n == 1
      then at e.zero_entry a.m 0
      else if n == 2
      then det_two a.m
      else if n == 3
      then det_three a.m
      else bareis_result n (for_each (before n) bareis_round (some (b, true)))

  -- `B` of the loop in `berkowitz`: the product of the leading submatrix of order `k` with a column.
  unfoldable pub leading_product : DenseMatrix A → ℕ → List A → List A
  leading_product a k v =
      for_each k
        (λ l w.
          for_each k
            (λ m u.
              assign u l (e.add (at e.zero_entry u l) (e.mul (entry a l m) (at e.zero_entry v m))))
            (assign w l e.zero_entry))
        (repeat k e.zero_entry)

  -- `items`, for `k = n - 1`
  unfoldable pub berkowitz_items : DenseMatrix A → ℕ → List (List A)
  berkowitz_items a n =
      let k = n - 1 in
      for_each (n - 2) (λ i items. items ++ leading_product a k (at [] items i) ∷ [])
        (for_each k (λ i v. assign v i (entry a i k)) (repeat k e.zero_entry) ∷ [])

  -- `items_`
  unfoldable pub berkowitz_column : DenseMatrix A → ℕ → List A
  berkowitz_column a n =
      let k = n - 1 in
      let items = berkowitz_items a n in
      d.one
      ∷ e.mul d.minus_one (entry a k k)
      ∷ for_each (n - 1)
          (λ i elements.
            elements
            ++ e.mul d.minus_one (
                for_each k
                  (λ l s. e.add s (e.mul (entry a k l) (at e.zero_entry (at [] items i) l)))
                  e.zero_entry)
              ∷ [])
          []

  -- `T`, in the round `n`
  unfoldable pub berkowitz_transform : DenseMatrix A → ℕ → DenseMatrix A
  berkowitz_transform a n =
      let elements = berkowitz_column a n in
      record {
        row = n + 1;
        col = n;
        m =
            for_each n
              (λ i v.
                for_each (n - i + 1)
                  (λ l u. assign u (index n (i + l) i) (at e.zero_entry elements l)) v)
              (repeat (n * (n + 1) % 2 ^ 32) e.zero_entry);
      }

  -- The product of a transform with a polynomial; `expand` after each term.
  unfoldable pub transform_product : ⦃p : Powers A⦄ → DenseMatrix A → List A → List A
  transform_product ⦃p⦄ t poly =
      for_each t.row
        (λ l w.
          for_each t.col
            (λ m u. assign u l (
              p.expand
                (e.add (at e.zero_entry u l) (e.mul (entry t l m) (at e.zero_entry poly m)))))
            (assign w l e.zero_entry))
        (repeat t.row e.zero_entry)

  abbrev pub no_matrix : DenseMatrix A
  no_matrix = record { row = 0; col = 0; m = [] }

  -- The rounds `n` go from the order of the matrix down to 2.
  unfoldable pub berkowitz_transforms : DenseMatrix A → List (DenseMatrix A)
  berkowitz_transforms a =
      for_each (a.col - 1) (λ r transforms. transforms ++ berkowitz_transform a (a.col - r) ∷ []) []

  unfoldable pub berkowitz : ⦃p : Powers A⦄ → DenseMatrix A → List (DenseMatrix A)
  berkowitz a =
      let transforms = berkowitz_transforms a in
      let first : DenseMatrix A = record {
        row = 2;
        col = 1;
        m = d.one ∷ e.mul (at e.zero_entry a.m 0) d.minus_one ∷ [];
      } in
      for_each (before a.col)
        (λ i polys.
          let t = at no_matrix transforms (a.col - 2 - i) in
          polys
          ++ record { row = t.row; col = 1; m = transform_product t (at no_matrix polys i).m } ∷ [])
        (first ∷ [])

  -- `polys[polys.size() - 1]`
  unfoldable pub last_poly : List (DenseMatrix A) → DenseMatrix A
  last_poly polys = at no_matrix polys (length polys - 1)

  unfoldable pub det_berkowitz : ⦃p : Powers A⦄ → DenseMatrix A → A
  det_berkowitz a =
      let polys = berkowitz a in
      let poly = last_poly polys in
      let x = entry poly (poly.row - 1) 0 in
      if length polys % 2 == 1 then e.mul d.minus_one x else x

  unfoldable pub char_poly : ⦃p : Powers A⦄ → DenseMatrix A → DenseMatrix A
  char_poly a = last_poly (berkowitz a)
