-- ===== src/DenseMatrix/Laws.antt =====
-- The entries of the results of the operations on dense matrices.
use csympy.Prelude.{
  ℕ, zero, suc, ◌+◌, ◌*◌, ◌^◌, ◌%◌, ◌≡◌, ◌≢◌, ◌<◌, ◌≤◌, refl, sym, ap, ap₂, ◌∙◌, List, length,
  arith, inl, inr, ◌⊎◌,
}
use csympy.Vector.{at, assign, for_each}
use csympy.DenseMatrix.{
  DenseMatrix, Entries, index, entry, for_entries, transpose_dense, submatrix_dense,
  add_dense_dense, add_dense_scalar, mul_dense_scalar, mul_entry, mul_dense_dense,
}
use csympy.DenseMatrix.Loops.{
  IsStep, assign-IsStep, for_entries-here, row_below, index-eq, index-row, index-order,
}

-- The vector has one place for each entry, and the places are in `unsigned`.
pub record IsDense {ℓ} {A : Type ℓ} (a : DenseMatrix A) : Type 0 where
  pub size : length a.m ≡ a.row * a.col
  pub bounded : a.row * a.col ≤ 2 ^ 32

pub three_way : (a b : ℕ) → (a < b) ⊎ ((a ≡ b) ⊎ (b < a))
three_way a b = ground arith

module _ {ℓ} {A : Type ℓ} (z : A) where
  -- A loop that goes through the entries of the result.
  pub filled :
      (b : DenseMatrix A) (f : ℕ → ℕ → List A → List A) (φ : ℕ → ℕ → A → A) (i j : ℕ)
      → IsDense b
      → ((i j : ℕ) → IsStep z (f i j) (index b.col i j) (φ i j))
      → i < b.row
      → j < b.col
      → at z (for_entries b.row b.col f b.m) (index b.col i j) ≡ φ i j (at z b.m (index b.col i j))
  filled b f φ i j d s h l =
      for_entries-here z b.col f (index b.col) φ s b.row b.m i j
        (λ k m n. index-row b.row b.col k m n d.bounded)
        (λ k t m n. index-order b.row b.col k t m n d.bounded) h l
        (omega
          (arith, d.size, index-eq b.row b.col i j h l d.bounded, row_below b.col i b.row j h l))

  -- The same by columns.
  pub filled_by_columns :
      (b : DenseMatrix A) (f : ℕ → ℕ → List A → List A) (φ : ℕ → ℕ → A → A) (i j : ℕ)
      → IsDense b
      → ((i j : ℕ) → IsStep z (f i j) (index b.col j i) (φ i j))
      → i < b.col
      → j < b.row
      → at z (for_entries b.col b.row f b.m) (index b.col j i) ≡ φ i j (at z b.m (index b.col j i))
  filled_by_columns b f φ i j d s h l =
      for_entries-here z b.row f (λ m n. index b.col n m) φ s b.col b.m i j
        (λ k m n p q t. index-order b.row b.col m n k k d.bounded q t p p) apart h l
        (omega
          (arith, d.size, index-eq b.row b.col j i l h d.bounded, row_below b.col j b.row i l h))
    where
      apart :
          (k t m n : ℕ)
          → k < t
          → t < b.col
          → m < b.row
          → n < b.row
          → index b.col m k ≢ index b.col n t
      apart k t m n p q u v e = elim (three_way m n) [
        | inl w ↦ index-order b.row b.col m n k t d.bounded w v (omega (arith, p, q)) q e
        | inr (inl w) ↦
            index-row b.row b.col m k t d.bounded u p q (e ∙ ap (λ x. index b.col x t) (sym w))
        | inr (inr w) ↦
            index-order b.row b.col n m t k d.bounded w u q (omega (arith, p, q)) (sym e)
      ]

  -- A step that is repeated at one place.
  repeat-IsStep :
      (n g : ℕ) (f : ℕ → List A → List A) (φ : ℕ → A → A)
      → ((k : ℕ) → IsStep z (f k) g (φ k))
      → IsStep z (for_each n f) g (for_each n φ)
  unfolding for_each
  repeat-IsStep zero g f φ s = record {
    here = λ v h. refl;
    there = λ v p h. refl;
    size = λ v. refl;
  }
  repeat-IsStep (suc n) g f φ s =
      let w = repeat-IsStep n g f φ s in
      record {
        here =
            λ v h. (s n).here (for_each n f v) (omega (arith, h, w.size v)) ∙ ap (φ n) (w.here v h);
        there = λ v p h. (s n).there (for_each n f v) p h ∙ w.there v p h;
        size = λ v. (s n).size (for_each n f v) ∙ w.size v;
      }

  then-IsStep :
      (g : ℕ) (f h : List A → List A) (φ χ : A → A)
      → IsStep z f g φ
      → IsStep z h g χ
      → IsStep z (λ v. h (f v)) g (λ x. χ (φ x))
  then-IsStep g f h φ χ s t = record {
    here = λ v l. t.here (f v) (omega (arith, l, s.size v)) ∙ ap χ (s.here v l);
    there = λ v p n. t.there (f v) p n ∙ s.there v p n;
    size = λ v. t.size (f v) ∙ s.size v;
  }

module _ {ℓ} {A : Type ℓ} ⦃e : Entries A⦄ where
  -- `h 0 + ... + h (n - 1)`, from the left.
  unfoldable pub sum_of : ℕ → (ℕ → A) → A
  sum_of zero h = e.zero_entry
  sum_of (suc n) h = e.add (sum_of n h) (h n)

  pub accumulated :
      (n : ℕ) (h : ℕ → A) → for_each n (λ k x. e.add x (h k)) e.zero_entry ≡ sum_of n h
  unfolding for_each sum_of
  accumulated zero h = refl
  accumulated (suc n) h = ap (λ x. e.add x (h n)) (accumulated n h)

  -- The transpose has the entry of row i and column j in row j and column i.
  pub entry-transpose_dense :
      (a b : DenseMatrix A) (i j : ℕ)
      → b.row ≡ a.col
      → b.col ≡ a.row
      → IsDense b
      → i < a.row
      → j < a.col
      → entry (transpose_dense a b) j i ≡ entry a i j
  unfolding entry transpose_dense
  entry-transpose_dense a b i j h l d p q =
      ap₂ (λ r c. at z (for_entries r c copy b.m) (index b.col j i)) (sym l) (sym h)
      ∙ filled_by_columns z b copy (λ m n x. entry a m n) i j d
          (λ m n. assign-IsStep z (index b.col n m) (λ x. entry a m n)) (omega (arith, l, p))
          (omega (arith, h, q))
    where
      z : A
      z = e.zero_entry

      copy : ℕ → ℕ → List A → List A
      copy m n v = assign v (index b.col n m) (entry a m n)

  -- The body of the product, with the columns of the result.
  product_step : DenseMatrix A → DenseMatrix A → ℕ → ℕ → ℕ → List A → List A
  product_step a b t i j v =
      for_each a.col
        (λ k w.
          assign w (index t i j)
            (e.add (at e.zero_entry w (index t i j)) (e.mul (entry a i k) (entry b k j))))
        (assign v (index t i j) e.zero_entry)

  product_step-IsStep :
      (a b : DenseMatrix A) (t i j : ℕ)
      → IsStep e.zero_entry
          (product_step a b t i j)
          (index t i j)
          (λ x. for_each a.col (λ k y. e.add y (e.mul (entry a i k) (entry b k j))) e.zero_entry)
  unfolding product_step
  product_step-IsStep a b t i j =
      then-IsStep e.zero_entry (index t i j) _ _ (λ x. e.zero_entry) _
        (assign-IsStep e.zero_entry (index t i j) (λ x. e.zero_entry))
        (repeat-IsStep e.zero_entry a.col (index t i j) _ _ (λ k.
          assign-IsStep e.zero_entry (index t i j)
            (λ y. e.add y (e.mul (entry a i k) (entry b k j)))))

  mul_dense_dense-entries :
      (a b c : DenseMatrix A)
      → (mul_dense_dense a b c).m ≡ for_entries a.row b.col (product_step a b b.col) c.m
  unfolding mul_dense_dense mul_entry product_step
  mul_dense_dense-entries a b c = refl

  same_col : (a b c : DenseMatrix A) → (mul_dense_dense a b c).col ≡ c.col
  unfolding mul_dense_dense
  same_col a b c = refl

  -- The product has the sum of the products of a row and a column.
  pub entry-mul_dense_dense :
      (a b c : DenseMatrix A) (i j : ℕ)
      → c.row ≡ a.row
      → c.col ≡ b.col
      → IsDense c
      → i < a.row
      → j < b.col
      → entry (mul_dense_dense a b c) i j ≡ sum_of a.col (λ k. e.mul (entry a i k) (entry b k j))
  unfolding entry
  entry-mul_dense_dense a b c i j h l d p q =
      ap₂ (λ (t : ℕ) (v : List A). at e.zero_entry v (index t i j)) (same_col a b c)
        (mul_dense_dense-entries a b c)
      ∙ ap₂ (λ r t. at e.zero_entry (for_entries r t (product_step a b t) c.m) (index c.col i j))
          (sym h) (sym l)
      ∙ filled e.zero_entry c (product_step a b c.col) _ i j d (product_step-IsStep a b c.col)
          (omega (arith, h, p)) (omega (arith, l, q))
      ∙ accumulated a.col (λ k. e.mul (entry a i k) (entry b k j))

  -- A submatrix has the entries from the given row and column on.
  entry-submatrix_dense :
      (a b : DenseMatrix A) (row_start col_start i j : ℕ)
      → IsDense b
      → i < b.row
      → j < b.col
      → entry (submatrix_dense a row_start col_start b) i j
        ≡ entry a (row_start + i) (col_start + j)
  unfolding entry submatrix_dense index
  entry-submatrix_dense a b row_start col_start i j d p q =
      filled e.zero_entry b copy (λ m n x. old m n) i j d
        (λ m n. assign-IsStep e.zero_entry (index b.col m n) (λ x. old m n)) p q
      ∙ ap (at e.zero_entry a.m) (place i j)
    where
      old : ℕ → ℕ → A
      old m n = at e.zero_entry a.m (((row_start + m) * a.col + col_start + n) % 2 ^ 32)

      copy : ℕ → ℕ → List A → List A
      copy m n v = assign v (index b.col m n) (old m n)

      place :
          (m n : ℕ)
          → ((row_start + m) * a.col + col_start + n) % 2 ^ 32
            ≡ ((row_start + m) * a.col + (col_start + n)) % 2 ^ 32
      place m n = omega arith

  -- The sum of two matrices, and the sum and the product with a scalar, go entry by entry.
  entry-elementwise :
      (a b c : DenseMatrix A) (k : A) (i j : ℕ)
      → b.col ≡ a.col
      → c.row ≡ a.row
      → c.col ≡ a.col
      → IsDense c
      → i < a.row
      → j < a.col
      → (entry (add_dense_dense a b c) i j ≡ e.add (entry a i j) (entry b i j))
        × (entry (add_dense_scalar a k c) i j ≡ e.add (entry a i j) k)
        × (entry (mul_dense_scalar a k c) i j ≡ e.mul (entry a i j) k)
  unfolding entry add_dense_dense add_dense_scalar mul_dense_scalar
  entry-elementwise a b c k i j s h l d p q = (
    each (λ m n. e.add (entry a m n) (at e.zero_entry b.m (index a.col m n)))
        ∙ ap (λ t. e.add (entry a i j) (at e.zero_entry b.m (index t i j))) (sym s),
    each (λ m n. e.add (entry a m n) k),
    each (λ m n. e.mul (entry a m n) k),
  )
    where
      each :
          (f : ℕ → ℕ → A)
          → at e.zero_entry
              (for_entries a.row a.col (λ m n v. assign v (index a.col m n) (f m n)) c.m)
              (index c.col i j)
            ≡ f i j
      each f =
          ap₂
            (λ r t.
              at e.zero_entry (for_entries r t (λ m n v. assign v (index t m n) (f m n)) c.m)
                (index c.col i j))
            (sym h) (sym l)
          ∙ filled e.zero_entry c (λ m n v. assign v (index c.col m n) (f m n)) (λ m n x. f m n) i j
              d (λ m n. assign-IsStep e.zero_entry (index c.col m n) (λ x. f m n))
              (omega (arith, h, p)) (omega (arith, l, q))

  pub sum_of_congr : (n : ℕ) (f g : ℕ → A) → ((k : ℕ) → k < n → f k ≡ g k) → sum_of n f ≡ sum_of n g
  unfolding sum_of
  sum_of_congr zero f g h = refl
  sum_of_congr (suc n) f g h =
      ap₂ e.add (sum_of_congr n f g (λ k l. h k (omega (arith, l)))) (h n (omega arith))

  -- Where `mul` commutes, the transpose of a product is the product of the transposes, in the other
  -- order.
  pub transpose_dense-mul_dense_dense :
      (a b ab ab_t a_t b_t c : DenseMatrix A) (i j : ℕ)
      → ((x y : A) → e.mul x y ≡ e.mul y x)
      → b.row ≡ a.col
      → (ab.row ≡ a.row) × (ab.col ≡ b.col) × IsDense ab
      → (ab_t.row ≡ b.col) × (ab_t.col ≡ a.row) × IsDense ab_t
      → (a_t.row ≡ a.col) × (a_t.col ≡ a.row) × IsDense a_t
      → (b_t.row ≡ b.col) × (b_t.col ≡ b.row) × IsDense b_t
      → (c.row ≡ b.col) × (c.col ≡ a.row) × IsDense c
      → i < a.row
      → j < b.col
      → entry (transpose_dense (mul_dense_dense a b ab) ab_t) j i
        ≡ entry (mul_dense_dense (transpose_dense b b_t) (transpose_dense a a_t) c) j i
  unfolding mul_dense_dense transpose_dense
  transpose_dense-mul_dense_dense a b ab ab_t a_t b_t c i j comm s p q u v w h l =
      entry-transpose_dense (mul_dense_dense a b ab) ab_t i j (q.0 ∙ sym p.1) (q.1 ∙ sym p.0) q.2
        (omega (arith, p.0, h)) (omega (arith, p.1, l))
      ∙ entry-mul_dense_dense a b ab i j p.0 p.1 p.2 h l
      ∙ ap (λ n. sum_of n (λ k. e.mul (entry a i k) (entry b k j))) (sym s ∙ sym v.1)
      ∙ sum_of_congr b_t.col _ _ (λ k t.
        comm (entry a i k) (entry b k j)
        ∙ ap₂ e.mul (sym (entry-transpose_dense b b_t k j v.0 v.1 v.2 (omega (arith, v.1, t)) l))
            (sym (entry-transpose_dense a a_t i k u.0 u.1 u.2 h (omega (arith, s, v.1, t)))))
      ∙ sym (
          entry-mul_dense_dense (transpose_dense b b_t) (transpose_dense a a_t) c j i
            (w.0 ∙ sym v.0) (w.1 ∙ sym u.1) w.2 (omega (arith, v.0, l)) (omega (arith, u.1, h)))
