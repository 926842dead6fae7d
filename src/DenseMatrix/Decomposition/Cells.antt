-- ===== src/DenseMatrix/Decomposition/Cells.antt =====
-- Cells of a square matrix that is stored row by row, and loops that subtract products from one.
use csympy.Prelude.{
  ℕ, ◌+◌, ◌*◌, ◌^◌, ◌≡◌, ◌≢◌, ◌<◌, ◌≤◌, sym, ap, ap₂, ◌∙◌, List, length, arith, inl, inr, ◌⊎◌,
}
use csympy.Vector.{assign}
use csympy.Vector.Laws.{at-assign_same, at-assign_other, length-assign}
use csympy.DenseMatrix.{Entries, index}
use csympy.DenseMatrix.Loops.{row_below, index-eq}
use csympy.DenseMatrix.Laws.{sum_of, three_way}
use csympy.DenseMatrix.Solve.{Division, IsField, cell}
use csympy.DenseMatrix.Solve.Triangular.{differs, subtract-size, subtract-here, subtract-there}
use csympy.DenseMatrix.Decomposition.{subtract_products}

-- A vector with the cells of `n` rows and columns, whose numbers are in `unsigned`.
pub record IsSquare {ℓ} {A : Type ℓ} (n : ℕ) (v : List A) : Type 0 where
  pub size : length v ≡ n * n
  pub bounded : n * n ≤ 2 ^ 32

pub index-apart :
    (n i j k l : ℕ)
    → n * n ≤ 2 ^ 32
    → i < n
    → j < n
    → k < n
    → l < n
    → (i ≢ k) ⊎ (j ≢ l)
    → index n i j ≢ index n k l
index-apart n i j k l b p q r s o h =
    let e : i * n + j ≡ k * n + l = sym (index-eq n n i j p q b) ∙ h ∙ index-eq n n k l r s b in
    elim (three_way i k) [
      | inl c ↦ omega (arith, e, row_below n i k j c q)
      | inr (inl c) ↦ elim o [
        | inl d ↦ d c
        | inr d ↦ d (let f : j ≡ l = omega (arith, e, ap (λ t. t * n) c) in f)
      ]
      | inr (inr c) ↦ omega (arith, e, row_below n k i l c s)
    ]

module _ {ℓ} {A : Type ℓ} ⦃e : Entries A⦄ where
  pub index-inside :
      (n : ℕ) (v : List A) (i j : ℕ) → IsSquare n v → i < n → j < n → index n i j < length v
  index-inside n v i j s p q =
      omega (arith, s.size, index-eq n n i j p q s.bounded, row_below n i n j p q)

  pub cell-assign_same :
      (n : ℕ) (v : List A) (i j : ℕ) (x : A)
      → IsSquare n v
      → i < n
      → j < n
      → cell (assign v (index n i j) x) n i j ≡ x
  cell-assign_same n v i j x s p q =
      at-assign_same e.zero_entry x v (index n i j) (index-inside n v i j s p q)

  pub cell-assign_other :
      (n : ℕ) (v : List A) (i j k l : ℕ) (x : A)
      → n * n ≤ 2 ^ 32
      → i < n
      → j < n
      → k < n
      → l < n
      → (i ≢ k) ⊎ (j ≢ l)
      → cell (assign v (index n k l) x) n i j ≡ cell v n i j
  cell-assign_other n v i j k l x b p q r s o =
      at-assign_other e.zero_entry x v (index n k l) (index n i j)
        (differs _ _ (index-apart n i j k l b p q r s o))

  pub assign-IsSquare :
      (n : ℕ) (v : List A) (p : ℕ) (x : A) → IsSquare n v → IsSquare n (assign v p x)
  assign-IsSquare n v p x s = record { size = length-assign v p x ∙ s.size; bounded = s.bounded }

module _ {ℓ} {A : Type ℓ} ⦃e : Entries A⦄ ⦃d : Division A⦄ ⦃l : IsField A⦄ where
  abbrev pub products : ℕ → List A → ℕ → ℕ → ℕ → A
  products n v i j k = e.mul (cell v n i k) (cell v n k j)

  -- What `subtract_products` leaves: the other cells, and a cell that was reduced by `m` products.
  pub record Reduced (n j m i : ℕ) (v w : List A) : Type ℓ where
    pub square : IsSquare n w
    pub there : (p q : ℕ) → p < n → q < n → (p ≢ i) ⊎ (q ≢ j) → cell w n p q ≡ cell v n p q
    pub here : e.add (cell w n i j) (sum_of m (products n v i j)) ≡ cell v n i j

  pub subtract_products-Reduced :
      (n j m i : ℕ) (v : List A)
      → IsSquare n v
      → i < n
      → j < n
      → m ≤ i
      → m ≤ j
      → Reduced n j m i v (subtract_products n j m i v)
  unfolding subtract_products
  subtract_products-Reduced n j m i v s p q a b =
      let h = λ (k : ℕ) (u : List A). products n u i j k in
      let g = index n i j in
      let same = λ (k x y : ℕ) (xn : x < n) (yn : y < n) (o : (x ≢ i) ⊎ (y ≢ j)).
        subtract-there g k h v (index n x y) (index-apart n x y i j s.bounded xn yn p q o) in
      record {
        square = record { size = subtract-size g m h v ∙ s.size; bounded = s.bounded };
        there = λ x y xn yn o. same m x y xn yn o;
        here =
            subtract-here g m h (products n v i j) v
              (λ k c.
                ap₂ e.mul
                  (same k i k p (omega (arith, c, b, q)) (inr (λ z. omega (arith, z, c, b))))
                  (same k k j (omega (arith, c, a, p)) q (inl (λ z. omega (arith, z, c, a)))))
              (index-inside n v i j s p q);
      }
