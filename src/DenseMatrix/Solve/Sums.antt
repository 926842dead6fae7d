-- ===== src/DenseMatrix/Solve/Sums.antt =====
-- Sums of entries that are numbers, and triangular matrices.
use csympy.Prelude.{ℕ, zero, suc, ◌+◌, ◌-◌, ◌≡◌, ◌≢◌, ◌<◌, refl, sym, ap, ap₂, ◌∙◌, List, arith}
use csympy.Vector.{at}
use csympy.DenseMatrix.{DenseMatrix, Entries, entry}
use csympy.DenseMatrix.Laws.{sum_of}
use csympy.DenseMatrix.Solve.{Division, IsField}

module _ {ℓ} {A : Type ℓ} ⦃e : Entries A⦄ ⦃d : Division A⦄ ⦃l : IsField A⦄ where
  pub add-zero : (x : A) → e.add x e.zero_entry ≡ x
  add-zero x = l.add_comm x e.zero_entry ∙ l.zero-add x

  double_zero : (y : A) → e.add y y ≡ y → y ≡ e.zero_entry
  double_zero y h =
      sym (l.sub-add y y) ∙ ap (λ x. d.sub x y) (h ∙ sym (l.zero-add y)) ∙ l.sub-add e.zero_entry y

  pub zero-mul : (x : A) → e.mul e.zero_entry x ≡ e.zero_entry
  zero-mul x =
      double_zero (e.mul e.zero_entry x) (
        sym (l.add-mul e.zero_entry e.zero_entry x) ∙ ap (λ y. e.mul y x) (l.zero-add e.zero_entry))

  pub div-one : (x : A) → d.div x d.one ≡ x
  div-one x = sym (l.one-mul (d.div x d.one)) ∙ l.mul-div x d.one l.one-nonzero

  pub sum_of_zero :
      (n : ℕ) (f : ℕ → A) → ((k : ℕ) → k < n → f k ≡ e.zero_entry) → sum_of n f ≡ e.zero_entry
  unfolding sum_of
  sum_of_zero zero f h = refl
  sum_of_zero (suc n) f h =
      ap₂ e.add (sum_of_zero n f (λ k q. h k (omega (arith, q)))) (h n (omega arith))
      ∙ l.zero-add e.zero_entry

  pub sum_of_append :
      (a m : ℕ) (f : ℕ → A) → sum_of (a + m) f ≡ e.add (sum_of a f) (sum_of m (λ k. f (a + k)))
  unfolding sum_of
  sum_of_append a zero f =
      ap (λ t. sum_of t f) (let q : a + 0 ≡ a = omega arith in q) ∙ sym (add-zero (sum_of a f))
  sum_of_append a (suc m) f =
      ap (λ t. sum_of t f) (let q : a + suc m ≡ suc (a + m) = omega arith in q)
      ∙ ap (λ x. e.add x (f (a + m))) (sum_of_append a m f)
      ∙ l.add_assoc (sum_of a f) (sum_of m (λ k. f (a + k))) (f (a + m))

  -- A sum whose terms before `i` are zero.
  pub sum_of_from :
      (n i : ℕ) (f : ℕ → A)
      → i < n
      → ((k : ℕ) → k < i → f k ≡ e.zero_entry)
      → sum_of n f ≡ e.add (f i) (sum_of (n - (i + 1)) (λ k. f (i + 1 + k)))
  unfolding sum_of
  sum_of_from n i f h z =
      ap (λ t. sum_of t f) (let q : n ≡ suc i + (n - (i + 1)) = omega (arith, h) in q)
      ∙ sum_of_append (suc i) (n - (i + 1)) f
      ∙ ap₂ e.add (ap (λ x. e.add x (f i)) (sum_of_zero i f z) ∙ l.zero-add (f i)) (
          ap (λ t. sum_of (n - (i + 1)) (λ k. f (t + k)))
            (let q : suc i ≡ i + 1 = omega arith in q))

  -- A sum whose terms after `i` are zero.
  pub sum_of_to :
      (n i : ℕ) (f : ℕ → A)
      → i < n
      → ((k : ℕ) → i < k → k < n → f k ≡ e.zero_entry)
      → sum_of n f ≡ e.add (sum_of i f) (f i)
  unfolding sum_of
  sum_of_to n i f h z =
      ap (λ t. sum_of t f) (let q : n ≡ suc i + (n - (i + 1)) = omega (arith, h) in q)
      ∙ sum_of_append (suc i) (n - (i + 1)) f
      ∙ ap (e.add (sum_of (suc i) f)) (
          sum_of_zero (n - (i + 1)) (λ k. f (suc i + k))
            (λ k q. z (suc i + k) (omega arith) (omega (arith, q, h))))
      ∙ add-zero (sum_of (suc i) f)

  add_interchange : (x y z t : A) → e.add (e.add x y) (e.add z t) ≡ e.add (e.add x z) (e.add y t)
  add_interchange x y z t =
      l.add_assoc x y (e.add z t)
      ∙ ap (e.add x)
          (sym (l.add_assoc y z t) ∙ ap (λ u. e.add u t) (l.add_comm y z) ∙ l.add_assoc z y t)
      ∙ sym (l.add_assoc x z (e.add y t))

  sum_of-add :
      (n : ℕ) (f g : ℕ → A) → sum_of n (λ k. e.add (f k) (g k)) ≡ e.add (sum_of n f) (sum_of n g)
  unfolding sum_of
  sum_of-add zero f g = sym (l.zero-add e.zero_entry)
  sum_of-add (suc n) f g =
      ap (λ u. e.add u (e.add (f n) (g n))) (sum_of-add n f g)
      ∙ add_interchange (sum_of n f) (sum_of n g) (f n) (g n)

  pub sum_of-mul :
      (n : ℕ) (f : ℕ → A) (x : A) → e.mul (sum_of n f) x ≡ sum_of n (λ k. e.mul (f k) x)
  unfolding sum_of
  sum_of-mul zero f x = zero-mul x
  sum_of-mul (suc n) f x =
      l.add-mul (sum_of n f) (f n) x ∙ ap (λ u. e.add u (e.mul (f n) x)) (sum_of-mul n f x)

  -- A double sum in the other order.
  pub sum_of_exchange :
      (m n : ℕ) (f : ℕ → ℕ → A)
      → sum_of m (λ i. sum_of n (f i)) ≡ sum_of n (λ j. sum_of m (λ i. f i j))
  unfolding sum_of
  sum_of_exchange zero n f = sym (sum_of_zero n (λ j. e.zero_entry) (λ k h. refl))
  sum_of_exchange (suc m) n f =
      ap (λ u. e.add u (sum_of n (f m))) (sum_of_exchange m n f)
      ∙ sym (sum_of-add n (λ j. sum_of m (λ i. f i j)) (f m))

-- The row `i` of the product of a matrix with a vector.
unfoldable pub row_product {ℓ} : {A : Type ℓ} → ⦃e : Entries A⦄ → DenseMatrix A → List A → ℕ → A
row_product ⦃e⦄ a x i = sum_of a.col (λ j. e.mul (entry a i j) (at e.zero_entry x j))

-- The entries below the diagonal are zero, and those on the diagonal are not.
pub record IsUpper {ℓ} {A : Type ℓ} ⦃e : Entries A⦄ (u : DenseMatrix A) : Type ℓ where
  pub below : (i j : ℕ) → j < i → i < u.col → entry u i j ≡ e.zero_entry
  pub diagonal : (i : ℕ) → i < u.col → entry u i i ≢ e.zero_entry

-- The entries above the diagonal are zero, and those on the diagonal are one.
pub record IsUnitLower {ℓ} {A : Type ℓ} ⦃e : Entries A⦄ ⦃d : Division A⦄ (a : DenseMatrix A)
    : Type ℓ where
  pub above : (i j : ℕ) → i < j → j < a.col → entry a i j ≡ e.zero_entry
  pub unit : (i : ℕ) → i < a.col → entry a i i ≡ d.one
