-- ===== src/DenseMatrix/Solve.antt =====
-- src/dense_matrix.cpp: the solvers for diagonal and triangular matrices, and `pivot`. Expressions
-- come with the operations `sub`, `div` and `eq` besides those of `Entries`.
pub mod Sums
pub mod Triangular
pub mod Forward
pub mod Pivots
pub mod Examples
use csympy.Prelude.{
  ℕ, zero, suc, ◌+◌, ◌-◌, ◌*◌, ◌^◌, ◌%◌, Bool, List, ltb, true, ◌≡◌, ◌≢◌, ◌↔◌, if◌then◌else◌,
}
use csympy.Vector.{at, assign, for_each, for_range, for_down, repeat}
use csympy.DenseMatrix.{DenseMatrix, Entries, index, entry, with_entries}

-- `sub`, `div`, `eq` and the constants `one` and `minus_one` of expressions
pub record Division {ℓ} (A : Type ℓ) : Type ℓ where
  pub sub : A → A → A
  pub div : A → A → A
  pub one : A
  pub minus_one : A
  pub eq : A → A → Bool

-- `col - 1` in `unsigned`
unfoldable pub before : ℕ → ℕ
before n = (n + (2 ^ 32 - 1)) % 2 ^ 32

-- `i*col - col + i - 1` in `unsigned`, for `i` above 0
unfoldable pub diagonal_before : ℕ → ℕ → ℕ
diagonal_before col i = (i * col - col + i - 1) % 2 ^ 32

module _ {ℓ} {A : Type ℓ} ⦃e : Entries A⦄ where
  -- `m[i*col + j]`
  abbrev pub cell : List A → ℕ → ℕ → ℕ → A
  cell m col i j = at e.zero_entry m (index col i j)

  -- `DenseMatrix(row, col)`; its null pointers count as zero, and are never read.
  unfoldable pub new_matrix : ℕ → ℕ → DenseMatrix A
  new_matrix row col = record { row = row; col = col; m = repeat (row * col % 2 ^ 32) e.zero_entry }

  module _ ⦃d : Division A⦄ where
    -- `x` is the object that the result goes to.
    unfoldable pub diagonal_solve : DenseMatrix A → DenseMatrix A → DenseMatrix A → DenseMatrix A
    diagonal_solve a b x =
        with_entries x
          (for_each a.col (λ i v. assign v i (d.div (at e.zero_entry b.m i) (entry a i i))) x.m)

    -- The body of the outer loop of `back_substitution`.
    unfoldable pub back_row : DenseMatrix A → ℕ → List A → List A
    back_row u i v =
        let w =
          for_range (i + 1) u.col
            (λ j t.
              assign t i (d.sub (at e.zero_entry t i) (e.mul (entry u i j) (at e.zero_entry t j))))
            v in
        assign w i (d.div (at e.zero_entry w i) (entry u i i))

    unfoldable pub back_substitution : DenseMatrix A → DenseMatrix A → DenseMatrix A → DenseMatrix A
    back_substitution u b x = with_entries x (for_down u.col (back_row u) b.m)

    -- The body of the inner loop of `forward_substitution`.
    unfoldable pub forward_entry : DenseMatrix A → ℕ → ℕ → List A → List A
    forward_entry a i j v =
        let w = assign v j (
          d.sub (e.mul (entry a i i) (at e.zero_entry v j))
            (e.mul (entry a j i) (at e.zero_entry v i))) in
        if ltb 0 i
        then assign w j
            (d.div (at e.zero_entry w j) (at e.zero_entry a.m (diagonal_before a.col i)))
        else w

    unfoldable pub forward_substitution :
        DenseMatrix A → DenseMatrix A → DenseMatrix A → DenseMatrix A
    forward_substitution a b x =
        with_entries x
          (for_each (before a.col) (λ i v. for_range (i + 1) a.col (forward_entry a i) v) b.m)

    -- `for (; k < row; k++) if (!eq(B.m_[k*B.col_ + c], zero)) break;`, over the rows that are left
    unfoldable pub first_nonzero : DenseMatrix A → ℕ → ℕ → ℕ → ℕ
    first_nonzero b c zero k = k
    first_nonzero b c (suc rows) k =
        let rest = first_nonzero b c rows (k + 1) in
        if d.eq (entry b k c) e.zero_entry then rest else k

    unfoldable pub pivot : DenseMatrix A → ℕ → ℕ → ℕ
    pivot b r c = if d.eq (entry b r c) e.zero_entry then first_nonzero b c (b.row - r) r else r

-- Entries that are numbers: the laws of a field, and `eq` decides equality.
pub record IsField {ℓ} (A : Type ℓ) ⦃e : Entries A⦄ ⦃d : Division A⦄ : Type ℓ where
  pub add_comm : (x y : A) → e.add x y ≡ e.add y x
  pub add_assoc : (x y z : A) → e.add (e.add x y) z ≡ e.add x (e.add y z)
  pub zero-add : (x : A) → e.add e.zero_entry x ≡ x
  pub add-sub : (x y : A) → e.add (d.sub x y) y ≡ x
  pub sub-add : (x y : A) → d.sub (e.add x y) y ≡ x
  pub mul_comm : (x y : A) → e.mul x y ≡ e.mul y x
  pub mul_assoc : (x y z : A) → e.mul (e.mul x y) z ≡ e.mul x (e.mul y z)
  pub one-mul : (x : A) → e.mul d.one x ≡ x
  pub add-mul : (x y z : A) → e.mul (e.add x y) z ≡ e.add (e.mul x z) (e.mul y z)
  pub mul-div : (x y : A) → y ≢ e.zero_entry → e.mul y (d.div x y) ≡ x
  pub one-nonzero : d.one ≢ e.zero_entry
  pub eq_iff : (x y : A) → (d.eq x y ≡ true) ↔ (x ≡ y)
