-- ===== src/DenseMatrix/Create.antt =====
-- src/dense_matrix.cpp: the inverses and the functions that create matrices.
pub mod Laws
pub mod Inverse
use csympy.Prelude.{ℕ, zero, suc, ◌+◌, ◌-◌, ◌*◌, ◌^◌, ◌%◌, ◌==◌, List, length, if◌then◌else◌}
use csympy.Prelude.Int.{ℤ, pos, negsuc}
use csympy.Vector.{at, assign, for_each, repeat}
use csympy.DenseMatrix.{DenseMatrix, Entries, index, for_entries, with_entries}
use csympy.DenseMatrix.Solve.{Division, new_matrix, back_substitution, forward_substitution}
use csympy.DenseMatrix.Elimination.{fraction_free_gauss_jordan_solve}
use csympy.DenseMatrix.Decomposition.{lu, fraction_free_lu}

-- `e`, `x_`, `x` and the entries of `B` in the loop of the inverses by substitution
pub record Inverting {ℓ} (A : Type ℓ) : Type ℓ where
  pub unit : DenseMatrix A
  pub between : DenseMatrix A
  pub solved : DenseMatrix A
  pub inverse : List A

-- The number of ones of `eye`: `k > 0 ? M - k : N + k`, in `unsigned`.
unfoldable pub eye_size : ℕ → ℕ → ℤ → ℕ
eye_size n m (pos zero) = n
eye_size n m (pos (suc k)) = (m + (2 ^ 32 - suc k)) % 2 ^ 32
eye_size n m (negsuc k) = (n + (2 ^ 32 - suc k)) % 2 ^ 32

module _ {ℓ} {A : Type ℓ} ⦃e : Entries A⦄ ⦃d : Division A⦄ where
  -- The round `j`: the solution for the column `j` of the unit matrix is the column `j` of `B`.
  unfoldable pub inverse_column : ℕ → DenseMatrix A → DenseMatrix A → ℕ → Inverting A → Inverting A
  inverse_column n l u j s =
      let unit = with_entries s.unit (assign s.unit.m j d.one) in
      let between = forward_substitution l unit s.between in
      let solved = back_substitution u between s.solved in
      record {
        unit = with_entries unit (assign unit.m j e.zero_entry);
        between = between;
        solved = solved;
        inverse = for_each n (λ i v. assign v (index n i j) (at e.zero_entry solved.m i)) s.inverse;
      }

  -- The columns of zeros, and the entries of `B` set to zero.
  unfoldable pub start_inverting : ℕ → DenseMatrix A → Inverting A
  start_inverting n b = record {
    unit = new_matrix n 1;
    between = new_matrix n 1;
    solved = new_matrix n 1;
    inverse = for_each (n * n % 2 ^ 32) (λ i v. assign v i e.zero_entry) b.m;
  }

  unfoldable pub inverse_fraction_free_lu : DenseMatrix A → DenseMatrix A → DenseMatrix A
  inverse_fraction_free_lu a b =
      let n = a.row in
      let factors = fraction_free_lu a (new_matrix n n) in
      let s = for_each n (inverse_column n factors factors) (start_inverting n b) in
      with_entries b s.inverse

  unfoldable pub inverse_lu : DenseMatrix A → DenseMatrix A → DenseMatrix A
  inverse_lu a b =
      let n = a.row in
      let (l, u) = lu a (new_matrix n n) (new_matrix n n) in
      let s = for_each n (inverse_column n l u) (start_inverting n b) in with_entries b s.inverse

  unfoldable pub inverse_gauss_jordan : DenseMatrix A → DenseMatrix A → DenseMatrix A
  inverse_gauss_jordan a b =
      let n = a.row in
      let unit = new_matrix n n in
      fraction_free_gauss_jordan_solve a
        (with_entries unit (
          for_entries n n (λ i j v. assign v (index n i j) (if i == j then d.one else e.zero_entry))
            unit.m))
        (with_entries b (for_entries n n (λ i j v. assign v (index n i j) e.zero_entry) b.m))

  -- The entry of the row `i` and the column `j` of `diag` is the one with the number `i` or `j` on
  -- the diagonal that is `k` above or below the main one.
  unfoldable pub diag : List A → ℤ → DenseMatrix A
  diag v (pos k) =
      let b = new_matrix ((length v + k) % 2 ^ 32) ((length v + k) % 2 ^ 32) in
      with_entries b (
        for_entries b.row b.col
          (λ i j m.
            assign m (index b.col i j) (if j == k + i then at e.zero_entry v i else e.zero_entry))
          b.m)
  diag v (negsuc k) =
      let b = new_matrix ((length v + suc k) % 2 ^ 32) ((length v + suc k) % 2 ^ 32) in
      with_entries b (
        for_entries b.col b.row
          (λ j i m.
            assign m (index b.col i j)
              (if i == suc k + j then at e.zero_entry v j else e.zero_entry))
          b.m)

  unfoldable pub eye : ℕ → ℕ → ℤ → DenseMatrix A
  eye n m k = let columns = if m == 0 then n else m in diag (repeat (eye_size n columns k) d.one) k

  unfoldable pub ones : ℕ → ℕ → DenseMatrix A
  ones rows cols =
      let b = new_matrix rows cols in
      with_entries b (for_entries rows cols (λ i j v. assign v (index cols i j) d.one) b.m)

module _ {ℓ} {A : Type ℓ} ⦃e : Entries A⦄ where
  unfoldable pub zeros : ℕ → ℕ → DenseMatrix A
  zeros rows cols =
      let b = new_matrix rows cols in
      with_entries b (for_entries rows cols (λ i j v. assign v (index cols i j) e.zero_entry) b.m)
