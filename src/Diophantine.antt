-- ===== src/Diophantine.antt =====
-- src/diophantine.cpp: the systems A x = 0 over the natural numbers, by the algorithm of Contejean and
-- Devie. All entries are integers, as the code asserts. `MatrixBase::eq` is from src/matrix.cpp.
pub mod Matrices
pub mod Order
pub mod Solutions
pub mod Examples
use csympy.Prelude.{
  ℕ, zero, suc, ◌+◌, ◌-◌, Bool, true, false, not, ◌&&◌, ◌||◌, List, [], ◌∷◌, ◌++◌, length, ltb,
  ◌==◌, if◌then◌else◌,
}
use csympy.Prelude.Int.{ℤ, pos, ◌+ℤ◌, ◌-ℤ◌, ◌*ℤ◌, ltb_ℤ, eqb_ℤ}
use csympy.DenseMatrix.{
  DenseMatrix, Entries, entry, index, transpose_dense, mul_dense_dense, with_entries,
}
use csympy.DenseMatrix.Create.{zeros}
use csympy.DenseMatrix.Solve.{new_matrix}
use csympy.Vector.{at, assign, erase_at, for_each, repeat}

instance abbrev pub integer_entries : Entries ℤ
integer_entries = record { zero_entry = pos 0; add = λ a b. a +ℤ b; mul = λ a b. a *ℤ b }

-- A loop from `k` on that ends at the first `false`.
unfoldable pub all_from : ℕ → ℕ → (ℕ → Bool) → Bool
all_from zero k f = true
all_from (suc n) k f = let rest = all_from n (k + 1) f in if f k then rest else false

unfoldable pub matrix_eq : DenseMatrix ℤ → DenseMatrix ℤ → Bool
matrix_eq a b =
    if a.row == b.row && a.col == b.col
    then all_from a.row 0 (λ i. all_from a.col 0 (λ j. eqb_ℤ (entry a i j) (entry b i j)))
    else false

-- The loop of `order`, with the flag `eq`.
unfoldable pub order_loop : ℕ → ℕ → DenseMatrix ℤ → DenseMatrix ℤ → Bool → Bool
order_loop zero j t b same = not same
order_loop (suc n) j t b same =
    let rest =
      order_loop n (j + 1) t b (if ltb_ℤ (entry b 0 j) (entry t 0 j) then false else same) in
    if ltb_ℤ (entry t 0 j) (entry b 0 j) then false else rest

unfoldable pub order : DenseMatrix ℤ → DenseMatrix ℤ → Bool
order t b = order_loop t.col 0 t b true

abbrev pub no_matrix : DenseMatrix ℤ
no_matrix = record { row = 0; col = 0; m = [] }

unfoldable pub is_minimum : DenseMatrix ℤ → List (DenseMatrix ℤ) → ℕ → Bool
is_minimum t basis zero = true
is_minimum t basis (suc n) = not (order t (at no_matrix basis n)) && is_minimum t basis n

-- `T.set(0, i, ...)`
abbrev pub set_entry : DenseMatrix ℤ → ℕ → ℤ → DenseMatrix ℤ
set_entry t i x = with_entries t (assign t.m (index t.col 0 i) x)

-- The variables of the loop over the columns. `frozen` are the rows of `Frozen`.
pub record Search : Type 0 where
  pub vector : DenseMatrix ℤ
  pub fixed : List Bool
  pub n : ℕ
  pub stack : List (DenseMatrix ℤ)
  pub frozen : List (List Bool)

-- `T[i] += 1`, and `T[i - 1] -= 1` behind the first column.
unfoldable pub next_vector : ℕ → DenseMatrix ℤ → DenseMatrix ℤ
next_vector i t =
    let u = set_entry t i (entry t 0 i +ℤ pos 1) in
    if ltb 0 i then set_entry u (i - 1) (entry u 0 (i - 1) -ℤ pos 1) else u

unfoldable pub dot_product : DenseMatrix ℤ → DenseMatrix ℤ → ℕ → ℤ
dot_product a product i = for_each a.row (λ j dot. dot +ℤ entry product j 0 *ℤ entry a j i) (pos 0)

-- The push of a vector: `n` counts up, and its row of `Frozen` becomes the flags.
unfoldable pub push_vector : ℕ → ℕ → Search → Search
push_vector q i s = record {
  vector = s.vector;
  fixed = assign s.fixed i true;
  n = s.n + 1;
  stack = s.stack ++ s.vector ∷ [];
  frozen =
      assign s.frozen s.n (for_each q (λ j v. assign v j (at true s.fixed j)) (at [] s.frozen s.n));
}

unfoldable pub with_vector : Search → DenseMatrix ℤ → Search
with_vector s t = record {
  vector = t;
  fixed = s.fixed;
  n = s.n;
  stack = s.stack;
  frozen = s.frozen;
}

-- The body of the loop over the columns.
unfoldable pub try_column :
    DenseMatrix ℤ → DenseMatrix ℤ → List (DenseMatrix ℤ) → Bool → ℕ → Search → Search
try_column a product basis is_first i s =
    let moved = with_vector s (next_vector i s.vector) in
    if not (at true s.fixed i)
      && ((ltb_ℤ (dot_product a product i) (pos 0) && is_minimum moved.vector basis (length basis))
          || is_first)
    then push_vector a.col i moved
    else moved

-- The variables of the outer loop.
pub record Lde : Type 0 where
  pub stack : List (DenseMatrix ℤ)
  pub frozen : List (List Bool)
  pub fixed : List Bool
  pub transposed : DenseMatrix ℤ
  pub product : DenseMatrix ℤ
  pub basis : List (DenseMatrix ℤ)

-- The body of the outer loop.
unfoldable pub lde_round : DenseMatrix ℤ → Lde → Lde
lde_round a s =
    let n = length s.stack - 1 in
    let t = at no_matrix s.stack n in
    let stack = erase_at n s.stack in
    let transposed = transpose_dense t s.transposed in
    let product = mul_dense_dense a transposed s.product in
    if matrix_eq product (zeros a.row 1) && not (matrix_eq t (zeros 1 a.col))
    then record {
      stack = stack;
      frozen = s.frozen;
      fixed = s.fixed;
      transposed = transposed;
      product = product;
      basis = s.basis ++ t ∷ [];
    }
    else let fixed = for_each a.col (λ i v. assign v i (at true (at [] s.frozen n) i)) s.fixed in
      let last =
        for_each a.col (try_column a product s.basis (matrix_eq t (zeros 1 a.col)))
          (record { vector = t; fixed = fixed; n = n; stack = stack; frozen = s.frozen }) in
      record {
        stack = last.stack;
        frozen = last.frozen;
        fixed = last.fixed;
        transposed = transposed;
        product = product;
        basis = s.basis;
      }

-- `while (P.size() > 0)`, on fuel.
unfoldable pub lde_rounds : ℕ → DenseMatrix ℤ → Lde → Lde
lde_rounds zero a s = s
lde_rounds (suc fuel) a s = elim (length s.stack == 0) [
  | true ↦ s
  | false ↦ lde_rounds fuel a (lde_round a s)
]

unfoldable pub start_lde : DenseMatrix ℤ → List (DenseMatrix ℤ) → Lde
start_lde a basis = record {
  stack = zeros 1 a.col ∷ [];
  frozen =
      let rows = repeat a.col (repeat a.col true) in
      assign rows 0 (for_each a.col (λ j v. assign v j false) (at [] rows 0));
  fixed = repeat a.col false;
  transposed = new_matrix a.col 1;
  product = new_matrix a.row 1;
  basis = basis;
}

-- `homogeneous_lde` after at most so many rounds: the basis, and whether the loop is over.
unfoldable pub homogeneous_lde :
    ℕ → DenseMatrix ℤ → List (DenseMatrix ℤ) → List (DenseMatrix ℤ) × Bool
homogeneous_lde fuel a basis =
    let s = lde_rounds fuel a (start_lde a basis) in (s.basis, length s.stack == 0)
