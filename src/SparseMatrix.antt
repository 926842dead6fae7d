-- ===== src/SparseMatrix.antt =====
-- src/sparse_matrix.cpp: compressed sparse row matrices. An entry is a value of a type with `eq`
-- and the constant `zero` of the library. A read past the end of a vector is undefined in C++ and
-- gives a default here; a matrix in canonical form has none. `unsigned` has 32 bits.
pub mod Search
pub mod Rows
pub mod Insert
pub mod Remove
pub mod GetSet
pub mod Operations
pub mod Examples
use csympy.Prelude.{
  ℕ, zero, suc, ◌+◌, ◌-◌, ◌^◌, ◌%◌, Bool, true, false, not, ◌&&◌, List, [], ◌∷◌, length,
  if◌then◌else◌, ltb, leb, ◌==◌,
}
use csympy.Dict.{Key, neq}
use csympy.Vector.{at, assign, insert_at, erase_at, change_from}

pub record CsrMatrix {ℓ} (A : Type ℓ) : Type ℓ where
  pub row : ℕ
  pub col : ℕ
  pub p : List ℕ
  pub j : List ℕ
  pub x : List A

-- `p_[l]++` and `p_[l]--`
abbrev pub incr : ℕ → ℕ
incr n = (n + 1) % 2 ^ 32

abbrev pub decr : ℕ → ℕ
decr n = (n + (2 ^ 32 - 1)) % 2 ^ 32

-- The loop of `set`: `while (k < row_end && j_[k] < j) k++`, for `fuel` the length of the row.
unfoldable pub seek : List ℕ → ℕ → ℕ → ℕ → ℕ
seek js zero k c = k
seek js (suc fuel) k c = let rest = seek js fuel (k + 1) c in if ltb (at 0 js k) c then rest else k

module _ {ℓ} {A : Type ℓ} (zero_entry : A) where
  -- The loop of `get`.
  unfoldable pub scan : List ℕ → List A → ℕ → ℕ → ℕ → A
  scan js xs zero k c = zero_entry
  scan js xs (suc fuel) k c =
      let rest = scan js xs fuel (k + 1) c in
      if at 0 js k == c then at zero_entry xs k else if ltb c (at 0 js k) then zero_entry else rest

  unfoldable pub get : CsrMatrix A → ℕ → ℕ → A
  unfolding scan
  get m i c =
      let row_start = at 0 m.p i in
      let row_end = at 0 m.p (i + 1) in scan m.j m.x (row_end - row_start) row_start c

module _ {ℓ} {A : Type ℓ} where
  -- The branches of `set`, at the position `k`.
  unfoldable pub replace_entry : CsrMatrix A → ℕ → A → CsrMatrix A
  replace_entry m k e = record { row = m.row; col = m.col; p = m.p; j = m.j; x = assign m.x k e }

  unfoldable pub insert_entry : CsrMatrix A → ℕ → ℕ → ℕ → A → CsrMatrix A
  insert_entry m k i c e = record {
    row = m.row;
    col = m.col;
    p = change_from incr (i + 1) (m.row - i) m.p;
    j = insert_at k c m.j;
    x = insert_at k e m.x;
  }

  unfoldable pub remove_entry : CsrMatrix A → ℕ → ℕ → CsrMatrix A
  remove_entry m k i = record {
    row = m.row;
    col = m.col;
    p = change_from decr (i + 1) (m.row - i) m.p;
    j = erase_at k m.j;
    x = erase_at k m.x;
  }

module _ {ℓ} {A : Type ℓ} ⦃key : Key A⦄ (zero_entry : A) where
  unfoldable pub set : CsrMatrix A → ℕ → ℕ → A → CsrMatrix A
  set m i c e =
      let row_end = at 0 m.p (i + 1) in
      let k = seek m.j (row_end - at 0 m.p i) (at 0 m.p i) c in
      let present = ltb k row_end && at 0 m.j k == c in
      if neq e zero_entry
      then if present then replace_entry m k e else insert_entry m k i c e
      else if present
      then remove_entry m k i
      else m
