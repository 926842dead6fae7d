-- ===== src/SparseMatrix/Examples.antt =====
-- A matrix of two rows, with one entry in each.
use csympy.Prelude.{
  ℕ, zero, suc, ◌+◌, ◌^◌, ◌≡◌, ◌<◌, ◌≤◌, refl, List, [], ◌∷◌, ◌&&◌, ◌==◌, if◌then◌else◌, arith,
}
use csympy.Dict.Examples.{nat_key}
use csympy.Vector.{at}
use csympy.SparseMatrix.{CsrMatrix, get, set}
use csympy.SparseMatrix.Search.{Growing}
use csympy.SparseMatrix.Rows.{IsCsr}
use csympy.SparseMatrix.GetSet.{get-set, set-IsCsr}

abbrev pub starts_of_rows : List ℕ
starts_of_rows = 0 ∷ 1 ∷ 2 ∷ []

abbrev pub columns_of_entries : List ℕ
columns_of_entries = 1 ∷ 0 ∷ []

abbrev pub entries_of_rows : List ℕ
entries_of_rows = 5 ∷ 7 ∷ []

abbrev pub two_rows : CsrMatrix ℕ
two_rows = record {
  row = 2;
  col = 2;
  p = starts_of_rows;
  j = columns_of_entries;
  x = entries_of_rows;
}

two_rows_ordered : (i : ℕ) → i < 2 → at 0 starts_of_rows i ≤ at 0 starts_of_rows (i + 1)
unfolding at
two_rows_ordered zero h = omega arith
two_rows_ordered (suc zero) h = omega arith
two_rows_ordered (suc (suc i)) h = absurd (omega (arith, h))

one_entry : (i : ℕ) → i < 2 → at 0 starts_of_rows (i + 1) ≡ suc (at 0 starts_of_rows i)
unfolding at
one_entry zero h = refl
one_entry (suc zero) h = refl
one_entry (suc (suc i)) h = absurd (omega (arith, h))

two_rows-Growing :
    (i : ℕ)
    → i < 2
    → Growing columns_of_entries (at 0 starts_of_rows i) (at 0 starts_of_rows (i + 1))
two_rows-Growing i h m n a b c = absurd (omega (arith, a, b, c, one_entry i h))

pub two_rows-IsCsr : IsCsr two_rows
unfolding at
two_rows-IsCsr = record {
  starts = refl;
  columns = refl;
  entries = refl;
  ordered = two_rows_ordered;
  growing = two_rows-Growing;
}

two_rows_room : at 0 two_rows.p two_rows.row + 1 < 2 ^ 32
unfolding at
two_rows_room = omega arith

set-IsCsr_example : IsCsr (set 0 two_rows 0 0 9)
set-IsCsr_example = set-IsCsr two_rows two_rows-IsCsr 0 0 (omega arith) 0 9 two_rows_room

get-set_example :
    get 0 (set 0 two_rows 0 0 9) 1 0
    ≡ (if 1 == 0 && 0 == 0 then (if nat_key.eq 9 0 then 0 else 9) else get 0 two_rows 1 0)
get-set_example =
    get-set two_rows two_rows-IsCsr 0 0 (omega arith) 0 9 1 0 two_rows_room (omega arith)
