-- ===== src/DenseMatrix/Solve/Examples.antt =====
-- The solvers over the rationals.
use csympy.Prelude.{ℕ, zero, suc, ◌≡◌, ◌≢◌, ◌<◌, refl, ap, ◌∙◌, [], ◌∷◌, arith}
use csympy.Prelude.Int.{pos, negsuc, nat_abs}
use csympy.Gmp.Fractions.Rationals.{ℚ, rationals}
use csympy.Gmp.Lemmas.{add-zero, of_int_injective}
use csympy.Vector.{at}
use csympy.DenseMatrix.{DenseMatrix, Entries, index, entry}
use csympy.DenseMatrix.Solve.{Division, IsField, back_substitution, forward_substitution}
use csympy.DenseMatrix.Create.{eye}
use csympy.DenseMatrix.Create.Laws.{ones_on_diagonal, entry-eye}
use csympy.DenseMatrix.Solve.Sums.{row_product, IsUpper, IsUnitLower}
use csympy.DenseMatrix.Solve.Triangular.{back_substitution-solves}
use csympy.DenseMatrix.Solve.Forward.{forward_substitution-solves}

abbrev pub whole : ℕ → ℚ
whole n = rationals.of_int (pos n)

instance abbrev pub rational_entries : Entries ℚ
rational_entries = record { zero_entry = whole 0; add = rationals.add; mul = rationals.mul }

instance abbrev pub rational_division : Division ℚ
rational_division = record {
  sub = rationals.sub;
  div = rationals.div;
  one = whole 1;
  minus_one = rationals.neg (whole 1);
  eq = rationals.eqb;
}

pub whole_injective : (m n : ℕ) → whole m ≡ whole n → m ≡ n
whole_injective m n h = ap nat_abs (of_int_injective (pos m) (pos n) h)

pub sub_back : (x y : ℚ) → rationals.add (rationals.sub x y) y ≡ x
sub_back x y =
    ap (λ t. rationals.add t y) (rationals.sub-eq-add-neg x y)
    ∙ rationals.add_assoc x (rationals.neg y) y
    ∙ ap (rationals.add x) (rationals.add_comm _ _ ∙ rationals.add-neg y)
    ∙ add-zero x

pub add_back : (x y : ℚ) → rationals.sub (rationals.add x y) y ≡ x
add_back x y =
    rationals.sub-eq-add-neg (rationals.add x y) y
    ∙ rationals.add_assoc x y (rationals.neg y)
    ∙ ap (rationals.add x) (rationals.add-neg y)
    ∙ add-zero x

instance abbrev pub rational_field : IsField ℚ
rational_field = record {
  add_comm = rationals.add_comm;
  add_assoc = rationals.add_assoc;
  zero-add = rationals.zero-add;
  add-sub = sub_back;
  sub-add = add_back;
  mul_comm = rationals.mul_comm;
  mul_assoc = rationals.mul_assoc;
  one-mul = rationals.one-mul;
  add-mul = rationals.add-mul;
  mul-div = λ x y n. rationals.mul_comm y (rationals.div x y) ∙ rationals.div-mul x y n;
  one-nonzero = λ h. omega (arith, whole_injective 1 0 h);
  eq_iff = rationals.eqb_iff;
}

abbrev pub two_by_two : ℚ → ℚ → ℚ → ℚ → DenseMatrix ℚ
two_by_two a b c d = record { row = 2; col = 2; m = a ∷ b ∷ c ∷ d ∷ [] }

abbrev pub column : ℚ → ℚ → DenseMatrix ℚ
column a b = record { row = 2; col = 1; m = a ∷ b ∷ [] }

abbrev upper : DenseMatrix ℚ
upper = two_by_two (whole 2) (whole 1) (whole 0) (whole 3)

abbrev lower : DenseMatrix ℚ
lower = two_by_two (whole 1) (whole 0) (whole 5) (whole 1)

upper-IsUpper : IsUpper upper
unfolding entry index at
upper-IsUpper = record { below = below_lem; diagonal = diagonal_lem }
  where
    below_lem : (i j : ℕ) → j < i → i < 2 → entry upper i j ≡ whole 0
    below_lem zero j h l = absurd (omega (arith, h))
    below_lem (suc zero) zero h l = refl
    below_lem (suc zero) (suc j) h l = absurd (omega (arith, h))
    below_lem (suc (suc i)) j h l = absurd (omega (arith, l))

    diagonal_lem : (i : ℕ) → i < 2 → entry upper i i ≢ whole 0
    diagonal_lem zero l h = omega (arith, whole_injective 2 0 h)
    diagonal_lem (suc zero) l h = omega (arith, whole_injective 3 0 h)
    diagonal_lem (suc (suc i)) l h = omega (arith, l)

lower-IsUnitLower : IsUnitLower lower
unfolding entry index at
lower-IsUnitLower = record { above = above_lem; unit = unit_lem }
  where
    above_lem : (i j : ℕ) → i < j → j < 2 → entry lower i j ≡ whole 0
    above_lem i zero h l = absurd (omega (arith, h))
    above_lem zero (suc zero) h l = refl
    above_lem (suc i) (suc zero) h l = absurd (omega (arith, h))
    above_lem i (suc (suc j)) h l = absurd (omega (arith, l))

    unit_lem : (i : ℕ) → i < 2 → entry lower i i ≡ whole 1
    unit_lem zero l = refl
    unit_lem (suc zero) l = refl
    unit_lem (suc (suc i)) l = absurd (omega (arith, l))

back_substitution-solves_example :
    row_product upper
      (back_substitution upper (column (whole 5) (whole 6)) (column (whole 0) (whole 0))).m
      0
    ≡ at (whole 0) (whole 5 ∷ whole 6 ∷ []) 0
back_substitution-solves_example =
    back_substitution-solves upper (column (whole 5) (whole 6)) (column (whole 0) (whole 0)) 0
      upper-IsUpper refl (omega arith)

forward_substitution-solves_example :
    row_product lower
      (forward_substitution lower (column (whole 5) (whole 6)) (column (whole 0) (whole 0))).m
      1
    ≡ at (whole 0) (whole 5 ∷ whole 6 ∷ []) 1
forward_substitution-solves_example =
    forward_substitution-solves lower (column (whole 5) (whole 6)) (column (whole 0) (whole 0)) 1
      lower-IsUnitLower refl (omega arith) (omega arith)

entry-eye_example :
    ((eye {A = ℚ} 3 2 (negsuc 0)).row ≡ 3)
    × ((eye {A = ℚ} 3 2 (negsuc 0)).col ≡ 3)
    × (entry {A = ℚ} (eye 3 2 (negsuc 0)) 1 0 ≡ ones_on_diagonal (negsuc 0) 1 0)
entry-eye_example =
    entry-eye 3 2 (negsuc 0) 1 0 (omega arith) (omega arith) (omega arith) (omega arith)
      (omega arith) (omega arith)
