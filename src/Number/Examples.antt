-- ===== src/Number/Examples.antt =====
-- The number tower over the rationals.
use csympy.Prelude.{some, ◌≡◌, ◌↔◌, refl, true, arith}
use csympy.Prelude.Int.{pos, negsuc}
use csympy.Gmp.Fractions.Rationals.{ℚ, rationals}
use csympy.Number.{
  Number, integer, ok, err, integer_by_zero, num_eq, addnum, subnum, mulnum, divnum, is_zero,
}
use csympy.Number.Value.{value, plus, times}
use csympy.Number.Canonical.{IsCanonical, is_canonical, num_eq_iff}
use csympy.Number.Laws.{imaginary_unit, addnum-mulnum_ring, addnum-subnum}
use csympy.Number.Laws.Division.{divnum-mulnum, divides_into}
use csympy.Number.Laws.Errors.{divnum-error_iff, division_error}
use csympy.Number.Power.{pow_number}
use csympy.Number.Power.Squaring.{numpow, pow_number-numpow}

abbrev three : Number ℚ
three = integer (pos 3)

abbrev minus_two : Number ℚ
minus_two = integer (negsuc 1)

abbrev seven : Number ℚ
seven = integer (pos 7)

abbrev minus_one : Number ℚ
minus_one = integer (negsuc 0)

addnum-mulnum_ring_example :
    (addnum three minus_two ≡ addnum minus_two three)
    × (addnum (addnum three minus_two) seven ≡ addnum three (addnum minus_two seven))
    × (addnum three (integer (pos 0)) ≡ three)
    × (addnum three (subnum (integer (pos 0)) three) ≡ integer (pos 0))
    × (mulnum three minus_two ≡ mulnum minus_two three)
    × (mulnum (mulnum three minus_two) seven ≡ mulnum three (mulnum minus_two seven))
    × (mulnum three (integer (pos 1)) ≡ three)
    × (mulnum (addnum three minus_two) seven ≡ addnum (mulnum three seven) (mulnum minus_two seven))
    × (mulnum imaginary_unit imaginary_unit ≡ minus_one)
    × (value (addnum three minus_two) ≡ plus (value three) (value minus_two))
    × (value (mulnum three minus_two) ≡ times (value three) (value minus_two))
unfolding is_canonical
addnum-mulnum_ring_example = addnum-mulnum_ring three minus_two seven refl

addnum-subnum_example : addnum (subnum three seven) seven ≡ three
unfolding is_canonical
addnum-subnum_example = addnum-subnum three seven refl

num_eq_iff_example : (num_eq three seven ≡ true) ↔ (value three ≡ value seven)
unfolding is_canonical
num_eq_iff_example = num_eq_iff three seven refl refl

divnum-mulnum_example :
    (z : Number ℚ) × (divnum seven minus_two ≡ ok z) × IsCanonical z × (mulnum z minus_two ≡ seven)
unfolding is_canonical is_zero divides_into
divnum-mulnum_example = divnum-mulnum seven minus_two refl refl refl

divnum-error_iff_example :
    (divnum seven (integer (pos 0)) ≡ err integer_by_zero)
    ↔ (division_error seven (integer (pos 0)) ≡ some integer_by_zero)
unfolding is_canonical
divnum-error_iff_example = divnum-error_iff seven (integer (pos 0)) integer_by_zero refl

pow_number-numpow_example : pow_number minus_two (pos 5) ≡ numpow minus_two 5
pow_number-numpow_example = pow_number-numpow minus_two 5 (omega arith)
