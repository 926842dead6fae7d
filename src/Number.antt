-- ===== src/Number.antt =====
-- Arithmetic of the number tower: the methods `add`, `sub`, `rsub`, `mul`, `div` and `rdiv` of
-- src/integer.h, src/integer.cpp, src/rational.h and src/complex.h, and `addnum` to `divnum` of
-- src/number.h. A call `other.add(*this)` is the method of the class of `other`. Where a C++
-- operator takes an `mpz_class` beside an `mpq_class`, the conversion is written `of_int`.
pub mod Power
pub mod Value
pub mod Laws
pub mod Canonical
pub mod Examples
use csympy.Prelude.{if◌then◌else◌}
use csympy.Prelude.Int.{ℤ, pos, neg_ℤ, ◌+ℤ◌, ◌-ℤ◌, ◌*ℤ◌, eqb_ℤ}
use csympy.Gmp.{Mpq}
pub use csympy.NumberClass.{
  Error, integer_by_zero, rational_by_zero, complex_by_zero, not_implemented, exponent_too_large,
  non_integer, not_ordered, too_large, too_small, Result, ok, err, Number, integer, rational,
  complex,
}
unfoldable pub use csympy.NumberClass.{
  is_int_const, is_zero, is_one, is_minus_one, is_positive, is_negative, num_eq, rational_from_mpq,
  from_two_ints, complex_from_mpq, from_two_nums,
}

module _ {Q : Type 0} ⦃r : Mpq Q⦄ where
  -- `Complex::addcomp`, of a `Complex`, and of a `Rational` or an `Integer`.
  abbrev addcomp : Q → Q → Q → Q → Number Q
  addcomp re im c d = complex_from_mpq (r.add re c) (r.add im d)

  abbrev addcomp_real : Q → Q → Q → Number Q
  addcomp_real re im c = complex_from_mpq (r.add re c) im

  -- `Complex::add`
  abbrev complex_add : Q → Q → Number Q → Number Q
  complex_add re im (rational c) = addcomp_real re im c
  complex_add re im (integer c) = addcomp_real re im (r.of_int c)
  complex_add re im (complex c d) = addcomp re im c d

  -- `Rational::addrat`
  abbrev addrat : Q → Q → Number Q
  addrat i j = rational_from_mpq (r.add i j)

  -- `Rational::add`
  abbrev rational_add : Q → Number Q → Number Q
  rational_add i (rational j) = addrat i j
  rational_add i (integer j) = addrat i (r.of_int j)
  rational_add i (complex c d) = complex_add c d (rational i)

  -- `Integer::addint`
  abbrev addint : ℤ → ℤ → Number Q
  addint i j = integer (i +ℤ j)

  -- `Integer::add`
  abbrev integer_add : ℤ → Number Q → Number Q
  integer_add i (integer j) = addint i j
  integer_add i (rational j) = rational_add j (integer i)
  integer_add i (complex c d) = complex_add c d (integer i)

  unfoldable pub addnum : Number Q → Number Q → Number Q
  unfolding complex_from_mpq
  addnum (integer i) other = integer_add i other
  addnum (rational i) other = rational_add i other
  addnum (complex re im) other = complex_add re im other

  -- `Complex::subcomp`, of a `Complex`, and of a `Rational` or an `Integer`.
  abbrev subcomp : Q → Q → Q → Q → Number Q
  subcomp re im c d = complex_from_mpq (r.sub re c) (r.sub im d)

  abbrev subcomp_real : Q → Q → Q → Number Q
  subcomp_real re im c = complex_from_mpq (r.sub re c) im

  -- `Complex::rsubcomp` of a `Rational` or an `Integer`
  abbrev rsubcomp_real : Q → Q → Q → Number Q
  rsubcomp_real re im c = complex_from_mpq (r.sub c re) (r.neg im)

  -- `Complex::sub`
  abbrev complex_sub : Q → Q → Number Q → Number Q
  complex_sub re im (rational c) = subcomp_real re im c
  complex_sub re im (integer c) = subcomp_real re im (r.of_int c)
  complex_sub re im (complex c d) = subcomp re im c d

  -- `Complex::rsub`, `other - this`
  abbrev complex_rsub : Q → Q → Number Q → Number Q
  complex_rsub re im (rational c) = rsubcomp_real re im c
  complex_rsub re im (integer c) = rsubcomp_real re im (r.of_int c)
  complex_rsub re im (complex c d) = complex_from_mpq (r.sub c re) (r.sub d im)

  -- `Rational::subrat`
  abbrev subrat : Q → Q → Number Q
  subrat i j = rational_from_mpq (r.sub i j)

  -- `Rational::rsubrat`
  abbrev rsubrat : Q → ℤ → Number Q
  rsubrat i j = rational_from_mpq (r.sub (r.of_int j) i)

  -- `Rational::sub`
  abbrev rational_sub : Q → Number Q → Number Q
  rational_sub i (rational j) = subrat i j
  rational_sub i (integer j) = subrat i (r.of_int j)
  rational_sub i (complex c d) = complex_rsub c d (rational i)

  -- `Integer::subint`
  abbrev subint : ℤ → ℤ → Number Q
  subint i j = integer (i -ℤ j)

  -- `Integer::sub`
  abbrev integer_sub : ℤ → Number Q → Number Q
  integer_sub i (integer j) = subint i j
  integer_sub i (rational j) = rsubrat j i
  integer_sub i (complex c d) = complex_rsub c d (integer i)

  unfoldable pub subnum : Number Q → Number Q → Number Q
  unfolding complex_from_mpq
  subnum (integer i) other = integer_sub i other
  subnum (rational i) other = rational_sub i other
  subnum (complex re im) other = complex_sub re im other

  -- `Complex::mulcomp`, of a `Complex`, and of a `Rational` or an `Integer`.
  abbrev mulcomp : Q → Q → Q → Q → Number Q
  mulcomp re im c d =
      complex_from_mpq (r.sub (r.mul re c) (r.mul im d)) (r.add (r.mul re d) (r.mul im c))

  abbrev mulcomp_real : Q → Q → Q → Number Q
  mulcomp_real re im c = complex_from_mpq (r.mul re c) (r.mul im c)

  -- `Complex::mul`
  abbrev complex_mul : Q → Q → Number Q → Number Q
  complex_mul re im (rational c) = mulcomp_real re im c
  complex_mul re im (integer c) = mulcomp_real re im (r.of_int c)
  complex_mul re im (complex c d) = mulcomp re im c d

  -- `Rational::mulrat`
  abbrev mulrat : Q → Q → Number Q
  mulrat i j = rational_from_mpq (r.mul i j)

  -- `Rational::mul`
  abbrev rational_mul : Q → Number Q → Number Q
  rational_mul i (rational j) = mulrat i j
  rational_mul i (integer j) = mulrat i (r.of_int j)
  rational_mul i (complex c d) = complex_mul c d (rational i)

  -- `Integer::mulint`
  abbrev mulint : ℤ → ℤ → Number Q
  mulint i j = integer (i *ℤ j)

  -- `Integer::mul`
  abbrev integer_mul : ℤ → Number Q → Number Q
  integer_mul i (integer j) = mulint i j
  integer_mul i (rational j) = rational_mul j (integer i)
  integer_mul i (complex c d) = complex_mul c d (integer i)

  unfoldable pub mulnum : Number Q → Number Q → Number Q
  unfolding complex_from_mpq
  mulnum (integer i) other = integer_mul i other
  mulnum (rational i) other = rational_mul i other
  mulnum (complex re im) other = complex_mul re im other

  -- `divcomp` of two `Complex`, with the sum of squares that the code calls `conjugate`.
  unfoldable pub divcomp : Q → Q → Q → Q → Result (Number Q)
  unfolding complex_from_mpq
  divcomp a b c d =
      let conjugate = r.add (r.mul c c) (r.mul d d) in
      if eqb_ℤ (r.get_num conjugate) (pos 0)
      then err complex_by_zero
      else ok (
          complex_from_mpq (r.div (r.add (r.mul a c) (r.mul b d)) conjugate)
            (r.div (r.add (r.mul (r.neg a) d) (r.mul b c)) conjugate))

  -- `rdivcomp`: an `Integer` by a `Complex`
  unfoldable pub rdivcomp : ℤ → Q → Q → Result (Number Q)
  unfolding complex_from_mpq
  rdivcomp n c d =
      let conjugate = r.add (r.mul c c) (r.mul d d) in
      if eqb_ℤ (r.get_num conjugate) (pos 0)
      then err complex_by_zero
      else ok (
          complex_from_mpq (r.div (r.mul c (r.of_int n)) conjugate)
            (r.div (r.mul d (r.of_int (neg_ℤ n))) conjugate))

  -- `Complex::divcomp` of a `Rational` or an `Integer`
  abbrev divcomp_rational : Q → Q → Q → Result (Number Q)
  divcomp_rational re im c =
      if is_int_const (pos 0) c
      then err complex_by_zero
      else ok (complex_from_mpq (r.div re c) (r.div im c))

  abbrev divcomp_integer : Q → Q → ℤ → Result (Number Q)
  divcomp_integer re im c =
      if eqb_ℤ c (pos 0)
      then err complex_by_zero
      else ok (complex_from_mpq (r.div re (r.of_int c)) (r.div im (r.of_int c)))

  -- `Complex::div`
  abbrev complex_div : Q → Q → Number Q → Result (Number Q)
  complex_div re im (rational c) = divcomp_rational re im c
  complex_div re im (integer c) = divcomp_integer re im c
  complex_div re im (complex c d) = divcomp re im c d

  -- `Complex::rdiv`, which takes an `Integer` only
  abbrev complex_rdiv : Q → Q → Number Q → Result (Number Q)
  complex_rdiv re im (integer n) = rdivcomp n re im
  complex_rdiv re im _ = err not_implemented

  -- `Rational::divrat`, of a `Rational` and of an `Integer`
  abbrev divrat : Q → Q → Result (Number Q)
  divrat i j =
      if is_int_const (pos 0) j then err rational_by_zero else ok (rational_from_mpq (r.div i j))

  abbrev divrat_integer : Q → ℤ → Result (Number Q)
  divrat_integer i j =
      if eqb_ℤ j (pos 0)
      then err rational_by_zero
      else ok (rational_from_mpq (r.div i (r.of_int j)))

  -- `Rational::rdivrat`
  abbrev rdivrat : Q → ℤ → Result (Number Q)
  rdivrat i j =
      if is_int_const (pos 0) i
      then err rational_by_zero
      else ok (rational_from_mpq (r.div (r.of_int j) i))

  -- `Rational::div`
  abbrev rational_div : Q → Number Q → Result (Number Q)
  rational_div i (rational j) = divrat i j
  rational_div i (integer j) = divrat_integer i j
  rational_div i (complex c d) = complex_rdiv c d (rational i)

  -- `Integer::div`; `Integer::divint` is `Rational::from_two_ints`, written a second time.
  abbrev integer_div : ℤ → Number Q → Result (Number Q)
  integer_div i (integer j) = from_two_ints i j
  integer_div i (rational j) = rdivrat j i
  integer_div i (complex c d) = complex_rdiv c d (integer i)

  unfoldable pub divnum : Number Q → Number Q → Result (Number Q)
  unfolding from_two_ints divcomp rdivcomp
  divnum (integer i) other = integer_div i other
  divnum (rational i) other = rational_div i other
  divnum (complex re im) other = complex_div re im other
