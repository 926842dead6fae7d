-- ===== src/NumberClass.antt =====
-- The classes of numbers, their tests and the functions that make one in canonical form:
-- src/number.h, src/integer.h, src/integer.cpp, src/rational.h, src/rational.cpp, src/complex.h and
-- src/complex.cpp. A virtual method is a function by clauses on the class. A C++ exception is an
-- `err`.
use csympy.Prelude.{Bool, false, ◌&&◌, ◌||◌, if◌then◌else◌}
use csympy.Prelude.Int.{ℤ, pos, negsuc, eqb_ℤ, ltb_ℤ}
use csympy.Gmp.{Mpq}

-- One constructor for each message. The three for a division by zero are `Rational: Division by
-- zero.` of integers, `Division by zero` of src/rational.h and `Divide by zero.` of src/complex.h.
pub data Error : Type 0 where
  integer_by_zero rational_by_zero complex_by_zero : Error
  not_implemented exponent_too_large non_integer not_ordered too_large too_small : Error

pub data Result {ℓ} (A : Type ℓ) : Type ℓ where
  ok : A → Result A
  err : Error → Result A

-- The classes `Integer`, `Rational` and `Complex`, which hold `mpz_class` and `mpq_class` values.
pub data Number (Q : Type 0) : Type 0 where
  integer : ℤ → Number Q
  rational : Q → Number Q
  complex : Q → Q → Number Q

module _ {Q : Type 0} ⦃r : Mpq Q⦄ where
  abbrev pub is_int_const : ℤ → Q → Bool
  is_int_const n i = r.eqb i (r.of_int n)

  -- The virtual tests.
  unfoldable pub is_zero : Number Q → Bool
  is_zero (integer i) = eqb_ℤ i (pos 0)
  is_zero (rational i) = is_int_const (pos 0) i
  is_zero (complex re im) = is_int_const (pos 0) re && is_int_const (pos 0) im

  unfoldable pub is_one : Number Q → Bool
  is_one (integer i) = eqb_ℤ i (pos 1)
  is_one (rational i) = is_int_const (pos 1) i
  is_one (complex re im) = is_int_const (pos 1) re && is_int_const (pos 0) im

  unfoldable pub is_minus_one : Number Q → Bool
  is_minus_one (integer i) = eqb_ℤ i (negsuc 0)
  is_minus_one (rational i) = is_int_const (negsuc 0) i
  is_minus_one (complex re im) = is_int_const (negsuc 0) re && is_int_const (pos 0) im

  unfoldable pub is_positive : Number Q → Result Bool
  is_positive (integer i) = ok (ltb_ℤ (pos 0) i)
  is_positive (rational i) = ok (
      (ltb_ℤ (pos 0) (r.get_den i) && ltb_ℤ (pos 0) (r.get_num i))
      || (ltb_ℤ (r.get_den i) (pos 0) && ltb_ℤ (r.get_num i) (pos 0)))
  is_positive (complex re im) = err not_ordered

  unfoldable pub is_negative : Number Q → Result Bool
  is_negative (integer i) = ok (ltb_ℤ i (pos 0))
  is_negative (rational i) = ok (
      (ltb_ℤ (r.get_den i) (pos 0) && ltb_ℤ (pos 0) (r.get_num i))
      || (ltb_ℤ (pos 0) (r.get_den i) && ltb_ℤ (r.get_num i) (pos 0)))
  is_negative (complex re im) = err not_ordered

  -- `__eq__`: the class and the value.
  unfoldable pub num_eq : Number Q → Number Q → Bool
  num_eq (integer i) (integer j) = eqb_ℤ i j
  num_eq (rational i) (rational j) = r.eqb i j
  num_eq (complex a b) (complex c d) = r.eqb a c && r.eqb b d
  num_eq _ _ = false

  -- `Rational::from_mpq`
  unfoldable pub rational_from_mpq : Q → Number Q
  rational_from_mpq i = if eqb_ℤ (r.get_den i) (pos 1) then integer (r.get_num i) else rational i

  -- `Rational::from_two_ints`
  unfoldable pub from_two_ints : ℤ → ℤ → Result (Number Q)
  unfolding rational_from_mpq
  from_two_ints n d =
      if eqb_ℤ d (pos 0) then err integer_by_zero else ok (rational_from_mpq (r.quot n d))

  -- `Complex::from_mpq`
  unfoldable pub complex_from_mpq : Q → Q → Number Q
  unfolding rational_from_mpq
  complex_from_mpq re im =
      if eqb_ℤ (r.get_num im) (pos 0) then rational_from_mpq re else complex re im

  -- `Complex::from_two_nums`; `mpq_class(i, 1)` is the conversion of `i`.
  unfoldable pub from_two_nums : Number Q → Number Q → Result (Number Q)
  unfolding complex_from_mpq
  from_two_nums (integer a) (integer b) = ok (complex_from_mpq (r.of_int a) (r.of_int b))
  from_two_nums (rational a) (integer b) = ok (complex_from_mpq a (r.of_int b))
  from_two_nums (integer a) (rational b) = ok (complex_from_mpq (r.of_int a) b)
  from_two_nums (rational a) (rational b) = ok (complex_from_mpq a b)
  from_two_nums _ _ = err non_integer
