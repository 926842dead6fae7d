-- ===== src/Number/Power.antt =====
-- Powers of numbers: `powint` of src/integer.h, `pow_negint` of src/integer.cpp, `powrat` of
-- src/rational.h, and `pow_number` of src/pow.cpp.
pub mod Squaring
pub mod Laws
pub mod Examples
use csympy.Prelude.{
  ℕ, zero, suc, ◌+◌, ◌*◌, ◌/◌, ◌%◌, ◌^◌, ◌≡◌, ◌<◌, Bool, true, false, if◌then◌else◌, leb, ltb, ◌==◌,
}
use csympy.Prelude.Int.{ℤ, pos, negsuc, neg_ℤ, ◌+ℤ◌, ◌*ℤ◌, eqb_ℤ, ltb_ℤ, nat_abs, sgn}
use csympy.Gmp.{Mpq}
use csympy.Number.{
  Number, integer, rational, complex, Result, ok, err, Error, exponent_too_large, non_integer,
  not_implemented, mulnum, divnum, rational_from_mpq, num_eq,
}

-- `mpz_pow_ui` of GMP.
pub record MpzPow : Type 0 where
  pub pow_ui : ℤ → ℕ → ℤ
  pub pow_ui-zero : (b : ℤ) → pow_ui b 0 ≡ pos 1
  pub pow_ui-suc : (b : ℤ) (n : ℕ) → pow_ui b (suc n) ≡ b *ℤ pow_ui b n

-- `fits_ulong_p`, where `unsigned long` has 64 bits.
abbrev pub fits_ulong : ℤ → Bool
fits_ulong (pos n) = ltb n (2 ^ 64)
fits_ulong (negsuc n) = false

module _ {Q : Type 0} ⦃r : Mpq Q⦄ ⦃z : MpzPow⦄ where
  -- The body of `powint`, over the call of `pow_negint`.
  abbrev powint_body : (ℤ → ℤ → Result (Number Q)) → ℤ → ℤ → Result (Number Q)
  powint_body negint i (pos n) =
      if fits_ulong (pos n) then ok (integer (z.pow_ui i n)) else err exponent_too_large
  powint_body negint i (negsuc n) = negint i (negsuc n)

  -- The body of `pow_negint`, over the call of `powint`.
  abbrev negint_of : Result (Number Q) → Result (Number Q)
  negint_of (ok (integer t)) = ok (rational (r.quot (sgn t) (pos (nat_abs t))))
  negint_of (ok _) = err non_integer
  negint_of (err e) = err e

  -- `powint` and `pow_negint` call one another; `fuel` bounds the depth, and two calls are enough.
  unfoldable pub powint_fuel : ℕ → ℤ → ℤ → Result (Number Q)
  powint_fuel zero i other = err exponent_too_large
  powint_fuel (suc fuel) i other =
      let inner = powint_fuel fuel i (neg_ℤ other) in powint_body (λ _ _. negint_of inner) i other

  unfoldable pub powint : ℤ → ℤ → Result (Number Q)
  unfolding powint_fuel
  powint = powint_fuel 2

  -- `Integer::pow_negint`
  unfoldable pub pow_negint : ℤ → ℤ → Result (Number Q)
  unfolding powint
  pow_negint i other = negint_of (powint i (neg_ℤ other))

  -- `Rational::powrat`
  unfoldable pub powrat : Q → ℤ → Result (Number Q)
  powrat i other =
      let e = pos (nat_abs other) in
      let num = z.pow_ui (r.get_num i) (nat_abs other) in
      let den = z.pow_ui (r.get_den i) (nat_abs other) in
      if fits_ulong e
      then if ltb_ℤ other (pos 0)
        then if nat_abs num == 1
          then ok (integer (den *ℤ sgn num))
          else ok (rational (r.quot (den *ℤ sgn num) (pos (nat_abs num))))
        else if nat_abs den == 1
        then ok (integer (num *ℤ sgn den))
        else ok (rational (r.quot (num *ℤ sgn den) (pos (nat_abs den))))
      else err exponent_too_large

module _ {Q : Type 0} ⦃r : Mpq Q⦄ where
  -- `while (mask > 0 && n >= mask)`: of the 64-bit `mask`, 63 values are positive.
  unfoldable pub pow_loop : ℕ → ℕ → ℕ → Number Q → Number Q → Number Q
  pow_loop zero mask n res p = res
  pow_loop (suc fuel) mask n res p =
      let rest =
        pow_loop fuel (mask * 2) n (if n / mask % 2 == 1 then mulnum res p else res) (mulnum p p) in
      if leb mask n then rest else res

  unfoldable pub pow_number : Number Q → ℤ → Number Q
  pow_number x (pos n) = pow_loop 63 1 n (integer (pos 1)) x
  pow_number x (negsuc n) = integer (pos 1)
