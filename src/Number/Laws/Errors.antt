-- ===== src/Number/Laws/Errors.antt =====
-- The exceptions of `divnum`.
use csympy.Prelude.{
  ◌≡◌, ◌↔◌, refl, ap, ◌∙◌, inl, inr, Bool-cases, and-true_iff, ◌&&◌, true, false, Option, none,
  some, if◌then◌else◌,
}
use csympy.Prelude.Int.{ℤ, pos, eqb_ℤ, eqb_ℤ_iff}
use csympy.Gmp.{Mpq}
use csympy.Gmp.Lemmas.{zero_q}
use csympy.Number.{
  Number, integer, rational, complex, Error, err, integer_by_zero, rational_by_zero,
  complex_by_zero, not_implemented, divnum, is_zero,
}
use csympy.Number.Canonical.{is_canonical, IsCanonical}
use csympy.Number.Laws.Division.{divides_into, Divided, divided}

module _ {Q : Type 0} ⦃r : Mpq Q⦄ where
  -- What a division throws: the message for a zero is the one of the dividend's class.
  zero_message : Number Q → Error
  zero_message (integer a) = integer_by_zero
  zero_message (rational a) = rational_by_zero
  zero_message (complex a b) = complex_by_zero

  unfoldable pub division_error : Number Q → Number Q → Option Error
  unfolding zero_message
  division_error x (integer b) = if eqb_ℤ b (pos 0) then some (zero_message x) else none
  division_error (rational a) (complex c d) = some not_implemented
  division_error _ _ = none

  -- A canonical `Rational` or `Complex` is not zero.
  rational_nonzero : (b : Q) → IsCanonical (rational b) → is_zero (rational b) ≡ false
  unfolding is_zero is_canonical
  rational_nonzero b h = elim (Bool-cases (r.eqb b zero_q)) [
    | inl e ↦
        let one : eqb_ℤ (r.get_den b) (pos 1) ≡ true =
          (eqb_ℤ_iff _ _).1 (ap r.get_den ((r.eqb_iff b zero_q).0 e) ∙ r.den-of_int (pos 0)) in
        absurd (cc (rw one at h))
    | inr e ↦ e
  ]

  complex_nonzero : (c d : Q) → IsCanonical (complex c d) → is_zero (complex c d) ≡ false
  unfolding is_zero is_canonical
  complex_nonzero c d h = elim (Bool-cases (r.eqb c zero_q && r.eqb d zero_q)) [
    | inl e ↦
        let nil : eqb_ℤ (r.get_num d) (pos 0) ≡ true = (eqb_ℤ_iff _ _).1 (
          ap r.get_num ((r.eqb_iff d zero_q).0 ((and-true_iff _ _).0 e).1)
          ∙ r.num-of_int (pos 0)) in
        absurd (cc (rw nil at h))
    | inr e ↦ e
  ]

  -- A division with a quotient throws nothing.
  never : (x y : Number Q) (e : Error) → Divided x y → (divnum x y ≡ err e) ↔ (none ≡ some e)
  never x y e (z, h, _, _) = (λ k. cc, λ k. cc)

  always :
      (x y : Number Q) (e f : Error) → divnum x y ≡ err f → (divnum x y ≡ err e) ↔ (some f ≡ some e)
  always x y e f h = (λ k. cc, λ k. cc)

  by_integer :
      (x : Number Q) (b : ℤ) (e : Error)
      → (eqb_ℤ b (pos 0) ≡ true → divnum x (integer b) ≡ err (zero_message x))
      → divides_into x (integer b) ≡ true
      → (divnum x (integer b) ≡ err e) ↔ (division_error x (integer b) ≡ some e)
  unfolding division_error is_zero
  by_integer x b e f k = elim (Bool-cases (eqb_ℤ b (pos 0))) [
    | inl h ↦ rw h (always x (integer b) e (zero_message x) (f h))
    | inr h ↦ rw h (never x (integer b) e (divided x (integer b) h k))
  ]

  -- A division by a canonical number throws exactly in two cases: the divisor is the integer 0,
  -- with the message for it of the dividend's class, or a rational is divided by a complex number,
  -- with `Not implemented.`; it never throws because of a rational or a complex divisor's value.
  pub divnum-error_iff :
      (x y : Number Q) (e : Error)
      → IsCanonical y
      → (divnum x y ≡ err e) ↔ (division_error x y ≡ some e)
  unfolding divnum division_error divides_into
  divnum-error_iff (integer a) (integer b) e c = by_integer (integer a) b e (λ h. rw h) refl
  divnum-error_iff (rational a) (integer b) e c = by_integer (rational a) b e (λ h. rw h) refl
  divnum-error_iff (complex a i) (integer b) e c = by_integer (complex a i) b e (λ h. rw h) refl
  divnum-error_iff (integer a) (rational b) e c =
      never (integer a) (rational b) e
        (divided (integer a) (rational b) (rational_nonzero b c) refl)
  divnum-error_iff (rational a) (rational b) e c =
      never (rational a) (rational b) e
        (divided (rational a) (rational b) (rational_nonzero b c) refl)
  divnum-error_iff (complex a i) (rational b) e c =
      never (complex a i) (rational b) e
        (divided (complex a i) (rational b) (rational_nonzero b c) refl)
  divnum-error_iff (integer a) (complex b d) e c =
      never (integer a) (complex b d) e
        (divided (integer a) (complex b d) (complex_nonzero b d c) refl)
  divnum-error_iff (rational a) (complex b d) e c =
      always (rational a) (complex b d) e not_implemented refl
  divnum-error_iff (complex a i) (complex b d) e c =
      never (complex a i) (complex b d) e
        (divided (complex a i) (complex b d) (complex_nonzero b d c) refl)
