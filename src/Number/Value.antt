-- ===== src/Number/Value.antt =====
-- The value of a number is a Gaussian rational, and the operations of the tower compute with values.
use csympy.Prelude.{◌≡◌, refl, sym, ap, ◌∙◌, Bool-cases, inl, inr}
use csympy.Prelude.Int.{ℤ, pos, neg_ℤ, ◌+ℤ◌, ◌-ℤ◌, eqb_ℤ, eqb_ℤ_iff, sum_parts}
use csympy.Gmp.{Mpq}
use csympy.Gmp.Lemmas.{
  ◌⊕◌, ◌⊗◌, zero_q, add-zero, zero-mul, mul-zero, neg-zero, of_int-neg, of_int-get_num,
  get_num-zero,
}
use csympy.Number.{
  Number, integer, rational, complex, rational_from_mpq, complex_from_mpq, addnum, subnum, mulnum,
}

module _ {Q : Type 0} ⦃r : Mpq Q⦄ where
  -- The real and the imaginary part.
  abbrev pub value : Number Q → Q × Q
  value (integer i) = (r.of_int i, zero_q)
  value (rational i) = (i, zero_q)
  value (complex re im) = (re, im)

  abbrev pub plus : Q × Q → Q × Q → Q × Q
  plus (a, b) (c, d) = (a ⊕ c, b ⊕ d)

  abbrev pub minus : Q × Q → Q × Q
  minus (a, b) = (r.neg a, r.neg b)

  abbrev pub times : Q × Q → Q × Q → Q × Q
  times (a, b) (c, d) = (a ⊗ c ⊕ r.neg (b ⊗ d), a ⊗ d ⊕ b ⊗ c)

  pub pair : {a b c d : Q} → a ≡ c → b ≡ d → ◌≡◌ {A = Q × Q} (a, b) (c, d)
  pair p q = λ i. (p i, q i)

  pub value-rational_from_mpq : (i : Q) → value (rational_from_mpq i) ≡ (i, zero_q)
  unfolding rational_from_mpq
  value-rational_from_mpq i = elim (Bool-cases (eqb_ℤ (r.get_den i) (pos 1))) [
    | inl h ↦ rw h (pair (of_int-get_num i ((eqb_ℤ_iff _ _).0 h)) refl)
    | inr h ↦ rw h
  ]

  pub value-complex_from_mpq : (a b : Q) → value (complex_from_mpq a b) ≡ (a, b)
  unfolding complex_from_mpq
  value-complex_from_mpq a b = elim (Bool-cases (eqb_ℤ (r.get_num b) (pos 0))) [
    | inl h ↦
        rw h (value-rational_from_mpq a ∙ pair refl (sym (get_num-zero b ((eqb_ℤ_iff _ _).0 h))))
    | inr h ↦ rw h
  ]

  pub value-addnum : (x y : Number Q) → value (addnum x y) ≡ plus (value x) (value y)
  unfolding addnum
  value-addnum (integer a) (integer b) = pair (r.of_int-+ a b) (sym (r.zero-add _))
  value-addnum (integer a) (rational b) =
      value-rational_from_mpq _ ∙ pair (r.add_comm _ _) (sym (r.zero-add _))
  value-addnum (integer a) (complex c d) =
      value-complex_from_mpq _ _ ∙ pair (r.add_comm _ _) (sym (r.zero-add _))
  value-addnum (rational a) (integer b) = value-rational_from_mpq _ ∙ pair refl (sym (r.zero-add _))
  value-addnum (rational a) (rational b) =
      value-rational_from_mpq _ ∙ pair refl (sym (r.zero-add _))
  value-addnum (rational a) (complex c d) =
      value-complex_from_mpq _ _ ∙ pair (r.add_comm _ _) (sym (r.zero-add _))
  value-addnum (complex a b) (integer c) = value-complex_from_mpq _ _ ∙ pair refl (sym (add-zero _))
  value-addnum (complex a b) (rational c) =
      value-complex_from_mpq _ _ ∙ pair refl (sym (add-zero _))
  value-addnum (complex a b) (complex c d) = value-complex_from_mpq _ _

  zero-minus : zero_q ≡ zero_q ⊕ r.neg zero_q
  zero-minus = sym (r.add-neg zero_q)

  minus-zero : (x : Q) → x ≡ x ⊕ r.neg zero_q
  minus-zero x = sym (ap (◌⊕◌ x) neg-zero ∙ add-zero x)

  of_int-sub : (a b : ℤ) → r.of_int (a -ℤ b) ≡ r.of_int a ⊕ r.neg (r.of_int b)
  of_int-sub a b =
      ap r.of_int (let e : a -ℤ b ≡ a +ℤ neg_ℤ b = omega sum_parts in e)
      ∙ r.of_int-+ a (neg_ℤ b)
      ∙ ap (◌⊕◌ (r.of_int a)) (of_int-neg b)

  pub value-subnum : (x y : Number Q) → value (subnum x y) ≡ plus (value x) (minus (value y))
  unfolding subnum
  value-subnum (integer a) (integer b) = pair (of_int-sub a b) zero-minus
  value-subnum (integer a) (rational b) =
      value-rational_from_mpq _ ∙ pair (r.sub-eq-add-neg _ _) zero-minus
  value-subnum (integer a) (complex c d) =
      value-complex_from_mpq _ _ ∙ pair (r.sub-eq-add-neg _ _) (sym (r.zero-add _))
  value-subnum (rational a) (integer b) =
      value-rational_from_mpq _ ∙ pair (r.sub-eq-add-neg _ _) zero-minus
  value-subnum (rational a) (rational b) =
      value-rational_from_mpq _ ∙ pair (r.sub-eq-add-neg _ _) zero-minus
  value-subnum (rational a) (complex c d) =
      value-complex_from_mpq _ _ ∙ pair (r.sub-eq-add-neg _ _) (sym (r.zero-add _))
  value-subnum (complex a b) (integer c) =
      value-complex_from_mpq _ _ ∙ pair (r.sub-eq-add-neg _ _) (minus-zero b)
  value-subnum (complex a b) (rational c) =
      value-complex_from_mpq _ _ ∙ pair (r.sub-eq-add-neg _ _) (minus-zero b)
  value-subnum (complex a b) (complex c d) =
      value-complex_from_mpq _ _ ∙ pair (r.sub-eq-add-neg _ _) (r.sub-eq-add-neg _ _)

  -- A real factor.
  pub scale_right : (a b c : Q) → times (a, b) (c, zero_q) ≡ (a ⊗ c, b ⊗ c)
  scale_right a b c =
      pair (ap (λ t. a ⊗ c ⊕ r.neg t) (mul-zero b) ∙ sym (minus-zero (a ⊗ c)))
        (ap (λ t. t ⊕ b ⊗ c) (mul-zero a) ∙ r.zero-add _)

  scale_left : (a c d : Q) → times (a, zero_q) (c, d) ≡ (c ⊗ a, d ⊗ a)
  scale_left a c d =
      pair (ap (λ t. a ⊗ c ⊕ r.neg t) (zero-mul d) ∙ sym (minus-zero (a ⊗ c)) ∙ r.mul_comm a c)
        (ap (◌⊕◌ (a ⊗ d)) (zero-mul c) ∙ add-zero _ ∙ r.mul_comm a d)

  pub value-mulnum : (x y : Number Q) → value (mulnum x y) ≡ times (value x) (value y)
  unfolding mulnum
  value-mulnum (integer a) (integer b) =
      pair (r.of_int-* a b) (sym (zero-mul _)) ∙ sym (scale_right _ _ _)
  value-mulnum (integer a) (rational b) =
      value-rational_from_mpq _ ∙ pair (r.mul_comm _ _) (sym (zero-mul _)) ∙ sym (scale_right _ _ _)
  value-mulnum (integer a) (complex c d) = value-complex_from_mpq _ _ ∙ sym (scale_left _ c d)
  value-mulnum (rational a) (integer b) =
      value-rational_from_mpq _ ∙ pair refl (sym (zero-mul _)) ∙ sym (scale_right _ _ _)
  value-mulnum (rational a) (rational b) =
      value-rational_from_mpq _ ∙ pair refl (sym (zero-mul _)) ∙ sym (scale_right _ _ _)
  value-mulnum (rational a) (complex c d) = value-complex_from_mpq _ _ ∙ sym (scale_left a c d)
  value-mulnum (complex a b) (integer c) = value-complex_from_mpq _ _ ∙ sym (scale_right a b _)
  value-mulnum (complex a b) (rational c) = value-complex_from_mpq _ _ ∙ sym (scale_right a b c)
  value-mulnum (complex a b) (complex c d) =
      value-complex_from_mpq _ _ ∙ pair (r.sub-eq-add-neg _ _) refl
