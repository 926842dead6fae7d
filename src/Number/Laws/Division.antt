-- ===== src/Number/Laws/Division.antt =====
-- `divnum`: a quotient times the divisor is the dividend.
use csympy.Prelude.{◌≡◌, ◌≢◌, sym, ap, ap₂, ◌∙◌, Bool, true, false}
use csympy.Prelude.Int.{ℤ, pos, neg_ℤ, eqb_ℤ, eqb_ℤ_iff}
use csympy.Gmp.{Mpq}
use csympy.Gmp.Lemmas.{
  ◌⊕◌, ◌⊗◌, zero_q, add-zero, mul-add, zero-mul, neg-mul, mul-neg, neg-add, neg-neg, mul_left_comm,
  add_left_comm, mul_cancel, of_int-neg,
}
use csympy.Number.{
  Number, integer, rational, complex, ok, divnum, is_zero, rational_from_mpq, complex_from_mpq,
  mulnum,
}
use csympy.Number.Value.{
  value, times, pair, scale_right, value-mulnum, value-rational_from_mpq, value-complex_from_mpq,
}
use csympy.Number.Canonical.{
  IsCanonical, value_injective, mulnum-IsCanonical, rational_from_mpq-IsCanonical,
  complex_from_mpq-IsCanonical,
}
use csympy.Number.Laws.Norm.{norm, of_int_zero, norm_nonzero}

module _ {Q : Type 0} ⦃r : Mpq Q⦄ where
  module _ (a b c d n : Q) (h : n ≢ zero_q) where
    over : Q → Q
    over t = r.div t n

    clear : (s t : Q) → (over s ⊗ t) ⊗ n ≡ s ⊗ t
    unfolding over
    clear s t =
        r.mul_assoc (over s) t n
        ∙ ap (◌⊗◌ (over s)) (r.mul_comm t n)
        ∙ sym (r.mul_assoc (over s) n t)
        ∙ ap (λ u. u ⊗ t) (r.div-mul s n h)

    clear_neg : (s t : Q) → r.neg (over s ⊗ t) ⊗ n ≡ r.neg (s ⊗ t)
    clear_neg s t = neg-mul (over s ⊗ t) n ∙ ap r.neg (clear s t)

    -- Numerators that multiply to `a, b` over `n` give a quotient of `a, b` by `c, d`.
    quotient :
        (s t : Q)
        → s ⊗ c ⊕ r.neg (t ⊗ d) ≡ a ⊗ n
        → s ⊗ d ⊕ t ⊗ c ≡ b ⊗ n
        → times (r.div s n, r.div t n) (c, d) ≡ (a, b)
    unfolding over
    quotient s t p q =
        pair
          (mul_cancel _ a n h (
            r.add-mul (over s ⊗ c) (r.neg (over t ⊗ d)) n
            ∙ ap₂ ◌⊕◌ (clear s c) (clear_neg t d)
            ∙ p))
          (mul_cancel _ b n h
            (r.add-mul (over s ⊗ d) (over t ⊗ c) n ∙ ap₂ ◌⊕◌ (clear s d) (clear t c) ∙ q))

  cancel_around : (x y : Q) → x ⊕ (y ⊕ r.neg x) ≡ y
  cancel_around x y = add_left_comm x y (r.neg x) ∙ ap (◌⊕◌ y) (r.add-neg x) ∙ add-zero y

  cancel_apart : (x y z : Q) → x ⊕ (y ⊕ (r.neg x ⊕ z)) ≡ z ⊕ y
  cancel_apart x y z =
      ap (◌⊕◌ x) (add_left_comm y (r.neg x) z)
      ∙ sym (r.add_assoc x (r.neg x) (y ⊕ z))
      ∙ ap (λ t. t ⊕ (y ⊕ z)) (r.add-neg x)
      ∙ r.zero-add (y ⊕ z)
      ∙ r.add_comm y z

  -- The numerators of `divcomp`.
  divcomp_real :
      (a b c d : Q) → (a ⊗ c ⊕ b ⊗ d) ⊗ c ⊕ r.neg ((r.neg a ⊗ d ⊕ b ⊗ c) ⊗ d) ≡ a ⊗ norm c d
  divcomp_real a b c d =
      simp (r.add-mul, mul-add, neg-add, neg-mul, neg-neg, r.mul_assoc, r.add_assoc, r.mul_comm d c)
        (ap (◌⊕◌ (a ⊗ (c ⊗ c))) (cancel_around (b ⊗ (c ⊗ d)) (a ⊗ (d ⊗ d))))

  divcomp_imaginary : (a b c d : Q) → (a ⊗ c ⊕ b ⊗ d) ⊗ d ⊕ (r.neg a ⊗ d ⊕ b ⊗ c) ⊗ c ≡ b ⊗ norm c d
  divcomp_imaginary a b c d =
      simp (r.add-mul, mul-add, neg-mul, r.mul_assoc, r.add_assoc, r.mul_comm d c)
        (cancel_apart (a ⊗ (c ⊗ d)) (b ⊗ (d ⊗ d)) (b ⊗ (c ⊗ c)))

  rdivcomp_real : (n c d : Q) → (c ⊗ n) ⊗ c ⊕ r.neg ((d ⊗ r.neg n) ⊗ d) ≡ n ⊗ norm c d
  rdivcomp_real n c d =
      simp (mul-add, neg-mul, mul-neg, neg-neg, r.mul_assoc)
        (ap₂ ◌⊕◌ (mul_left_comm c n c) (mul_left_comm d n d))

  rdivcomp_imaginary : (n c d : Q) → (c ⊗ n) ⊗ d ⊕ (d ⊗ r.neg n) ⊗ c ≡ zero_q ⊗ norm c d
  rdivcomp_imaginary n c d =
      simp (neg-mul, mul-neg, r.mul_assoc, zero-mul)
        (ap (λ t. c ⊗ (n ⊗ d) ⊕ r.neg t) (reverse d n c) ∙ r.add-neg (c ⊗ (n ⊗ d)))
    where
      reverse : (x y z : Q) → x ⊗ (y ⊗ z) ≡ z ⊗ (y ⊗ x)
      reverse x y z = r.mul_comm x (y ⊗ z) ∙ ap (λ t. t ⊗ x) (r.mul_comm y z) ∙ r.mul_assoc z y x

  -- `Complex::rdiv` takes an integer dividend only.
  unfoldable pub divides_into : Number Q → Number Q → Bool
  divides_into (rational a) (complex c d) = false
  divides_into _ _ = true

  -- The outcome of a division: a canonical number, whose product with the divisor has the
  -- dividend's value.
  abbrev pub Divided : Number Q → Number Q → Type 0
  Divided x y =
      (z : Number Q) × (divnum x y ≡ ok z) × IsCanonical z × (times (value z) (value y) ≡ value x)

  int_nonzero : (n : ℤ) → eqb_ℤ n (pos 0) ≡ false → (n ≢ pos 0) × (r.of_int n ≢ zero_q)
  int_nonzero n h = (
    λ e. cc (h, (eqb_ℤ_iff n (pos 0)).1 e),
    λ e. cc (h, (eqb_ℤ_iff n (pos 0)).1 (of_int_zero n e)),
  )

  q_nonzero : (x : Q) → r.eqb x zero_q ≡ false → x ≢ zero_q
  q_nonzero x h e = cc (h, (r.eqb_iff x zero_q).1 e)

  real_quotient :
      (s t i : Q) → s ⊗ t ≡ i → times (value (rational_from_mpq s)) (t, zero_q) ≡ (i, zero_q)
  real_quotient s t i e =
      ap (λ v. times v (t, zero_q)) (value-rational_from_mpq s)
      ∙ scale_right s zero_q t
      ∙ pair e (zero-mul t)

  complex_quotient :
      (s t u a b : Q)
      → s ⊗ u ≡ a
      → t ⊗ u ≡ b
      → times (value (complex_from_mpq s t)) (u, zero_q) ≡ (a, b)
  complex_quotient s t u a b p q =
      ap (λ v. times v (u, zero_q)) (value-complex_from_mpq s t) ∙ scale_right s t u ∙ pair p q

  pub divided : (x y : Number Q) → is_zero y ≡ false → divides_into x y ≡ true → Divided x y
  unfolding divnum is_zero divides_into
  divided (integer a) (integer b) h k =
      let (p, q) = int_nonzero b h in
      (
        rational_from_mpq (r.quot a b),
        rw h,
        rational_from_mpq-IsCanonical _,
        real_quotient _ _ _ (r.quot-mul a b p),
      )
  divided (integer a) (rational b) h k = (
    rational_from_mpq (r.div (r.of_int a) b),
    rw h,
    rational_from_mpq-IsCanonical _,
    real_quotient _ _ _ (r.div-mul _ b (q_nonzero b h)),
  )
  divided (integer a) (complex c d) h k =
      let (p, q) = norm_nonzero c d h in
      let n = r.of_int a in
      (
        complex_from_mpq (r.div (c ⊗ n) (norm c d)) (r.div (d ⊗ r.of_int (neg_ℤ a)) (norm c d)),
        rw p,
        complex_from_mpq-IsCanonical _ _,
        ap (λ v. times v (c, d)) (value-complex_from_mpq _ _)
            ∙ quotient n zero_q c d (norm c d) q _ _ (rw (of_int-neg a) (rdivcomp_real n c d))
                (rw (of_int-neg a) (rdivcomp_imaginary n c d)),
      )
  divided (rational a) (integer b) h k = (
    rational_from_mpq (r.div a (r.of_int b)),
    rw h,
    rational_from_mpq-IsCanonical _,
    real_quotient _ _ _ (r.div-mul a _ (int_nonzero b h).1),
  )
  divided (rational a) (rational b) h k = (
    rational_from_mpq (r.div a b),
    rw h,
    rational_from_mpq-IsCanonical _,
    real_quotient _ _ _ (r.div-mul a b (q_nonzero b h)),
  )
  divided (rational a) (complex c d) h k = absurd (cc k)
  divided (complex a b) (integer c) h k =
      let e = (int_nonzero c h).1 in
      (
        complex_from_mpq (r.div a (r.of_int c)) (r.div b (r.of_int c)),
        rw h,
        complex_from_mpq-IsCanonical _ _,
        complex_quotient _ _ _ a b (r.div-mul a _ e) (r.div-mul b _ e),
      )
  divided (complex a b) (rational c) h k =
      let e = q_nonzero c h in
      (
        complex_from_mpq (r.div a c) (r.div b c),
        rw h,
        complex_from_mpq-IsCanonical _ _,
        complex_quotient _ _ _ a b (r.div-mul a c e) (r.div-mul b c e),
      )
  divided (complex a b) (complex c d) h k =
      let (p, q) = norm_nonzero c d h in
      (
        complex_from_mpq (r.div (a ⊗ c ⊕ b ⊗ d) (norm c d))
            (r.div (r.neg a ⊗ d ⊕ b ⊗ c) (norm c d)),
        rw p,
        complex_from_mpq-IsCanonical _ _,
        ap (λ v. times v (c, d)) (value-complex_from_mpq _ _)
            ∙ quotient a b c d (norm c d) q _ _ (divcomp_real a b c d) (divcomp_imaginary a b c d),
      )

  -- Dividing a canonical number by one that is not zero succeeds with a canonical number, whose
  -- product with the divisor is the dividend; a rational is not divided by a complex number.
  pub divnum-mulnum :
      (x y : Number Q)
      → IsCanonical x
      → is_zero y ≡ false
      → divides_into x y ≡ true
      → (z : Number Q) × (divnum x y ≡ ok z) × IsCanonical z × (mulnum z y ≡ x)
  divnum-mulnum x y c h k =
      let (z, e, d, v) = divided x y h k in
      (z, e, d, value_injective (mulnum z y) x (mulnum-IsCanonical z y) c (value-mulnum z y ∙ v))
