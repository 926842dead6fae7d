-- ===== src/Number/Laws.antt =====
-- Sums, differences and products of the number tower, as equations between numbers and not only
-- between values.
pub mod Norm
pub mod Division
pub mod Errors
use csympy.Prelude.{◌≡◌, refl, sym, ap, ap₂, ◌∙◌, ◌≡⟨◌⟩◌, ◌∎}
use csympy.Prelude.Int.{ℤ, pos, negsuc, neg_ℤ}
use csympy.Gmp.{Mpq}
use csympy.Gmp.Lemmas.{
  ◌⊕◌, ◌⊗◌, zero_q, add-zero, add_interchange, add_left_comm, mul-add, zero-mul, mul-zero, neg-mul,
  mul-neg, neg-add, neg-neg, mul_left_comm, of_int-neg,
}
use csympy.Number.{Number, integer, complex, addnum, subnum, mulnum}
use csympy.Number.Value.{
  value, plus, minus, times, pair, value-addnum, value-subnum, value-mulnum, scale_right,
}
use csympy.Number.Canonical.{
  is_canonical, IsCanonical, value_injective, addnum-IsCanonical, subnum-IsCanonical,
  mulnum-IsCanonical,
}

module _ {Q : Type 0} ⦃r : Mpq Q⦄ where
  pub plus_comm : (x y : Q × Q) → plus x y ≡ plus y x
  plus_comm (a, b) (c, d) = pair (r.add_comm a c) (r.add_comm b d)

  pub plus_assoc : (x y z : Q × Q) → plus (plus x y) z ≡ plus x (plus y z)
  plus_assoc (a, b) (c, d) (e, f) = pair (r.add_assoc a c e) (r.add_assoc b d f)

  minus-plus_cancel : (x y : Q × Q) → plus (plus x (minus y)) y ≡ x
  minus-plus_cancel (a, b) (c, d) = pair (undo a c) (undo b d)
    where
      undo : (s t : Q) → (s ⊕ r.neg t) ⊕ t ≡ s
      undo s t =
          r.add_assoc s (r.neg t) t ∙ ap (◌⊕◌ s) (r.add_comm (r.neg t) t ∙ r.add-neg t) ∙ add-zero s

  pub times_comm : (x y : Q × Q) → times x y ≡ times y x
  times_comm (a, b) (c, d) =
      pair (ap₂ (λ s t. s ⊕ r.neg t) (r.mul_comm a c) (r.mul_comm b d))
        (r.add_comm (a ⊗ d) (b ⊗ c) ∙ ap₂ ◌⊕◌ (r.mul_comm b c) (r.mul_comm a d))

  pub times-plus : (x y z : Q × Q) → times (plus x y) z ≡ plus (times x z) (times y z)
  times-plus (a, b) (c, d) (e, f) =
      pair
        (ap₂ (λ s t. s ⊕ r.neg t) (r.add-mul a c e) (r.add-mul b d f)
          ∙ ap (◌⊕◌ (a ⊗ e ⊕ c ⊗ e)) (neg-add (b ⊗ f) (d ⊗ f))
          ∙ add_interchange _ _ _ _)
        (ap₂ ◌⊕◌ (r.add-mul a c f) (r.add-mul b d e) ∙ add_interchange _ _ _ _)

  rotate : (x y z : Q) → x ⊕ (y ⊕ z) ≡ y ⊕ (z ⊕ x)
  rotate x y z = r.add_comm x (y ⊕ z) ∙ r.add_assoc y z x

  pub times_assoc : (x y z : Q × Q) → times (times x y) z ≡ times x (times y z)
  times_assoc (a, b) (c, d) (e, f) = pair real imaginary
    where
      real :
          (a ⊗ c ⊕ r.neg (b ⊗ d)) ⊗ e ⊕ r.neg ((a ⊗ d ⊕ b ⊗ c) ⊗ f)
          ≡ a ⊗ (c ⊗ e ⊕ r.neg (d ⊗ f)) ⊕ r.neg (b ⊗ (c ⊗ f ⊕ d ⊗ e))
      real =
          simp (r.add-mul, mul-add, neg-add, neg-mul, mul-neg, r.mul_assoc, r.add_assoc)
            (ap (◌⊕◌ (a ⊗ (c ⊗ e))) (rotate _ _ _))

      imaginary :
          (a ⊗ c ⊕ r.neg (b ⊗ d)) ⊗ f ⊕ (a ⊗ d ⊕ b ⊗ c) ⊗ e
          ≡ a ⊗ (c ⊗ f ⊕ d ⊗ e) ⊕ b ⊗ (c ⊗ e ⊕ r.neg (d ⊗ f))
      imaginary =
          simp (r.add-mul, mul-add, neg-mul, mul-neg, r.mul_assoc, r.add_assoc)
            (ap (◌⊕◌ (a ⊗ (c ⊗ f))) (rotate _ _ _))

  plus-zero : (x : Q × Q) → plus x (zero_q, zero_q) ≡ x
  plus-zero (a, b) = pair (add-zero a) (add-zero b)

  plus-negative : (x : Q × Q) → plus x (plus (zero_q, zero_q) (minus x)) ≡ (zero_q, zero_q)
  plus-negative (a, b) = pair (undo a) (undo b)
    where
      undo : (t : Q) → t ⊕ (zero_q ⊕ r.neg t) ≡ zero_q
      undo t = ap (◌⊕◌ t) (r.zero-add (r.neg t)) ∙ r.add-neg t

  times-one : (x : Q × Q) → times x (r.of_int (pos 1), zero_q) ≡ x
  times-one (a, b) = scale_right a b (r.of_int (pos 1)) ∙ pair (mul-one a) (mul-one b)
    where
      mul-one : (t : Q) → t ⊗ r.of_int (pos 1) ≡ t
      mul-one t = r.mul_comm t (r.of_int (pos 1)) ∙ r.one-mul t

  times-imaginary :
      times (zero_q, r.of_int (pos 1)) (zero_q, r.of_int (pos 1)) ≡ (r.of_int (negsuc 0), zero_q)
  unfolding neg_ℤ
  times-imaginary =
      pair
        (ap₂ (λ s t. s ⊕ r.neg t) (zero-mul zero_q) (r.one-mul (r.of_int (pos 1)))
          ∙ r.zero-add _
          ∙ sym (of_int-neg (pos 1)))
        (ap₂ ◌⊕◌ (zero-mul _) (mul-zero _) ∙ r.zero-add zero_q)

  -- Two results of the operations are one number if they have one value.
  same : {x y : Number Q} → IsCanonical x → IsCanonical y → value x ≡ value y → x ≡ y
  same {x} {y} = value_injective x y

  pub addnum_comm : (x y : Number Q) → addnum x y ≡ addnum y x
  addnum_comm x y =
      same (addnum-IsCanonical x y) (addnum-IsCanonical y x)
        (value-addnum x y ∙ plus_comm (value x) (value y) ∙ sym (value-addnum y x))

  pub addnum_assoc : (x y z : Number Q) → addnum (addnum x y) z ≡ addnum x (addnum y z)
  addnum_assoc x y z = same (addnum-IsCanonical _ z) (addnum-IsCanonical x _) (
      value-addnum (addnum x y) z
      ∙ ap (λ t. plus t (value z)) (value-addnum x y)
      ∙ plus_assoc (value x) (value y) (value z)
      ∙ ap (plus (value x)) (sym (value-addnum y z))
      ∙ sym (value-addnum x (addnum y z)))

  pub mulnum_comm : (x y : Number Q) → mulnum x y ≡ mulnum y x
  mulnum_comm x y =
      same (mulnum-IsCanonical x y) (mulnum-IsCanonical y x)
        (value-mulnum x y ∙ times_comm (value x) (value y) ∙ sym (value-mulnum y x))

  pub mulnum_assoc : (x y z : Number Q) → mulnum (mulnum x y) z ≡ mulnum x (mulnum y z)
  mulnum_assoc x y z = same (mulnum-IsCanonical _ z) (mulnum-IsCanonical x _) (
      value-mulnum (mulnum x y) z
      ∙ ap (λ t. times t (value z)) (value-mulnum x y)
      ∙ times_assoc (value x) (value y) (value z)
      ∙ ap (times (value x)) (sym (value-mulnum y z))
      ∙ sym (value-mulnum x (mulnum y z)))

  pub mulnum-addnum : (x y z : Number Q) → mulnum (addnum x y) z ≡ addnum (mulnum x z) (mulnum y z)
  mulnum-addnum x y z = same (mulnum-IsCanonical _ z) (addnum-IsCanonical _ _) (
      value-mulnum (addnum x y) z
      ∙ ap (λ t. times t (value z)) (value-addnum x y)
      ∙ times-plus (value x) (value y) (value z)
      ∙ ap₂ plus (sym (value-mulnum x z)) (sym (value-mulnum y z))
      ∙ sym (value-addnum (mulnum x z) (mulnum y z)))

  addnum-zero : (x : Number Q) → IsCanonical x → addnum x (integer (pos 0)) ≡ x
  addnum-zero x h =
      same (addnum-IsCanonical x _) h (value-addnum x (integer (pos 0)) ∙ plus-zero (value x))

  mulnum-one : (x : Number Q) → IsCanonical x → mulnum x (integer (pos 1)) ≡ x
  mulnum-one x h =
      same (mulnum-IsCanonical x _) h (value-mulnum x (integer (pos 1)) ∙ times-one (value x))

  addnum-negative : (x : Number Q) → addnum x (subnum (integer (pos 0)) x) ≡ integer (pos 0)
  unfolding is_canonical
  addnum-negative x = same (addnum-IsCanonical x _) refl (
      value-addnum x (subnum (integer (pos 0)) x)
      ∙ ap (plus (value x)) (value-subnum (integer (pos 0)) x)
      ∙ plus-negative (value x))

  -- The imaginary unit.
  abbrev pub imaginary_unit : Number Q
  imaginary_unit = complex zero_q (r.of_int (pos 1))

  mulnum-imaginary_unit : mulnum imaginary_unit imaginary_unit ≡ integer (negsuc 0)
  unfolding is_canonical
  mulnum-imaginary_unit =
      same (mulnum-IsCanonical imaginary_unit imaginary_unit) refl
        (value-mulnum imaginary_unit imaginary_unit ∙ times-imaginary)

  -- The numbers are a commutative ring with 0 and 1 under `addnum` and `mulnum`, in which the
  -- imaginary unit squares to -1: sums and products commute and associate, and products distribute
  -- over sums, for all numbers; `subnum` from 0 gives the negative of a number; and 0 and 1 are
  -- neutral for a canonical number, as equations between numbers. The value of a sum or a product
  -- is the sum or the product of the complex values.
  pub addnum-mulnum_ring :
      (x y z : Number Q)
      → IsCanonical x
      → (addnum x y ≡ addnum y x)
        × (addnum (addnum x y) z ≡ addnum x (addnum y z))
        × (addnum x (integer (pos 0)) ≡ x)
        × (addnum x (subnum (integer (pos 0)) x) ≡ integer (pos 0))
        × (mulnum x y ≡ mulnum y x)
        × (mulnum (mulnum x y) z ≡ mulnum x (mulnum y z))
        × (mulnum x (integer (pos 1)) ≡ x)
        × (mulnum (addnum x y) z ≡ addnum (mulnum x z) (mulnum y z))
        × (mulnum imaginary_unit imaginary_unit ≡ integer (negsuc 0))
        × (value (addnum x y) ≡ plus (value x) (value y))
        × (value (mulnum x y) ≡ times (value x) (value y))
  addnum-mulnum_ring x y z h = (
    addnum_comm x y,
    addnum_assoc x y z,
    addnum-zero x h,
    addnum-negative x,
    mulnum_comm x y,
    mulnum_assoc x y z,
    mulnum-one x h,
    mulnum-addnum x y z,
    mulnum-imaginary_unit,
    value-addnum x y,
    value-mulnum x y,
  )

  -- Subtraction is undone by addition, on a canonical number.
  pub addnum-subnum : (x y : Number Q) → IsCanonical x → addnum (subnum x y) y ≡ x
  addnum-subnum x y h = same (addnum-IsCanonical _ y) h (
      value-addnum (subnum x y) y
      ∙ ap (λ t. plus t (value y)) (value-subnum x y)
      ∙ minus-plus_cancel (value x) (value y))
