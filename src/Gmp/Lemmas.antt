-- ===== src/Gmp/Lemmas.antt =====
-- Ring laws that follow for `mpq_class`.
use csympy.Prelude.{◌≡◌, ◌≢◌, arith, sym, ap, ap₂, ◌∙◌}
use csympy.Prelude.Int.{ℤ, pos, pos_part, neg_ℤ, +ℤ-neg}
use csympy.Gmp.{Mpq}

module _ {Q : Type 0} ⦃r : Mpq Q⦄ where
  infixl 65 ◌⊕◌
  infixl 70 ◌⊗◌
  abbrev pub ◌⊕◌ : Q → Q → Q
  x ⊕ y = r.add x y

  abbrev pub ◌⊗◌ : Q → Q → Q
  x ⊗ y = r.mul x y

  -- The constant 0.
  abbrev pub zero_q : Q
  zero_q = r.of_int (pos 0)

  pub add-zero : (x : Q) → x ⊕ zero_q ≡ x
  add-zero x = r.add_comm x zero_q ∙ r.zero-add x

  pub add_left_comm : (x y z : Q) → x ⊕ (y ⊕ z) ≡ y ⊕ (x ⊕ z)
  add_left_comm x y z =
      sym (r.add_assoc x y z) ∙ ap (λ t. t ⊕ z) (r.add_comm x y) ∙ r.add_assoc y x z

  pub mul_left_comm : (x y z : Q) → x ⊗ (y ⊗ z) ≡ y ⊗ (x ⊗ z)
  mul_left_comm x y z =
      sym (r.mul_assoc x y z) ∙ ap (λ t. t ⊗ z) (r.mul_comm x y) ∙ r.mul_assoc y x z

  pub add_interchange : (a b c d : Q) → (a ⊕ b) ⊕ (c ⊕ d) ≡ (a ⊕ c) ⊕ (b ⊕ d)
  add_interchange a b c d =
      r.add_assoc a b (c ⊕ d) ∙ ap (◌⊕◌ a) (add_left_comm b c d) ∙ sym (r.add_assoc a c (b ⊕ d))

  pub mul-add : (x y z : Q) → x ⊗ (y ⊕ z) ≡ x ⊗ y ⊕ x ⊗ z
  mul-add x y z = r.mul_comm x (y ⊕ z) ∙ r.add-mul y z x ∙ ap₂ ◌⊕◌ (r.mul_comm y x) (r.mul_comm z x)

  -- Adding `y` can be undone.
  pub add_cancel : (x y z : Q) → x ⊕ z ≡ y ⊕ z → x ≡ y
  add_cancel x y z h = sym (undo x) ∙ ap (λ t. t ⊕ r.neg z) h ∙ undo y
    where
      undo : (t : Q) → (t ⊕ z) ⊕ r.neg z ≡ t
      undo t = r.add_assoc t z (r.neg z) ∙ ap (◌⊕◌ t) (r.add-neg z) ∙ add-zero t

  pub zero-mul : (x : Q) → zero_q ⊗ x ≡ zero_q
  zero-mul x = add_cancel _ _ (zero_q ⊗ x) (
      sym (r.add-mul zero_q zero_q x)
      ∙ ap (λ t. t ⊗ x) (r.zero-add zero_q)
      ∙ sym (r.zero-add (zero_q ⊗ x)))

  pub mul-zero : (x : Q) → x ⊗ zero_q ≡ zero_q
  mul-zero x = r.mul_comm x zero_q ∙ zero-mul x

  pub neg_unique : (x y : Q) → x ⊕ y ≡ zero_q → y ≡ r.neg x
  neg_unique x y h =
      add_cancel y (r.neg x) x (r.add_comm y x ∙ h ∙ sym (r.add-neg x) ∙ r.add_comm x (r.neg x))

  pub neg-mul : (x y : Q) → r.neg x ⊗ y ≡ r.neg (x ⊗ y)
  neg-mul x y =
      neg_unique (x ⊗ y) (r.neg x ⊗ y)
        (sym (r.add-mul x (r.neg x) y) ∙ ap (λ t. t ⊗ y) (r.add-neg x) ∙ zero-mul y)

  pub mul-neg : (x y : Q) → x ⊗ r.neg y ≡ r.neg (x ⊗ y)
  mul-neg x y = r.mul_comm x (r.neg y) ∙ neg-mul y x ∙ ap r.neg (r.mul_comm y x)

  pub neg-zero : r.neg zero_q ≡ zero_q
  neg-zero = sym (neg_unique zero_q zero_q (r.zero-add zero_q))

  pub neg-add : (x y : Q) → r.neg (x ⊕ y) ≡ r.neg x ⊕ r.neg y
  neg-add x y = sym (
      neg_unique (x ⊕ y) (r.neg x ⊕ r.neg y) (
        add_interchange x y (r.neg x) (r.neg y)
        ∙ ap₂ ◌⊕◌ (r.add-neg x) (r.add-neg y)
        ∙ r.zero-add zero_q))

  pub neg-neg : (x : Q) → r.neg (r.neg x) ≡ x
  neg-neg x = sym (neg_unique (r.neg x) x (r.add_comm (r.neg x) x ∙ r.add-neg x))

  pub of_int-neg : (n : ℤ) → r.of_int (neg_ℤ n) ≡ r.neg (r.of_int n)
  of_int-neg n =
      neg_unique (r.of_int n) (r.of_int (neg_ℤ n))
        (sym (r.of_int-+ n (neg_ℤ n)) ∙ ap r.of_int (+ℤ-neg n))

  pub of_int_injective : (m n : ℤ) → r.of_int m ≡ r.of_int n → m ≡ n
  of_int_injective m n h = sym (r.num-of_int m) ∙ ap r.get_num h ∙ r.num-of_int n

  -- A product that is cancelled by a nonzero factor.
  pub mul_cancel : (x y z : Q) → z ≢ zero_q → x ⊗ z ≡ y ⊗ z → x ≡ y
  mul_cancel x y z h e = sym (undo x) ∙ ap (λ t. t ⊗ inverse) e ∙ undo y
    where
      inverse : Q
      inverse = r.div (r.of_int (pos 1)) z

      undo : (t : Q) → (t ⊗ z) ⊗ inverse ≡ t
      undo t =
          r.mul_assoc t z inverse
          ∙ ap (◌⊗◌ t) (r.mul_comm z inverse ∙ r.div-mul (r.of_int (pos 1)) z h)
          ∙ r.mul_comm t (r.of_int (pos 1))
          ∙ r.one-mul t

  -- A value of denominator 1 is the integer of its numerator.
  pub of_int-get_num : (x : Q) → r.get_den x ≡ pos 1 → r.of_int (r.get_num x) ≡ x
  of_int-get_num x h =
      sym (r.mul-den x) ∙ ap (λ d. x ⊗ r.of_int d) h ∙ r.mul_comm x (r.of_int (pos 1)) ∙ r.one-mul x

  pub get_num-zero : (x : Q) → r.get_num x ≡ pos 0 → x ≡ zero_q
  get_num-zero x h =
      mul_cancel x zero_q (r.of_int (r.get_den x)) nonzero
        (r.mul-den x ∙ ap r.of_int h ∙ sym (zero-mul _))
    where
      nonzero : r.of_int (r.get_den x) ≢ zero_q
      nonzero e = absurd (omega (arith, r.den_pos x, ap pos_part (of_int_injective _ _ e)))
