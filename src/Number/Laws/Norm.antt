-- ===== src/Number/Laws/Norm.antt =====
-- The sum of squares that divcomp and rdivcomp of src/complex.h divide by, `conjugate` there.
use csympy.Prelude.{
  ℕ, zero, suc, ◌*◌, ◌+◌, ◌≡◌, ◌≢◌, refl, sym, ap, ap₂, ◌∙◌, inl, inr, Bool-cases, and-true_iff,
  ◌&&◌, false, arith,
}
use csympy.Prelude.Int.{
  ℤ, pos, negsuc, pos_part, neg_part, ◌+ℤ◌, ◌*ℤ◌, *ℤ_comm, ◌<ℤ◌, eqb_ℤ, eqb_ℤ_iff, product_parts,
  +ℤ_parts,
}
use csympy.Gmp.{Mpq}
use csympy.Gmp.Lemmas.{
  ◌⊕◌, ◌⊗◌, zero_q, zero-mul, mul_left_comm, get_num-zero, mul_cancel, of_int_injective,
}

square_zero : (n : ℕ) → n * n ≡ 0 → n ≡ 0
square_zero zero h = refl
square_zero (suc n) h = absurd (omega (arith, h))

squares_parts :
    (x y : ℤ)
    → x *ℤ x +ℤ y *ℤ y ≡ pos 0
    → pos_part (x *ℤ x) + pos_part (y *ℤ y) ≡ neg_part (x *ℤ x) + neg_part (y *ℤ y)
squares_parts x y h = omega (arith, +ℤ_parts (x *ℤ x) (y *ℤ y), ap pos_part h, ap neg_part h)

squares_zero : (x y : ℤ) → x *ℤ x +ℤ y *ℤ y ≡ pos 0 → y ≡ pos 0
squares_zero (pos a) (pos b) h =
    ap pos (square_zero b (omega (arith, simp product_parts at (squares_parts (pos a) (pos b) h))))
squares_zero (pos a) (negsuc b) h =
    absurd (omega (arith, simp product_parts at (squares_parts (pos a) (negsuc b) h)))
squares_zero (negsuc a) (pos b) h =
    absurd (omega (arith, simp product_parts at (squares_parts (negsuc a) (pos b) h)))
squares_zero (negsuc a) (negsuc b) h =
    absurd (omega (arith, simp product_parts at (squares_parts (negsuc a) (negsuc b) h)))

product_nonzero : (x y : ℤ) → pos 0 <ℤ x → pos 0 <ℤ y → x *ℤ y ≢ pos 0
unfolding ◌*ℤ◌
product_nonzero (pos a) (pos b) h k e = absurd (grind arith)
product_nonzero (pos a) (negsuc b) h k e = absurd (omega arith)
product_nonzero (negsuc a) y h k e = absurd (omega arith)

module _ {Q : Type 0} ⦃r : Mpq Q⦄ where
  -- The sum of squares that the code calls `conjugate`.
  abbrev pub norm : Q → Q → Q
  norm c d = c ⊗ c ⊕ d ⊗ d

  swap_middle : (a b c d : Q) → (a ⊗ b) ⊗ (c ⊗ d) ≡ (a ⊗ c) ⊗ (b ⊗ d)
  swap_middle a b c d = simp r.mul_assoc (ap (◌⊗◌ a) (mul_left_comm b c d))

  pub of_int_zero : (n : ℤ) → r.of_int n ≡ zero_q → n ≡ pos 0
  of_int_zero n = of_int_injective n (pos 0)

  -- The cleared fractions.
  cleared : Q → Q → ℤ
  cleared c d = r.get_num c *ℤ r.get_den d

  of_int-cleared : (c d : Q) → r.of_int (cleared c d) ≡ c ⊗ r.of_int (r.get_den c *ℤ r.get_den d)
  unfolding cleared
  of_int-cleared c d =
      r.of_int-* (r.get_num c) (r.get_den d)
      ∙ ap (λ t. t ⊗ r.of_int (r.get_den d)) (sym (r.mul-den c))
      ∙ r.mul_assoc c (r.of_int (r.get_den c)) (r.of_int (r.get_den d))
      ∙ ap (◌⊗◌ c) (sym (r.of_int-* (r.get_den c) (r.get_den d)))

  -- A sum of squares vanishes only where both do.
  norm_zero : (c d : Q) → norm c d ≡ zero_q → d ≡ zero_q
  norm_zero c d h =
      mul_cancel d zero_q (r.of_int k) nonzero
        (sym half ∙ ap r.of_int (squares_zero x y whole) ∙ sym (zero-mul (r.of_int k)))
    where
      k : ℤ
      k = r.get_den c *ℤ r.get_den d

      x : ℤ
      x = cleared c d

      y : ℤ
      y = cleared d c

      nonzero : r.of_int k ≢ zero_q
      nonzero e = product_nonzero _ _ (r.den_pos c) (r.den_pos d) (of_int_zero k e)

      left : r.of_int x ≡ c ⊗ r.of_int k
      left = of_int-cleared c d

      half : r.of_int y ≡ d ⊗ r.of_int k
      half = of_int-cleared d c ∙ ap (λ t. d ⊗ r.of_int t) (*ℤ_comm (r.get_den d) (r.get_den c))

      scaled : r.of_int (x *ℤ x +ℤ y *ℤ y) ≡ (c ⊗ c ⊕ d ⊗ d) ⊗ (r.of_int k ⊗ r.of_int k)
      scaled =
          r.of_int-+ (x *ℤ x) (y *ℤ y)
          ∙ ap₂ ◌⊕◌ (r.of_int-* x x ∙ ap₂ ◌⊗◌ left left ∙ swap_middle c (r.of_int k) c (r.of_int k))
              (r.of_int-* y y ∙ ap₂ ◌⊗◌ half half ∙ swap_middle d (r.of_int k) d (r.of_int k))
          ∙ sym (r.add-mul (c ⊗ c) (d ⊗ d) (r.of_int k ⊗ r.of_int k))

      whole : x *ℤ x +ℤ y *ℤ y ≡ pos 0
      whole = of_int_zero _ (scaled ∙ ap (λ t. t ⊗ (r.of_int k ⊗ r.of_int k)) h ∙ zero-mul _)

  pub norm_nonzero :
      (c d : Q)
      → (r.eqb c zero_q && r.eqb d zero_q) ≡ false
      → (eqb_ℤ (r.get_num (norm c d)) (pos 0) ≡ false) × (norm c d ≢ zero_q)
  norm_nonzero c d h = (
    elim (Bool-cases (eqb_ℤ (r.get_num (norm c d)) (pos 0))) [
      | inl e ↦ absurd (vanish (get_num-zero (norm c d) ((eqb_ℤ_iff _ _).0 e)))
      | inr e ↦ e
    ],
    vanish,
  )
    where
      vanish : norm c d ≡ zero_q → ⊥
      vanish e = cc (
        h,
        (and-true_iff (r.eqb c zero_q) (r.eqb d zero_q)).1 (
          (r.eqb_iff c zero_q).1 (norm_zero d c (r.add_comm (d ⊗ d) (c ⊗ c) ∙ e)),
          (r.eqb_iff d zero_q).1 (norm_zero c d e),
        ),
      )
