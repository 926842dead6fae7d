-- ===== src/Number/Power/Laws.antt =====
-- `powint` against repeated multiplication.
use csympy.Prelude.{
  ℕ, zero, suc, ◌*◌, ◌^◌, ◌≡◌, ◌≢◌, ◌<◌, ◌≤◌, refl, sym, ap, ap₂, ◌∙◌, true, false, ltb, arith,
  lt→ltb,
}
use csympy.Prelude.Int.{
  ℤ, pos, negsuc, pos_part, neg_ℤ, ◌*ℤ◌, nat_abs, sgn, eqb_ℤ, eqb_ℤ_iff, eq_of_parts, product_parts,
  zero-*ℤ, *ℤ_comm,
}
use csympy.Gmp.{Mpq}
use csympy.Gmp.Lemmas.{zero_q, ◌⊗◌, zero-mul}
use csympy.Number.{Number, integer, rational, ok, err, exponent_too_large, mulnum}
use csympy.Number.Value.{value, times, pair, scale_right}
use csympy.Number.Canonical.{is_canonical}
use csympy.Number.Power.{MpzPow, powint}
use csympy.Number.Power.Squaring.{numpow}

neg-negsuc : (n : ℕ) → neg_ℤ (negsuc n) ≡ pos (suc n)
unfolding neg_ℤ
neg-negsuc n = ground arith

not_below : (n : ℕ) → 2 ^ 64 ≤ n → ltb n (2 ^ 64) ≡ false
not_below n h = ground arith

nat_abs-*ℤ : (a b : ℤ) → nat_abs (a *ℤ b) ≡ nat_abs a * nat_abs b
unfolding ◌*ℤ◌
nat_abs-*ℤ a b = ground arith

product_nonzero : (a b : ℤ) → a ≢ pos 0 → b ≢ pos 0 → a *ℤ b ≢ pos 0
unfolding ◌*ℤ◌
product_nonzero (pos zero) b h k e = h refl
product_nonzero (pos (suc a)) (pos zero) h k e = k refl
product_nonzero (pos (suc a)) (pos (suc b)) h k e = absurd (omega (arith, ap pos_part e))
product_nonzero (pos (suc a)) (negsuc b) h k e = absurd (ground arith)
product_nonzero (negsuc a) (pos zero) h k e = k refl
product_nonzero (negsuc a) (pos (suc b)) h k e = absurd (ground arith)
product_nonzero (negsuc a) (negsuc b) h k e = absurd (omega (arith, ap pos_part e))

-- The sign and the size of a number that is not zero.
sign_split : (t : ℤ) → t ≡ sgn t *ℤ pos (nat_abs t)
unfolding sgn
sign_split (pos zero) = sym (zero-*ℤ (pos 0))
sign_split (pos (suc n)) = eq_of_parts _ _ (simp product_parts (omega arith))
sign_split (negsuc n) = eq_of_parts _ _ (simp product_parts (omega arith))

sign_square : (t : ℤ) → t ≢ pos 0 → sgn t *ℤ sgn t ≡ pos 1
unfolding sgn ◌*ℤ◌
sign_square (pos zero) h = absurd (h refl)
sign_square (pos (suc n)) h = refl
sign_square (negsuc n) h = refl

size_nonzero : (t : ℤ) → t ≢ pos 0 → pos (nat_abs t) ≢ pos 0
size_nonzero (pos n) h e = h e
size_nonzero (negsuc n) h e = absurd (omega (arith, ap pos_part e))

module _ ⦃z : MpzPow⦄ where
  pow_ui_nonzero : (b : ℤ) (n : ℕ) → b ≢ pos 0 → z.pow_ui b n ≢ pos 0
  pow_ui_nonzero b zero h e = absurd (omega (arith, ap pos_part (sym (z.pow_ui-zero b) ∙ e)))
  pow_ui_nonzero b (suc n) h e =
      product_nonzero b (z.pow_ui b n) h (pow_ui_nonzero b n h) (sym (z.pow_ui-suc b n) ∙ e)

  size_one : (b : ℤ) (n : ℕ) → nat_abs b ≡ 1 → nat_abs (z.pow_ui b n) ≡ 1
  size_one b zero h = ap nat_abs (z.pow_ui-zero b)
  size_one b (suc n) h =
      ap nat_abs (z.pow_ui-suc b n) ∙ nat_abs-*ℤ b (z.pow_ui b n) ∙ ap₂ ◌*◌ h (size_one b n h)

module _ {Q : Type 0} ⦃r : Mpq Q⦄ where
  quot_one : (s : ℤ) → r.quot s (pos 1) ≡ r.of_int s
  quot_one s =
      sym (r.one-mul (r.quot s (pos 1)))
      ∙ r.mul_comm (r.of_int (pos 1)) (r.quot s (pos 1))
      ∙ r.quot-mul s (pos 1) (λ e. absurd (omega (arith, ap pos_part e)))

module _ {Q : Type 0} ⦃r : Mpq Q⦄ ⦃z : MpzPow⦄ where
  pow_ui-numpow : (b : ℤ) (n : ℕ) → integer (z.pow_ui b n) ≡ numpow {Q = Q} (integer b) n
  unfolding numpow mulnum
  pow_ui-numpow b zero = ap integer (z.pow_ui-zero b)
  pow_ui-numpow b (suc n) =
      ap integer (z.pow_ui-suc b n) ∙ ap (mulnum (integer b)) (pow_ui-numpow b n)

  -- What `pow_negint` builds from a power `t`.
  abbrev reciprocal : ℤ → Number Q
  reciprocal t = rational (r.quot (sgn t) (pos (nat_abs t)))

  reciprocal-value :
      (t : ℤ)
      → t ≢ pos 0
      → times (value (reciprocal t)) (value (integer t)) ≡ value (integer (pos 1))
  reciprocal-value t h =
      scale_right (r.quot s a) zero_q (r.of_int t)
      ∙ pair
          (ap (λ u. r.quot s a ⊗ r.of_int u) (sign_split t ∙ *ℤ_comm s a)
            ∙ ap (◌⊗◌ (r.quot s a)) (r.of_int-* a s)
            ∙ sym (r.mul_assoc (r.quot s a) (r.of_int a) (r.of_int s))
            ∙ ap (λ u. u ⊗ r.of_int s) (r.quot-mul s a (size_nonzero t h))
            ∙ sym (r.of_int-* s s)
            ∙ ap r.of_int (sign_square t h))
          (zero-mul (r.of_int t))
    where
      s : ℤ
      s = sgn t

      a : ℤ
      a = pos (nat_abs t)

  powint-negsuc :
      (b : ℤ) (n : ℕ) → suc n < 2 ^ 64 → powint b (negsuc n) ≡ ok (reciprocal (z.pow_ui b (suc n)))
  unfolding powint
  powint-negsuc b n l = rw (neg-negsuc n) (rw (lt→ltb (suc n) (2 ^ 64) l))

  -- A power with an exponent of 64 bits is the repeated product.
  powint-numpow :
      (b : ℤ) (n : ℕ) → n < 2 ^ 64 → powint b (pos n) ≡ ok (numpow {Q = Q} (integer b) n)
  unfolding powint
  powint-numpow b n l = rw (lt→ltb n (2 ^ 64) l) (ap ok (pow_ui-numpow b n))

  -- For a base that is not zero and a negative exponent of size below 2^64, `powint` succeeds, and the
  -- value of its result times the value of the positive power is 1.
  pub powint_negative :
      (b : ℤ) (n : ℕ)
      → b ≢ pos 0
      → suc n < 2 ^ 64
      → (x : Number Q) × (powint b (negsuc n) ≡ ok x)
        × (times (value x) (value (numpow (integer b) (suc n))) ≡ value (integer (pos 1)))
  powint_negative b n h l = (
    reciprocal (z.pow_ui b (suc n)),
    powint-negsuc b n l,
    ap (λ u. times (value (reciprocal (z.pow_ui b (suc n)))) (value u))
          (sym (pow_ui-numpow b (suc n)))
        ∙ reciprocal-value (z.pow_ui b (suc n)) (pow_ui_nonzero b (suc n) h),
  )

  -- An exponent whose size takes more than 64 bits is an exception, whatever its sign.
  powint_too_large : (b e : ℤ) → 2 ^ 64 ≤ nat_abs e → powint {Q = Q} b e ≡ err exponent_too_large
  unfolding powint
  powint_too_large b (pos n) l = rw (not_below n l)
  powint_too_large b (negsuc n) l = rw (neg-negsuc n) (rw (not_below (suc n) l))

  -- For the bases 1 and -1 the result of a negative exponent is a `Rational` with denominator 1,
  -- which is not in canonical form.
  powint_unit :
      (b : ℤ) (n : ℕ)
      → nat_abs b ≡ 1
      → suc n < 2 ^ 64
      → (x : Number Q) × (powint b (negsuc n) ≡ ok x) × (is_canonical x ≡ false)
  unfolding is_canonical
  powint_unit b n h l = (reciprocal t, powint-negsuc b n l, rw whole)
    where
      t : ℤ
      t = z.pow_ui b (suc n)

      whole : eqb_ℤ (r.get_den (r.quot (sgn t) (pos (nat_abs t)))) (pos 1) ≡ true
      whole = (eqb_ℤ_iff _ _).1 (
          ap (λ u. r.get_den (r.quot (sgn t) (pos u))) (size_one b (suc n) h)
          ∙ ap r.get_den (quot_one (sgn t))
          ∙ r.den-of_int (sgn t))
