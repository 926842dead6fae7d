-- ===== src/Number/Power/Squaring.antt =====
-- `pow_number` is repeated multiplication.
use csympy.Prelude.{
  ℕ, zero, suc, ◌*◌, ◌/◌, ◌%◌, ◌^◌, ◌≡◌, ◌<◌, refl, sym, ap, ◌∙◌, Bool, true, false, if◌then◌else◌,
  leb, ◌==◌, arith, Bool-cases, inl, inr, ==_iff,
}
use csympy.Prelude.Int.{pos}
use native.Mathlib.Nat.{div-div-eq-div-mul, div-eq_of_lt, pow-suc, div-one}
use csympy.Gmp.{Mpq}
use csympy.Number.{Number, integer, mulnum}
use csympy.Number.Value.{value, value-mulnum, scale_right, pair}
use csympy.Number.Canonical.{IsCanonical, is_canonical, mulnum-IsCanonical, value_injective}
use csympy.Number.Laws.{mulnum_comm, mulnum_assoc}
use csympy.Number.Power.{pow_loop, pow_number}

module _ {Q : Type 0} ⦃r : Mpq Q⦄ where
  abbrev one : Number Q
  one = integer (pos 1)

  -- The product of `n` copies.
  unfoldable pub numpow : Number Q → ℕ → Number Q
  numpow x zero = one
  numpow x (suc n) = mulnum x (numpow x n)

  mulnum-one : (x : Number Q) → IsCanonical x → mulnum x one ≡ x
  mulnum-one x h = value_injective (mulnum x one) x (mulnum-IsCanonical x one) h (
      value-mulnum x one
      ∙ scale_right (value x).0 (value x).1 (r.of_int (pos 1))
      ∙ pair (unit (value x).0) (unit (value x).1))
    where
      unit : (a : Q) → r.mul a (r.of_int (pos 1)) ≡ a
      unit a = r.mul_comm a (r.of_int (pos 1)) ∙ r.one-mul a

  -- A product of two copies of each factor.
  numpow_square : (x : Number Q) (n : ℕ) → numpow (mulnum x x) n ≡ numpow x (n * 2)
  unfolding numpow
  numpow_square x zero = refl
  numpow_square x (suc n) =
      ap (mulnum (mulnum x x)) (numpow_square x n)
      ∙ mulnum_assoc x x (numpow x (n * 2))
      ∙ ap (numpow x) {x = suc (suc (n * 2))} {y = suc n * 2} (omega arith)

  numpow-IsCanonical : (x : Number Q) (n : ℕ) → IsCanonical (numpow x n)
  unfolding numpow is_canonical
  numpow-IsCanonical x zero = refl
  numpow-IsCanonical x (suc n) = mulnum-IsCanonical x (numpow x n)

  -- The lowest bit is taken off.
  numpow_bit :
      (res p : Number Q) (m : ℕ)
      → IsCanonical res
      → mulnum (if m % 2 == 1 then mulnum res p else res) (numpow (mulnum p p) (m / 2))
        ≡ mulnum res (numpow p m)
  unfolding numpow
  numpow_bit res p m c = elim (Bool-cases (m % 2 == 1)) [
    | inl h ↦
        rw (h, numpow_square)
          (mulnum_assoc res p (numpow p (m / 2 * 2))
            ∙ ap (λ k. mulnum res (numpow p k)) {x = suc (m / 2 * 2)} {y = m}
                (let e : m % 2 ≡ 1 = (==_iff _ _).0 h in omega arith))
    | inr h ↦
        rw (h, numpow_square)
          (ap (λ k. mulnum res (numpow p k)) {x = m / 2 * 2} {y = m} (ground arith))
  ]

  bit-IsCanonical :
      (b : Bool) (res p : Number Q)
      → IsCanonical res
      → IsCanonical (if b then mulnum res p else res)
  bit-IsCanonical true res p c = mulnum-IsCanonical res p
  bit-IsCanonical false res p c = c

  finished :
      (mask n : ℕ) (res p : Number Q)
      → n < mask
      → IsCanonical res
      → res ≡ mulnum res (numpow p (n / mask))
  unfolding numpow
  finished mask n res p l c = rw (div-eq_of_lt l) (sym (mulnum-one res c))

  pow_loop-numpow :
      (fuel mask n : ℕ) (res p : Number Q)
      → n < mask * 2 ^ fuel
      → IsCanonical res
      → pow_loop fuel mask n res p ≡ mulnum res (numpow p (n / mask))
  unfolding pow_loop
  pow_loop-numpow zero mask n res p l c = finished mask n res p (omega (arith, l)) c
  pow_loop-numpow (suc fuel) mask n res p l c = elim (Bool-cases (leb mask n)) [
    | inl h ↦ rw h (
        pow_loop-numpow fuel (mask * 2) n _ (mulnum p p) doubled
          (bit-IsCanonical (n / mask % 2 == 1) res p c)
        ∙ ap (λ k. mulnum (if n / mask % 2 == 1 then mulnum res p else res) (numpow (mulnum p p) k))
            (sym (div-div-eq-div-mul n mask 2))
        ∙ numpow_bit res p (n / mask) c)
    | inr h ↦ rw h (finished mask n res p (ground arith) c)
  ]
    where
      doubled : n < mask * 2 * 2 ^ fuel
      doubled = omega (arith, l, ap (λ (t : ℕ). mask * t) (pow-suc 2 fuel))

  -- For every exponent of a `long`, `pow_number` returns the product of that many copies of the base.
  pub pow_number-numpow : (x : Number Q) (n : ℕ) → n < 2 ^ 63 → pow_number x (pos n) ≡ numpow x n
  unfolding pow_number is_canonical
  pow_number-numpow x n l =
      pow_loop-numpow 63 1 n one x (omega (arith, l)) refl
      ∙ mulnum_comm one (numpow x (n / 1))
      ∙ mulnum-one (numpow x (n / 1)) (numpow-IsCanonical x (n / 1))
      ∙ ap (numpow x) (div-one n)
