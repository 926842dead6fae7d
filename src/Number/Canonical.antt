-- ===== src/Number/Canonical.antt =====
-- Every operation of the tower returns a number in canonical form, which `is_canonical` of
-- src/rational.cpp and src/complex.cpp ask for, and a value has one canonical form.
use csympy.Prelude.{
  ◌≡◌, ◌↔◌, refl, sym, ap, ap₂, ◌∙◌, Bool, true, false, if◌then◌else◌, Bool-cases, inl, inr,
  and-true_iff,
}
use csympy.Prelude.Int.{ℤ, pos, eqb_ℤ, eqb_ℤ_iff, eqb_ℤ_refl}
use csympy.Gmp.{Mpq}
use csympy.Gmp.Lemmas.{zero_q, of_int_injective}
use csympy.Number.{
  Number, integer, rational, complex, num_eq, rational_from_mpq, complex_from_mpq, addnum, subnum,
  mulnum,
}
use csympy.Number.Value.{value, pair}

module _ {Q : Type 0} ⦃r : Mpq Q⦄ where
  -- `Rational::is_canonical` and `Complex::is_canonical`, of values that GMP keeps canonical: a
  -- rational is no integer, and a complex number is not real.
  unfoldable pub is_canonical : Number Q → Bool
  is_canonical (integer i) = true
  is_canonical (rational i) = if eqb_ℤ (r.get_den i) (pos 1) then false else true
  is_canonical (complex re im) = if eqb_ℤ (r.get_num im) (pos 0) then false else true

  abbrev pub IsCanonical : Number Q → Type 0
  IsCanonical n = is_canonical n ≡ true

  pub rational_from_mpq-IsCanonical : (i : Q) → IsCanonical (rational_from_mpq i)
  unfolding rational_from_mpq is_canonical
  rational_from_mpq-IsCanonical i = elim (Bool-cases (eqb_ℤ (r.get_den i) (pos 1))) [
    | inl h ↦ rw h
    | inr h ↦ rw h (rw h)
  ]

  pub complex_from_mpq-IsCanonical : (a b : Q) → IsCanonical (complex_from_mpq a b)
  unfolding complex_from_mpq is_canonical
  complex_from_mpq-IsCanonical a b = elim (Bool-cases (eqb_ℤ (r.get_num b) (pos 0))) [
    | inl h ↦ rw h (rational_from_mpq-IsCanonical a)
    | inr h ↦ rw h (rw h)
  ]

  pub addnum-IsCanonical : (x y : Number Q) → IsCanonical (addnum x y)
  unfolding addnum is_canonical
  addnum-IsCanonical (integer a) (integer b) = refl
  addnum-IsCanonical (integer a) (rational b) = rational_from_mpq-IsCanonical _
  addnum-IsCanonical (integer a) (complex c d) = complex_from_mpq-IsCanonical _ _
  addnum-IsCanonical (rational a) (integer b) = rational_from_mpq-IsCanonical _
  addnum-IsCanonical (rational a) (rational b) = rational_from_mpq-IsCanonical _
  addnum-IsCanonical (rational a) (complex c d) = complex_from_mpq-IsCanonical _ _
  addnum-IsCanonical (complex a b) (integer c) = complex_from_mpq-IsCanonical _ _
  addnum-IsCanonical (complex a b) (rational c) = complex_from_mpq-IsCanonical _ _
  addnum-IsCanonical (complex a b) (complex c d) = complex_from_mpq-IsCanonical _ _

  pub subnum-IsCanonical : (x y : Number Q) → IsCanonical (subnum x y)
  unfolding subnum is_canonical
  subnum-IsCanonical (integer a) (integer b) = refl
  subnum-IsCanonical (integer a) (rational b) = rational_from_mpq-IsCanonical _
  subnum-IsCanonical (integer a) (complex c d) = complex_from_mpq-IsCanonical _ _
  subnum-IsCanonical (rational a) (integer b) = rational_from_mpq-IsCanonical _
  subnum-IsCanonical (rational a) (rational b) = rational_from_mpq-IsCanonical _
  subnum-IsCanonical (rational a) (complex c d) = complex_from_mpq-IsCanonical _ _
  subnum-IsCanonical (complex a b) (integer c) = complex_from_mpq-IsCanonical _ _
  subnum-IsCanonical (complex a b) (rational c) = complex_from_mpq-IsCanonical _ _
  subnum-IsCanonical (complex a b) (complex c d) = complex_from_mpq-IsCanonical _ _

  pub mulnum-IsCanonical : (x y : Number Q) → IsCanonical (mulnum x y)
  unfolding mulnum is_canonical
  mulnum-IsCanonical (integer a) (integer b) = refl
  mulnum-IsCanonical (integer a) (rational b) = rational_from_mpq-IsCanonical _
  mulnum-IsCanonical (integer a) (complex c d) = complex_from_mpq-IsCanonical _ _
  mulnum-IsCanonical (rational a) (integer b) = rational_from_mpq-IsCanonical _
  mulnum-IsCanonical (rational a) (rational b) = rational_from_mpq-IsCanonical _
  mulnum-IsCanonical (rational a) (complex c d) = complex_from_mpq-IsCanonical _ _
  mulnum-IsCanonical (complex a b) (integer c) = complex_from_mpq-IsCanonical _ _
  mulnum-IsCanonical (complex a b) (rational c) = complex_from_mpq-IsCanonical _ _
  mulnum-IsCanonical (complex a b) (complex c d) = complex_from_mpq-IsCanonical _ _

  not_integer : (a : ℤ) (b : Q) → IsCanonical (rational b) → r.of_int a ≡ b → ⊥
  unfolding is_canonical
  not_integer a b h e =
      let one : eqb_ℤ (r.get_den b) (pos 1) ≡ true =
        (eqb_ℤ_iff _ _).1 (ap r.get_den (sym e) ∙ r.den-of_int a) in
      cc (rw one at h)

  not_real : (a b : Q) → IsCanonical (complex a b) → zero_q ≡ b → ⊥
  unfolding is_canonical
  not_real a b h e =
      let nil : eqb_ℤ (r.get_num b) (pos 0) ≡ true =
        (eqb_ℤ_iff _ _).1 (ap r.get_num (sym e) ∙ r.num-of_int (pos 0)) in
      cc (rw nil at h)

  -- Canonical numbers of one value are one number.
  pub value_injective : (x y : Number Q) → IsCanonical x → IsCanonical y → value x ≡ value y → x ≡ y
  value_injective (integer a) (integer b) h k e =
      ap integer (of_int_injective a b (ap (λ t. t.0) e))
  value_injective (integer a) (rational b) h k e = absurd (not_integer a b k (ap (λ t. t.0) e))
  value_injective (integer a) (complex c d) h k e = absurd (not_real c d k (ap (λ t. t.1) e))
  value_injective (rational a) (integer b) h k e =
      absurd (not_integer b a h (sym (ap (λ t. t.0) e)))
  value_injective (rational a) (rational b) h k e = ap rational (ap (λ t. t.0) e)
  value_injective (rational a) (complex c d) h k e = absurd (not_real c d k (ap (λ t. t.1) e))
  value_injective (complex a b) (integer c) h k e = absurd (not_real a b h (sym (ap (λ t. t.1) e)))
  value_injective (complex a b) (rational c) h k e = absurd (not_real a b h (sym (ap (λ t. t.1) e)))
  value_injective (complex a b) (complex c d) h k e =
      ap₂ complex (ap (λ t. t.0) e) (ap (λ t. t.1) e)

  num_eq→value : (x y : Number Q) → num_eq x y ≡ true → value x ≡ value y
  unfolding num_eq
  num_eq→value (integer a) (integer b) h = ap (λ t. (r.of_int t, zero_q)) ((eqb_ℤ_iff a b).0 h)
  num_eq→value (integer a) (rational b) h = cc
  num_eq→value (integer a) (complex c d) h = cc
  num_eq→value (rational a) (integer b) h = cc
  num_eq→value (rational a) (rational b) h = pair ((r.eqb_iff a b).0 h) refl
  num_eq→value (rational a) (complex c d) h = cc
  num_eq→value (complex a b) (integer c) h = cc
  num_eq→value (complex a b) (rational c) h = cc
  num_eq→value (complex a b) (complex c d) h =
      let (p, q) = (and-true_iff _ _).0 h in pair ((r.eqb_iff a c).0 p) ((r.eqb_iff b d).0 q)

  num_eq_refl : (x : Number Q) → num_eq x x ≡ true
  unfolding num_eq
  num_eq_refl (integer a) = eqb_ℤ_refl a
  num_eq_refl (rational a) = (r.eqb_iff a a).1 refl
  num_eq_refl (complex a b) = (and-true_iff _ _).1 ((r.eqb_iff a a).1 refl, (r.eqb_iff b b).1 refl)

  -- On canonical numbers `__eq__` decides equality of values.
  pub num_eq_iff :
      (x y : Number Q) → IsCanonical x → IsCanonical y → (num_eq x y ≡ true) ↔ (value x ≡ value y)
  num_eq_iff x y h k =
      (num_eq→value x y, λ e. ap (num_eq x) (sym (value_injective x y h k e)) ∙ num_eq_refl x)
