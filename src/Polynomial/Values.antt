-- ===== src/Polynomial/Values.antt =====
-- The value of a polynomial at integers.
use csympy.Prelude.{
  ℕ, zero, suc, ◌+◌, ◌≡◌, sym, ap, ap₂, ◌∙◌, inl, inr, arith, Bool-cases, none, some, Option-cases,
  List, [], ◌∷◌, length,
}
use csympy.Prelude.Int.{
  ℤ, pos, negsuc, nat_abs, ◌+ℤ◌, ◌*ℤ◌, ◌≤ℤ◌, +ℤ_comm, +ℤ_assoc, zero-+ℤ, *ℤ_comm, *ℤ_assoc, one-*ℤ,
  +ℤ-*ℤ,
}
use csympy.Dict.{find, insert, update}
use csympy.Polynomial.{add_at, eqb_vec, eqb_vec_sound, vec_key}
use csympy.Polynomial.Vectors.{IsWithin, exponent_sums}

unfoldable pub power : ℤ → ℕ → ℤ
power x zero = pos 1
power x (suc n) = x *ℤ power x n

power-add : (x : ℤ) (m n : ℕ) → power x (m + n) ≡ power x m *ℤ power x n
unfolding power
power-add x zero n = ap (power x) (let e : 0 + n ≡ n = omega arith in e) ∙ sym (one-*ℤ (power x n))
power-add x (suc m) n =
    ap (power x) (let e : suc m + n ≡ suc (m + n) = omega arith in e)
    ∙ ap (◌*ℤ◌ x) (power-add x m n)
    ∙ sym (*ℤ_assoc x (power x m) (power x n))

-- The value of a monomial, where a variable without an exponent counts as 1.
unfoldable pub monomial_value : List ℤ → List ℤ → ℤ
monomial_value (x ∷ xs) (e ∷ v) = power x (nat_abs e) *ℤ monomial_value xs v
monomial_value _ _ = pos 1

nat_abs_sum : (a b : ℤ) → pos 0 ≤ℤ a → pos 0 ≤ℤ b → nat_abs (a +ℤ b) ≡ nat_abs a + nat_abs b
unfolding ◌+ℤ◌
nat_abs_sum (pos m) (pos n) h k = ground arith
nat_abs_sum (pos m) (negsuc n) h k = absurd (omega (arith, k))
nat_abs_sum (negsuc m) b h k = absurd (omega (arith, h))

pub swap_products : (a b c d : ℤ) → a *ℤ b *ℤ (c *ℤ d) ≡ a *ℤ c *ℤ (b *ℤ d)
swap_products a b c d =
    *ℤ_assoc a b (c *ℤ d)
    ∙ ap (◌*ℤ◌ a) (sym (*ℤ_assoc b c d) ∙ ap (λ t. t *ℤ d) (*ℤ_comm b c) ∙ *ℤ_assoc c b d)
    ∙ sym (*ℤ_assoc a c (b *ℤ d))

-- The value of a product of monomials is the product of their values.
pub monomial_value-exponent_sums :
    (m n : ℕ) (xs a b : List ℤ)
    → length a ≡ length b
    → IsWithin m a
    → IsWithin n b
    → monomial_value xs (exponent_sums a b) ≡ monomial_value xs a *ℤ monomial_value xs b
unfolding monomial_value exponent_sums
monomial_value-exponent_sums m n [] a b h p q = sym (one-*ℤ (pos 1))
monomial_value-exponent_sums m n (x ∷ xs) [] [] h p q = sym (one-*ℤ (pos 1))
monomial_value-exponent_sums m n (x ∷ xs) [] (e ∷ b) h p q = absurd (omega (arith, h))
monomial_value-exponent_sums m n (x ∷ xs) (d ∷ a) [] h p q = absurd (omega (arith, h))
monomial_value-exponent_sums m n (x ∷ xs) (d ∷ a) (e ∷ b) h p q =
    ap₂ ◌*ℤ◌ (ap (power x) (nat_abs_sum d e p.0.0 q.0.0) ∙ power-add x (nat_abs d) (nat_abs e))
      (monomial_value-exponent_sums m n xs a b (omega (arith, h)) p.1 q.1)
    ∙ swap_products (power x (nat_abs d)) (power x (nat_abs e)) (monomial_value xs a)
        (monomial_value xs b)

unfoldable pub poly_value : List ℤ → List (List ℤ × ℤ) → ℤ
poly_value xs [] = pos 0
poly_value xs ((k, v) ∷ p) = v *ℤ monomial_value xs k +ℤ poly_value xs p

module _ (xs : List ℤ) where
  insert_value :
      (p : List (List ℤ × ℤ)) (k : List ℤ) (v : ℤ)
      → find k p ≡ none
      → poly_value xs (insert p k v) ≡ poly_value xs p +ℤ v *ℤ monomial_value xs k
  unfolding poly_value insert find
  insert_value [] k v h = +ℤ_comm (v *ℤ monomial_value xs k) (pos 0)
  insert_value ((j, w) ∷ p) k v h = elim (Bool-cases (eqb_vec j k)) [
    | inl t ↦ absurd (cc (let e : find k ((j, w) ∷ p) ≡ some w = rw t in e, h))
    | inr t ↦ rw t (
        ap (◌+ℤ◌ (w *ℤ monomial_value xs j))
          (insert_value p k v ((let e : find k ((j, w) ∷ p) ≡ find k p = rw t in sym e) ∙ h))
        ∙ sym (+ℤ_assoc (w *ℤ monomial_value xs j) (poly_value xs p) (v *ℤ monomial_value xs k)))
  ]

  swap_right : (a b c : ℤ) → a +ℤ b +ℤ c ≡ a +ℤ c +ℤ b
  swap_right a b c = +ℤ_assoc a b c ∙ ap (◌+ℤ◌ a) (+ℤ_comm b c) ∙ sym (+ℤ_assoc a c b)

  update_value :
      (p : List (List ℤ × ℤ)) (k : List ℤ) (v s : ℤ)
      → find k p ≡ some s
      → poly_value xs (update k (λ u. u +ℤ v) p) ≡ poly_value xs p +ℤ v *ℤ monomial_value xs k
  unfolding poly_value update find
  update_value [] k v s h = cc
  update_value ((j, w) ∷ p) k v s h = elim (Bool-cases (eqb_vec j k)) [
    | inl t ↦ rw t (
        ap (λ u. u +ℤ poly_value xs p)
          (+ℤ-*ℤ w v (monomial_value xs j)
            ∙ ap (λ u. w *ℤ monomial_value xs j +ℤ v *ℤ monomial_value xs u) (eqb_vec_sound j k t))
        ∙ swap_right (w *ℤ monomial_value xs j) (v *ℤ monomial_value xs k) (poly_value xs p))
    | inr t ↦ rw t (
        ap (◌+ℤ◌ (w *ℤ monomial_value xs j))
          (update_value p k v s ((let e : find k ((j, w) ∷ p) ≡ find k p = rw t in sym e) ∙ h))
        ∙ sym (+ℤ_assoc (w *ℤ monomial_value xs j) (poly_value xs p) (v *ℤ monomial_value xs k)))
  ]

  -- `C[k] += v` adds a monomial.
  pub poly_value-add_at :
      (p : List (List ℤ × ℤ)) (k : List ℤ) (v : ℤ)
      → poly_value xs (add_at p k v) ≡ poly_value xs p +ℤ v *ℤ monomial_value xs k
  unfolding add_at
  poly_value-add_at p k v = elim (Option-cases (find k p)) [
    | inl h ↦ rw h (rw (zero-+ℤ v) (insert_value p k v h))
    | inr (s, h) ↦ rw h (update_value p k v s h)
  ]
