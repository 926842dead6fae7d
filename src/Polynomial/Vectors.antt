-- ===== src/Polynomial/Vectors.antt =====
-- The product of two monomials adds their exponents.
use csympy.Prelude.{
  ℕ, zero, suc, ◌≡◌, ◌<◌, ◌⊎◌, refl, sym, ap, ◌∙◌, inl, inr, List, [], ◌∷◌, length, arith, ◌==◌,
  false, ◌+◌, ◌^◌,
}
use csympy.Prelude.Int.{ℤ, pos, negsuc, ◌+ℤ◌, ◌≤ℤ◌}
use csympy.Polynomial.{monomial_mul, int_sum}
use csympy.Vector.{at, assign, for_each}
use csympy.Vector.Laws.{at-assign_same, at-assign_other, length-assign}

unfoldable pub exponent_sums : List ℤ → List ℤ → List ℤ
exponent_sums (x ∷ a) (y ∷ b) = (x +ℤ y) ∷ exponent_sums a b
exponent_sums _ _ = []

pub length-exponent_sums :
    (a b : List ℤ) → length a ≡ length b → length (exponent_sums a b) ≡ length a
unfolding exponent_sums
length-exponent_sums [] b h = refl
length-exponent_sums (x ∷ a) [] h = absurd (omega (arith, h))
length-exponent_sums (x ∷ a) (y ∷ b) h = ap suc (length-exponent_sums a b (omega (arith, h)))

at-exponent_sums :
    (a b : List ℤ) (i : ℕ)
    → length a ≡ length b
    → at (pos 0) (exponent_sums a b) i ≡ at (pos 0) a i +ℤ at (pos 0) b i
unfolding exponent_sums at ◌+ℤ◌
at-exponent_sums [] [] i h = refl
at-exponent_sums [] (y ∷ b) i h = absurd (omega (arith, h))
at-exponent_sums (x ∷ a) [] i h = absurd (omega (arith, h))
at-exponent_sums (x ∷ a) (y ∷ b) zero h = refl
at-exponent_sums (x ∷ a) (y ∷ b) (suc i) h = at-exponent_sums a b i (omega (arith, h))

-- Vectors with the same length and the same entries are the same.
same_entries :
    (a b : List ℤ)
    → length a ≡ length b
    → ((i : ℕ) → i < length a → at (pos 0) a i ≡ at (pos 0) b i)
    → a ≡ b
unfolding at
same_entries [] [] h f = refl
same_entries [] (y ∷ b) h f = absurd (omega (arith, h))
same_entries (x ∷ a) [] h f = absurd (omega (arith, h))
same_entries (x ∷ a) (y ∷ b) h f =
    cc
      (f 0 (omega arith), same_entries a b (omega (arith, h)) (λ i l. f (suc i) (omega (arith, l))))

same_or_other : (i k : ℕ) → (i ≡ k) ⊎ ((i == k) ≡ false)
same_or_other i k = ground arith

module _ (f : ℕ → ℤ) where
  abbrev filled : ℕ → List ℤ → List ℤ
  filled n c = for_each n (λ i v. assign v i (f i)) c

  length-filled : (n : ℕ) (c : List ℤ) → length (filled n c) ≡ length c
  unfolding for_each
  length-filled zero c = refl
  length-filled (suc n) c = length-assign (filled n c) n (f n) ∙ length-filled n c

  at-filled : (n i : ℕ) (c : List ℤ) → i < n → i < length c → at (pos 0) (filled n c) i ≡ f i
  unfolding for_each
  at-filled zero i c h l = absurd (omega (arith, h))
  at-filled (suc n) i c h l = elim (same_or_other i n) [
    | inl e ↦
        rw e (at-assign_same (pos 0) (f n) (filled n c) n (omega (arith, length-filled n c, e, l)))
    | inr o ↦
        at-assign_other (pos 0) (f n) (filled n c) n i o
        ∙ at-filled n i c (let m : i < n = ground (arith, h, o) in m) l
  ]

-- The exponents lie from 0 to `d`.
abbrev pub IsWithin : ℕ → List ℤ → Type 0
IsWithin d [] = Unit
IsWithin d (e ∷ v) = ((pos 0 ≤ℤ e) × (e ≤ℤ pos d)) × IsWithin d v

at-IsWithin :
    (d : ℕ) (v : List ℤ) (i : ℕ)
    → IsWithin d v
    → i < length v
    → (pos 0 ≤ℤ at (pos 0) v i) × (at (pos 0) v i ≤ℤ pos d)
unfolding at
at-IsWithin d [] i h l = absurd (omega (arith, l))
at-IsWithin d (e ∷ v) zero h l = h.0
at-IsWithin d (e ∷ v) (suc i) h l = at-IsWithin d v i h.1 (omega (arith, l))

-- Within `int` the sum is exact.
int_sum-exact :
    (a b : ℤ) (d e : ℕ)
    → d + e < 2 ^ 31
    → (pos 0 ≤ℤ a) × (a ≤ℤ pos d)
    → (pos 0 ≤ℤ b) × (b ≤ℤ pos e)
    → int_sum a b ≡ a +ℤ b
unfolding int_sum ◌+ℤ◌
int_sum-exact (pos m) (pos n) d e l h k = ground arith
int_sum-exact (pos m) (negsuc n) d e l h k = absurd (omega (arith, k))
int_sum-exact (negsuc m) b d e l h k = absurd (omega (arith, h))

-- `monomial_mul` leaves the sums in a vector of the right length, whatever is in it before, where
-- no sum leaves `int`.
pub monomial_mul-exponent_sums :
    (d e : ℕ) (a b c : List ℤ)
    → d + e < 2 ^ 31
    → IsWithin d a
    → IsWithin e b
    → length a ≡ length b
    → length c ≡ length a
    → monomial_mul a b c ≡ exponent_sums a b
unfolding monomial_mul
monomial_mul-exponent_sums d e a b c s p q h k =
    let sums = λ (i : ℕ). int_sum (at (pos 0) a i) (at (pos 0) b i) in
    same_entries _ _ (length-filled sums (length a) c ∙ k ∙ sym (length-exponent_sums a b h))
      (λ i l.
        let m : i < length a = omega (arith, l, length-filled sums (length a) c, k) in
        at-filled sums (length a) i c m (omega (arith, m, k))
        ∙ int_sum-exact (at (pos 0) a i) (at (pos 0) b i) d e s (at-IsWithin d a i p m)
            (at-IsWithin e b i q (omega (arith, m, h)))
        ∙ sym (at-exponent_sums a b i h))
