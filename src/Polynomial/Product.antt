-- ===== src/Polynomial/Product.antt =====
-- `poly_mul` multiplies.
use csympy.Prelude.{ℕ, ◌≡◌, List, [], ◌∷◌, length}
use csympy.Prelude.Int.{ℤ}
use csympy.Polynomial.Vectors.{IsWithin}

-- The monomials have `n` exponents, which lie from 0 to `d`.
abbrev pub Shaped : ℕ → ℕ → List (List ℤ × ℤ) → Type 0
Shaped n d [] = Unit
Shaped n d ((k, v) ∷ p) = ((length k ≡ n) × IsWithin d k) × Shaped n d p
