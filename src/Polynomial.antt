-- ===== src/Polynomial.antt =====
-- src/monomials.cpp and `poly_mul` of src/rings.cpp: sparse polynomials, maps from the exponents of
-- their monomials to integer coefficients. An exponent is an `int` of 32 bits. A sum of exponents
-- that leaves `int` is undefined in C++; here it wraps around, as two's complement does.
pub mod Vectors
pub mod Values
pub mod Product
pub mod Examples
use csympy.Prelude.{
  ℕ, zero, suc, ◌+◌, ◌≡◌, refl, sym, ◌∙◌, Bool, true, false, ◌&&◌, and-true_iff, Option, none, some,
  List, [], ◌∷◌, length, if◌then◌else◌, ◌^◌, ◌-◌,
}
use csympy.Prelude.Int.{ℤ, pos, negsuc, ltb_ℤ, ◌-ℤ◌, ◌+ℤ◌, ◌*ℤ◌, eqb_ℤ, eqb_ℤ_iff}
use csympy.Dict.{Key, find, insert, update}
use csympy.Vector.{at, assign, for_each, repeat}

-- `x == y`, on vectors of `int`.
unfoldable pub eqb_vec : List ℤ → List ℤ → Bool
eqb_vec [] [] = true
eqb_vec [] (b ∷ y) = false
eqb_vec (a ∷ x) [] = false
eqb_vec (a ∷ x) (b ∷ y) = eqb_ℤ a b && eqb_vec x y

pub eqb_vec_refl : (x : List ℤ) → eqb_vec x x ≡ true
unfolding eqb_vec
eqb_vec_refl [] = refl
eqb_vec_refl (a ∷ x) = (and-true_iff _ _).1 ((eqb_ℤ_iff a a).1 refl, eqb_vec_refl x)

pub eqb_vec_sound : (x y : List ℤ) → eqb_vec x y ≡ true → x ≡ y
unfolding eqb_vec
eqb_vec_sound [] [] h = refl
eqb_vec_sound [] (b ∷ y) h = absurd (cc h)
eqb_vec_sound (a ∷ x) [] h = absurd (cc h)
eqb_vec_sound (a ∷ x) (b ∷ y) h =
    let both = (and-true_iff (eqb_ℤ a b) (eqb_vec x y)).0 h in
    cc ((eqb_ℤ_iff a b).0 both.0, eqb_vec_sound x y both.1)

instance abbrev pub vec_key : Key (List ℤ)
vec_key = record {
  eq = eqb_vec;
  eq_refl = eqb_vec_refl;
  eq_symm = λ a b h. rw (eqb_vec_sound a b h) (eqb_vec_refl b);
  eq_trans = λ a b c h k. rw (eqb_vec_sound a b h) k;
}

-- `C[k] += v` on a map: the subscript puts a zero where there is no entry.
abbrev pub add_found : List (List ℤ × ℤ) → List ℤ → ℤ → Option ℤ → List (List ℤ × ℤ)
add_found c k v none = insert c k (pos 0 +ℤ v)
add_found c k v (some w) = update k (λ u. u +ℤ v) c

unfoldable pub add_at : List (List ℤ × ℤ) → List ℤ → ℤ → List (List ℤ × ℤ)
add_at c k v = add_found c k v (find k c)

-- `a + b` of two `int`.
unfoldable pub int_sum : ℤ → ℤ → ℤ
int_sum a b =
    let s = a +ℤ b in
    if ltb_ℤ s (pos (2 ^ 31))
    then if ltb_ℤ s (negsuc (2 ^ 31 - 1)) then s +ℤ pos (2 ^ 32) else s
    else s -ℤ pos (2 ^ 32)

-- `C` is changed up to the size of `A`.
unfoldable pub monomial_mul : List ℤ → List ℤ → List ℤ → List ℤ
monomial_mul a b c =
    for_each (length a) (λ i v. assign v i (int_sum (at (pos 0) a i) (at (pos 0) b i))) c

-- The inner loop, on the vector `exp` and the map `C`.
unfoldable pub poly_row :
    List ℤ → ℤ → List (List ℤ × ℤ) → List ℤ × List (List ℤ × ℤ) → List ℤ × List (List ℤ × ℤ)
poly_row k v [] state = state
poly_row k v ((l, w) ∷ b) (exps, c) =
    let product = monomial_mul k l exps in poly_row k v b (product, add_at c product (v *ℤ w))

unfoldable pub poly_rows :
    List (List ℤ × ℤ) → List (List ℤ × ℤ) → List ℤ × List (List ℤ × ℤ) → List ℤ × List (List ℤ × ℤ)
poly_rows [] b state = state
poly_rows ((k, v) ∷ a) b state = poly_rows a b (poly_row k v b state)

-- For an empty `A` the code reads a first entry that is not there.
abbrev pub first_size : List (List ℤ × ℤ) → ℕ
first_size [] = 0
first_size ((k, v) ∷ a) = length k

unfoldable pub poly_mul :
    List (List ℤ × ℤ) → List (List ℤ × ℤ) → List (List ℤ × ℤ) → List (List ℤ × ℤ)
poly_mul a b c = (poly_rows a b (repeat (first_size a) (pos 0), c)).1
