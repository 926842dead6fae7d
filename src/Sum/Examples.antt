-- ===== src/Sum/Examples.antt =====
-- Sums over two terms, with rational coefficients.
use csympy.Prelude.{ℕ, ◌≡◌, refl, ap, true, List, [], ◌∷◌, if◌then◌else◌, ==_iff}
use csympy.Prelude.Int.{pos, negsuc}
use csympy.Gmp.Fractions.Rationals.{ℚ, rationals}
use csympy.Dict.{find}
use csympy.Dict.Find.{Distinct}
use csympy.Dict.Examples.{nat_key}
use csympy.Number.{Number, integer, is_zero}
use csympy.Number.Value.{value, plus}
use csympy.Sum.{dict_add_term, add_sums}
use csympy.Sum.Meaning.{sum_value, sum_value-add_sums}
use csympy.Sum.Terms.{Nonzero, coef_of, dict_add_term-Distinct, coef_of-dict_add_term}

abbrev two : Number ℚ
two = integer (pos 2)

abbrev minus_two : Number ℚ
minus_two = integer (negsuc 1)

abbrev two_terms : List (ℕ × Number ℚ)
two_terms = (0, two) ∷ (1, minus_two) ∷ []

abbrev one_term : List (ℕ × Number ℚ)
one_term = (1, two) ∷ []

abbrev meaning : ℕ → ℚ × ℚ
meaning n = value {Q = ℚ} (integer (pos n))

meaning_sound : (s t : ℕ) → nat_key.eq s t ≡ true → meaning s ≡ meaning t
meaning_sound s t h = ap meaning ((==_iff s t).0 h)

two_terms-Distinct : Distinct two_terms
unfolding find
two_terms-Distinct = (refl, (refl, tt))

two_terms-Nonzero : Nonzero two_terms
unfolding is_zero
two_terms-Nonzero = (refl, (refl, tt))

sum_value-add_sums_example :
    sum_value meaning meaning_sound (add_sums (two, two_terms) (minus_two, one_term))
    ≡ plus
        (sum_value meaning meaning_sound (two, two_terms))
        (sum_value meaning meaning_sound (minus_two, one_term))
sum_value-add_sums_example =
    sum_value-add_sums meaning meaning_sound (two, two_terms) (minus_two, one_term)

dict_add_term-Distinct_example :
    Distinct (dict_add_term two_terms two 1) × Nonzero (dict_add_term two_terms two 1)
dict_add_term-Distinct_example =
    dict_add_term-Distinct two_terms two 1 two_terms-Distinct two_terms-Nonzero

coef_of-dict_add_term_example : value (coef_of 0 (dict_add_term two_terms two 1)) ≡ (
    if nat_key.eq 1 0
    then plus (value (coef_of 0 two_terms)) (value two)
    else value (coef_of 0 two_terms))
coef_of-dict_add_term_example = coef_of-dict_add_term two_terms two 1 0 two_terms-Distinct
