-- ===== src/Sum.antt =====
-- src/add.cpp: the dictionary of a sum, from terms to their coefficients. The terms are a type with
-- `__eq__`; a coefficient is a number.
pub mod Meaning
pub mod Terms
pub mod Examples
use csympy.Prelude.{Bool, not, Option, none, some, List, [], ◌∷◌, if◌then◌else◌}
use csympy.Gmp.{Mpq}
use csympy.Dict.{Key, find, insert, erase, update}
use csympy.Number.{Number, addnum, is_zero}

module _ {B : Type 0} {Q : Type 0} ⦃key : Key B⦄ ⦃r : Mpq Q⦄ where
  -- The branch of `dict_add_term` for `it->second = s`, where the sum has the new coefficient.
  abbrev pub add_to_entry : List (B × Number Q) → Number Q → B → Number Q → List (B × Number Q)
  add_to_entry d coef t s =
      let changed = update t (λ v. addnum v coef) d in
      if is_zero (addnum s coef) then erase t changed else changed

  abbrev pub add_to_found :
      List (B × Number Q) → Number Q → B → Option (Number Q) → List (B × Number Q)
  add_to_found d coef t none = if not (is_zero coef) then insert d t coef else d
  add_to_found d coef t (some s) = add_to_entry d coef t s

  -- `Add::dict_add_term`
  unfoldable pub dict_add_term : List (B × Number Q) → Number Q → B → List (B × Number Q)
  dict_add_term d coef t = add_to_found d coef t (find t d)

  -- The loop of `add` over the dictionary of the second sum.
  unfoldable pub dict_add_all : List (B × Number Q) → List (B × Number Q) → List (B × Number Q)
  dict_add_all d [] = d
  dict_add_all d ((t, coef) ∷ b) = dict_add_all (dict_add_term d coef t) b

  -- `add` of two sums, up to `from_dict`: the coefficient and the dictionary.
  unfoldable pub add_sums :
      Number Q × List (B × Number Q)
      → Number Q × List (B × Number Q)
      → Number Q × List (B × Number Q)
  add_sums (coef, d) (coef2, b) = (addnum coef coef2, dict_add_all d b)
