-- ===== src/Sum/Meaning.antt =====
-- The value of a sum where each term has a value, and what `dict_add_term` adds to it.
use csympy.Prelude.{
  ◌≡◌, refl, sym, ap, ap₂, ◌∙◌, true, none, some, List, [], ◌∷◌, Bool-cases, Option-cases, inl, inr,
  and-true_iff,
}
use csympy.Prelude.Int.{eqb_ℤ_iff}
use csympy.Gmp.{Mpq}
use csympy.Gmp.Lemmas.{zero_q, ◌⊕◌, zero-mul, add-zero, neg-zero}
use csympy.Dict.{Key, find, insert, erase, update}
use csympy.Dict.Find.{find-update}
use csympy.Number.{Number, integer, rational, complex, addnum, is_zero}
use csympy.Number.Value.{value, plus, times, pair, value-addnum}
use csympy.Number.Laws.{plus_comm, plus_assoc, times-plus}
use csympy.Sum.{dict_add_term, dict_add_all, add_sums}

module _ {Q : Type 0} ⦃r : Mpq Q⦄ where
  abbrev pub nothing : Q × Q
  nothing = (zero_q, zero_q)

  pub plus-nothing : (x : Q × Q) → plus x nothing ≡ x
  plus-nothing (a, b) = pair (add-zero a) (add-zero b)

  pub nothing-times : (x : Q × Q) → times nothing x ≡ nothing
  nothing-times (a, b) =
      pair
        (ap₂ (λ s t. s ⊕ r.neg t) (zero-mul a) (zero-mul b)
          ∙ ap (◌⊕◌ zero_q) neg-zero
          ∙ r.zero-add _)
        (ap₂ ◌⊕◌ (zero-mul b) (zero-mul a) ∙ r.zero-add _)

  pub is_zero-value : (x : Number Q) → is_zero x ≡ true → value x ≡ nothing
  unfolding is_zero
  is_zero-value (integer a) h = pair (ap r.of_int ((eqb_ℤ_iff _ _).0 h)) refl
  is_zero-value (rational a) h = pair ((r.eqb_iff _ _).0 h) refl
  is_zero-value (complex a b) h =
      let (p, q) = (and-true_iff _ _).0 h in pair ((r.eqb_iff _ _).0 p) ((r.eqb_iff _ _).0 q)

module _ {B : Type 0} {Q : Type 0} ⦃key : Key B⦄ ⦃r : Mpq Q⦄ (ρ : B → Q × Q)
    (sound : (s t : B) → key.eq s t ≡ true → ρ s ≡ ρ t) where
  -- The value of a dictionary: the sum of the products of coefficients and terms.
  unfoldable pub dict_value : List (B × Number Q) → Q × Q
  dict_value [] = nothing
  dict_value ((t, c) ∷ d) = plus (times (value c) (ρ t)) (dict_value d)

  abbrev term : Number Q → B → Q × Q
  term c t = times (value c) (ρ t)

  swap_right : (x y w : Q × Q) → plus (plus x y) w ≡ plus (plus x w) y
  swap_right x y w = plus_assoc x y w ∙ ap (plus x) (plus_comm y w) ∙ sym (plus_assoc x w y)

  dict_value-insert :
      (d : List (B × Number Q)) (c : Number Q) (t : B)
      → find t d ≡ none
      → dict_value (insert d t c) ≡ plus (dict_value d) (term c t)
  unfolding dict_value insert find
  dict_value-insert [] c t h = plus_comm (term c t) nothing
  dict_value-insert ((k, w) ∷ m) c t h = elim (Bool-cases (key.eq k t)) [
    | inl p ↦ absurd (cc (let e : find t ((k, w) ∷ m) ≡ some w = rw p in e, h))
    | inr p ↦ rw p (
        ap (plus (term w k))
          (dict_value-insert m c t ((let e : find t ((k, w) ∷ m) ≡ find t m = rw p in sym e) ∙ h))
        ∙ sym (plus_assoc (term w k) (dict_value m) (term c t)))
  ]

  dict_value-update :
      (d : List (B × Number Q)) (c : Number Q) (t : B) (s : Number Q)
      → find t d ≡ some s
      → dict_value (update t (λ v. addnum v c) d) ≡ plus (dict_value d) (term c t)
  unfolding dict_value update find
  dict_value-update [] c t s h = cc
  dict_value-update ((k, w) ∷ m) c t s h = elim (Bool-cases (key.eq k t)) [
    | inl p ↦ rw p (
        ap (λ u. plus u (dict_value m))
          (ap (λ u. times u (ρ k)) (value-addnum w c) ∙ times-plus (value w) (value c) (ρ k))
        ∙ swap_right (term w k) (term c k) (dict_value m)
        ∙ ap (λ u. plus (plus (term w k) (dict_value m)) (times (value c) u)) (sound k t p))
    | inr p ↦ rw p (
        ap (plus (term w k))
          (dict_value-update m c t s ((let e : find t ((k, w) ∷ m) ≡ find t m = rw p in sym e) ∙ h))
        ∙ sym (plus_assoc (term w k) (dict_value m) (term c t)))
  ]

  dict_value-erase :
      (d : List (B × Number Q)) (t : B) (s : Number Q)
      → find t d ≡ some s
      → value s ≡ nothing
      → dict_value (erase t d) ≡ dict_value d
  unfolding dict_value erase find
  dict_value-erase [] t s h e = refl
  dict_value-erase ((k, w) ∷ m) t s h e = elim (Bool-cases (key.eq k t)) [
    | inl p ↦
        let same : some w ≡ some s = (let u : find t ((k, w) ∷ m) ≡ some w = rw p in sym u) ∙ h in
        rw p (
          sym (
            plus_comm (term w k) (dict_value m)
            ∙ ap (plus (dict_value m)) (
                ap (λ u. times (value u) (ρ k)) (some_injective same)
                ∙ ap (λ u. times u (ρ k)) e
                ∙ nothing-times (ρ k))
            ∙ plus-nothing (dict_value m)))
    | inr p ↦ rw p (
        ap (plus (term w k))
          (dict_value-erase m t s ((let u : find t ((k, w) ∷ m) ≡ find t m = rw p in sym u) ∙ h) e))
  ]
    where
      some_injective : {a b : Number Q} → some a ≡ some b → a ≡ b
      some_injective e = cc

  -- The coefficient behind the iterator after `iaddnum`.
  pub find-changed :
      (d : List (B × Number Q)) (c : Number Q) (t : B) (s : Number Q)
      → find t d ≡ some s
      → find t (update t (λ v. addnum v c) d) ≡ some (addnum s c)
  find-changed d c t s h = find-update t t (λ v. addnum v c) d ∙ rw (key.eq_refl t) (rw h)

  -- `dict_add_term` adds the coefficient times the term.
  pub dict_value-dict_add_term :
      (d : List (B × Number Q)) (c : Number Q) (t : B)
      → dict_value (dict_add_term d c t) ≡ plus (dict_value d) (times (value c) (ρ t))
  unfolding dict_add_term
  dict_value-dict_add_term d c t = elim (Option-cases (find t d)) [
    | inl h ↦ elim (Bool-cases (is_zero c)) [
      | inl p ↦ rw h (
          rw p (
            sym (
              ap (plus (dict_value d))
                (ap (λ u. times u (ρ t)) (is_zero-value c p) ∙ nothing-times (ρ t))
              ∙ plus-nothing (dict_value d))))
      | inr p ↦ rw h (rw p (dict_value-insert d c t h))
    ]
    | inr (s, h) ↦ elim (Bool-cases (is_zero (addnum s c))) [
      | inl p ↦ rw h (
          rw p (
            dict_value-erase (update t (λ v. addnum v c) d) t (addnum s c) (find-changed d c t s h)
              (is_zero-value _ p)
            ∙ dict_value-update d c t s h))
      | inr p ↦ rw h (rw p (dict_value-update d c t s h))
    ]
  ]

  pub dict_value-dict_add_all :
      (d b : List (B × Number Q))
      → dict_value (dict_add_all d b) ≡ plus (dict_value d) (dict_value b)
  unfolding dict_add_all dict_value
  dict_value-dict_add_all d [] = sym (plus-nothing (dict_value d))
  dict_value-dict_add_all d ((t, c) ∷ b) =
      dict_value-dict_add_all (dict_add_term d c t) b
      ∙ ap (λ u. plus u (dict_value b)) (dict_value-dict_add_term d c t)
      ∙ plus_assoc (dict_value d) (term c t) (dict_value b)

  -- The value of a sum: its coefficient and its terms.
  unfoldable pub sum_value : Number Q × List (B × Number Q) → Q × Q
  sum_value (coef, d) = plus (value coef) (dict_value d)

  -- Adding two sums adds their values.
  pub sum_value-add_sums :
      (x y : Number Q × List (B × Number Q))
      → sum_value (add_sums x y) ≡ plus (sum_value x) (sum_value y)
  unfolding sum_value add_sums
  sum_value-add_sums (coef, d) (coef2, b) =
      ap₂ plus (value-addnum coef coef2) (dict_value-dict_add_all d b)
      ∙ plus_interchange (value coef) (value coef2) (dict_value d) (dict_value b)
    where
      plus_interchange : (a b c d : Q × Q) → plus (plus a b) (plus c d) ≡ plus (plus a c) (plus b d)
      plus_interchange a b c d =
          sym (plus_assoc (plus a b) c d)
          ∙ ap (λ u. plus u d) (swap_right a b c)
          ∙ plus_assoc (plus a c) b d
