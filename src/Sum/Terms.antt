-- ===== src/Sum/Terms.antt =====
-- The dictionary of a sum as a finite map: each term once, no zero coefficient, and the coefficient
-- of each term.
use csympy.Prelude.{
  ◌≡◌, sym, ap, ◌∙◌, true, false, Option, none, some, List, [], ◌∷◌, if◌then◌else◌, Bool-cases,
  Option-cases, inl, inr,
}
use csympy.Prelude.Int.{pos}
use csympy.Gmp.{Mpq}
use csympy.Dict.{Key, find, insert, erase, update}
use csympy.Dict.Find.{
  Distinct, value_or, find_congr, find-insert, find-update, find-erase_ne, find-erase_self,
  insert-Distinct, update-Distinct, erase-Distinct,
}
use csympy.Number.{Number, integer, addnum, is_zero}
use csympy.Number.Value.{value, plus, value-addnum}
use csympy.Number.Laws.{plus_comm}
use csympy.Sum.{dict_add_term}
use csympy.Sum.Meaning.{nothing, plus-nothing, is_zero-value}

module _ {Q : Type 0} ⦃r : Mpq Q⦄ where
  some_coef : (o : Option (Number Q)) (s : Number Q) → o ≡ some s → value_or o (integer (pos 0)) ≡ s
  some_coef o s h = rw h

  none_coef : (o : Option (Number Q)) → o ≡ none → value (value_or o (integer (pos 0))) ≡ nothing
  none_coef o h = rw h

module _ {B : Type 0} {Q : Type 0} ⦃key : Key B⦄ ⦃r : Mpq Q⦄ where
  -- No coefficient is zero.
  abbrev pub Nonzero : List (B × Number Q) → Type 0
  Nonzero [] = Unit
  Nonzero ((t, c) ∷ d) = (is_zero c ≡ false) × Nonzero d

  insert-Nonzero :
      (d : List (B × Number Q)) (t : B) (c : Number Q)
      → is_zero c ≡ false
      → Nonzero d
      → Nonzero (insert d t c)
  unfolding insert
  insert-Nonzero [] t c h n = (h, tt)
  insert-Nonzero ((k, w) ∷ m) t c h n = elim (Bool-cases (key.eq k t)) [
    | inl p ↦ rw p n
    | inr p ↦ rw p (n.0, insert-Nonzero m t c h n.1)
  ]

  erase-Nonzero :
      (d : List (B × Number Q)) (t : B) (f : Number Q → Number Q)
      → Nonzero d
      → Nonzero (erase t (update t f d))
  unfolding erase update
  erase-Nonzero [] t f n = tt
  erase-Nonzero ((k, w) ∷ m) t f n = elim (Bool-cases (key.eq k t)) [
    | inl p ↦ rw p (rw p n.1)
    | inr p ↦ rw p (rw p (n.0, erase-Nonzero m t f n.1))
  ]

  update-Nonzero :
      (d : List (B × Number Q)) (t : B) (f : Number Q → Number Q) (s : Number Q)
      → find t d ≡ some s
      → is_zero (f s) ≡ false
      → Nonzero d
      → Nonzero (update t f d)
  unfolding update find
  update-Nonzero [] t f s h z n = tt
  update-Nonzero ((k, w) ∷ m) t f s h z n = elim (Bool-cases (key.eq k t)) [
    | inl p ↦ rw p (cc (let u : find t ((k, w) ∷ m) ≡ some w = rw p in u, h, z), n.1)
    | inr p ↦ rw p (
      n.0,
      update-Nonzero m t f s ((let u : find t ((k, w) ∷ m) ≡ find t m = rw p in sym u) ∙ h) z n.1,
    )
  ]

  -- `dict_add_term` keeps the terms distinct and the coefficients from zero.
  pub dict_add_term-Distinct :
      (d : List (B × Number Q)) (c : Number Q) (t : B)
      → Distinct d
      → Nonzero d
      → Distinct (dict_add_term d c t) × Nonzero (dict_add_term d c t)
  unfolding dict_add_term
  dict_add_term-Distinct d c t h n = elim (Option-cases (find t d)) [
    | inl e ↦ elim (Bool-cases (is_zero c)) [
      | inl p ↦ rw e (rw p (h, n))
      | inr p ↦ rw e (rw p (insert-Distinct t c d h, insert-Nonzero d t c p n))
    ]
    | inr (s, e) ↦
        let u = update-Distinct t (λ v. addnum v c) d h in
        elim (Bool-cases (is_zero (addnum s c))) [
          | inl p ↦ rw e (rw p (erase-Distinct t _ u, erase-Nonzero d t _ n))
          | inr p ↦ rw e (rw p (u, update-Nonzero d t _ s e p n))
        ]
  ]

  -- The coefficient of a term, zero for a term that is not there.
  unfoldable pub coef_of : B → List (B × Number Q) → Number Q
  coef_of t d = value_or (find t d) (integer (pos 0))

  find_here :
      (d : List (B × Number Q)) (t : B) (f : Number Q → Number Q) (s : Number Q)
      → find t d ≡ some s
      → find t (update t f d) ≡ some (f s)
  find_here d t f s h = find-update t t f d ∙ rw (key.eq_refl t) (rw h)

  absent_zero :
      (d : List (B × Number Q)) (c : Number Q) (t : B)
      → find t d ≡ none
      → is_zero c ≡ true
      → dict_add_term d c t ≡ d
  unfolding dict_add_term
  absent_zero d c t e p = rw e (rw p)

  absent_new :
      (d : List (B × Number Q)) (c : Number Q) (t : B)
      → find t d ≡ none
      → is_zero c ≡ false
      → dict_add_term d c t ≡ insert d t c
  unfolding dict_add_term
  absent_new d c t e p = rw e (rw p)

  cancelled :
      (d : List (B × Number Q)) (c : Number Q) (t : B) (s : Number Q)
      → find t d ≡ some s
      → is_zero (addnum s c) ≡ true
      → dict_add_term d c t ≡ erase t (update t (λ v. addnum v c) d)
  unfolding dict_add_term
  cancelled d c t s e p = rw e (rw p)

  changed :
      (d : List (B × Number Q)) (c : Number Q) (t : B) (s : Number Q)
      → find t d ≡ some s
      → is_zero (addnum s c) ≡ false
      → dict_add_term d c t ≡ update t (λ v. addnum v c) d
  unfolding dict_add_term
  changed d c t s e p = rw e (rw p)

  coef_here :
      (d : List (B × Number Q)) (c : Number Q) (t : B)
      → Distinct d
      → value (coef_of t (dict_add_term d c t)) ≡ plus (value (coef_of t d)) (value c)
  unfolding coef_of
  coef_here d c t h = elim (Option-cases (find t d)) [
    | inl e ↦
        let before : plus (value (coef_of t d)) (value c) ≡ value c =
          ap (λ u. plus u (value c)) (none_coef _ e)
          ∙ plus_comm nothing (value c)
          ∙ plus-nothing (value c) in
        elim (Bool-cases (is_zero c)) [
          | inl p ↦
              ap (λ w. value (coef_of t w)) (absent_zero d c t e p)
              ∙ none_coef _ e
              ∙ sym (before ∙ is_zero-value c p)
          | inr p ↦
              ap (λ w. value (coef_of t w)) (absent_new d c t e p)
              ∙ ap value (some_coef _ c (find-insert t t c d ∙ rw (key.eq_refl t) (rw e)))
              ∙ sym before
        ]
    | inr (s, e) ↦
        let f : Number Q → Number Q = λ v. addnum v c in
        let before : plus (value (coef_of t d)) (value c) ≡ value (addnum s c) =
          ap (λ u. plus (value u) (value c)) (some_coef _ s e) ∙ sym (value-addnum s c) in
        elim (Bool-cases (is_zero (addnum s c))) [
          | inl p ↦
              ap (λ w. value (coef_of t w)) (cancelled d c t s e p)
              ∙ none_coef _ (find-erase_self t (update t f d) (update-Distinct t f d h))
              ∙ sym (before ∙ is_zero-value _ p)
          | inr p ↦
              ap (λ w. value (coef_of t w)) (changed d c t s e p)
              ∙ ap value (some_coef _ (addnum s c) (find_here d t f s e))
              ∙ sym before
        ]
  ]

  find_elsewhere :
      (d : List (B × Number Q)) (c : Number Q) (t j : B)
      → key.eq t j ≡ false
      → find j (dict_add_term d c t) ≡ find j d
  find_elsewhere d c t j n = elim (Option-cases (find t d)) [
    | inl e ↦ elim (Bool-cases (is_zero c)) [
      | inl p ↦ ap (find j) (absent_zero d c t e p)
      | inr p ↦ ap (find j) (absent_new d c t e p) ∙ find-insert t j c d ∙ rw n
    ]
    | inr (s, e) ↦
        let w : find j (update t (λ v. addnum v c) d) ≡ find j d =
          find-update t j (λ v. addnum v c) d ∙ rw n in
        elim (Bool-cases (is_zero (addnum s c))) [
          | inl p ↦ ap (find j) (cancelled d c t s e p) ∙ find-erase_ne t j _ n ∙ w
          | inr p ↦ ap (find j) (changed d c t s e p) ∙ w
        ]
  ]

  -- `dict_add_term` adds to the coefficient of the term, and to no other.
  pub coef_of-dict_add_term :
      (d : List (B × Number Q)) (c : Number Q) (t j : B)
      → Distinct d
      → value (coef_of j (dict_add_term d c t))
        ≡ (if key.eq t j then plus (value (coef_of j d)) (value c) else value (coef_of j d))
  unfolding coef_of
  coef_of-dict_add_term d c t j h = elim (Bool-cases (key.eq t j)) [
    | inl p ↦
        ap (λ o. value (value_or o (integer (pos 0))))
          (sym (find_congr t j (dict_add_term d c t) p))
        ∙ coef_here d c t h
        ∙ ap (λ o. plus (value (value_or o (integer (pos 0)))) (value c)) (find_congr t j d p)
        ∙ rw p
    | inr p ↦ ap (λ o. value (value_or o (integer (pos 0)))) (find_elsewhere d c t j p) ∙ rw p
  ]
