-- ===== src/Dict/Equality.antt =====
-- What the equality tests of src/dict.cpp decide.
use csympy.Prelude.{
  ℕ, suc, ◌≡◌, ◌≤◌, refl, sym, true, false, Option, none, some, List, [], ◌∷◌, length,
  if◌then◌else◌, arith, Bool-cases, Option-cases, inl, inr, ◌∙◌, ◌↔◌, and-true_iff, ◌<◌,
}
use csympy.Dict.{Key, find, erase, same_value, entries_in, umap_eq, found, vec_basic_eq_perm}
use csympy.Dict.Find.{Distinct, eq_flip, find_congr, find-erase_ne, length-erase}

-- The two values are equal, or both are missing.
abbrev pub SameValue {κ} : {V : Type κ} ⦃f : Key V⦄ → Option V → Option V → Type 0
SameValue none none = Unit
SameValue ⦃f⦄ (some v) (some w) = f.eq v w ≡ true
SameValue _ _ = ⊥

-- The two maps give equal values at every key.
abbrev pub SameMap {ℓ κ} :
    {K : Type ℓ} {V : Type κ} ⦃e : Key K⦄ ⦃f : Key V⦄ → List (K × V) → List (K × V) → Type ℓ
SameMap {K} a b = (k : K) → SameValue (find k a) (find k b)

module _ {ℓ κ} {K : Type ℓ} {V : Type κ} ⦃e : Key K⦄ where
  -- Every key of `a` is a key of `b`.
  abbrev KeysIn : List (K × V) → List (K × V) → Type κ
  KeysIn [] b = Unit
  KeysIn ((k, v) ∷ a) b = ((w : V) × (find k b ≡ some w)) × KeysIn a b

  KeysIn-erase : (k : K) (a b : List (K × V)) → find k a ≡ none → KeysIn a b → KeysIn a (erase k b)
  unfolding find
  KeysIn-erase k [] b h i = tt
  KeysIn-erase k ((j, v) ∷ a) b h i = elim (Bool-cases (e.eq j k)) [
    | inl p ↦ absurd (cc (rw p at h))
    | inr p ↦
        ((i.0.0, find-erase_ne k j b (eq_flip j k p) ∙ i.0.1), KeysIn-erase k a b (rw p at h) i.1)
  ]

  KeysIn-length : (a b : List (K × V)) → Distinct a → KeysIn a b → length a ≤ length b
  KeysIn-length [] b d i = ground arith
  KeysIn-length ((k, v) ∷ a) b d i = ground (
    arith,
    length-erase k i.0.0 b i.0.1,
    KeysIn-length a (erase k b) d.1 (KeysIn-erase k a b d.0 i.1),
  )

module _ {κ} {V : Type κ} ⦃f : Key V⦄ where
  -- A value that is equal to `v`.
  abbrev Match : V → Option V → Type κ
  Match v o = (w : V) × (o ≡ some w) × (f.eq v w ≡ true)

  same_value→Match : (v : V) (o : Option V) → same_value v o ≡ true → Match v o
  unfolding same_value
  same_value→Match v none h = cc
  same_value→Match v (some w) h = (w, refl, h)

  Match→same_value : (v : V) (o : Option V) → Match v o → same_value v o ≡ true
  unfolding same_value
  Match→same_value v o m = rw m.1 m.2

  Match→SameValue : (v : V) (o : Option V) → Match v o → SameValue (some v) o
  Match→SameValue v o m = rw m.1 m.2

  SameValue→Match : (v : V) (o : Option V) → SameValue (some v) o → Match v o
  SameValue→Match v none s = elim s [ ]
  SameValue→Match v (some w) s = (w, refl, s)

module _ {ℓ κ} {K : Type ℓ} {V : Type κ} ⦃e : Key K⦄ ⦃f : Key V⦄ where
  -- The loop finds an equal value for each entry.
  entries_in→Match :
      (a b : List (K × V)) (k : K) (v : V)
      → entries_in a b ≡ true
      → find k a ≡ some v
      → Match v (find k b)
  unfolding entries_in find
  entries_in→Match [] b k v h p = cc
  entries_in→Match ((j, u) ∷ a) b k v h p = elim (Bool-cases (e.eq j k)) [
    | inl q ↦
        let r = same_value→Match u (find j b) ((and-true_iff _ _).0 h).0 in
        (r.0, sym (find_congr j k b q) ∙ r.1, cc (rw q at p, r.2))
    | inr q ↦ entries_in→Match a b k v ((and-true_iff _ _).0 h).1 (rw q at p)
  ]

  entries_in→KeysIn : (a b : List (K × V)) → entries_in a b ≡ true → KeysIn a b
  unfolding entries_in
  entries_in→KeysIn [] b h = tt
  entries_in→KeysIn ((j, u) ∷ a) b h =
      let h' = (and-true_iff _ _).0 h in
      let r = same_value→Match u (find j b) h'.0 in ((r.0, r.1), entries_in→KeysIn a b h'.1)

  Match→entries_in :
      (a b : List (K × V))
      → Distinct a
      → ((k : K) (v : V) → find k a ≡ some v → Match v (find k b))
      → entries_in a b ≡ true
  unfolding entries_in find
  Match→entries_in [] b d m = refl
  Match→entries_in ((j, u) ∷ a) b d m = (and-true_iff _ _).1 (
    Match→same_value u (find j b) (m j u (rw (e.eq_refl j) refl)),
    Match→entries_in a b d.1 (λ k v p. m k v (behind k v p)),
  )
    where
      behind : (k : K) (v : V) → find k a ≡ some v → find k ((j, u) ∷ a) ≡ some v
      behind k v p = elim (Bool-cases (e.eq j k)) [
        | inl q ↦ absurd (cc (d.0, find_congr j k a q, p))
        | inr q ↦ rw q p
      ]

  SameMap-symm : (a b : List (K × V)) → SameMap a b → SameMap b a
  SameMap-symm a b s k = flip (find k a) (find k b) (s k)
    where
      flip : (o p : Option V) → SameValue o p → SameValue p o
      flip none none h = tt
      flip none (some w) h = h
      flip (some v) none h = h
      flip (some v) (some w) h = f.eq_symm v w h

  SameMap→entries_in : (a b : List (K × V)) → Distinct a → SameMap a b → entries_in a b ≡ true
  SameMap→entries_in a b d s =
      Match→entries_in a b d λ k v p. SameValue→Match v (find k b) (rw p at (s k))

  umap_eq→SameMap :
      (a b : List (K × V)) → Distinct a → Distinct b → umap_eq a b ≡ true → SameMap a b
  unfolding umap_eq
  umap_eq→SameMap a b da db h k = elim (Option-cases (find k a)) [
    | inl p ↦ elim (Option-cases (find k b)) [
      | inl q ↦ rw (p, q) tt
      | inr (w, q) ↦ absurd (
          omega (
            arith,
            size,
            length-erase k w b q,
            KeysIn-length a (erase k b) da (KeysIn-erase k a b p (entries_in→KeysIn a b inside)),
          ))
    ]
    | inr (v, p) ↦ rw p (Match→SameValue v (find k b) (entries_in→Match a b k v inside p))
  ]
    where
      size : length a ≡ length b
      size = ground arith

      inside : entries_in a b ≡ true
      inside = ground arith

  -- Two unordered maps with distinct keys are equal exactly when they give equal values at every
  -- key.
  pub umap_eq_iff :
      (a b : List (K × V)) → Distinct a → Distinct b → (umap_eq a b ≡ true) ↔ SameMap a b
  unfolding umap_eq
  umap_eq_iff a b da db = (
    umap_eq→SameMap a b da db,
    λ s. ground (
      arith,
      SameMap→entries_in a b da s,
      KeysIn-length a b da (entries_in→KeysIn a b (SameMap→entries_in a b da s)),
      KeysIn-length b a db (entries_in→KeysIn b a (SameMap→entries_in b a db (SameMap-symm a b s))),
    ),
  )

-- How often `x` stands in a vector.
module _ {ℓ} {K : Type ℓ} ⦃e : Key K⦄ where
  abbrev pub occurrences : K → List K → ℕ
  occurrences x [] = 0
  occurrences x (y ∷ b) = if e.eq x y then suc (occurrences x b) else occurrences x b

  found_iff : (x : K) (b : List K) → (found x b ≡ true) ↔ (0 < occurrences x b)
  unfolding found
  found_iff x [] = (λ h. cc, λ h. absurd (omega arith))
  found_iff x (y ∷ b) = ground (arith, found_iff x b)

  -- `vec_basic_eq_perm` does not count: for any two different elements it takes `x, x, y` for a
  -- permutation of `x, y, y`, although `x` stands twice in the one and once in the other.
  pub vec_basic_eq_perm_repeats :
      (x y : K)
      → e.eq x y ≡ false
      → (vec_basic_eq_perm (x ∷ x ∷ y ∷ []) (x ∷ y ∷ y ∷ []) ≡ true)
        × (occurrences x (x ∷ x ∷ y ∷ []) ≡ 2)
        × (occurrences x (x ∷ y ∷ y ∷ []) ≡ 1)
  unfolding vec_basic_eq_perm
  vec_basic_eq_perm_repeats x y h = (
    simp (e.eq_refl x, e.eq_refl y, h, eq_flip x y h),
    simp (e.eq_refl x, h),
    simp (e.eq_refl x, h),
  )
