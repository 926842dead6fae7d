-- ===== src/Dict/Find.antt =====
-- The map operations of src/dict.h, one against the other.
use csympy.Prelude.{
  suc, ◌≡◌, refl, sym, true, false, Option, none, some, List, [], ◌∷◌, length, if◌then◌else◌, arith,
  Bool-cases, inl, inr, ◌∙◌,
}
use mathlib.Core.Option
use csympy.Dict.{Key, find, insert, erase, update}

-- The value that an insertion finds or brings.
abbrev pub value_or {ℓ} : {V : Type ℓ} → Option V → V → V
value_or none v = v
value_or (some w) v = w

module _ {ℓ} {K : Type ℓ} ⦃e : Key K⦄ where
  pub eq_flip : (a b : K) → e.eq a b ≡ false → e.eq b a ≡ false
  eq_flip a b h = elim (Bool-cases (e.eq b a)) [ inl p ↦ absurd (cc (e.eq_symm b a p)) | inr p ↦ p ]

  pub eq_left : (a b c : K) → e.eq a b ≡ true → e.eq a c ≡ e.eq b c
  eq_left a b c h = elim (Bool-cases (e.eq a c)) [
    | inl p ↦ p ∙ sym (e.eq_trans b a c (e.eq_symm a b h) p)
    | inr p ↦ elim (Bool-cases (e.eq b c)) [
      | inl q ↦ absurd (cc (e.eq_trans a b c h q))
      | inr q ↦ p ∙ sym q
    ]
  ]

  pub eq_right : (a b c : K) → e.eq b c ≡ true → e.eq a b ≡ e.eq a c
  eq_right a b c h = elim (Bool-cases (e.eq a b)) [
    | inl p ↦ p ∙ sym (e.eq_trans a b c p h)
    | inr p ↦ elim (Bool-cases (e.eq a c)) [
      | inl q ↦ absurd (cc (e.eq_trans a c b q (e.eq_symm b c h)))
      | inr q ↦ p ∙ sym q
    ]
  ]

module _ {ℓ κ} {K : Type ℓ} {V : Type κ} ⦃e : Key K⦄ where
  -- The keys of a map are distinct.
  abbrev pub Distinct : List (K × V) → Type κ
  Distinct [] = Unit
  Distinct ((k, v) ∷ m) = (find k m ≡ none) × Distinct m

  pub find_congr : (k j : K) (m : List (K × V)) → e.eq k j ≡ true → find k m ≡ find j m
  unfolding find
  find_congr k j [] h = refl
  find_congr k j ((i, v) ∷ m) h = rw (eq_right i k j h, find_congr k j m h)

  -- A key that was there keeps its value.
  pub find-insert :
      (k j : K) (v : V) (m : List (K × V))
      → find j (insert m k v) ≡ (if e.eq k j then some (value_or (find j m) v) else find j m)
  unfolding find insert
  find-insert k j v [] = ground arith
  find-insert k j v ((i, w) ∷ m) =
      ground (arith, find-insert k j v m, eq_right i k j, eq_left i k j, find_congr k j m)

  pub find-update :
      (k j : K) (f : V → V) (m : List (K × V))
      → find j (update k f m) ≡ (if e.eq k j then Option.map f (find j m) else find j m)
  unfolding find update
  find-update k j f [] = ground arith
  find-update k j f ((i, w) ∷ m) =
      ground (arith, find-update k j f m, eq_right i k j, eq_left i k j, find_congr k j m)

  pub find-erase_ne :
      (k j : K) (m : List (K × V)) → e.eq k j ≡ false → find j (erase k m) ≡ find j m
  unfolding find erase
  find-erase_ne k j [] h = refl
  find-erase_ne k j ((i, w) ∷ m) h = ground (arith, find-erase_ne k j m h, eq_left i k j)

  pub find-erase_self : (k : K) (m : List (K × V)) → Distinct m → find k (erase k m) ≡ none
  unfolding find erase
  find-erase_self k [] d = refl
  find-erase_self k ((i, w) ∷ m) d = ground (arith, find-erase_self k m d.1, find_congr i k m, d.0)

  pub length-erase :
      (k : K) (v : V) (m : List (K × V)) → find k m ≡ some v → suc (length (erase k m)) ≡ length m
  unfolding find erase
  length-erase k v [] h = cc
  length-erase k v ((i, w) ∷ m) h = ground (arith, length-erase k v m)

  pub insert-Distinct : (k : K) (v : V) (m : List (K × V)) → Distinct m → Distinct (insert m k v)
  unfolding insert find
  insert-Distinct k v [] d = (refl, tt)
  insert-Distinct k v ((i, w) ∷ m) d = elim (Bool-cases (e.eq i k)) [
    | inl p ↦ rw p d
    | inr p ↦
        rw p (ground (arith, find-insert k i v m, d.0, eq_flip i k p), insert-Distinct k v m d.1)
  ]

  pub update-Distinct :
      (k : K) (f : V → V) (m : List (K × V)) → Distinct m → Distinct (update k f m)
  unfolding update find
  update-Distinct k f [] d = tt
  update-Distinct k f ((i, w) ∷ m) d = elim (Bool-cases (e.eq i k)) [
    | inl p ↦ rw p d
    | inr p ↦ rw p (ground (arith, find-update k i f m, d.0), update-Distinct k f m d.1)
  ]

  pub erase-Distinct : (k : K) (m : List (K × V)) → Distinct m → Distinct (erase k m)
  unfolding erase find
  erase-Distinct k [] d = tt
  erase-Distinct k ((i, w) ∷ m) d = elim (Bool-cases (e.eq i k)) [
    | inl p ↦ rw p d.1
    | inr p ↦ rw p (find-erase_ne k i m (eq_flip i k p) ∙ d.0, erase-Distinct k m d.1)
  ]
