-- ===== src/Dict.antt =====
-- src/dict.h and src/dict.cpp: the dictionaries and vectors of expressions, and their equality tests.
-- An unordered map and an ordered map are lists of their entries in iteration order. The types of
-- keys and values are parameters with the operation that the code calls on them, `__eq__` behind
-- `eq` and `neq`. The three-way comparisons are left out: they rest on `__cmp__`, which throws for
-- `Complex`.
pub mod Find
pub mod Equality
pub mod Examples
use csympy.Prelude.{
  ℕ, suc, ◌≡◌, ◌<◌, Bool, true, false, not, ◌&&◌, ◌||◌, Option, none, some, List, [], ◌∷◌, length,
  if◌then◌else◌, ltb, ◌==◌,
}
use csympy.Prelude.Int.{ℤ, pos, negsuc, neg_ℤ, eqb_ℤ, ◌<ℤ◌}

-- `Basic::__eq__`, an equivalence.
pub record Key {ℓ} (K : Type ℓ) : Type ℓ where
  pub eq : K → K → Bool
  pub eq_refl : (a : K) → eq a a ≡ true
  pub eq_symm : (a b : K) → eq a b ≡ true → eq b a ≡ true
  pub eq_trans : (a b c : K) → eq a b ≡ true → eq b c ≡ true → eq a c ≡ true

abbrev pub neq {ℓ} : {K : Type ℓ} ⦃e : Key K⦄ → K → K → Bool
neq ⦃e⦄ a b = not (e.eq a b)

-- Dictionaries.
module _ {ℓ κ} {K : Type ℓ} {V : Type κ} ⦃e : Key K⦄ where
  -- `d.find(k)`; `none` is `d.end()`.
  unfoldable pub find : K → List (K × V) → Option V
  find k [] = none
  find k ((j, v) ∷ m) = if e.eq j k then some v else find k m

  -- `insert(m, first, second)`: `std::map::insert` leaves an entry that is there.
  unfoldable pub insert : List (K × V) → K → V → List (K × V)
  insert [] k v = (k, v) ∷ []
  insert ((j, w) ∷ m) k v = if e.eq j k then (j, w) ∷ m else (j, w) ∷ insert m k v

  -- `d.erase(it)` where `it` is `d.find(k)`.
  unfoldable pub erase : K → List (K × V) → List (K × V)
  erase k [] = []
  erase k ((j, v) ∷ m) = if e.eq j k then m else (j, v) ∷ erase k m

  -- The value behind an iterator is assigned: `it->second = f(it->second)` for `d.find(k)`.
  unfoldable pub update : K → (V → V) → List (K × V) → List (K × V)
  update k f [] = []
  update k f ((j, v) ∷ m) = if e.eq j k then (j, f v) ∷ m else (j, v) ∷ update k f m

-- `umap_basic_num_eq` and `umap_basic_basic_eq`.
module _ {κ} {V : Type κ} ⦃f : Key V⦄ where
  -- `if (f == b.end()) return false; if (neq(p.second, f->second)) return false;`
  unfoldable pub same_value : V → Option V → Bool
  same_value v none = false
  same_value v (some w) = f.eq v w

module _ {ℓ κ} {K : Type ℓ} {V : Type κ} ⦃e : Key K⦄ ⦃f : Key V⦄ where
  unfoldable pub entries_in : List (K × V) → List (K × V) → Bool
  unfolding same_value
  entries_in [] b = true
  entries_in ((k, v) ∷ a) b = same_value v (find k b) && entries_in a b

  unfoldable pub umap_eq : List (K × V) → List (K × V) → Bool
  unfolding entries_in
  umap_eq a b = if length a == length b then entries_in a b else false

  -- `map_basic_num_eq` and `map_basic_basic_eq`: both maps are walked in key order.
  unfoldable pub entries_eq : List (K × V) → List (K × V) → Bool
  entries_eq ((k, v) ∷ a) ((j, w) ∷ b) =
      if neq k j then false else if neq v w then false else entries_eq a b
  entries_eq _ _ = true

  unfoldable pub map_eq : List (K × V) → List (K × V) → Bool
  unfolding entries_eq
  map_eq a b = if length a == length b then entries_eq a b else false

-- Vectors.
module _ {ℓ} {K : Type ℓ} ⦃e : Key K⦄ where
  unfoldable pub elements_eq : List K → List K → Bool
  elements_eq (x ∷ a) (y ∷ b) = if neq x y then false else elements_eq a b
  elements_eq _ _ = true

  unfoldable pub vec_basic_eq : List K → List K → Bool
  unfolding elements_eq
  vec_basic_eq a b = if length a == length b then elements_eq a b else false

  -- The inner loop of `vec_basic_eq_perm`.
  unfoldable pub found : K → List K → Bool
  found x [] = false
  found x (y ∷ b) = if e.eq x y then true else found x b

  unfoldable pub all_found : List K → List K → Bool
  unfolding found
  all_found [] b = true
  all_found (x ∷ a) b = if not (found x b) then false else all_found a b

  unfoldable pub vec_basic_eq_perm : List K → List K → Bool
  unfolding all_found
  vec_basic_eq_perm a b = if length a == length b then all_found a b else false
